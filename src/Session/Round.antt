-- ===== src/Session/Round.antt =====
-- How a round of the receive loops of ws_server.cpp and ws_client.cpp ends: the loop goes on, or
-- `break`.
use hello_websocket.Prelude.{◌⊎◌, ◌≡◌, inl, inr, refl}

pub data Round (S : Type 0) : Type 0 where
  goes_on : S → Round S
  leaves : S → Round S

pub Round-cases :
    {S : Type 0} (r : Round S) → ((st : S) × (r ≡ goes_on st)) ⊎ ((st : S) × (r ≡ leaves st))
Round-cases (goes_on st) = inl (st, refl)
Round-cases (leaves st) = inr (st, refl)
