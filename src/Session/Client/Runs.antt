-- ===== src/Session/Client/Runs.antt =====
-- The interleavings of the client's two threads: the receive loop and the random thread. A round of
-- the loop that has passed the test of `active` goes on when the other thread resets it, so a round
-- has no condition on `active`.
use hello_websocket.Prelude.{◌≡◌, false, List, ℕ, ℤ}
use hello_websocket.Codec.Outcome.{ok, throw, Exception}
use hello_websocket.Session.Round.{goes_on, leaves}
use hello_websocket.Session.Client.{Client, receive_round, random_turn}

-- The shared variables, and the random thread's own `randomId`.
pub record Running : Type 0 where
  pub client : Client
  pub random_id : ℕ

pub data Step : Running → Running → Type 0 where
  received :
      {c c' : Client} {id : ℕ} (keys : ℕ → List ℕ) (mask : List ℕ)
      → receive_round keys mask c ≡ ok (goes_on c')
      → Step (record { client = c; random_id = id }) (record { client = c'; random_id = id })
  left :
      {c c' : Client} {id : ℕ} (keys : ℕ → List ℕ) (mask : List ℕ)
      → receive_round keys mask c ≡ ok (leaves c')
      → Step
          (record { client = c; random_id = id })
          (record { client = record c' { active = false }; random_id = id })
  caught :
      {c : Client} {id : ℕ} (keys : ℕ → List ℕ) (mask : List ℕ) (e : Exception)
      → receive_round keys mask c ≡ throw e
      → Step
          (record { client = c; random_id = id })
          (record { client = record c { active = false }; random_id = id })
  drawn :
      {c c' : Client} {id id' : ℕ} (mask : List ℕ) (number : ℤ)
      → random_turn mask number id c ≡ ok (id', c')
      → Step (record { client = c; random_id = id }) (record { client = c'; random_id = id' })

pub data Runs : Running → Running → Type 0 where
  start : {r : Running} → Runs r r
  step : {r r' r'' : Running} → Step r r' → Runs r' r'' → Runs r r''
