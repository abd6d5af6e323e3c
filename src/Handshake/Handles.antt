-- ===== src/Handshake/Handles.antt =====
-- The system's handles in `WSServer` and `WSClient` of hello-websocket-cpp/common/ws.hpp: which of
-- them are open. What the calls of the system answer are arguments; `none` is `HWS_INVALID_SOCKET`.
use hello_websocket.Prelude.{
  if◌then◌else◌, ℕ, List, [], ◌∷◌, ◌==◌, ◌≡◌, refl, ap, inl, inr, true, false, not, ◌||◌, Bool,
  Option, Option-cases, some, none, arith,
}
use hello_websocket.Codec.KvMap.{Text}
use hello_websocket.Transport.Socket.{Socket}
use hello_websocket.Handshake.Accept.{accept}
use hello_websocket.Handshake.Connect.{connect}

-- The member `listenSock` or `sock`, and the handles that the program has open.
pub record Handles : Type 0 where
  pub sock : Option ℕ
  pub opened : List ℕ

unfoldable pub hws_close : ℕ → List ℕ → List ℕ
hws_close h [] = []
hws_close h (k ∷ ks) = let rest = hws_close h ks in if h == k then ks else k ∷ rest

-- `close()` of both structs.
unfoldable pub close : Handles → Handles
unfolding hws_close
close st = elim st.sock [
  | none ↦ st
  | some h ↦ record { sock = none; opened = hws_close h st.opened }
]

-- `::socket`
unfoldable pub open_socket : ℕ → Handles → Handles
open_socket h st = record { sock = some h; opened = h ∷ st.opened }

-- `made`, `bound` and `listening` are the answers of `::socket`, `::bind` and `::listen`.
unfoldable pub listen : Option ℕ → Bool → Bool → Handles → Bool × Handles
unfolding close open_socket
listen none bound listening st = (false, record st { sock = none })
listen (some h) bound listening st =
    let st' = open_socket h st in
    if not bound
    then (false, close st')
    else if not listening
    then (false, close st')
    else (true, st')

-- `made` is the answer of `::accept`, `s` the connection; the result is the handle and the user id.
unfoldable pub accept_handle : Option ℕ → Text → ℕ → Socket → List ℕ → Option (ℕ × Text) × List ℕ
unfolding hws_close
accept_handle none path now s opened = (none, opened)
accept_handle (some h) path now s opened = elim (accept path now s).0 [
  | none ↦ (none, hws_close h (h ∷ opened))
  | some user_id ↦ (some (h, user_id), h ∷ opened)
]

-- `made`, `numeric`, `resolved` and `connected` are the answers of `::socket`, `inet_pton`,
-- `getaddrinfo` and `::connect`; then comes the handshake.
unfoldable pub connect_handle :
    Option ℕ
    → Bool
    → Bool
    → Bool
    → Text
    → Text
    → ℕ
    → List ℕ
    → Text
    → Socket
    → Handles
    → Bool × Handles
unfolding close open_socket
connect_handle none numeric resolved connected path host port random user_id s st =
    (false, record st { sock = none })
connect_handle (some h) numeric resolved connected path host port random user_id s st =
    let st' = open_socket h st in
    if not (numeric || resolved)
    then (false, close st')
    else if not connected
    then (false, close st')
    else if (connect path host port random user_id s).0
    then (true, st')
    else (false, close st')

close_same : (h : ℕ) (opened : List ℕ) → hws_close h (h ∷ opened) ≡ opened
unfolding hws_close
close_same h opened = ground arith

-- Opened if it answers true, as before and without a socket if it answers false.
abbrev pub Balanced : Handles → Option ℕ → Bool × Handles → Type 0
Balanced st made (true, st') =
    (h : ℕ) × (made ≡ some h) × (st' ≡ record { sock = some h; opened = h ∷ st.opened })
Balanced st made (false, st') = st' ≡ record { sock = none; opened = st.opened }

closed :
    (h : ℕ) (st : Handles) → close (open_socket h st) ≡ record { sock = none; opened = st.opened }
unfolding close open_socket
closed h st = ap (λ (l : List ℕ). record { sock = none; opened = l }) (close_same h st.opened)

listen-Balanced :
    (made : Option ℕ) (bound listening : Bool) (st : Handles)
    → Balanced st made (listen made bound listening st)
unfolding listen open_socket
listen-Balanced none bound listening st = refl
listen-Balanced (some h) false listening st = closed h st
listen-Balanced (some h) true false st = closed h st
listen-Balanced (some h) true true st = (h, refl, refl)

opened_if :
    (h : ℕ) (st : Handles) (answer : Bool)
    → Balanced st
        (some h)
        (if answer then (true, open_socket h st) else (false, close (open_socket h st)))
unfolding open_socket
opened_if h st true = (h, refl, refl)
opened_if h st false = closed h st

module _ (path host : Text) (port : ℕ) (random : List ℕ) (user_id : Text) (s : Socket) where
  connect-Balanced :
      (made : Option ℕ) (numeric resolved connected : Bool) (st : Handles)
      → Balanced st made
          (connect_handle made numeric resolved connected path host port random user_id s st)
  unfolding connect_handle
  connect-Balanced none numeric resolved connected st = refl
  connect-Balanced (some h) false false connected st = closed h st
  connect-Balanced (some h) true resolved false st = closed h st
  connect-Balanced (some h) true resolved true st =
      opened_if h st (connect path host port random user_id s).0
  connect-Balanced (some h) false true false st = closed h st
  connect-Balanced (some h) false true true st =
      opened_if h st (connect path host port random user_id s).0

abbrev pub AcceptBalanced : Option ℕ → List ℕ → Option (ℕ × Text) × List ℕ → Type 0
AcceptBalanced made opened (none, opened') = opened' ≡ opened
AcceptBalanced made opened (some (h, user_id), opened') = (made ≡ some h) × (opened' ≡ h ∷ opened)

accept-Balanced :
    (made : Option ℕ) (path : Text) (now : ℕ) (s : Socket) (opened : List ℕ)
    → AcceptBalanced made opened (accept_handle made path now s opened)
unfolding accept_handle
accept-Balanced none path now s opened = refl
accept-Balanced (some h) path now s opened = elim (Option-cases (accept path now s).0) [
  | inl refused ↦ rw (refused, accept_handle) (close_same h opened)
  | inr (user_id, taken) ↦ rw (taken, accept_handle) (refl, refl)
]

-- Whatever the system answers and whatever arrives, no handle that a call opens is lost:
-- `WSServer::listen` and
-- `WSClient::connect` that return true have opened one more handle and keep it, and if they return
-- false, the same handles are open as before and they keep none; `WSServer::accept` that returns a
-- connection has opened its handle alone, and if it returns none, the same handles are open as
-- before.
pub handles_balance :
    (made : Option ℕ) (bound listening numeric resolved connected : Bool) (path host : Text)
    (port now : ℕ) (random : List ℕ) (user_id : Text) (s : Socket) (st : Handles)
    → Balanced st made (listen made bound listening st)
      × Balanced st made
          (connect_handle made numeric resolved connected path host port random user_id s st)
      × AcceptBalanced made st.opened (accept_handle made path now s st.opened)
handles_balance made bound listening numeric resolved connected path host port now random user_id s
      st =
    (
      listen-Balanced made bound listening st,
      connect-Balanced path host port random user_id s made numeric resolved connected st,
      accept-Balanced made path now s st.opened,
    )
