-- ===== src/Session/Client.antt =====
-- `tryConnect` of hello-websocket-cpp/client/ws_client.cpp, from the handshake on. A masking key is
-- an argument of each send; what the program logs is left out.
pub mod Replies
pub mod Runs
pub mod Total
pub mod Loop
pub mod Invariant
mod Examples
use hello_websocket.Prelude.{
  ℕ, suc, ◌+◌, List, [], ◌∷◌, if◌then◌else◌, Bool, true, false, not, ◌||◌, Option, none, some,
  codes, ℤ, pos,
}
use hello_websocket.Codec.Constants.{
  msg_hello, msg_pong, msg_kiss_response, msg_random_number, msg_disconnect, client_lang,
}
use hello_websocket.Codec.Outcome.{Result, ok, throw, fault}
use hello_websocket.Codec.Message.{
  Message, new_message, Kind, kind_of, ping, kiss_request, disconnect, encode, decode_message,
}
use hello_websocket.Session.Round.{Round, goes_on, leaves}
use hello_websocket.Transport.Socket.{Socket}
use hello_websocket.Transport.Frame.{ws_send_binary_masked, ws_send_control}
use hello_websocket.Transport.Receive.{ws_recv_frame}

pub record Client : Type 0 where
  pub socket : Socket
  pub active : Bool

-- The variables behind a handshake.
unfoldable pub new_client : Socket → Client
new_client s = record { socket = s; active = true }

unfoldable pub send_frame : List ℕ → List ℕ → Client → Bool × Client
send_frame mask bytes st =
    if st.active
    then (let (sent, s') = ws_send_binary_masked mask bytes st.socket in
        (sent, record st { socket = s' }))
    else (false, st)

-- `sendFrame(m.encode())` where the answer is dropped; `encode` may throw.
unfoldable pub send_message : List ℕ → Message → Client → Result Client
unfolding send_frame
send_message mask m st = elim (encode m) [
  | ok bytes ↦ ok (send_frame mask bytes st).1
  | throw e ↦ throw e
  | fault ↦ fault
]

unfoldable pub hello_message : Message
hello_message = record (new_message msg_hello) { client_language = client_lang }

-- What the client does first.
unfoldable pub greet : List ℕ → Client → Result Client
unfolding send_message hello_message
greet mask st = send_message mask hello_message st

unfoldable pub pong_reply : Message → Message
pong_reply m = record (new_message msg_pong) { timestamp_ms = m.timestamp_ms }

unfoldable pub kiss_reply : Message
kiss_reply = record (new_message msg_kiss_response) {
  kiss_language = codes "en_US";
  kiss_encoding = codes "UTF-8";
  kiss_time_zone = codes "UTC";
}

-- The `switch` on a decoded message; the other cases only log.
unfoldable pub dispatch : Kind → List ℕ → Message → Client → Result Client
unfolding send_message pong_reply kiss_reply
dispatch ping mask m st = send_message mask (pong_reply m) st
dispatch kiss_request mask m st = send_message mask kiss_reply st
dispatch disconnect mask m st = ok (record st { active = false })
dispatch other mask m st = ok st

-- What the loop does with a payload: one that does not decode is passed over.
unfoldable pub on_payload : List ℕ → List ℕ → Client → Result Client
unfolding dispatch
on_payload mask bytes st = elim (decode_message bytes) [
  | ok m ↦ dispatch (kind_of m.type) mask m st
  | throw e ↦ ok st
  | fault ↦ fault
]

-- A round of the receive loop of an active client.
unfoldable pub receive_round : (ℕ → List ℕ) → List ℕ → Client → Result (Round Client)
unfolding on_payload
receive_round keys mask st =
    let (frame, s') = ws_recv_frame false keys st.socket in
    elim frame [
      | none ↦ fault
      | some f ↦
          if not f.is_valid || f.is_close
          then ok (leaves (record st { socket = s' }))
          else elim (on_payload mask f.payload (record st { socket = s' })) [
            | ok st' ↦ ok (goes_on st')
            | throw e ↦ throw e
            | fault ↦ fault
          ]
    ]

unfoldable pub random_message : ℤ → ℤ → Message
random_message id number = record (new_message msg_random_number) {
  random_id = id;
  random_number = number;
}

-- A turn of the random thread, which draws `number`: what it sends, with the id `randomId` of the
-- variable `id`; a failure ends the session.
unfoldable pub random_turn : List ℕ → ℤ → ℕ → Client → Result (ℕ × Client)
unfolding random_message
random_turn mask number id st =
    if st.active
    then elim (encode (random_message (pos id) number)) [
      | ok bytes ↦
          let (sent, st') = send_frame mask bytes st in
          ok (if sent then (suc id, st') else (id, record st' { active = false }))
      | throw e ↦ throw e
      | fault ↦ fault
    ]
    else ok (id, st)

unfoldable pub disconnect_message : Message
disconnect_message = record (new_message msg_disconnect) {
  disconnect_reason = codes "client shutdown";
}

-- From the end of the loop to `ws.close()`.
unfoldable pub cleanup : List ℕ → List ℕ → Client → Result Client
unfolding send_message disconnect_message
cleanup mask key st = elim (send_message mask disconnect_message (record st { active = false })) [
  | ok st' ↦ ok (record st' { socket = (ws_send_control 8 [] true key st'.socket).1 })
  | throw e ↦ throw e
  | fault ↦ fault
]
