-- ===== src/Session/Server.antt =====
-- `handleClient` of hello-websocket-cpp/server/ws_server.cpp. The clock is an argument, in
-- milliseconds; what the program logs is left out.
pub mod Replies
pub mod Silent
pub mod Runs
pub mod Echo
pub mod Invariant
pub mod Loop
mod Examples
use hello_websocket.Prelude.{
  ℕ, zero, suc, ◌+◌, ◌/◌, ◌%◌, List, [], ◌∷◌, ◌++◌, ◌==◌, ltb, if◌then◌else◌, Bool, true, false,
  not, ◌||◌, Option, none, some, pos, codes,
}
use hello_websocket.Codec.Constants.{
  msg_bonjour, msg_echo_response, msg_hash_response, msg_error, msg_ping, msg_time_notification,
  msg_kiss_request, server_lang, err_decode, err_unknown_msg_type, session_timeout_ms,
}
use hello_websocket.Codec.Outcome.{
  Exception, Result, ok, throw, fault, frame_too_short, bad_magic, bad_version,
  payload_length_mismatch, unexpected_end, string_too_long, not_utf8, kv_count_too_large,
  result_count_too_large, unknown_message_type,
}
use hello_websocket.Codec.KvMap.{Text, assign}
use hello_websocket.Codec.Message.{
  Message, EchoResult, new_message, Kind, kind_of, hello, echo_request, kiss_response, pong,
  random_number, disconnect, error, encode, decode_message,
}
use hello_websocket.Strings.{starts_with}
use hello_websocket.Session.Round.{Round, goes_on, leaves}
use hello_websocket.Transport.Socket.{Socket}
use hello_websocket.Transport.Frame.{ws_send_binary}
use hello_websocket.Transport.Receive.{ws_recv_frame}
use hello_websocket.Hash.{to_string, decimal, hex_digit, hash_number}

-- The variables that the threads of a session share.
pub record Server : Type 0 where
  pub socket : Socket
  pub active : Bool
  pub client_language : Text
  pub last_pong_ts : ℕ

-- The session that begins at the moment `now`.
unfoldable pub new_session : Socket → ℕ → Server
new_session s now = record {
  socket = s;
  active = true;
  client_language = codes "unknown";
  last_pong_ts = now;
}

-- `e.what()`
unfoldable pub what : Exception → Text
what (frame_too_short n) = codes "frame too short: " ++ decimal 20 n []
what bad_magic = codes "bad magic"
what bad_version = codes "bad version"
what payload_length_mismatch = codes "payload length mismatch"
what unexpected_end = codes "unexpected end of data"
what string_too_long = codes "string length exceeds data"
what not_utf8 = codes "string payload is not valid UTF-8"
what kv_count_too_large = codes "kv count exceeds remaining payload"
what result_count_too_large = codes "result count exceeds remaining payload"
what unknown_message_type = codes "unknown message type"

-- The lambda `sendFrame`, under its lock.
unfoldable pub send_frame : List ℕ → Server → Bool × Server
send_frame bytes st =
    if st.active
    then (let (sent, s') = ws_send_binary bytes st.socket in (sent, record st { socket = s' }))
    else (false, st)

-- `sendFrame(m.encode())` where the answer is dropped; `encode` may throw.
unfoldable pub send_message : Message → Server → Result Server
unfolding send_frame
send_message m st = elim (encode m) [
  | ok bytes ↦ ok (send_frame bytes st).1
  | throw e ↦ throw e
  | fault ↦ fault
]

unfoldable pub bonjour_reply : Message
bonjour_reply = record (new_message msg_bonjour) { server_language = server_lang }

unfoldable pub echo_reply : ℕ → Text → Message → Message
echo_reply now client_language m =
    let id = assign (codes "id") (to_string m.echo_id) [] in
    let body = assign (codes "data") m.echo_data id in
    let meta = assign (codes "meta") m.echo_meta body in
    let kv = assign (codes "lang") client_language meta in
    record (new_message msg_echo_response) {
      echo_status = pos 200;
      echo_results = record { idx = pos now; type = 0; kv = kv } ∷ [];
    }

unfoldable pub hash_reply : Message → Message
hash_reply m = record (new_message msg_hash_response) {
  random_id = m.random_id;
  hash_hex = hash_number m.random_number;
}

-- `std::hex` of a type byte, without leading zeros.
unfoldable pub hex_of : ℕ → Text
hex_of t = if ltb t 16 then hex_digit t ∷ [] else hex_digit (t / 16) ∷ hex_digit (t % 16) ∷ []

unfoldable pub error_reply : ℕ → Text → Message
error_reply code text = record (new_message msg_error) {
  error_code = pos code;
  error_message = text;
}

-- The `switch` on a decoded message.
unfoldable pub dispatch : Kind → ℕ → Message → Server → Result Server
unfolding send_message bonjour_reply echo_reply hash_reply error_reply hex_of
dispatch hello now m st =
    send_message bonjour_reply (record st { client_language = m.client_language })
dispatch echo_request now m st = send_message (echo_reply now st.client_language m) st
dispatch kiss_response now m st = ok st
dispatch pong now m st = ok (record st { last_pong_ts = now })
dispatch random_number now m st = send_message (hash_reply m) st
dispatch disconnect now m st = ok (record st { active = false })
dispatch error now m st = ok st
dispatch other now m st =
    send_message (error_reply err_unknown_msg_type (codes "unknown type 0x" ++ hex_of m.type)) st

-- The handler of an exception that `decodeMessage` throws.
unfoldable pub on_decode_error : Exception → Server → Result Server
unfolding send_message error_reply what starts_with
on_decode_error e st =
    let unknown = starts_with (what e) (codes "unknown message type") in
    let code = if unknown then err_unknown_msg_type else err_decode in
    elim (send_message (error_reply code (what e)) st) [
      | ok st' ↦ ok (if unknown then st' else record st' { active = false })
      | throw e' ↦ throw e'
      | fault ↦ fault
    ]

-- What the loop does with the payload of a message.
unfoldable pub on_payload : ℕ → List ℕ → Server → Result Server
unfolding dispatch on_decode_error
on_payload now bytes st = elim (decode_message bytes) [
  | ok m ↦ dispatch (kind_of m.type) now m st
  | throw e ↦ on_decode_error e st
  | fault ↦ fault
]

-- A round of the receive loop of an active session.
unfoldable pub receive_round : (ℕ → List ℕ) → ℕ → Server → Result (Round Server)
unfolding on_payload
receive_round keys now st =
    let (frame, s') = ws_recv_frame true keys st.socket in
    elim frame [
      | none ↦ fault
      | some f ↦
          if not f.is_valid || f.is_close
          then ok (leaves (record st { socket = s' }))
          else elim (on_payload now f.payload (record st { socket = s' })) [
            | ok st' ↦ ok (goes_on st')
            | throw e ↦ throw e
            | fault ↦ fault
          ]
    ]

-- What a background thread sends; a failure ends the session.
unfoldable pub tick : Message → Server → Result Server
tick m st =
    if st.active
    then elim (encode m) [
      | ok bytes ↦
          let (sent, st') = send_frame bytes st in
          ok (if sent then st' else record st' { active = false })
      | throw e ↦ throw e
      | fault ↦ fault
    ]
    else ok st

unfoldable pub ping_message : ℕ → Message
ping_message now = record (new_message msg_ping) { timestamp_ms = pos now }

unfoldable pub time_message : ℕ → Text → Message
time_message now iso = record (new_message msg_time_notification) {
  timestamp_ms = pos now;
  iso8601 = iso;
}

-- The names that a build for Linux sends.
unfoldable pub kiss_message : Message
kiss_message = record (new_message msg_kiss_request) {
  os_name = codes "Linux";
  os_version = codes "unknown";
  os_release = codes "unknown";
  os_arch = codes "x86_64";
}

-- The timeout thread's check; `shutdown` is the system's `::shutdown`.
unfoldable pub timeout_check : (Socket → Socket) → ℕ → Server → Server
timeout_check shutdown now st =
    if st.active
    then (if ltb (st.last_pong_ts + session_timeout_ms) now
        then record st { active = false; socket = shutdown st.socket }
        else st)
    else st
