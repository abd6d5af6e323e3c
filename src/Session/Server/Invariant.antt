-- ===== src/Session/Server/Invariant.antt =====
-- The invariant of a session: its stream is made of bytes, and its client's language is a text of at
-- most 1 MiB.
pub mod Rounds
pub mod Total
pub mod Ticks
pub mod Quiet
pub mod Places
use hello_websocket.Prelude.{
  ◌≤◌, ◌+◌, ◌^◌, ◌≡◌, ◌⊎◌, inl, inr, refl, ap, sym, ◌∙◌, subst, true, false, Bool, Bool-cases, ℕ,
  List, [], ◌∷◌, ◌++◌, All, length, length-append, arith, codes, some, none, ltb, not, ◌||◌,
  if◌then◌else◌,
}
use hello_websocket.Codec.KvMap.{Text}
use hello_websocket.Codec.Outcome.{ok_before, Result-cases, Exception, Result, ok, throw, fault}
use hello_websocket.Codec.Wire.{IsByte, IsText, Carries, wire_string, be32, payload}
use hello_websocket.Codec.Wire.Encodes.{Encodes}
use hello_websocket.Codec.Wire.Sound.{decode_message_iff, Accepted}
use hello_websocket.Codec.Message.{
  Message, Kind, kind_of, hello, bonjour, echo_request, echo_response, kiss_request, kiss_response,
  ping, pong, time_notification, random_number, hash_response, disconnect, error, unknown, encode,
  decode_message,
}
use hello_websocket.Codec.Constants.{session_timeout_ms, err_decode, err_unknown_msg_type}
use hello_websocket.Strings.{starts_with}
use hello_websocket.Hash.Digits.{IsText-ascii}
use hello_websocket.Transport.Socket.{Socket, send_all}
use hello_websocket.Transport.Socket.Stream.{stream, stream_same}
use hello_websocket.Transport.Socket.Send.{send_all-Sends}
use hello_websocket.Transport.Frame.{ws_send_binary}
use hello_websocket.Transport.Receive.{ws_recv_frame, max_message_size, WsFrame}
use hello_websocket.Transport.Receive.Returns.{
  ws_recv_frame_returns, Returns, ws_recv_frame-Returns,
}
use hello_websocket.Transport.Receive.Bytes.{ws_recv_frame-AreBytes, AreBytes}
use hello_websocket.Session.Round.{Round, goes_on, leaves}
use hello_websocket.Session.Server.{
  kiss_message, time_message, ping_message, Server, new_session, send_frame, send_message, dispatch,
  on_decode_error, on_payload, receive_round, tick, timeout_check, what, error_reply,
}

pub record IsSession (st : Server) : Type 0 where
  pub bytes : All IsByte (stream st.socket)
  pub language : IsText st.client_language
  pub small : length st.client_language ≤ max_message_size

-- The socket's incoming bytes and the other variables are as before.
record Kept (st st' : Server) : Type 0 where
  incoming : st'.socket.incoming ≡ st.socket.incoming
  client_language : st'.client_language ≡ st.client_language

Kept-IsSession : (st st' : Server) → IsSession st → Kept st st' → IsSession st'
Kept-IsSession st st' h k = record {
  bytes = subst (All IsByte) (sym (stream_same st.socket st'.socket k.incoming)) h.bytes;
  language = subst IsText (sym k.client_language) h.language;
  small = omega (arith, h.small, ap length k.client_language);
}

send_frame-Kept : (bytes : List ℕ) (st : Server) → Kept st (send_frame bytes st).1
unfolding send_frame ws_send_binary
send_frame-Kept bytes st = elim (Bool-cases st.active) [
  | inl on ↦
      rw (on, send_frame)
        (record { incoming = (send_all-Sends _ st.socket).incoming; client_language = refl })
  | inr off ↦ rw (off, send_frame) (record { incoming = refl; client_language = refl })
]

module _ (m : Message) (st st' : Server) (h : IsSession st) where
  send_message-IsSession : send_message m st ≡ ok st' → IsSession st'
  unfolding send_message
  send_message-IsSession e =
      let (bytes, written, done) =
        ok_before (encode m) (λ bytes. ok (send_frame bytes st).1) st' e in
      let same : (send_frame bytes st).1 ≡ st' = cc in
      subst IsSession same (Kept-IsSession st _ h (send_frame-Kept bytes st))

-- The payload of a message is not longer than the bytes that it was decoded from.
pub decoded_small :
    (bytes : List ℕ) (m : Message) → (a : Accepted bytes m) → length a.taken ≤ length bytes
decoded_small bytes m a = omega (
  arith,
  ap length a.layout,
  length-append (be32 (length (a.taken ++ a.extra))) (a.taken ++ a.extra),
  length-append a.taken a.extra,
)

hello_small :
    (bytes : List ℕ) (m : Message)
    → All IsByte bytes
    → decode_message bytes ≡ ok m
    → kind_of m.type ≡ hello
    → IsText m.client_language × (length m.client_language ≤ length bytes)
unfolding payload
hello_small bytes m h read k =
    let a = (decode_message_iff bytes m h).0 read in
    let taken = subst (λ k. Encodes k m a.taken) k a.encodes in
    (subst (λ k. Carries k m) k a.carries, omega (arith, decoded_small bytes m a, ap length taken))

module _ (now : ℕ) (m : Message) (st st' : Server) (h : IsSession st) where
  dispatch-IsSession :
      (k : Kind)
      → (k ≡ hello → IsText m.client_language × (length m.client_language ≤ max_message_size))
      → dispatch k now m st ≡ ok st'
      → IsSession st'
  unfolding dispatch
  dispatch-IsSession hello fits e =
      let (text, small) = fits refl in
      send_message-IsSession _ (record st { client_language = m.client_language }) st'
        (record { bytes = h.bytes; language = text; small = small }) e
  dispatch-IsSession echo_request fits e = send_message-IsSession _ st st' h e
  dispatch-IsSession random_number fits e = send_message-IsSession _ st st' h e
  dispatch-IsSession kiss_response fits e = subst IsSession (cc) h
  dispatch-IsSession error fits e = subst IsSession (cc) h
  dispatch-IsSession pong fits e =
      let same : record st { last_pong_ts = now } ≡ st' = cc in
      subst IsSession same (record { bytes = h.bytes; language = h.language; small = h.small })
  dispatch-IsSession disconnect fits e =
      let same : record st { active = false } ≡ st' = cc in
      subst IsSession same (record { bytes = h.bytes; language = h.language; small = h.small })
  dispatch-IsSession bonjour fits e = send_message-IsSession _ st st' h e
  dispatch-IsSession echo_response fits e = send_message-IsSession _ st st' h e
  dispatch-IsSession kiss_request fits e = send_message-IsSession _ st st' h e
  dispatch-IsSession ping fits e = send_message-IsSession _ st st' h e
  dispatch-IsSession time_notification fits e = send_message-IsSession _ st st' h e
  dispatch-IsSession hash_response fits e = send_message-IsSession _ st st' h e
  dispatch-IsSession unknown fits e = send_message-IsSession _ st st' h e

inactive-IsSession : (st : Server) → IsSession st → IsSession (record st { active = false })
inactive-IsSession st h = record { bytes = h.bytes; language = h.language; small = h.small }

stopped-IsSession :
    (unknown_type : Bool) (st : Server)
    → IsSession st
    → IsSession (if unknown_type then st else record st { active = false })
stopped-IsSession true st h = h
stopped-IsSession false st h = inactive-IsSession st h

on_decode_error-IsSession :
    (x : Exception) (st st' : Server) → IsSession st → on_decode_error x st ≡ ok st' → IsSession st'
unfolding on_decode_error
on_decode_error-IsSession x st st' h e =
    let unknown_type = starts_with (what x) (codes "unknown message type") in
    let code = if unknown_type then err_unknown_msg_type else err_decode in
    let (mid, sent, done) =
      ok_before (send_message (error_reply code (what x)) st)
        (λ mid. ok (if unknown_type then mid else record mid { active = false })) st' e in
    let same : (if unknown_type then mid else record mid { active = false }) ≡ st' = cc in
    subst IsSession same
      (stopped-IsSession unknown_type mid (send_message-IsSession _ st mid h sent))

module _ (now : ℕ) (bytes : List ℕ) (st st' : Server) (h : IsSession st) (hb : All IsByte bytes)
    (small : length bytes ≤ max_message_size) where
  on_payload-IsSession : on_payload now bytes st ≡ ok st' → IsSession st'
  unfolding on_payload
  on_payload-IsSession e = elim (Result-cases (decode_message bytes)) [
    | inl (m, read) ↦
        let dispatched : on_payload now bytes st ≡ dispatch (kind_of m.type) now m st =
          rw (read, on_payload) refl in
        dispatch-IsSession now m st st' h (kind_of m.type)
          (λ k. let (text, few) = hello_small bytes m hb read k in (text, omega arith))
          (sym dispatched ∙ e)
    | inr (inl (x, thrown)) ↦
        let caught : on_payload now bytes st ≡ on_decode_error x st =
          rw (thrown, on_payload) refl in
        on_decode_error-IsSession x st st' h (sym caught ∙ e)
    | inr (inr failed) ↦
        let faults : on_payload now bytes st ≡ fault = rw (failed, on_payload) refl in absurd (cc)
  ]
