-- ===== src/Session/Server/Invariant/Total.antt =====
-- A session's threads go on: while its invariant holds, nothing in them throws.
use hello_websocket.Prelude.{
  ◌≤◌, ◌<◌, ◌/◌, ◌%◌, ◌^◌, ◌≡◌, inl, inr, refl, ap, sym, subst, true, false, Bool-cases, ℕ, List,
  ◌++◌, All, All-append, length, length-append, arith, codes, ltb, not, ◌||◌, if◌then◌else◌,
}
use hello_websocket.Codec.Constants.{err_decode, err_unknown_msg_type}
use hello_websocket.Codec.Outcome.{Result-cases, Returns, Exception, ok}
use hello_websocket.Codec.Wire.{IsByte, Carries, payload, wire_string, wire_i64}
use hello_websocket.Codec.Wire.Encodes.{Encodes}
use hello_websocket.Codec.Wire.RoundTrip.{decode_message-encode, IsEncodable}
use hello_websocket.Codec.Wire.Sound.{decode_message_iff, decode_message-ne-fault, Accepted}
use hello_websocket.Codec.Message.{
  Message, Kind, kind_of, hello, bonjour, echo_request, echo_response, kiss_request, kiss_response,
  ping, pong, time_notification, random_number, hash_response, disconnect, error, unknown,
  decode_message,
}
use hello_websocket.Hash.Digits.{IsAscii, IsText-ascii, hex_digit-lt}
use hello_websocket.Transport.Receive.{max_message_size}
use hello_websocket.Transport.Receive.Returns.{ws_recv_frame_returns}
use hello_websocket.Transport.Receive.Bytes.{ws_recv_frame-AreBytes, AreBytes}
use hello_websocket.Session.Round.{Round, goes_on, leaves}
use hello_websocket.Session.Server.{
  starts_with, Server, send_frame, send_message, bonjour_reply, echo_reply, hash_reply, error_reply,
  hex_of, dispatch, on_decode_error, on_payload, receive_round, what,
}
use hello_websocket.Session.Server.Replies.{
  bonjour_reply-IsEncodable, hash_reply-IsEncodable, error_reply-IsEncodable, what-IsText,
  code_small,
}
use hello_websocket.Session.Server.Echo.{echo_answer-IsEncodable, echo_reply-answer}
use hello_websocket.Session.Server.Invariant.{IsSession, decoded_small}
use hello_websocket.Session.Server.Invariant.Rounds.{
  received-IsSession, behind, round_leaves, round_goes_on, state_of, receive_round-IsSession,
}

sends : (m : Message) (st : Server) → IsEncodable m → Returns (send_message m st)
unfolding send_message
sends m st h =
    let (bytes, written, read) = decode_message-encode m h in
    ((send_frame bytes st).1, rw (written, send_message) refl)

-- The text of an unknown type.
hex_of-IsAscii : (t : ℕ) → t < 256 → IsAscii (hex_of t) × (length (hex_of t) ≤ 2)
unfolding hex_of
hex_of-IsAscii t h = elim (Bool-cases (ltb t 16)) [
  | inl low ↦ rw (low, hex_of) ((hex_digit-lt t (ground arith), tt), omega arith)
  | inr high ↦
      rw (high, hex_of)
        (
          (hex_digit-lt (t / 16) (omega arith), (hex_digit-lt (t % 16) (omega arith), tt)),
          omega arith,
        )
]

unknown_type-IsEncodable :
    (t : ℕ)
    → t < 256
    → IsEncodable (error_reply err_unknown_msg_type (codes "unknown type 0x" ++ hex_of t))
unknown_type-IsEncodable t h =
    let (ascii, few) = hex_of-IsAscii t h in
    let text = codes "unknown type 0x" ++ hex_of t in
    error_reply-IsEncodable err_unknown_msg_type text (omega arith)
      (IsText-ascii text
        (All-append (λ (b : ℕ). b < 128) (codes "unknown type 0x") (hex_of t) (omega arith) ascii)
        (omega (arith, few)))
      (omega (arith, few))

module _ (now : ℕ) (t : now < 2 ^ 63) (bytes : List ℕ) (hb : All IsByte bytes)
    (small : length bytes ≤ max_message_size) (m : Message) (a : Accepted bytes m) (st : Server)
    (h : IsSession st) where
  type-IsByte : m.type < 256
  type-IsByte = (subst (All IsByte) a.layout hb).1.1.0

  unknown_type_sent : Returns (
      send_message (error_reply err_unknown_msg_type (codes "unknown type 0x" ++ hex_of m.type)) st)
  unknown_type_sent = sends _ st (unknown_type-IsEncodable m.type type-IsByte)

  echo_sent :
      kind_of m.type ≡ echo_request
      → Returns (send_message (echo_reply now st.client_language m) st)
  unfolding payload
  echo_sent k =
      let fields = subst (λ k. Carries k m) k a.carries in
      let taken = subst (λ k. Encodes k m a.taken) k a.encodes in
      sends _ st (
        subst IsEncodable (sym (echo_reply-answer now st.client_language m)) (
          echo_answer-IsEncodable now st.client_language m t h.language fields.1 fields.2 (
            omega (
              arith,
              h.small,
              small,
              decoded_small bytes m a,
              ap length taken,
              length-append (wire_i64 m.echo_id)
                  (wire_string m.echo_meta ++ wire_string m.echo_data),
              length-append (wire_string m.echo_meta) (wire_string m.echo_data),
            ))))

  dispatch-Returns : (k : Kind) → kind_of m.type ≡ k → Returns (dispatch k now m st)
  unfolding dispatch
  dispatch-Returns hello k =
      sends bonjour_reply (record st { client_language = m.client_language })
        bonjour_reply-IsEncodable
  dispatch-Returns echo_request k = echo_sent k
  dispatch-Returns random_number k =
      let fields = subst (λ k. Carries k m) k a.carries in
      sends (hash_reply m) st (hash_reply-IsEncodable m fields.0)
  dispatch-Returns kiss_response k = (_, refl)
  dispatch-Returns error k = (_, refl)
  dispatch-Returns pong k = (_, refl)
  dispatch-Returns disconnect k = (_, refl)
  dispatch-Returns bonjour k = unknown_type_sent
  dispatch-Returns echo_response k = unknown_type_sent
  dispatch-Returns kiss_request k = unknown_type_sent
  dispatch-Returns ping k = unknown_type_sent
  dispatch-Returns time_notification k = unknown_type_sent
  dispatch-Returns hash_response k = unknown_type_sent
  dispatch-Returns unknown k = unknown_type_sent

on_decode_error-Returns : (x : Exception) (st : Server) → Returns (on_decode_error x st)
unfolding on_decode_error
on_decode_error-Returns x st =
    let unknown_type = starts_with (what x) (codes "unknown message type") in
    let code = if unknown_type then err_unknown_msg_type else err_decode in
    let (text, short) = what-IsText x in
    let (mid, sent) =
      sends (error_reply code (what x)) st
        (error_reply-IsEncodable code (what x) (code_small unknown_type) text short) in
    ((if unknown_type then mid else record mid { active = false }), rw (sent, on_decode_error) refl)

on_payload-Returns :
    (now : ℕ) (bytes : List ℕ) (st : Server)
    → now < 2 ^ 63
    → All IsByte bytes
    → length bytes ≤ max_message_size
    → IsSession st
    → Returns (on_payload now bytes st)
unfolding on_payload
on_payload-Returns now bytes st t hb small h = elim (Result-cases (decode_message bytes)) [
  | inl (m, read) ↦
      rw (read, on_payload)
        (dispatch-Returns now t bytes hb small m ((decode_message_iff bytes m hb).0 read) st h
          (kind_of m.type) refl)
  | inr (inl (x, thrown)) ↦ rw (thrown, on_payload) (on_decode_error-Returns x st)
  | inr (inr failed) ↦ absurd (decode_message-ne-fault bytes hb failed)
]

-- While the invariant of a session holds, at a moment that fits in an i64, a round of the receive
-- loop ends, whatever arrives: it throws no exception, decoding reads nothing outside the payload,
-- and the invariant is kept.
pub receive_round_returns :
    (keys : ℕ → List ℕ) (now : ℕ) (st : Server)
    → now < 2 ^ 63
    → IsSession st
    → (r : Round Server) × (receive_round keys now st ≡ ok r) × IsSession (state_of r)
unfolding AreBytes
receive_round_returns keys now st t h =
    let (f, got, limit, answer) = ws_recv_frame_returns true keys st.socket in
    let next = received-IsSession keys st h in
    let hb = (ws_recv_frame-AreBytes true keys st.socket h.bytes).1 f got in
    let st1 = behind keys now st f got in
    elim (Bool-cases (not f.is_valid || f.is_close)) [
      | inl ends ↦ (leaves st1, round_leaves keys now st f got ends, next)
      | inr more ↦
          let (st', done) = on_payload-Returns now f.payload st1 t hb limit next in
          let goes = round_goes_on keys now st f got more st' done in
          (goes_on st', goes, receive_round-IsSession keys now st (goes_on st') h goes)
    ]
