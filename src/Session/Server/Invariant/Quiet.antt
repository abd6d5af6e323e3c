-- ===== src/Session/Server/Invariant/Quiet.antt =====
-- What the receive loop does with a message reads nothing from the socket.
use hello_websocket.Prelude.{
  if◌then◌else◌, true, codes, subst, ◌≡◌, inl, inr, refl, sym, ◌∙◌, false, Bool, ℕ, List,
}
use hello_websocket.Codec.Outcome.{ok_before, Result-cases, Exception, ok, fault}
use hello_websocket.Codec.Message.{
  Message, Kind, kind_of, hello, bonjour, echo_request, echo_response, kiss_request, kiss_response,
  ping, pong, time_notification, random_number, hash_response, disconnect, error, unknown, encode,
  decode_message,
}
use hello_websocket.Session.Server.{
  err_decode, err_unknown_msg_type, starts_with, Server, send_frame, send_message, dispatch,
  on_decode_error, on_payload, what, error_reply,
}
use hello_websocket.Session.Server.Invariant.{send_frame-Kept}

-- No byte of the stream is read between the two states.
abbrev pub Quiet : Server → Server → Type 0
Quiet st st' = st'.socket.incoming ≡ st.socket.incoming

module _ (m : Message) (st st' : Server) where
  send_message-Quiet : send_message m st ≡ ok st' → Quiet st st'
  unfolding send_message
  send_message-Quiet e =
      let (bytes, written, done) =
        ok_before (encode m) (λ bytes. ok (send_frame bytes st).1) st' e in
      let same : (send_frame bytes st).1 ≡ st' = cc in
      subst (Quiet st) same (send_frame-Kept bytes st).incoming

module _ (now : ℕ) (m : Message) (st st' : Server) where
  dispatch-Quiet : (k : Kind) → dispatch k now m st ≡ ok st' → Quiet st st'
  unfolding dispatch
  dispatch-Quiet hello e =
      send_message-Quiet _ (record st { client_language = m.client_language }) st' e
  dispatch-Quiet echo_request e = send_message-Quiet _ st st' e
  dispatch-Quiet random_number e = send_message-Quiet _ st st' e
  dispatch-Quiet kiss_response e = let same : st ≡ st' = cc in subst (Quiet st) same refl
  dispatch-Quiet error e = let same : st ≡ st' = cc in subst (Quiet st) same refl
  dispatch-Quiet pong e =
      let same : record st { last_pong_ts = now } ≡ st' = cc in subst (Quiet st) same refl
  dispatch-Quiet disconnect e =
      let same : record st { active = false } ≡ st' = cc in subst (Quiet st) same refl
  dispatch-Quiet bonjour e = send_message-Quiet _ st st' e
  dispatch-Quiet echo_response e = send_message-Quiet _ st st' e
  dispatch-Quiet kiss_request e = send_message-Quiet _ st st' e
  dispatch-Quiet ping e = send_message-Quiet _ st st' e
  dispatch-Quiet time_notification e = send_message-Quiet _ st st' e
  dispatch-Quiet hash_response e = send_message-Quiet _ st st' e
  dispatch-Quiet unknown e = send_message-Quiet _ st st' e

stopped-Quiet :
    (unknown_type : Bool) (st : Server)
    → Quiet st (if unknown_type then st else record st { active = false })
stopped-Quiet true st = refl
stopped-Quiet false st = refl

on_decode_error-Quiet :
    (x : Exception) (st st' : Server) → on_decode_error x st ≡ ok st' → Quiet st st'
unfolding on_decode_error
on_decode_error-Quiet x st st' e =
    let unknown_type = starts_with (what x) (codes "unknown message type") in
    let code = if unknown_type then err_unknown_msg_type else err_decode in
    let (mid, sent, done) =
      ok_before (send_message (error_reply code (what x)) st)
        (λ mid. ok (if unknown_type then mid else record mid { active = false })) st' e in
    let same : (if unknown_type then mid else record mid { active = false }) ≡ st' = cc in
    subst (Quiet st) same (stopped-Quiet unknown_type mid ∙ send_message-Quiet _ st mid sent)

pub on_payload-Quiet :
    (now : ℕ) (bytes : List ℕ) (st st' : Server) → on_payload now bytes st ≡ ok st' → Quiet st st'
unfolding on_payload
on_payload-Quiet now bytes st st' e = elim (Result-cases (decode_message bytes)) [
  | inl (m, read) ↦
      let dispatched : on_payload now bytes st ≡ dispatch (kind_of m.type) now m st =
        rw (read, on_payload) refl in
      dispatch-Quiet now m st st' (kind_of m.type) (sym dispatched ∙ e)
  | inr (inl (x, thrown)) ↦
      let caught : on_payload now bytes st ≡ on_decode_error x st = rw (thrown, on_payload) refl in
      on_decode_error-Quiet x st st' (sym caught ∙ e)
  | inr (inr failed) ↦
      let faults : on_payload now bytes st ≡ fault = rw (failed, on_payload) refl in absurd (cc)
]
