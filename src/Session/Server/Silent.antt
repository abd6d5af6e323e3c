-- ===== src/Session/Server/Silent.antt =====
-- What the receive loop does with a message in a session that is inactive: nothing is sent.
use hello_websocket.Prelude.{
  ◌≡◌, ◌∙◌, inl, inr, refl, ap, sym, subst, false, true, Bool, ℕ, List, codes, if◌then◌else◌,
}
use hello_websocket.Codec.Outcome.{Result-cases, ok_before, Exception, ok, fault}
use hello_websocket.Codec.Message.{
  Message, Kind, kind_of, hello, bonjour, echo_request, echo_response, kiss_request, kiss_response,
  ping, pong, time_notification, random_number, hash_response, disconnect, error, unknown, encode,
  decode_message,
}
use hello_websocket.Codec.Constants.{err_decode, err_unknown_msg_type}
use hello_websocket.Strings.{starts_with}
use hello_websocket.Session.Server.{
  Server, send_frame, send_message, dispatch, on_decode_error, on_payload, what, error_reply,
}

-- The session is inactive, and its socket is as before.
abbrev pub Silent : Server → Server → Type 0
Silent st st' = (st'.active ≡ false) × (st'.socket ≡ st.socket)

send_frame_off :
    (bytes : List ℕ) (st : Server) → st.active ≡ false → send_frame bytes st ≡ (false, st)
unfolding send_frame
send_frame_off bytes st off = simp (off, send_frame)

send_message-Silent :
    (m : Message) (st st' : Server) → st.active ≡ false → send_message m st ≡ ok st' → Silent st st'
unfolding send_message
send_message-Silent m st st' off e =
    let (bytes, written, done) = ok_before (encode m) (λ bytes. ok (send_frame bytes st).1) st' e in
    let kept = ap (λ (r : Bool × Server). r.1) (send_frame_off bytes st off) in
    let same : st ≡ st' = cc in subst (Silent st) same (off, refl)

module _ (now : ℕ) (m : Message) (st st' : Server) (off : st.active ≡ false) where
  dispatch-Silent : (k : Kind) → dispatch k now m st ≡ ok st' → Silent st st'
  unfolding dispatch
  dispatch-Silent hello e =
      send_message-Silent _ (record st { client_language = m.client_language }) st' off e
  dispatch-Silent echo_request e = send_message-Silent _ st st' off e
  dispatch-Silent random_number e = send_message-Silent _ st st' off e
  dispatch-Silent kiss_response e = let same : st ≡ st' = cc in subst (Silent st) same (off, refl)
  dispatch-Silent error e = let same : st ≡ st' = cc in subst (Silent st) same (off, refl)
  dispatch-Silent pong e =
      let same : record st { last_pong_ts = now } ≡ st' = cc in subst (Silent st) same (off, refl)
  dispatch-Silent disconnect e =
      let same : record st { active = false } ≡ st' = cc in subst (Silent st) same (refl, refl)
  dispatch-Silent bonjour e = send_message-Silent _ st st' off e
  dispatch-Silent echo_response e = send_message-Silent _ st st' off e
  dispatch-Silent kiss_request e = send_message-Silent _ st st' off e
  dispatch-Silent ping e = send_message-Silent _ st st' off e
  dispatch-Silent time_notification e = send_message-Silent _ st st' off e
  dispatch-Silent hash_response e = send_message-Silent _ st st' off e
  dispatch-Silent unknown e = send_message-Silent _ st st' off e

stopped-Silent :
    (unknown_type : Bool) (st mid : Server)
    → Silent st mid
    → Silent st (if unknown_type then mid else record mid { active = false })
stopped-Silent true st mid h = h
stopped-Silent false st mid h = (refl, h.1)

on_decode_error-Silent :
    (x : Exception) (st st' : Server)
    → st.active ≡ false
    → on_decode_error x st ≡ ok st'
    → Silent st st'
unfolding on_decode_error
on_decode_error-Silent x st st' off e =
    let unknown_type = starts_with (what x) (codes "unknown message type") in
    let code = if unknown_type then err_unknown_msg_type else err_decode in
    let (mid, sent, done) =
      ok_before (send_message (error_reply code (what x)) st)
        (λ mid. ok (if unknown_type then mid else record mid { active = false })) st' e in
    let same : (if unknown_type then mid else record mid { active = false }) ≡ st' = cc in
    subst (Silent st) same
      (stopped-Silent unknown_type st mid (send_message-Silent _ st mid off sent))

pub on_payload-Silent :
    (now : ℕ) (bytes : List ℕ) (st st' : Server)
    → st.active ≡ false
    → on_payload now bytes st ≡ ok st'
    → Silent st st'
unfolding on_payload
on_payload-Silent now bytes st st' off e = elim (Result-cases (decode_message bytes)) [
  | inl (m, read) ↦
      let dispatched : on_payload now bytes st ≡ dispatch (kind_of m.type) now m st =
        rw (read, on_payload) refl in
      dispatch-Silent now m st st' off (kind_of m.type) (sym dispatched ∙ e)
  | inr (inl (x, thrown)) ↦
      let caught : on_payload now bytes st ≡ on_decode_error x st = rw (thrown, on_payload) refl in
      on_decode_error-Silent x st st' off (sym caught ∙ e)
  | inr (inr failed) ↦
      let faults : on_payload now bytes st ≡ fault = rw (failed, on_payload) refl in absurd (cc)
]
