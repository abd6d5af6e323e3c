-- ===== src/Session/Server/Invariant/Rounds.antt =====
-- Every turn of a session's threads keeps its invariant.
use hello_websocket.Prelude.{
  ◌+◌, ◌≡◌, inl, inr, refl, subst, sym, ◌∙◌, true, false, Bool-cases, ℕ, List, All, arith, codes,
  some, ltb, not, ◌||◌, if◌then◌else◌,
}
use hello_websocket.Codec.Outcome.{ok_before, Result-cases, ok, throw, fault}
use hello_websocket.Codec.Wire.{IsByte}
use hello_websocket.Codec.Message.{Message, encode}
use hello_websocket.Codec.Constants.{session_timeout_ms}
use hello_websocket.Hash.Digits.{IsText-ascii}
use hello_websocket.Transport.Socket.{Socket}
use hello_websocket.Transport.Socket.Stream.{stream}
use hello_websocket.Transport.Receive.{ws_recv_frame, WsFrame}
use hello_websocket.Transport.Receive.Returns.{ws_recv_frame_returns}
use hello_websocket.Transport.Receive.Bytes.{ws_recv_frame-AreBytes, AreBytes}
use hello_websocket.Session.Round.{Round, goes_on, leaves}
use hello_websocket.Session.Server.{
  Server, new_session, send_frame, on_payload, receive_round, tick, timeout_check,
}
use hello_websocket.Session.Server.Invariant.{
  IsSession, Kept-IsSession, send_frame-Kept, stopped-IsSession, on_payload-IsSession,
}

-- What a frame of the loop leaves.
pub received-IsSession :
    (keys : ℕ → List ℕ) (st : Server)
    → IsSession st
    → IsSession (record st { socket = (ws_recv_frame true keys st.socket).1 })
unfolding AreBytes
received-IsSession keys st h = record {
  bytes = (ws_recv_frame-AreBytes true keys st.socket h.bytes).0;
  language = h.language;
  small = h.small;
}

module _ (keys : ℕ → List ℕ) (now : ℕ) (st : Server) (f : WsFrame)
    (got : (ws_recv_frame true keys st.socket).0 ≡ some f) where
  abbrev pub behind : Server
  behind = record st { socket = (ws_recv_frame true keys st.socket).1 }

  pub round_leaves :
      (not f.is_valid || f.is_close) ≡ true → receive_round keys now st ≡ ok (leaves behind)
  unfolding receive_round
  round_leaves ends = rw (got, ends, receive_round) refl

  module _ (more : (not f.is_valid || f.is_close) ≡ false) where
    pub round_goes_on :
        (st' : Server)
        → on_payload now f.payload behind ≡ ok st'
        → receive_round keys now st ≡ ok (goes_on st')
    unfolding receive_round
    round_goes_on st' e = rw (got, more, e, receive_round) refl

    pub round_after :
        (r : Round Server)
        → receive_round keys now st ≡ ok r
        → (st' : Server) × (on_payload now f.payload behind ≡ ok st') × (ok (goes_on st') ≡ ok r)
    unfolding receive_round
    round_after r e =
        ok_before (on_payload now f.payload behind) (λ st'. ok (goes_on st')) r
          (let opened : receive_round keys now st ≡ (elim (on_payload now f.payload behind) [
            | ok st' ↦ ok (goes_on st')
            | throw x ↦ throw x
            | fault ↦ fault
          ]) =
              rw (got, more, receive_round) refl in
            sym opened ∙ e)

abbrev pub state_of : Round Server → Server
state_of (goes_on st) = st
state_of (leaves st) = st

pub receive_round-IsSession :
    (keys : ℕ → List ℕ) (now : ℕ) (st : Server) (r : Round Server)
    → IsSession st
    → receive_round keys now st ≡ ok r
    → IsSession (state_of r)
unfolding AreBytes
receive_round-IsSession keys now st r h e =
    let (f, got, limit, answer) = ws_recv_frame_returns true keys st.socket in
    let next = received-IsSession keys st h in
    let hb = (ws_recv_frame-AreBytes true keys st.socket h.bytes).1 f got in
    elim (Bool-cases (not f.is_valid || f.is_close)) [
      | inl ends ↦
          let answers = round_leaves keys now st f got ends in
          let same : leaves (behind keys now st f got) ≡ r = cc in
          subst (λ (x : Round Server). IsSession (state_of x)) same next
      | inr more ↦
          let (st', done, goes) = round_after keys now st f got more r e in
          let same : goes_on st' ≡ r = cc in
          subst (λ (x : Round Server). IsSession (state_of x)) same
            (on_payload-IsSession now f.payload (behind keys now st f got) st' next hb limit done)
    ]

pub tick-IsSession :
    (m : Message) (st st' : Server) → IsSession st → tick m st ≡ ok st' → IsSession st'
unfolding tick
tick-IsSession m st st' h e = elim (Bool-cases st.active) [
  | inr off ↦ let stays : tick m st ≡ ok st = rw (off, tick) refl in subst IsSession (cc) h
  | inl on ↦ elim (Result-cases (encode m)) [
    | inl (bytes, written) ↦
        let sent = (send_frame bytes st).0 in
        let next = (send_frame bytes st).1 in
        let hn = Kept-IsSession st next h (send_frame-Kept bytes st) in
        let ticks : tick m st ≡ ok (if sent then next else record next { active = false }) =
          simp (on, written, tick) in
        let same : (if sent then next else record next { active = false }) ≡ st' = cc in
        subst IsSession same (stopped-IsSession sent next hn)
    | inr (inl (x, thrown)) ↦
        let throws : tick m st ≡ throw x = rw (on, thrown, tick) refl in absurd (cc)
    | inr (inr failed) ↦ let faults : tick m st ≡ fault = rw (on, failed, tick) refl in absurd (cc)
  ]
]

module _ (shutdown : Socket → Socket)
    (shut : (s : Socket) → All IsByte (stream s) → All IsByte (stream (shutdown s))) where
  pub timeout_check-IsSession :
      (now : ℕ) (st : Server) → IsSession st → IsSession (timeout_check shutdown now st)
  unfolding timeout_check
  timeout_check-IsSession now st h = elim (Bool-cases st.active) [
    | inr off ↦
        rw (off, timeout_check) (record { bytes = h.bytes; language = h.language; small = h.small })
    | inl on ↦ elim (Bool-cases (ltb (st.last_pong_ts + session_timeout_ms) now)) [
      | inl late ↦
          rw (on, late, timeout_check)
            (record { bytes = shut st.socket h.bytes; language = h.language; small = h.small })
      | inr early ↦
          rw (on, early, timeout_check)
            (record { bytes = h.bytes; language = h.language; small = h.small })
    ]
  ]

-- A session begins with the invariant, on a stream of bytes.
pub new_session-IsSession :
    (s : Socket) (now : ℕ) → All IsByte (stream s) → IsSession (new_session s now)
unfolding new_session
new_session-IsSession s now h = record {
  bytes = h;
  language = IsText-ascii (codes "unknown") (omega arith) (omega arith);
  small = omega arith;
}
