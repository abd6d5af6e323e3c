-- ===== src/Session/Server/Runs/Frames.antt =====
-- A call of `wsRecvFrame`, and a round of the receive loop, as turns of the receive thread.
use hello_websocket.Prelude.{
  ap, false, ◌≡◌, inl, inr, sym, subst, true, List, ℕ, zero, suc, Bool, Bool-cases, length, some,
  not, ◌||◌, Option, Option-cases,
}
use mathlib.Core.Option.{some-injective}
use hello_websocket.Codec.Outcome.{ok}
use hello_websocket.Transport.Socket.Stream.{stream}
use hello_websocket.Transport.Receive.{WsFrame, empty_frame, ws_recv_loop, ws_recv_frame}
use hello_websocket.Transport.Receive.Returns.{
  ws_recv_frame_returns, Step-cases, loop_stop, loop_return, loop_continue,
}
use hello_websocket.Session.Round.{Round, goes_on, leaves}
use hello_websocket.Session.Server.{Socket, Server, receive_round}
use hello_websocket.Session.Server.Runs.{
  Running, Place, testing, reading, handling, behind, after, read_from, framed_by, Runs, start,
  step, entered, broken, framed, left, handled, Runs-append,
}
use hello_websocket.Session.Server.Invariant.Rounds.{round_leaves, round_after}

-- Where a round of the receive loop leads.
abbrev pub end_of : Round Server → Running
end_of (goes_on st) = record { server = st; place = testing }
end_of (leaves st) = record { server = record st { active = false }; place = behind }

module _ (shutdown : Socket → Socket) where
  -- The turns lead from the state `r` to where the call has answered.
  abbrev Reaches : Running → Server → Option WsFrame × Socket → Type 0
  Reaches r st c =
      (f : WsFrame)
      → c.0 ≡ some f
      → Runs shutdown r (record { server = record st { socket = c.1 }; place = handling f })

  answered :
      (r : Running) (st : Server) (message : WsFrame) (s : Socket)
      → Runs shutdown r (record { server = record st { socket = s }; place = handling message })
      → Reaches r st (some message, s)
  answered r st message s runs f e =
      subst
        (λ (x : WsFrame).
          Runs shutdown r (record { server = record st { socket = s }; place = handling x }))
        (some-injective message f e) runs

  placed :
      (r : Running) (st : Server) (p p' : Place)
      → p ≡ p'
      → Runs shutdown r (record { server = st; place = p })
      → Runs shutdown r (record { server = st; place = p' })
  placed r st p p' e runs =
      subst (λ (x : Place). Runs shutdown r (record { server = st; place = x })) e runs

  ws_recv_loop-Reaches :
      (keys : ℕ → List ℕ) (fuel : ℕ) (message : WsFrame) (fragmented : Bool) (st : Server)
      → Reaches
          (record { server = st; place = reading message fragmented })
          st
          (ws_recv_loop true keys fuel message fragmented st.socket)
  ws_recv_loop-Reaches keys zero message fragmented st = unfold ws_recv_loop in λ f e. cc
  ws_recv_loop-Reaches keys (suc fuel) message fragmented st =
      let r : Running = record { server = st; place = reading message fragmented } in
      elim (Option-cases (read_from message st).0) [
        | inl none_read ↦
            subst (Reaches r st)
              (sym (loop_stop true keys fuel message fragmented st.socket none_read))
              (answered r st message (read_from message st).1
                (step (broken message fragmented none_read) start))
        | inr (f, read) ↦
            let s2 = (framed_by (keys fuel) f message fragmented st).1 in
            let st2 = record st { socket = s2 } in
            let once : Runs shutdown r (record {
              server = st2;
              place = after (framed_by (keys fuel) f message fragmented st).0;
            }) =
              step (framed message fragmented f (keys fuel) read) start in
            elim (Step-cases (framed_by (keys fuel) f message fragmented st).0) [
              | inl (a, e) ↦
                  subst (Reaches r st)
                    (sym (loop_return true keys fuel message fragmented st.socket f read a e))
                    (answered r st a s2 (placed r st2 _ (handling a) (ap after e) once))
              | inr (message', fragmented', e) ↦
                  subst (Reaches r st)
                    (sym (
                      loop_continue true keys fuel message fragmented st.socket f read message'
                        fragmented' e))
                    (λ a answer.
                      Runs-append shutdown
                        (placed r st2 _ (reading message' fragmented') (ap after e) once)
                        (ws_recv_loop-Reaches keys fuel message' fragmented' st2 a answer))
            ]
      ]

  ws_recv_frame-Reaches :
      (keys : ℕ → List ℕ) (st : Server)
      → Reaches
          (record { server = st; place = reading empty_frame false })
          st
          (ws_recv_frame true keys st.socket)
  unfolding ws_recv_frame
  ws_recv_frame-Reaches keys st =
      ws_recv_loop-Reaches keys (suc (length (stream st.socket))) empty_frame false st

  -- A round of the receive loop of an active session is a sequence of turns of the receive thread.
  pub receive_round-Runs :
      (keys : ℕ → List ℕ) (now : ℕ) (st : Server) (r : Round Server)
      → st.active ≡ true
      → receive_round keys now st ≡ ok r
      → Runs shutdown (record { server = st; place = testing }) (end_of r)
  receive_round-Runs keys now st r on e =
      let (f, got, limit, answer) = ws_recv_frame_returns true keys st.socket in
      let read = step (entered on) (ws_recv_frame-Reaches keys st f got) in
      let st1 = record st { socket = (ws_recv_frame true keys st.socket).1 } in
      elim (Bool-cases (not f.is_valid || f.is_close)) [
        | inl ends ↦
            let leads = round_leaves keys now st f got ends in
            let same : leaves st1 ≡ r = cc in
            subst
              (λ (x : Round Server).
                Runs shutdown (record { server = st; place = testing }) (end_of x))
              same (Runs-append shutdown read (step (left f ends) start))
        | inr more ↦
            let (st', done, goes) = round_after keys now st f got more r e in
            let same : goes_on st' ≡ r = cc in
            subst
              (λ (x : Round Server).
                Runs shutdown (record { server = st; place = testing }) (end_of x))
              same (Runs-append shutdown read (step (handled f now more done) start))
      ]
