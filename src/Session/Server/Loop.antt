-- ===== src/Session/Server/Loop.antt =====
-- The receive loop of `handleClient` and what comes behind it, while no other thread runs.
use hello_websocket.Prelude.{
  ◌≤◌, ◌<◌, ◌+◌, ◌^◌, ◌≡◌, inl, inr, refl, ap, ◌∙◌, subst, true, false, Bool-cases, ℕ, zero, suc,
  List, length, arith, not, ◌||◌,
}
use hello_websocket.Codec.Outcome.{Result, ok, throw, fault}
use hello_websocket.Transport.Socket.{Socket}
use hello_websocket.Transport.Socket.Stream.{stream, stream_same}
use hello_websocket.Transport.Receive.Shrinks.{ws_recv_frame-Shrinks, valid_of}
use hello_websocket.Transport.Receive.Returns.{ws_recv_frame_returns}
use hello_websocket.Session.Round.{Round-cases, goes_on, leaves}
use hello_websocket.Session.Server.{Server, receive_round}
use hello_websocket.Session.Server.Runs.{
  Running, testing, behind, Step, Runs, Runs-append, start, step, entered, stopped, broken, framed,
  left, handled, caught, pinged, timed, kissed, checked, tick-inactive, timeout_check-inactive,
}
use hello_websocket.Session.Server.Runs.Frames.{end_of, receive_round-Runs}
use hello_websocket.Session.Server.Invariant.{IsSession}
use hello_websocket.Session.Server.Invariant.Quiet.{on_payload-Quiet}
use hello_websocket.Session.Server.Invariant.Rounds.{
  behind as behind_frame, round_after, round_leaves, state_of,
}
use hello_websocket.Session.Server.Invariant.Total.{receive_round_returns}

-- `while (active) { ... }`, on fuel. `keys` and `now` are the random keys and the clock of a round, by the
-- fuel at which they are drawn; `fault` is fuel used up. An exception leaves the loop.
unfoldable pub receive_loop : (ℕ → ℕ → List ℕ) → (ℕ → ℕ) → ℕ → Server → Result Server
unfolding receive_round
receive_loop keys now zero st = fault
receive_loop keys now (suc fuel) st = elim st.active [
  | false ↦ ok st
  | true ↦ elim (receive_round (keys fuel) (now fuel) st) [
    | ok (goes_on st') ↦ receive_loop keys now fuel st'
    | ok (leaves st') ↦ ok st'
    | throw e ↦ throw e
    | fault ↦ fault
  ]
]

-- `active = false` and `hws_close`, with which the threads are joined; `close` is the system's.
unfoldable pub cleanup : (Socket → Socket) → Server → Server
cleanup close st = record st { active = false; socket = close st.socket }

-- A round after which the loop goes on has taken a header's two bytes at least off the stream.
receive_round-shrinks :
    (keys : ℕ → List ℕ) (now : ℕ) (st st' : Server)
    → receive_round keys now st ≡ ok (goes_on st')
    → length (stream st'.socket) + 2 ≤ length (stream st.socket)
receive_round-shrinks keys now st st' e =
    let (f, got, limit, answer) = ws_recv_frame_returns true keys st.socket in
    elim (Bool-cases (not f.is_valid || f.is_close)) [
      | inl ends ↦ let answers = round_leaves keys now st f got ends in absurd (cc)
      | inr more ↦
          let st1 = behind_frame keys now st f got in
          let read =
            (ws_recv_frame-Shrinks true keys st.socket).cost f got
              (valid_of f.is_valid f.is_close more) in
          let (next, done, goes) = round_after keys now st f got more (goes_on st') e in
          let same : next ≡ st' = cc in
          let quiet =
            stream_same st1.socket next.socket (on_payload-Quiet now f.payload st1 next done) in
          omega (arith, read, ap length quiet, ap (λ (x : Server). length (stream x.socket)) same)
    ]

module _ (keys : ℕ → ℕ → List ℕ) (now : ℕ → ℕ) where
  module _ (fuel : ℕ) (st : Server) where
    loop_off : st.active ≡ false → receive_loop keys now (suc fuel) st ≡ ok st
    unfolding receive_loop
    loop_off off = simp (off, receive_loop)

    module _ (on : st.active ≡ true) (st' : Server) where
      loop_leaves :
          receive_round (keys fuel) (now fuel) st ≡ ok (leaves st')
          → receive_loop keys now (suc fuel) st ≡ ok st'
      unfolding receive_loop
      loop_leaves e = rw (on, e, receive_loop) refl

      loop_goes_on :
          receive_round (keys fuel) (now fuel) st ≡ ok (goes_on st')
          → receive_loop keys now (suc fuel) st ≡ receive_loop keys now fuel st'
      unfolding receive_loop
      loop_goes_on e = rw (on, e, receive_loop) refl

  module _ (shutdown : Socket → Socket) (t : (n : ℕ) → now n < 2 ^ 63) where
    -- While no other thread takes a turn: if the invariant of a session holds, and the moments fit in
    -- an i64, more fuel than the stream has bytes is enough for the receive loop. It is left without
    -- an exception, the invariant holds, and the turns of the receive thread lead from the test of
    -- `active` to behind the loop, in the state that the loop has left with `active` reset.
    pub receive_loop_ends :
        (fuel : ℕ) (st : Server)
        → length (stream st.socket) < fuel
        → IsSession st
        → (st' : Server) × (receive_loop keys now fuel st ≡ ok st')
          × IsSession st'
          × Runs shutdown
              (record { server = st; place = testing })
              (record { server = record st' { active = false }; place = behind })
    receive_loop_ends zero st l h = absurd (omega arith)
    receive_loop_ends (suc fuel) st l h = elim (Bool-cases st.active) [
      | inr off ↦ (
        st,
        loop_off fuel st off,
        h,
        subst
            (λ b.
              Runs shutdown (record { server = st; place = testing })
                (record { server = record st { active = b }; place = behind }))
            off (step (stopped off) start),
      )
      | inl on ↦
          let (r, round, next) = receive_round_returns (keys fuel) (now fuel) st (t fuel) h in
          let once = receive_round-Runs shutdown (keys fuel) (now fuel) st r on round in
          elim (Round-cases r) [
            | inl (st', e) ↦
                let goes : receive_round (keys fuel) (now fuel) st ≡ ok (goes_on st') = cc in
                let (last, ends, keeps, runs) =
                  receive_loop_ends fuel st'
                    (omega (arith, receive_round-shrinks (keys fuel) (now fuel) st st' goes))
                    (subst (λ x. IsSession (state_of x)) e next) in
                (
                  last,
                  loop_goes_on fuel st on st' goes ∙ ends,
                  keeps,
                  Runs-append shutdown
                      (subst
                        (λ x. Runs shutdown (record { server = st; place = testing }) (end_of x)) e
                        once)
                      runs,
                )
            | inr (st', e) ↦
                let gone : receive_round (keys fuel) (now fuel) st ≡ ok (leaves st') = cc in
                (
                  st',
                  loop_leaves fuel st on st' gone,
                  subst (λ x. IsSession (state_of x)) e next,
                  subst (λ x. Runs shutdown (record { server = st; place = testing }) (end_of x)) e
                      once,
                )
          ]
    ]

-- Behind the cleanup no turn that a thread still takes, until it is joined, changes anything.
module _ (shutdown : Socket → Socket) where
  behind-Step :
      (r r' : Running) → r.place ≡ behind → r.server.active ≡ false → Step shutdown r r' → r' ≡ r
  behind-Step r r' p off (entered on) = absurd (cc)
  behind-Step r r' p off (stopped off') = absurd (cc)
  behind-Step r r' p off (broken message fragmented e) = absurd (cc)
  behind-Step r r' p off (framed message fragmented f key e) = absurd (cc)
  behind-Step r r' p off (left f e) = absurd (cc)
  behind-Step r r' p off (handled f now more e) = absurd (cc)
  behind-Step r r' p off (caught f now x more e) = absurd (cc)
  behind-Step r r' p off (pinged {st} {st'} {p = q} now e) =
      ap (λ (s : Server). record { server = s; place = q }) (tick-inactive _ st st' off e)
  behind-Step r r' p off (timed {st} {st'} {p = q} now iso e) =
      ap (λ (s : Server). record { server = s; place = q }) (tick-inactive _ st st' off e)
  behind-Step r r' p off (kissed {st} {st'} {p = q} e) =
      ap (λ (s : Server). record { server = s; place = q }) (tick-inactive _ st st' off e)
  behind-Step r r' p off (checked {st} {p = q} now) =
      ap (λ (s : Server). record { server = s; place = q })
        (timeout_check-inactive shutdown now st off)

  behind-Runs :
      (r r' : Running) → r.place ≡ behind → r.server.active ≡ false → Runs shutdown r r' → r' ≡ r
  behind-Runs r r' p off start = refl
  behind-Runs r r' p off (step {r' = mid} s more) =
      let same = behind-Step r mid p off s in
      behind-Runs mid r' (ap (λ (x : Running). x.place) same ∙ p)
        (ap (λ (x : Running). x.server.active) same ∙ off) more
      ∙ same

  cleanup-Runs :
      (close : Socket → Socket) (st : Server) (r : Running)
      → Runs shutdown (record { server = cleanup close st; place = behind }) r
      → r ≡ record { server = cleanup close st; place = behind }
  unfolding cleanup
  cleanup-Runs close st r runs = behind-Runs _ r refl refl runs
