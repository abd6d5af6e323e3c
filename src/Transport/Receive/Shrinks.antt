-- ===== src/Transport/Receive/Shrinks.antt =====
-- A valid frame that `wsRecvFrame` returns has taken a header's two bytes at least off the stream.
use hello_websocket.Prelude.{
  not, ◌||◌, ap, sym, subst, refl, Option-cases, inr, inl, ◌+◌, ◌≤◌, ◌≡◌, arith, length, ℕ, zero,
  suc, Bool, true, false, Option, some, List,
}
use mathlib.Core.Option.{some-injective}
use hello_websocket.Transport.Socket.{Socket}
use hello_websocket.Transport.Socket.Stream.{stream, stream_same}
use hello_websocket.Transport.Receive.{
  WsFrame, on_frame, ws_recv_loop, ws_recv_frame, empty_frame, read_frame,
}
use hello_websocket.Transport.Receive.Bounded.Frame.{Bounded-read_frame}
use hello_websocket.Transport.Receive.Returns.{
  IsRound, IsStep, IsPartial, on_frame-IsRound, Step-cases, loop_stop, loop_return, loop_continue,
}

-- The stream has not grown, and it has shrunk before a valid answer.
pub record Shrinks (s : Socket) (r : Option WsFrame × Socket) : Type 0 where
  pub fewer : length (stream r.1) ≤ length (stream s)
  pub cost :
      (f : WsFrame) → r.0 ≡ some f → f.is_valid ≡ true → length (stream r.1) + 2 ≤ length (stream s)

Shrinks-less :
    (s s' : Socket) (r : Option WsFrame × Socket)
    → length (stream s') ≤ length (stream s)
    → Shrinks s' r
    → Shrinks s r
Shrinks-less s s' r l h = record {
  fewer = omega (arith, h.fewer);
  cost = λ f e v. omega (arith, h.cost f e v);
}

-- A header has been read.
Shrinks-read :
    (s : Socket) (r : Option WsFrame × Socket)
    → length (stream r.1) + 2 ≤ length (stream s)
    → Shrinks s r
Shrinks-read s r l = record { fewer = omega arith; cost = λ f e v. l }

-- The answer is not valid.
Shrinks-stop :
    (s s' : Socket) (message : WsFrame)
    → message.is_valid ≡ false
    → length (stream s') ≤ length (stream s)
    → Shrinks s (some message, s')
Shrinks-stop s s' message invalid l = record {
  fewer = l;
  cost = λ f e v. let same = ap (λ (f : WsFrame). f.is_valid) (some-injective message f e) in cc;
}

ws_recv_loop-Shrinks :
    (expect_masked : Bool) (keys : ℕ → List ℕ) (fuel : ℕ) (message : WsFrame) (fragmented : Bool)
    (s : Socket)
    → IsPartial message fragmented
    → Shrinks s (ws_recv_loop expect_masked keys fuel message fragmented s)
unfolding ws_recv_loop IsRound
ws_recv_loop-Shrinks expect_masked keys zero message fragmented s h = record {
  fewer = omega arith;
  cost = λ f e v. cc;
}
ws_recv_loop-Shrinks expect_masked keys (suc fuel) message fragmented s h =
    let bounded = Bounded-read_frame expect_masked (length message.payload) in
    let s1 = (read_frame expect_masked (length message.payload) s).1 in
    elim (Option-cases (read_frame expect_masked (length message.payload) s).0) [
      | inl none_read ↦
          subst (Shrinks s) (sym (loop_stop expect_masked keys fuel message fragmented s none_read))
            (Shrinks-stop s s1 message h.invalid (bounded.fewer s))
      | inr (f, read) ↦
          let s2 = (on_frame expect_masked (keys fuel) f message fragmented s1).1 in
          let round =
            on_frame-IsRound f message fragmented h (bounded.sound s f read) expect_masked
              (keys fuel) s1 in
          let l : length (stream s2) + 2 ≤ length (stream s) =
            omega (arith, bounded.cost s f read, ap length (stream_same s1 s2 round.1)) in
          elim (Step-cases (on_frame expect_masked (keys fuel) f message fragmented s1).0) [
            | inl (r, e) ↦
                subst (Shrinks s)
                  (sym (loop_return expect_masked keys fuel message fragmented s f read r e))
                  (Shrinks-read s (some r, s2) l)
            | inr (message', fragmented', e) ↦
                subst (Shrinks s)
                  (sym (
                    loop_continue expect_masked keys fuel message fragmented s f read message'
                      fragmented' e))
                  (Shrinks-less s s2 _ (omega arith) (
                    ws_recv_loop-Shrinks expect_masked keys fuel message' fragmented' s2
                      (subst IsStep e round.0)))
          ]
    ]

pub ws_recv_frame-Shrinks :
    (expect_masked : Bool) (keys : ℕ → List ℕ) (s : Socket)
    → Shrinks s (ws_recv_frame expect_masked keys s)
unfolding ws_recv_frame empty_frame
ws_recv_frame-Shrinks expect_masked keys s =
    ws_recv_loop-Shrinks expect_masked keys (suc (length (stream s))) empty_frame false s
      (record { limit = omega arith; invalid = refl; data_only = refl; binary = λ e. cc })

-- Behind the test with which the two programs leave their loops, a frame is valid.
pub valid_of : (valid close : Bool) → (not valid || close) ≡ false → valid ≡ true
valid_of true close e = refl
valid_of false close e = absurd (cc)
