-- ===== src/Transport/Receive/Returns.antt =====
-- The loop of `wsRecvFrame` ends, with a frame within the limit.
use hello_websocket.Transport.Socket.Stream.{stream_same}
use hello_websocket.Transport.Receive.Bounded.Frame.{Bounded-read_frame}
use hello_websocket.Transport.Socket.Send.{send_all-Sends}
use hello_websocket.Transport.Frame.{control_bytes, ws_send_control}
use hello_websocket.Prelude.{Bool-cases, ap, zero, suc}
use hello_websocket.Prelude.{
  sym, subst, Option-cases, ◌<◌, ltb, Option, length-append, inr, suc, arith, ==_iff, inl, ◌+◌, ◌≤◌,
  ◌⊎◌, List, ◌≡◌, ℕ, length, refl, if◌then◌else◌, ◌==◌, ◌&&◌, not, true, false, Bool, some, none,
}
use hello_websocket.Transport.Receive.{
  empty_frame, ws_recv_frame, stream, on_frame, ws_recv_loop, read_frame, on_data, Socket, WsFrame,
  max_message_size, Step, return, continue, Received,
}

-- What `wsRecvFrame` returns: at most a megabyte, and if it is valid, a binary message or a close
-- frame.
pub record IsAnswer (r : WsFrame) : Type 0 where
  pub limit : length r.payload ≤ max_message_size
  pub binary : r.is_valid ≡ true → r.is_close ≡ false → r.opcode ≡ 2
  pub close : r.is_close ≡ true → (r.is_valid ≡ true) × (r.opcode ≡ 8)

-- The message that the loop puts together, and its flag.
pub record IsPartial (message : WsFrame) (fragmented : Bool) : Type 0 where
  pub limit : length message.payload ≤ max_message_size
  pub invalid : message.is_valid ≡ false
  pub data_only : message.is_close ≡ false
  pub binary : fragmented ≡ true → message.opcode ≡ 2

IsAnswer-of :
    (message : WsFrame) (fragmented : Bool) → IsPartial message fragmented → IsAnswer message
IsAnswer-of message fragmented h = record { limit = h.limit; binary = λ e. cc; close = λ e. cc }

abbrev pub IsStep : Step → Type 0
IsStep (return r) = IsAnswer r
IsStep (continue message fragmented) = IsPartial message fragmented

-- A step on a socket: what it does, with no byte read.
unfoldable pub IsRound : Socket → Step × Socket → Type 0
IsRound s (step, s') = IsStep step × (s'.incoming ≡ s.incoming)

pub if_both :
    {A : Type 0} (P : A → Type 0) (test : Bool) {x y : A}
    → (test ≡ true → P x)
    → (test ≡ false → P y)
    → P (if test then x else y)
if_both P true h k = h refl
if_both P false h k = k refl

pub ws_send_control-incoming :
    (opcode : ℕ) (payload : List ℕ) (masked : Bool) (key : List ℕ) (s : Socket)
    → (ws_send_control opcode payload masked key s).1.incoming ≡ s.incoming
unfolding ws_send_control
ws_send_control-incoming opcode payload masked key s =
    if_both (λ (r : Bool × Socket). r.1.incoming ≡ s.incoming) (ltb 125 (length payload))
      (λ _. refl) (λ _. (send_all-Sends (control_bytes opcode payload masked key) s).incoming)

pub and-both : (a b : Bool) → (a && b) ≡ true → (a ≡ true) × (b ≡ true)
and-both true b e = (refl, e)
and-both false b e = absurd (cc)

module _ (f : Received) (message : WsFrame) (fragmented : Bool) (h : IsPartial message fragmented)
    (w : length message.payload + length f.payload ≤ max_message_size) where
  on_data-IsStep : IsStep (on_data f message fragmented)
  unfolding on_data empty_frame
  on_data-IsStep =
      if_both IsStep (f.opcode == 2 && not fragmented)
        (λ e.
          let two = (==_iff f.opcode 2).0 (and-both (f.opcode == 2) (not fragmented) e).0 in
          if_both IsStep f.fin
            (λ _. record { limit = omega arith; binary = λ _ _. two; close = λ c. cc })
            (λ _. record {
              limit = omega arith;
              invalid = h.invalid;
              data_only = h.data_only;
              binary = λ _. two;
            }))
        (λ _.
          if_both IsStep (f.opcode == 0 && fragmented)
            (λ e.
              let go = (and-both (f.opcode == 0) fragmented e).1 in
              let l = length-append message.payload f.payload in
              if_both IsStep f.fin
                (λ _. record {
                  limit = omega (arith, l);
                  binary = λ _ _. h.binary go;
                  close = λ c. cc;
                })
                (λ _. record {
                  limit = omega (arith, l);
                  invalid = h.invalid;
                  data_only = h.data_only;
                  binary = h.binary;
                }))
            (λ _. record { limit = omega arith; binary = λ v. cc; close = λ v. cc }))

  pub on_frame-IsRound :
      (expect_masked : Bool) (key : List ℕ) (s : Socket)
      → IsRound s (on_frame expect_masked key f message fragmented s)
  unfolding on_frame IsRound
  on_frame-IsRound expect_masked key s =
      if_both (IsRound s) (f.opcode == 8)
        (λ _. (
          record { limit = omega arith; binary = λ _ v. cc; close = λ _. (refl, refl) },
          ws_send_control-incoming 8 f.payload (not expect_masked) key s,
        ))
        (λ _.
          if_both (IsRound s) (f.opcode == 9)
            (λ _. (
              if_both IsStep (ws_send_control 10 f.payload (not expect_masked) key s).0 (λ _. h)
                  (λ _. IsAnswer-of message fragmented h),
              ws_send_control-incoming 10 f.payload (not expect_masked) key s,
            ))
            (λ _.
              if_both (IsRound s) (f.opcode == 10) (λ _. (h, refl)) (λ _. (on_data-IsStep, refl))))

pub Step-cases :
    (step : Step)
    → ((r : WsFrame) × (step ≡ return r))
      ⊎ ((message : WsFrame) × (fragmented : Bool) × (step ≡ continue message fragmented))
Step-cases (return r) = inl (r, refl)
Step-cases (continue message fragmented) = inr (message, fragmented, refl)

module _ (expect_masked : Bool) (keys : ℕ → List ℕ) (fuel : ℕ) (message : WsFrame)
    (fragmented : Bool) (s : Socket) where
  pub loop_stop :
      (read_frame expect_masked (length message.payload) s).0 ≡ none
      → ws_recv_loop expect_masked keys (suc fuel) message fragmented s
        ≡ (some message, (read_frame expect_masked (length message.payload) s).1)
  unfolding ws_recv_loop
  loop_stop e = rw (e, ws_recv_loop)

  module _ (f : Received)
      (e : (read_frame expect_masked (length message.payload) s).0 ≡ some f) where
    abbrev pub stepped : Step × Socket
    stepped =
        on_frame expect_masked (keys fuel) f message fragmented
          (read_frame expect_masked (length message.payload) s).1

    pub loop_return :
        (r : WsFrame)
        → stepped.0 ≡ return r
        → ws_recv_loop expect_masked keys (suc fuel) message fragmented s ≡ (some r, stepped.1)
    unfolding ws_recv_loop
    loop_return r e' = rw (e, e', ws_recv_loop)

    pub loop_continue :
        (message' : WsFrame) (fragmented' : Bool)
        → stepped.0 ≡ continue message' fragmented'
        → ws_recv_loop expect_masked keys (suc fuel) message fragmented s
          ≡ ws_recv_loop expect_masked keys fuel message' fragmented' stepped.1
    unfolding ws_recv_loop
    loop_continue message' fragmented' e' = rw (e, e', ws_recv_loop)

-- The loop answers.
pub Returns : Option WsFrame × Socket → Type 0
Returns (answer, s) = (r : WsFrame) × (answer ≡ some r) × IsAnswer r

ws_recv_loop-Returns :
    (expect_masked : Bool) (keys : ℕ → List ℕ) (fuel : ℕ) (message : WsFrame) (fragmented : Bool)
    (s : Socket)
    → length (stream s) < fuel
    → IsPartial message fragmented
    → Returns (ws_recv_loop expect_masked keys fuel message fragmented s)
unfolding Returns IsRound
ws_recv_loop-Returns expect_masked keys zero message fragmented s l h = absurd (omega arith)
ws_recv_loop-Returns expect_masked keys (suc fuel) message fragmented s l h =
    let bounded = Bounded-read_frame expect_masked (length message.payload) in
    let s1 = (read_frame expect_masked (length message.payload) s).1 in
    elim (Option-cases (read_frame expect_masked (length message.payload) s).0) [
      | inl none_read ↦
          subst Returns (sym (loop_stop expect_masked keys fuel message fragmented s none_read))
            (message, refl, IsAnswer-of message fragmented h)
      | inr (f, read) ↦
          let round =
            on_frame-IsRound f message fragmented h (bounded.sound s f read) expect_masked
              (keys fuel) s1 in
          elim (Step-cases (on_frame expect_masked (keys fuel) f message fragmented s1).0) [
            | inl (r, e) ↦
                subst Returns
                  (sym (loop_return expect_masked keys fuel message fragmented s f read r e))
                  (r, refl, subst IsStep e round.0)
            | inr (message', fragmented', e) ↦
                subst Returns
                  (sym (
                    loop_continue expect_masked keys fuel message fragmented s f read message'
                      fragmented' e))
                  (ws_recv_loop-Returns expect_masked keys fuel message' fragmented' _
                    (omega (
                      arith,
                      bounded.cost s f read,
                      ap length (
                          stream_same s1
                            (on_frame expect_masked (keys fuel) f message fragmented s1).1 round.1),
                    ))
                    (subst IsStep e round.0))
          ]
    ]

-- `wsRecvFrame` returns, whatever arrives and however it is cut up.
pub ws_recv_frame-Returns :
    (expect_masked : Bool) (keys : ℕ → List ℕ) (s : Socket)
    → Returns (ws_recv_frame expect_masked keys s)
unfolding ws_recv_frame empty_frame
ws_recv_frame-Returns expect_masked keys s =
    ws_recv_loop-Returns expect_masked keys (suc (length (stream s))) empty_frame false s
      (omega arith)
      (record { limit = omega arith; invalid = refl; data_only = refl; binary = λ e. cc })

-- Whatever bytes arrive, and however they are cut up, `wsRecvFrame` returns: with an invalid frame,
-- with a binary message, or with a close frame, and with a payload of at most 1 MiB.
pub ws_recv_frame_returns :
    (expect_masked : Bool) (keys : ℕ → List ℕ) (s : Socket)
    → (r : WsFrame) × ((ws_recv_frame expect_masked keys s).0 ≡ some r)
      × (length r.payload ≤ max_message_size)
      × ((r.is_valid ≡ false)
          ⊎ (((r.is_close ≡ false) × (r.opcode ≡ 2)) ⊎ ((r.is_close ≡ true) × (r.opcode ≡ 8))))
unfolding Returns
ws_recv_frame_returns expect_masked keys s =
    let (r, e, a) = ws_recv_frame-Returns expect_masked keys s in
    (
      r,
      e,
      a.limit,
      elim (Bool-cases r.is_valid) [
        | inr invalid ↦ inl invalid
        | inl valid ↦ elim (Bool-cases r.is_close) [
          | inl close ↦ inr (inr (close, (a.close close).1))
          | inr goes ↦ inr (inl (goes, a.binary valid goes))
        ]
      ],
    )
