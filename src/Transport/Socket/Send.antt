-- ===== src/Transport/Socket/Send.antt =====
-- `sendAll` hands the system a prefix of the bytes in order, and all of them if it returns true.
use hello_websocket.Prelude.{
  subst, append-nil, List-cases, append_assoc, inr, ◌∙◌, inl, take-append-drop, ℕ-cases, ap, sym,
  Bool, ℕ, zero, suc, ◌≤◌, ◌<◌, ◌^◌, ◌≡◌, refl, List, [], ◌∷◌, ◌++◌, length, take, drop, arith, All,
  true, false,
}
use hello_websocket.Transport.Socket.Stream.{int_size-live}
use hello_websocket.Transport.Socket.{int_size, room_for, Socket, send, send_loop, send_all}

pub record Sends (bytes : List ℕ) (s : Socket) (answer : Bool) (s' : Socket) : Type 0 where
  pub taken : List ℕ
  pub unsent : List ℕ
  pub parts : bytes ≡ taken ++ unsent
  pub outgoing : s'.outgoing ≡ s.outgoing ++ taken
  pub whole : answer ≡ true → unsent ≡ []
  pub incoming : s'.incoming ≡ s.incoming

-- What a round of the loop asks the system to take.
abbrev asked : List ℕ → Socket → ℕ × Socket
asked bytes s = send (int_size (length bytes)) bytes s

module _ (fuel b : ℕ) (bytes : List ℕ) (s : Socket) where
  loop_stop :
      (asked (b ∷ bytes) s).0 ≡ 0
      → send_loop (suc fuel) (b ∷ bytes) s ≡ (false, (asked (b ∷ bytes) s).1)
  unfolding send_loop
  loop_stop e = rw (e, send_loop)

  loop_more :
      (n : ℕ)
      → (asked (b ∷ bytes) s).0 ≡ suc n
      → send_loop (suc fuel) (b ∷ bytes) s
        ≡ send_loop fuel (drop (suc n) (b ∷ bytes)) (asked (b ∷ bytes) s).1
  unfolding send_loop
  loop_more n e = rw (e, send_loop)

stopped :
    (bytes : List ℕ) (s : Socket) → (asked bytes s).0 ≡ 0 → Sends bytes s false (asked bytes s).1
stopped bytes s e = record {
  taken = [];
  unsent = bytes;
  parts = refl;
  outgoing = unfold send in ap (λ (k : ℕ). s.outgoing ++ take k bytes) e;
  whole = λ h. cc;
  incoming = unfold send in refl;
}

went_on :
    (bytes : List ℕ) (s : Socket) (n : ℕ)
    → (asked bytes s).0 ≡ n
    → (answer : Bool) (s' : Socket) → Sends (drop n bytes) (asked bytes s).1 answer s'
    → Sends bytes s answer s'
unfolding send
went_on bytes s n e answer s' r = record {
  taken = take n bytes ++ r.taken;
  unsent = r.unsent;
  parts =
      sym (take-append-drop n bytes)
      ∙ ap (λ (t : List ℕ). take n bytes ++ t) r.parts
      ∙ sym (append_assoc (take n bytes) r.taken r.unsent);
  outgoing =
      r.outgoing
      ∙ ap (λ (k : ℕ). (s.outgoing ++ take k bytes) ++ r.taken) e
      ∙ append_assoc s.outgoing (take n bytes) r.taken;
  whole = r.whole;
  incoming = r.incoming;
}

send_loop-Sends :
    (fuel : ℕ) (bytes : List ℕ) (s : Socket)
    → Sends bytes s (send_loop fuel bytes s).0 (send_loop fuel bytes s).1
send_loop-Sends fuel [] s =
    unfold send_loop in
    record {
      taken = [];
      unsent = [];
      parts = refl;
      outgoing = sym (append-nil s.outgoing);
      whole = λ h. refl;
      incoming = refl;
    }
send_loop-Sends zero (b ∷ bytes) s =
    unfold send_loop in
    record {
      taken = [];
      unsent = b ∷ bytes;
      parts = refl;
      outgoing = sym (append-nil s.outgoing);
      whole = λ h. cc;
      incoming = refl;
    }
send_loop-Sends (suc fuel) (b ∷ bytes) s = elim (ℕ-cases (asked (b ∷ bytes) s).0) [
  | inl none_taken ↦ rw (loop_stop fuel b bytes s none_taken) (stopped (b ∷ bytes) s none_taken)
  | inr (n, some_taken) ↦ rw (loop_more fuel b bytes s n some_taken) (
      went_on (b ∷ bytes) s (suc n) some_taken _ _
        (send_loop-Sends fuel (drop (suc n) (b ∷ bytes)) (asked (b ∷ bytes) s).1))
]

-- `sendAll` gives the system a prefix of the bytes, and the whole of them if it returns true.
pub send_all-Sends :
    (bytes : List ℕ) (s : Socket) → Sends bytes s (send_all bytes s).0 (send_all bytes s).1
unfolding send_all
send_all-Sends bytes s = send_loop-Sends (length bytes) bytes s

-- A call takes something if there is room for a byte.
send-live :
    (b : ℕ) (bytes : List ℕ) (s : Socket) (room : ℕ) (rooms : List ℕ)
    → s.rooms ≡ room ∷ rooms
    → 0 < room
    → length (b ∷ bytes) < 2 ^ 32
    → (0 < (asked (b ∷ bytes) s).0) × ((asked (b ∷ bytes) s).1.rooms ≡ rooms)
unfolding send room_for
send-live b bytes s room rooms e h few =
    let (k, q, le) = int_size-live (length bytes) few in
    (
      subst (λ (rs : List ℕ). 0 < (room_for (int_size (length (b ∷ bytes))) rs).0) (sym e)
          (omega (arith, q)),
      ap (λ (rs : List ℕ). (room_for (int_size (length (b ∷ bytes))) rs).1) e,
    )

length-drop-le : (n : ℕ) (l : List ℕ) → length (drop n l) ≤ length l
length-drop-le zero l = omega arith
length-drop-le (suc n) [] = omega arith
length-drop-le (suc n) (x ∷ l) = omega (arith, length-drop-le n l)

send_loop_succeeds :
    (fuel : ℕ) (bytes : List ℕ) (s : Socket)
    → length bytes ≤ fuel
    → length bytes < 2 ^ 32
    → length bytes ≤ length s.rooms
    → All (λ (room : ℕ). 0 < room) s.rooms
    → (send_loop fuel bytes s).0 ≡ true
send_loop_succeeds fuel [] s h w k p = unfold send_loop in refl
send_loop_succeeds zero (b ∷ bytes) s h w k p = absurd (omega arith)
send_loop_succeeds (suc fuel) (b ∷ bytes) s h w k p = elim (List-cases s.rooms) [
  | inl no_rooms ↦ absurd (omega (arith, ap length no_rooms))
  | inr (room, rooms, e) ↦
      let ps : All (λ (room' : ℕ). 0 < room') (room ∷ rooms) =
        subst (All (λ (room' : ℕ). 0 < room')) e p in
      let (live, left) = send-live b bytes s room rooms e ps.0 w in
      elim (ℕ-cases (asked (b ∷ bytes) s).0) [
        | inl none_taken ↦ absurd (omega arith)
        | inr (n, some_taken) ↦ rw (loop_more fuel b bytes s n some_taken) (
            send_loop_succeeds fuel (drop (suc n) (b ∷ bytes)) (asked (b ∷ bytes) s).1
              (omega (arith, length-drop-le n bytes)) (omega (arith, length-drop-le n bytes))
              (omega (arith, length-drop-le n bytes, ap length left, ap length e))
              (subst (All (λ (room' : ℕ). 0 < room')) (sym left) ps.1))
      ]
]

-- While each call of `::send` takes a byte at least, and there are as many calls as bytes,
-- `sendAll` of fewer than 2^32 bytes returns true.
pub send_all_succeeds :
    (bytes : List ℕ) (s : Socket)
    → length bytes < 2 ^ 32
    → length bytes ≤ length s.rooms
    → All (λ (room : ℕ). 0 < room) s.rooms
    → (send_all bytes s).0 ≡ true
unfolding send_all
send_all_succeeds bytes s w k p = send_loop_succeeds (length bytes) bytes s (omega arith) w k p

-- When `sendAll` returns true, the system has taken exactly the bytes, in order.
pub send_all_whole :
    (bytes : List ℕ) (s : Socket)
    → (send_all bytes s).0 ≡ true
    → (send_all bytes s).1.outgoing ≡ s.outgoing ++ bytes
send_all_whole bytes s success =
    let r = send_all-Sends bytes s in
    r.outgoing
    ∙ ap (λ (l : List ℕ). s.outgoing ++ l)
        (sym (append-nil r.taken)
          ∙ ap (λ (l : List ℕ). r.taken ++ l) (sym (r.whole success))
          ∙ sym r.parts)
