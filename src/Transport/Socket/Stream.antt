-- ===== src/Transport/Socket/Stream.antt =====
-- The loops over `::recv` and `::send` hide how the system cuts the bytes up: `recvAll` returns
-- the next bytes of the stream, and `sendAll` hands over a prefix, the whole if it returns true.
use hello_websocket.Prelude.{
  subst, ◌%◌, ◌^◌, ◌⊎◌, Bool-cases, ltb, ltb→lt, ltb→ge, length-take, inr, inl, List-cases,
  append-nil, length-append, append-split, nil_of_length, Option, length-take-le, append_assoc, ◌∙◌,
  take-append-drop, sym, ap, ℕ, zero, suc, ◌-◌, ◌≤◌, ◌<◌, ◌≡◌, refl, List, [], ◌∷◌, ◌++◌, length,
  take, drop, arith, none, some,
}
use hello_websocket.Transport.Socket.{
  int_size, recv_from, put_back, Socket, recv, recv_loop, recv_all,
}

-- The bytes that arrive before the first answer that is not positive.
abbrev pub stream_of : List (List ℕ) → List ℕ
stream_of [] = []
stream_of ([] ∷ pieces) = []
stream_of ((b ∷ bs) ∷ pieces) = (b ∷ bs) ++ stream_of pieces

unfoldable pub stream : Socket → List ℕ
stream s = stream_of s.incoming

pub stream_same : (s s' : Socket) → s'.incoming ≡ s.incoming → stream s' ≡ stream s
unfolding stream
stream_same s s' e = ap stream_of e

stream_of-put_back :
    (l : List ℕ) (pieces : List (List ℕ)) → stream_of (put_back l pieces) ≡ l ++ stream_of pieces
unfolding put_back
stream_of-put_back [] pieces = refl
stream_of-put_back (b ∷ bs) pieces = refl

-- A positive count below 2^32 stays positive, and no count grows.
pub int_size-live : (n : ℕ) → suc n < 2 ^ 32 → (k : ℕ) × (int_size (suc n) ≡ suc k) × (k ≤ n)
unfolding int_size
int_size-live n h = elim (Bool-cases (ltb (suc n % 2 ^ 32) (2 ^ 31))) [
  | inl small ↦ (n, rw (small) (omega arith), omega arith)
  | inr large ↦
      (0x7fffefff, rw (large) (omega arith), omega (arith, ltb→ge (suc n % 2 ^ 32) (2 ^ 31) large))
]

-- A call of `::recv` for `suc n` bytes takes a part of the stream, and something unless it is
-- empty.
pub record Delivers (n : ℕ) (whole bytes rest : List ℕ) : Type 0 where
  pub parts : whole ≡ bytes ++ rest
  pub few : length bytes ≤ n
  pub live : bytes ≡ [] → whole ≡ []

recv_from-Delivers :
    (n : ℕ) (pieces : List (List ℕ))
    → Delivers
        (suc n)
        (stream_of pieces)
        (recv_from (suc n) pieces).0
        (stream_of (recv_from (suc n) pieces).1)
unfolding recv_from
recv_from-Delivers n [] = record { parts = refl; few = omega arith; live = λ e. refl }
recv_from-Delivers n ([] ∷ pieces) = record { parts = refl; few = omega arith; live = λ e. refl }
recv_from-Delivers n ((b ∷ bs) ∷ pieces) = record {
  parts =
      ap (λ (l : List ℕ). (b ∷ l) ++ stream_of pieces) (sym (take-append-drop n bs))
      ∙ append_assoc (b ∷ take n bs) (drop n bs) (stream_of pieces)
      ∙ ap (λ (l : List ℕ). (b ∷ take n bs) ++ l) (sym (stream_of-put_back (drop n bs) pieces));
  few = omega (arith, length-take-le n bs);
  live = λ e. cc;
}

pub recv-Delivers :
    (n : ℕ) (s : Socket)
    → Delivers (suc n) (stream s) (recv (suc n) s).0 (stream (recv (suc n) s).1)
unfolding recv stream
recv-Delivers n s = recv_from-Delivers n s.incoming

-- What the loop of `recvAll` does with `n` bytes to go: it gets the next `n` bytes of the stream,
-- if there are as many, and else it returns false with the stream used up.
pub record Receives (n : ℕ) (got : List ℕ) (s : Socket) (answer : Option (List ℕ)) (s' : Socket)
    : Type 0 where
  pub enough :
      (x rest : List ℕ)
      → stream s ≡ x ++ rest
      → length x ≡ n
      → (answer ≡ some (got ++ x)) × (stream s' ≡ rest)
  pub short : length (stream s) < n → (answer ≡ none) × (stream s' ≡ [])
  pub rooms : s'.rooms ≡ s.rooms
  pub outgoing : s'.outgoing ≡ s.outgoing

-- What a round of the loop asks the system for.
abbrev asked : ℕ → Socket → List ℕ × Socket
asked left s = recv (int_size (suc left)) s

asked-Delivers :
    (n : ℕ) (s : Socket)
    → suc n < 2 ^ 32
    → Delivers (suc n) (stream s) (asked n s).0 (stream (asked n s).1)
asked-Delivers n s w =
    let (k, q, le) = int_size-live n w in
    let d = recv-Delivers k s in
    subst (λ (size : ℕ). Delivers (suc n) (stream s) (recv size s).0 (stream (recv size s).1))
      (sym q) (record { parts = d.parts; few = omega (arith, d.few); live = d.live })

stopped :
    (n : ℕ) (got : List ℕ) (s : Socket)
    → suc n < 2 ^ 32
    → (asked n s).0 ≡ []
    → Receives (suc n) got s none (asked n s).1
stopped n got s w e =
    let d = asked-Delivers n s w in
    record {
      enough = λ x rest ex l.
          absurd (omega (arith, ap length (d.live e), ap length ex, length-append x rest));
      short =
          λ l. (refl, sym (d.parts ∙ ap (λ (t : List ℕ). t ++ stream (asked n s).1) e) ∙ d.live e);
      rooms = unfold recv in refl;
      outgoing = unfold recv in refl;
    }

went_on :
    (n : ℕ) (got : List ℕ) (s : Socket) (b : ℕ) (bs : List ℕ)
    → suc n < 2 ^ 32
    → (asked n s).0 ≡ b ∷ bs
    → (answer : Option (List ℕ)) (s' : Socket)
    → Receives (suc n - length (b ∷ bs)) (got ++ b ∷ bs) (asked n s).1 answer s'
    → Receives (suc n) got s answer s'
went_on n got s b bs w e answer s' r =
    let d = asked-Delivers n s w in
    let whole : stream s ≡ (b ∷ bs) ++ stream (asked n s).1 =
      d.parts ∙ ap (λ (t : List ℕ). t ++ stream (asked n s).1) e in
    let few : length (b ∷ bs) ≤ suc n = omega (arith, ap length e, d.few) in
    record {
      enough = λ x rest ex l.
          let (mid, front, back) = append-split x rest (b ∷ bs) _ (sym ex ∙ whole) (omega arith) in
          let (a, t) =
            r.enough mid rest back (omega (arith, ap length front, length-append (b ∷ bs) mid)) in
          (
            a ∙ ap some (append_assoc got (b ∷ bs) mid ∙ ap (λ (t : List ℕ). got ++ t) (sym front)),
            t,
          );
      short = λ l.
          r.short (omega (arith, ap length whole, length-append (b ∷ bs) (stream (asked n s).1)));
      rooms = r.rooms ∙ unfold recv in refl;
      outgoing = r.outgoing ∙ unfold recv in refl;
    }

module _ (fuel left : ℕ) (got : List ℕ) (s : Socket) where
  loop_stop :
      (asked left s).0 ≡ [] → recv_loop (suc fuel) (suc left) got s ≡ (none, (asked left s).1)
  unfolding recv_loop
  loop_stop e = rw (e, recv_loop)

  loop_more :
      (b : ℕ) (bs : List ℕ)
      → (asked left s).0 ≡ b ∷ bs
      → recv_loop (suc fuel) (suc left) got s
        ≡ recv_loop fuel (suc left - length (b ∷ bs)) (got ++ b ∷ bs) (asked left s).1
  unfolding recv_loop
  loop_more b bs e = rw (e, recv_loop)

recv_loop-Receives :
    (fuel n : ℕ) (got : List ℕ) (s : Socket)
    → n ≤ fuel
    → n < 2 ^ 32
    → Receives n got s (recv_loop fuel n got s).0 (recv_loop fuel n got s).1
recv_loop-Receives fuel zero got s h w =
    unfold recv_loop in
    record {
      enough = λ x rest e l.
          let empty = nil_of_length x l in
          (
            ap some (sym (append-nil got) ∙ ap (λ (t : List ℕ). got ++ t) (sym empty)),
            e ∙ ap (λ (t : List ℕ). t ++ rest) empty,
          );
      short = λ l. absurd (omega arith);
      rooms = refl;
      outgoing = refl;
    }
recv_loop-Receives zero (suc n) got s h w = absurd (omega arith)
recv_loop-Receives (suc fuel) (suc n) got s h w = elim (List-cases (asked n s).0) [
  | inl empty ↦ rw (loop_stop fuel n got s empty) (stopped n got s w empty)
  | inr (b, bs, some_bytes) ↦ rw (loop_more fuel n got s b bs some_bytes) (
      went_on n got s b bs w some_bytes _ _ (
        recv_loop-Receives fuel (suc n - length (b ∷ bs)) (got ++ b ∷ bs) (asked n s).1
          (omega arith) (omega arith)))
]

-- `recvAll` of fewer than 2^32 bytes, however the system cuts the stream up: if `n` bytes or more arrive, it returns the
-- first `n` and leaves the rest, and if fewer arrive, it returns false. It sends nothing.
pub recv_all-Receives :
    (n : ℕ) (s : Socket) → n < 2 ^ 32 → Receives n [] s (recv_all n s).0 (recv_all n s).1
unfolding recv_all
recv_all-Receives n s h = recv_loop-Receives n n [] s (omega arith) h

-- However the system cuts the stream up, `recvAll` of `n` bytes, fewer than 2^32, decides by what
-- arrives: if `n` bytes or more come, it returns the first `n` and leaves the rest in the stream, and
-- if the connection ends before, it returns false with the stream used up. It sends nothing.
pub recv_all_decides :
    (n : ℕ) (s : Socket)
    → n < 2 ^ 32
    → (((x : List ℕ) × (rest : List ℕ) × (stream s ≡ x ++ rest)
          × (length x ≡ n)
          × ((recv_all n s).0 ≡ some x)
          × (stream (recv_all n s).1 ≡ rest))
        ⊎ ((length (stream s) < n) × ((recv_all n s).0 ≡ none) × (stream (recv_all n s).1 ≡ [])))
      × ((recv_all n s).1.outgoing ≡ s.outgoing)
recv_all_decides n s h =
    let r = recv_all-Receives n s h in
    (
      elim (Bool-cases (ltb (length (stream s)) n)) [
        | inl less ↦
            let few = ltb→lt (length (stream s)) n less in
            let (answer, empty) = r.short few in inr (few, answer, empty)
        | inr enough ↦
            let parts = sym (take-append-drop n (stream s)) in
            let size = length-take n (stream s) (ltb→ge (length (stream s)) n enough) in
            let (answer, rest) = r.enough (take n (stream s)) (drop n (stream s)) parts size in
            inl (take n (stream s), drop n (stream s), parts, size, answer, rest)
      ],
      r.outgoing,
    )
