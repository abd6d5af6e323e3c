-- ===== src/Codec/Utf8/Inside.antt =====
-- `isValidUtf8` reads nothing outside `data`, and a round takes a byte at least.
use hello_websocket.Prelude.{
  subst, ◌≤◌, ◌≡◌, ◌⊎◌, inl, inr, refl, sym, subst, true, false, Bool, Bool-cases, ℕ, zero, suc,
  List, [], ◌∷◌, length, arith, ltb, ltb→ge, if◌then◌else◌, ◌==◌, bit_and, bit_or, ◌*◌, ◌%◌, ◌^◌,
}
use hello_websocket.Codec.Outcome.{Result, ok, fault}
use hello_websocket.Codec.Utf8.{
  Reading, goes, refuses, outside, Lead, ascii, multi, invalid, lead, continuation, is_out_of_range,
  accept, sequence, utf8_round, utf8_loop, is_valid_utf8,
}

-- What is left has at most `n` bytes, and nothing outside was read.
abbrev IsInside : ℕ → Reading (List ℕ) → Type 0
IsInside n (goes rest) = length rest ≤ n
IsInside n refuses = Unit {0}
IsInside n outside = ⊥

abbrev IsInsideChar : ℕ → Reading (ℕ × List ℕ) → Type 0
IsInsideChar n (goes r) = length r.1 ≤ n
IsInsideChar n refuses = Unit {0}
IsInsideChar n outside = ⊥

more_or_refuses :
    (test : Bool) (n : ℕ) (r : Reading (ℕ × List ℕ))
    → IsInsideChar n r
    → IsInsideChar n (if test then r else refuses)
more_or_refuses true n r h = h
more_or_refuses false n r h = tt

weaken : (r : Reading (ℕ × List ℕ)) (n m : ℕ) → n ≤ m → IsInsideChar n r → IsInsideChar m r
weaken (goes r) n m l h = omega arith
weaken refuses n m l h = tt
weaken outside n m l h = h

continuation-IsInside :
    (k c : ℕ) (rest : List ℕ) → k ≤ length rest → IsInsideChar (length rest) (continuation k c rest)
unfolding continuation
continuation-IsInside zero c rest h = omega arith
continuation-IsInside (suc k) c [] h = absurd (omega arith)
continuation-IsInside (suc k) c (b ∷ rest) h =
    let more = continuation k (bit_or (c * 2 ^ 6 % 2 ^ 32) (bit_and b 0x3f)) rest in
    more_or_refuses (bit_and b 0xc0 == 0x80) (length (b ∷ rest)) more (
      weaken more (length rest) (length (b ∷ rest)) (omega arith)
        (continuation-IsInside k _ rest (omega arith)))

goes_unless :
    (test : Bool) (n : ℕ) (rest : List ℕ)
    → length rest ≤ n
    → IsInside n (if test then refuses else goes rest)
goes_unless true n rest h = tt
goes_unless false n rest h = h

accept-IsInside :
    (low n : ℕ) (r : Reading (ℕ × List ℕ)) → IsInsideChar n r → IsInside n (accept low r)
unfolding accept
accept-IsInside low n refuses h = tt
accept-IsInside low n outside h = h
accept-IsInside low n (goes (c, rest)) h = goes_unless (is_out_of_range c low) n rest h

sequence-IsInside : (k : Lead) (rest : List ℕ) → IsInside (length rest) (sequence k rest)
unfolding sequence
sequence-IsInside ascii rest = omega arith
sequence-IsInside invalid rest = tt
sequence-IsInside (multi extra c low) rest = elim (Bool-cases (ltb (length rest) extra)) [
  | inl short ↦ rw (short, sequence) tt
  | inr enough ↦
      rw (enough, sequence)
        (accept-IsInside low (length rest) (continuation extra c rest)
          (continuation-IsInside extra c rest (ltb→ge (length rest) extra enough)))
]

round-IsInside : (b : ℕ) (rest : List ℕ) → IsInside (length rest) (utf8_round b rest)
unfolding utf8_round
round-IsInside b rest = sequence-IsInside (lead b) rest

pub Reading-cases :
    (r : Reading (List ℕ)) → ((rest : List ℕ) × (r ≡ goes rest)) ⊎ ((r ≡ refuses) ⊎ (r ≡ outside))
Reading-cases (goes rest) = inl (rest, refl)
Reading-cases refuses = inr (inl refl)
Reading-cases outside = inr (inr refl)

pub loop_go :
    (fuel b : ℕ) (rest r : List ℕ)
    → utf8_round b rest ≡ goes r
    → utf8_loop (suc fuel) (b ∷ rest) ≡ utf8_loop fuel r
unfolding utf8_loop
loop_go fuel b rest r e = rw (e, utf8_loop)

pub loop_stop :
    (fuel b : ℕ) (rest : List ℕ)
    → utf8_round b rest ≡ refuses
    → utf8_loop (suc fuel) (b ∷ rest) ≡ ok false
unfolding utf8_loop
loop_stop fuel b rest e = rw (e, utf8_loop)

pub loop_outside :
    (fuel b : ℕ) (rest : List ℕ)
    → utf8_round b rest ≡ outside
    → utf8_loop (suc fuel) (b ∷ rest) ≡ fault
unfolding utf8_loop
loop_outside fuel b rest e = rw (e, utf8_loop)

-- The loop answers.
abbrev Answers : Result Bool → Type 0
Answers r = (r ≡ ok true) ⊎ (r ≡ ok false)

loop-Answers : (fuel : ℕ) (bytes : List ℕ) → length bytes ≤ fuel → Answers (utf8_loop fuel bytes)
loop-Answers fuel [] h = inl (unfold utf8_loop in refl)
loop-Answers zero (b ∷ rest) h = absurd (omega arith)
loop-Answers (suc fuel) (b ∷ rest) h = elim (Reading-cases (utf8_round b rest)) [
  | inl (rest', e) ↦
      let few : length rest' ≤ length rest =
        subst (IsInside (length rest)) e (round-IsInside b rest) in
      subst Answers (sym (loop_go fuel b rest rest' e)) (loop-Answers fuel rest' (omega arith))
  | inr (inl e) ↦ inr (loop_stop fuel b rest e)
  | inr (inr e) ↦ absurd (subst (IsInside (length rest)) e (round-IsInside b rest))
]

-- `isValidUtf8` returns, and reads nothing outside its bytes.
pub is_valid_utf8_answers :
    (bytes : List ℕ) → (is_valid_utf8 bytes ≡ ok true) ⊎ (is_valid_utf8 bytes ≡ ok false)
unfolding is_valid_utf8
is_valid_utf8_answers bytes = loop-Answers (length bytes) bytes (omega arith)
