-- ===== src/Strings/Find.antt =====
-- Where `find` finds a text that begins with a carriage return, in a text made of lines.
use hello_websocket.Prelude.{inr, Bool-cases, inl, if◌then◌else◌}
use hello_websocket.Prelude.{
  ◌⊎◌, ◌≤◌, ℕ, zero, suc, ◌+◌, ◌≡◌, ◌≢◌, refl, ap, sym, ◌∙◌, List, [], ◌∷◌, ◌++◌, length, drop, All,
  true, false, Option, none, some, arith,
}
use hello_websocket.Strings.{starts_with, to_lower, lower, shift, find}

-- A text without carriage returns: a line.
abbrev pub IsLine : List ℕ → Type 0
IsLine l = All (λ (c : ℕ). c ≢ 13) l

pub shift_zero : (o : Option ℕ) → shift 0 o ≡ o
unfolding shift
shift_zero none = refl
shift_zero (some p) = ap some (omega arith)

pub shift-shift : (a b : ℕ) (o : Option ℕ) → shift a (shift b o) ≡ shift (a + b) o
unfolding shift
shift-shift a b none = refl
shift-shift a b (some p) = ap some (omega arith)

pub find_step :
    (c : ℕ) (s t : List ℕ) → starts_with (c ∷ s) t ≡ false → find (c ∷ s) t ≡ shift 1 (find s t)
unfolding find
find_step c s t e = rw (e, find) refl

pub other_char : (c d : ℕ) (s t : List ℕ) → c ≢ d → starts_with (c ∷ s) (d ∷ t) ≡ false
unfolding starts_with
other_char c d s t h = ground arith

-- A line in front only moves the position.
pub find_past_line :
    (l s t : List ℕ) → IsLine l → find (l ++ s) (13 ∷ t) ≡ shift (length l) (find s (13 ∷ t))
unfolding shift
find_past_line [] s t h = sym (shift_zero (find s (13 ∷ t)))
find_past_line (c ∷ l) s t h =
    find_step c (l ++ s) (13 ∷ t) (other_char c 13 (l ++ s) t h.0)
    ∙ ap (shift 1) (find_past_line l s t h.1)
    ∙ shift-shift 1 (length l) (find s (13 ∷ t))
    ∙ ap (λ (n : ℕ). shift n (find s (13 ∷ t))) (omega arith)

pub find_here : (s t : List ℕ) → starts_with s t ≡ true → find s t ≡ some 0
unfolding find
find_here [] t e = rw (e, find) refl
find_here (c ∷ s) t e = rw (e, find) refl

-- At the end of a line, what follows matches or the search goes on behind the next line.
pub find_at_line :
    (l s t : List ℕ)
    → IsLine l
    → find (13 ∷ 10 ∷ (l ++ s)) (13 ∷ 10 ∷ t)
      ≡ (if starts_with (l ++ s) t then some 0 else shift (2 + length l) (find s (13 ∷ 10 ∷ t)))
unfolding starts_with
find_at_line l s t h = elim (Bool-cases (starts_with (l ++ s) t)) [
  | inl here ↦ find_here (13 ∷ 10 ∷ (l ++ s)) (13 ∷ 10 ∷ t) here ∙ rw (here) refl
  | inr later ↦
      find_step 13 (10 ∷ (l ++ s)) (13 ∷ 10 ∷ t) later
      ∙ ap (shift 1) (
          find_step 10 (l ++ s) (13 ∷ 10 ∷ t) (other_char 10 13 (l ++ s) (10 ∷ t) (cc))
          ∙ ap (shift 1) (find_past_line l s (10 ∷ t) h))
      ∙ shift-shift 1 1 (shift (length l) (find s (13 ∷ 10 ∷ t)))
      ∙ shift-shift 2 (length l) (find s (13 ∷ 10 ∷ t))
      ∙ rw (later) refl
]

shift_one : (k : ℕ) → shift 1 (some k) ≡ some (suc k)
unfolding shift
shift_one k = ap some (omega arith)

-- What `find` finds is not behind any place where the text stands.
pub find-le :
    (s t : List ℕ) (i : ℕ)
    → starts_with (drop i s) t ≡ true
    → (k : ℕ) × (find s t ≡ some k) × (k ≤ i)
find-le s t zero e = (0, find_here s t e, omega arith)
find-le [] t (suc i) e = (0, find_here [] t e, omega arith)
find-le (c ∷ s) t (suc i) e =
    let (k, found, small) = find-le s t i e in
    elim (Bool-cases (starts_with (c ∷ s) t)) [
      | inl here ↦ (0, find_here (c ∷ s) t here, omega arith)
      | inr not_here ↦
          (suc k, find_step c s t not_here ∙ ap (shift 1) found ∙ shift_one k, omega arith)
    ]

pub starts_with-append : (t s : List ℕ) → starts_with (t ++ s) t ≡ true
unfolding starts_with
starts_with-append [] s = refl
starts_with-append (c ∷ t) s = ground (arith, starts_with-append t s)

every_start : (s l : List ℕ) → starts_with s [] ≡ starts_with l []
unfolding starts_with
every_start [] [] = refl
every_start [] (c ∷ l) = refl
every_start (b ∷ s) [] = refl
every_start (b ∷ s) (c ∷ l) = refl

-- A text without carriage returns is matched within the line.
pub starts_with_line :
    (l s t : List ℕ)
    → IsLine t
    → (s ≡ []) ⊎ ((s' : List ℕ) × (s ≡ 13 ∷ s'))
    → starts_with (l ++ s) t ≡ starts_with l t
unfolding starts_with
starts_with_line l s [] h e = every_start (l ++ s) l
starts_with_line [] s (c ∷ t) h e = elim e [
  | inl empty ↦ rw (empty) refl
  | inr (s', begins) ↦ rw (begins) (other_char 13 c s' t (λ q. h.0 (sym q)))
]
starts_with_line (b ∷ l) s (c ∷ t) h e = ground (arith, starts_with_line l s t h.1 e)

-- The prefix and what is behind it.
pub starts_with-split : (s t : List ℕ) → starts_with s t ≡ true → s ≡ t ++ drop (length t) s
unfolding starts_with
starts_with-split s [] e = refl
starts_with-split [] (c ∷ t) e = cc
starts_with-split (b ∷ s) (c ∷ t) e = ground (arith, starts_with-split s t)

pub lower-append : (s t : List ℕ) → lower (s ++ t) ≡ lower s ++ lower t
unfolding lower
lower-append [] t = refl
lower-append (c ∷ s) t = ap (λ (l : List ℕ). to_lower c ∷ l) (lower-append s t)

pub length-lower : (s : List ℕ) → length (lower s) ≡ length s
unfolding lower
length-lower [] = refl
length-lower (c ∷ s) = ap suc (length-lower s)

pub drop-lower : (n : ℕ) (s : List ℕ) → drop n (lower s) ≡ lower (drop n s)
unfolding lower
drop-lower zero s = refl
drop-lower (suc n) [] = refl
drop-lower (suc n) (c ∷ s) = drop-lower n s

pub lower-IsLine : (l : List ℕ) → IsLine l → IsLine (lower l)
unfolding lower to_lower
lower-IsLine [] h = tt
lower-IsLine (c ∷ l) h = (ground (arith, h.0), lower-IsLine l h.1)
