-- ===== src/Transport/Base64/Visible.antt =====
-- What `base64Encode` and `std::to_string` write are visible characters.
use hello_websocket.Prelude.{
  ◌≤◌, element, All, Bool-cases, ℕ, zero, suc, ◌≡◌, refl, sym, subst, List, [], ◌∷◌, ltb, ltb→ge,
  if◌then◌else◌, ◌+◌, ◌*◌, ◌/◌, ◌%◌, ◌^◌, ◌<◌, bit_or, arith, inl, inr, pos,
}
use hello_websocket.Prelude.Bits.{agree, agree→eq, bit_and_low}
use hello_websocket.Hash.{decimal, to_string}
use hello_websocket.Transport.Base64.RoundTrip.{one_false}
use hello_websocket.Transport.Base64.{table, letter, base64_encode, ws_accept_key}

-- Neither blanks nor line ends.
abbrev pub IsVisible : List ℕ → Type 0
IsVisible s = All (λ (c : ℕ). 32 < c) s

table_visible : (i : ℕ) → i < 64 → 32 < element table i
unfolding agree
table_visible i h = ltb→ge (element table i) 33 (
    one_false (ltb (element table i) 33)
      (agree→eq (λ i. if ltb (element table i) 33 then 1 else 0) (λ i. 0) 64 refl i h))

letter_visible : (n k : ℕ) → 32 < letter n k
unfolding letter
letter_visible n k =
    subst (λ (i : ℕ). 32 < element table i) (sym (bit_and_low 6 (n / 2 ^ k)))
      (table_visible (n / 2 ^ k % 64) (omega arith))

pub base64_encode-IsVisible : (bytes : List ℕ) → IsVisible (base64_encode bytes)
unfolding base64_encode
base64_encode-IsVisible [] = tt
base64_encode-IsVisible (a ∷ []) =
    let n = a * 2 ^ 16 in
    (letter_visible n 18, (letter_visible n 12, (omega arith, (omega arith, tt))))
base64_encode-IsVisible (a ∷ b ∷ []) =
    let n = bit_or (a * 2 ^ 16) (b * 2 ^ 8) in
    (letter_visible n 18, (letter_visible n 12, (letter_visible n 6, (omega arith, tt))))
base64_encode-IsVisible (a ∷ b ∷ c ∷ bytes) =
    let n = bit_or (bit_or (a * 2 ^ 16) (b * 2 ^ 8)) c in
    (
      letter_visible n 18,
      (
        letter_visible n 12,
        (letter_visible n 6, (letter_visible n 0, base64_encode-IsVisible bytes)),
      ),
    )

pub base64_encode-cons :
    (a : ℕ) (bytes : List ℕ) → (c : ℕ) × (s : List ℕ) × (base64_encode (a ∷ bytes) ≡ c ∷ s)
unfolding base64_encode
base64_encode-cons a [] = (_, _, refl)
base64_encode-cons a (b ∷ []) = (_, _, refl)
base64_encode-cons a (b ∷ c ∷ bytes) = (_, _, refl)

pub ws_accept_key-IsVisible : (client_key : List ℕ) → IsVisible (ws_accept_key client_key)
unfolding ws_accept_key
ws_accept_key-IsVisible client_key = base64_encode-IsVisible _

-- A decimal digit.
abbrev pub IsDigit : ℕ → Type 0
IsDigit c = (48 ≤ c) × (c < 58)

decimal-IsDigit :
    (fuel n : ℕ) (after : List ℕ) → All IsDigit after → All IsDigit (decimal fuel n after)
unfolding decimal
decimal-IsDigit zero n after h = h
decimal-IsDigit (suc fuel) n after h = elim (Bool-cases (ltb n 10)) [
  | inl e ↦ rw (e) ((omega arith, omega arith), h)
  | inr e ↦
      rw (e) (decimal-IsDigit fuel (n / 10) ((48 + n % 10) ∷ after) ((omega arith, omega arith), h))
]

pub to_string-IsDigit : (n : ℕ) → All IsDigit (to_string (pos n))
unfolding to_string
to_string-IsDigit n = decimal-IsDigit 20 n [] tt

digits-IsVisible : (s : List ℕ) → All IsDigit s → IsVisible s
digits-IsVisible [] h = tt
digits-IsVisible (c ∷ s) h = (omega (arith, h.0.0), digits-IsVisible s h.1)

pub to_string-IsVisible : (n : ℕ) → IsVisible (to_string (pos n))
to_string-IsVisible n = digits-IsVisible (to_string (pos n)) (to_string-IsDigit n)
