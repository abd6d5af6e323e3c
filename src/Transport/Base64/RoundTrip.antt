-- ===== src/Transport/Base64/RoundTrip.antt =====
-- `base64Encode` against a decoder of RFC 4648.
use hello_websocket.Prelude.{true, false}
use hello_websocket.Codec.Wire.{IsByte}
use hello_websocket.Prelude.{
  ap₂, bit_or, ◌∙◌, ap, element, All, false, Bool, ℕ, ◌≡◌, refl, List, [], ◌∷◌, ltb, ◌==◌,
  if◌then◌else◌, ◌+◌, ◌-◌, ◌*◌, ◌/◌, ◌%◌, ◌^◌, ◌<◌, arith,
}
use hello_websocket.Prelude.Bits.{agree, agree→eq, bit_and_low, bit_or_disjoint}
use hello_websocket.Transport.Base64.{table, letter, base64_encode}

-- The value of a letter of the alphabet.
abbrev pub value : ℕ → ℕ
value c =
    if c == 43
    then 62
    else if c == 47
    then 63
    else if ltb c 58
    then c + 4
    else if ltb c 91
    then c - 65
    else c - 71

-- Four letters are 24 bits; `=` stands for what is missing of the last three bytes.
abbrev pub base64_decode : List ℕ → List ℕ
base64_decode (c0 ∷ c1 ∷ c2 ∷ c3 ∷ text) =
    let n = value c0 * 2 ^ 18 + value c1 * 2 ^ 12 + value c2 * 2 ^ 6 + value c3 in
    let rest = base64_decode text in
    if c2 == 61
    then ((value c0 * 2 ^ 18 + value c1 * 2 ^ 12) / 2 ^ 16) ∷ []
    else if c3 == 61
    then (let m = value c0 * 2 ^ 18 + value c1 * 2 ^ 12 + value c2 * 2 ^ 6 in
        (m / 2 ^ 16) ∷ (m / 2 ^ 8 % 256) ∷ [])
    else (n / 2 ^ 16) ∷ (n / 2 ^ 8 % 256) ∷ (n % 256) ∷ rest
base64_decode text = []

value-table : (i : ℕ) → i < 64 → value (element table i) ≡ i
unfolding agree
value-table i h = agree→eq (λ i. value (element table i)) (λ i. i) 64 refl i h

pub one_false : (b : Bool) → ◌≡◌ {A = ℕ} (if b then 1 else 0) 0 → b ≡ false
one_false true e = absurd (omega (arith, e))
one_false false e = refl

no_padding : (i : ℕ) → i < 64 → (element table i == 61) ≡ false
unfolding agree
no_padding i h =
    one_false (element table i == 61)
      (agree→eq (λ i. if element table i == 61 then 1 else 0) (λ i. 0) 64 refl i h)

-- A letter is the six bits from `k` on.
letter-value : (n k : ℕ) → value (letter n k) ≡ n / 2 ^ k % 64
unfolding letter
letter-value n k =
    ap (λ (i : ℕ). value (element table i)) (bit_and_low 6 (n / 2 ^ k))
    ∙ value-table (n / 2 ^ k % 64) (omega arith)

letter_no_padding : (n k : ℕ) → (letter n k == 61) ≡ false
unfolding letter
letter_no_padding n k =
    ap (λ (i : ℕ). element table i == 61) (bit_and_low 6 (n / 2 ^ k))
    ∙ no_padding (n / 2 ^ k % 64) (omega arith)

two_bytes : (a b : ℕ) → b < 256 → bit_or (a * 2 ^ 16) (b * 2 ^ 8) ≡ a * 65536 + b * 256
two_bytes a b h = bit_or_disjoint 16 a (b * 2 ^ 8) (omega arith)

three_bytes :
    (a b c : ℕ)
    → b < 256
    → c < 256
    → bit_or (bit_or (a * 2 ^ 16) (b * 2 ^ 8)) c ≡ a * 65536 + b * 256 + c
three_bytes a b c hb hc =
    ap (λ (x : ℕ). bit_or x c) {y = (a * 256 + b) * 2 ^ 8} (two_bytes a b hb ∙ omega arith)
    ∙ bit_or_disjoint 8 (a * 256 + b) c hc
    ∙ omega arith

cons_three :
    {a b c x y z : ℕ} {l r : List ℕ}
    → x ≡ a
    → y ≡ b
    → z ≡ c
    → l ≡ r
    → ◌≡◌ {A = List ℕ} (x ∷ y ∷ z ∷ l) (a ∷ b ∷ c ∷ r)
cons_three e f g h = cc

-- The Base64 decoding of what `base64Encode` returns on bytes is these bytes.
pub base64_decode-base64_encode :
    (bytes : List ℕ) → All IsByte bytes → base64_decode (base64_encode bytes) ≡ bytes
unfolding base64_encode
base64_decode-base64_encode [] h = refl
base64_decode-base64_encode (a ∷ []) h =
    let n = a * 2 ^ 16 in
    let v0 = letter-value n 18 in
    let v1 = letter-value n 12 in ap (λ (x : ℕ). x ∷ []) (omega (arith, v0, v1))
base64_decode-base64_encode (a ∷ b ∷ []) h =
    let n = bit_or (a * 2 ^ 16) (b * 2 ^ 8) in
    let j = two_bytes a b h.1.0 in
    let v0 = letter-value n 18 in
    let v1 = letter-value n 12 in
    let v2 = letter-value n 6 in
    rw (letter_no_padding n 6) (
      ap₂ (λ (x y : ℕ). x ∷ y ∷ []) (omega (arith, h.0, h.1.0, j, v0, v1, v2))
        (omega (arith, h.0, h.1.0, j, v0, v1, v2)))
base64_decode-base64_encode (a ∷ b ∷ c ∷ bytes) h =
    let n = bit_or (bit_or (a * 2 ^ 16) (b * 2 ^ 8)) c in
    let j = three_bytes a b c h.1.0 h.1.1.0 in
    let v0 = letter-value n 18 in
    let v1 = letter-value n 12 in
    let v2 = letter-value n 6 in
    let v3 = letter-value n 0 in
    rw (letter_no_padding n 6, letter_no_padding n 0)
      (cons_three (omega (arith, h.0, h.1.0, h.1.1.0, j, v0, v1, v2, v3))
        (omega (arith, h.0, h.1.0, h.1.1.0, j, v0, v1, v2, v3))
        (omega (arith, h.0, h.1.0, h.1.1.0, j, v0, v1, v2, v3))
        (base64_decode-base64_encode bytes h.1.1.1))
