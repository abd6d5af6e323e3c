-- ===== src/Hash/Digits.antt =====
-- The digits that `std::to_string`, `std::hex` and `hashNumber` write are ASCII, and so UTF-8.
use hello_websocket.Codec.Utf8.Valid.{is_valid_utf8_iff}
use hello_websocket.Codec.Wire.{IsText, IsByte}
use hello_websocket.Codec.Utf8.Spec.{IsScalar, utf8, utf8_head, utf8_tail}
use hello_websocket.Prelude.{
  ◌%◌, sym, ◌/◌, inr, ◌+◌, ap₂, lt→ltb, ◌++◌, ◌^◌, ◌∙◌, inl, ◌≤◌, ◌<◌, ap, arith, Bool-cases, ◌≡◌,
  refl, zero, suc, ◌∷◌, [], List, All,
}
use hello_websocket.Hash.{
  take, negsuc, ltb, pos, length, ℤ, ℕ, decimal, to_string, hex_digit, big_endian, sha256,
  hex_bytes, hash_number,
}

abbrev pub IsAscii : List ℕ → Type 0
IsAscii s = All (λ (b : ℕ). b < 128) s

ascii_head : (b : ℕ) → b < 128 → (utf8_head b ≡ b) × (utf8_tail b ≡ [])
ascii_head b h = rw (lt→ltb b 0x80 h) (refl, refl)

utf8-ascii : (s : List ℕ) → IsAscii s → s ≡ utf8 s
utf8-ascii [] h = refl
utf8-ascii (b ∷ s) h =
    let (head, tail) = ascii_head b h.0 in
    ap (λ (l : List ℕ). b ∷ l) (utf8-ascii s h.1)
    ∙ ap₂ (λ (x : ℕ) (l : List ℕ). x ∷ (l ++ utf8 s)) (sym head) (sym tail)

IsScalar-ascii : (s : List ℕ) → IsAscii s → All IsScalar s
IsScalar-ascii [] h = tt
IsScalar-ascii (b ∷ s) h = ((omega arith, inl (omega arith)), IsScalar-ascii s h.1)

IsByte-ascii : (s : List ℕ) → IsAscii s → All IsByte s
IsByte-ascii [] h = tt
IsByte-ascii (b ∷ s) h = (omega arith, IsByte-ascii s h.1)

pub IsText-ascii : (s : List ℕ) → IsAscii s → length s < 2 ^ 32 → IsText s
IsText-ascii s h l = record {
  bytes = IsByte-ascii s h;
  valid = (is_valid_utf8_iff s (IsByte-ascii s h)).1 (s, IsScalar-ascii s h, utf8-ascii s h);
  short = l;
}

pub decimal-IsAscii : (fuel n : ℕ) (after : List ℕ) → IsAscii after → IsAscii (decimal fuel n after)
unfolding decimal
decimal-IsAscii zero n after h = h
decimal-IsAscii (suc fuel) n after h = elim (Bool-cases (ltb n 10)) [
  | inl e ↦ rw (e) (omega arith, h)
  | inr e ↦ rw (e) (decimal-IsAscii fuel (n / 10) ((48 + n % 10) ∷ after) (omega arith, h))
]

pub length-decimal :
    (fuel n : ℕ) (after : List ℕ) → length (decimal fuel n after) ≤ fuel + length after
unfolding decimal
length-decimal zero n after = omega arith
length-decimal (suc fuel) n after = elim (Bool-cases (ltb n 10)) [
  | inl e ↦ rw (e) (omega arith)
  | inr e ↦ rw (e) (omega (arith, length-decimal fuel (n / 10) ((48 + n % 10) ∷ after)))
]

pub to_string-IsText : (v : ℤ) → IsText (to_string v)
unfolding to_string
to_string-IsText (pos n) =
    IsText-ascii (decimal 20 n []) (decimal-IsAscii 20 n [] tt)
      (omega (arith, length-decimal 20 n []))
to_string-IsText (negsuc n) =
    IsText-ascii (45 ∷ decimal 20 (suc n) []) (omega arith, decimal-IsAscii 20 (suc n) [] tt)
      (omega (arith, length-decimal 20 (suc n) []))

pub length-to_string : (v : ℤ) → length (to_string v) ≤ 21
unfolding to_string
length-to_string (pos n) = omega (arith, length-decimal 20 n [])
length-to_string (negsuc n) = omega (arith, length-decimal 20 (suc n) [])

pub hex_digit-lt : (d : ℕ) → d < 16 → hex_digit d < 128
unfolding hex_digit
hex_digit-lt d h = ground arith

hex_bytes-IsAscii : (bytes : List ℕ) → All IsByte bytes → IsAscii (hex_bytes bytes)
unfolding hex_bytes
hex_bytes-IsAscii [] h = tt
hex_bytes-IsAscii (b ∷ bytes) h = (
  hex_digit-lt (b / 16) (omega (arith, h.0)),
  (hex_digit-lt (b % 16) (omega arith), hex_bytes-IsAscii bytes h.1),
)

-- `sha256` writes 32 bytes.
pub sha256-IsByte : (bytes : List ℕ) → All IsByte (sha256 bytes) × (length (sha256 bytes) ≡ 32)
unfolding sha256 big_endian
sha256-IsByte bytes = (omega arith, refl)

-- For every number `hashNumber` returns ten characters that are a text of the protocol.
pub hash_number-IsText : (num : ℤ) → IsText (hash_number num) × (length (hash_number num) ≡ 10)
unfolding hash_number big_endian
hash_number-IsText num = (
  IsText-ascii (hash_number num) (hex_bytes-IsAscii (take 5 (sha256 (to_string num))) (omega arith))
      (omega arith),
  refl,
)
