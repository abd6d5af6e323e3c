-- ===== src/Codec/Utf8/Rounds.antt =====
-- One round of the loop of `isValidUtf8` takes the encoding of one code point.
use hello_websocket.Codec.Wire.{IsByte}
use hello_websocket.Prelude.{
  ltb→ge, inr, ltb→lt, inl, Bool-cases, sym, ◌∙◌, ◌⊎◌, Bool, ◌&&◌, ◌≤◌, All, ℕ, suc, ◌*◌, ◌+◌, ◌/◌,
  ◌%◌, ◌^◌, ◌<◌, ◌≡◌, refl, List, [], ◌∷◌, ◌++◌, arith, bit_or, bit_and, ltb, ◌==◌, if◌then◌else◌,
}
use hello_websocket.Codec.Utf8.Spec.{IsScalar, utf8_head, utf8_tail}
use hello_websocket.Prelude.Bits.{bit_or_disjoint}
use hello_websocket.Codec.Utf8.Masks.{top2, top3, top4, top5, low3, low4, low5, low6}
use hello_websocket.Codec.Utf8.{
  sequence, Lead, ascii, multi, invalid, lead, utf8_round, continuation, accept, is_out_of_range,
  goes, refuses,
}

-- The leading byte in arithmetic.
lead_lem :
    (b : ℕ)
    → b < 256
    → lead b ≡ (
        if ltb b 0x80
        then ascii
        else if ltb b 0xc0
        then invalid
        else if ltb b 0xe0
        then multi 1 (b % 32) 0x80
        else if ltb b 0xf0
        then multi 2 (b % 16) 0x800
        else if ltb b 0xf8
        then multi 3 (b % 8) 0x10000
        else invalid)
unfolding lead
lead_lem b h = ground (arith, top3 b h, top4 b h, top5 b h, low5 b h, low4 b h, low3 b h)

-- Six more bits.
next_bits :
    (c b : ℕ)
    → c < 2 ^ 26
    → b < 256
    → bit_or (c * 2 ^ 6 % 2 ^ 32) (bit_and b 0x3f) ≡ c * 64 + b % 64
next_bits c b h hb = ground (arith, low6 b hb, bit_or_disjoint 6 c (b % 64))

pub continuation-cons :
    (k c b : ℕ) (rest : List ℕ)
    → c < 2 ^ 26
    → b < 256
    → continuation (suc k) c (b ∷ rest)
      ≡ (if b / 64 == 2 then continuation k (c * 64 + b % 64) rest else refuses)
unfolding continuation
continuation-cons k c b rest h hb = ground (arith, next_bits c b h hb, top2 b hb)

continuation_done : (c : ℕ) (l : List ℕ) → continuation 0 c l ≡ goes (c, l)
unfolding continuation
continuation_done c l = refl

abbrev cont : ℕ → Bool
cont b = b / 64 == 2

-- A whole sequence behind a leading byte with the bits `c`.
sequence_two :
    (c b1 : ℕ) (l : List ℕ)
    → c < 32
    → b1 < 256
    → sequence (multi 1 c 0x80) (b1 ∷ l)
      ≡ (if cont b1 then accept 0x80 (goes (c * 64 + b1 % 64, l)) else refuses)
unfolding sequence accept
sequence_two c b1 l h h1 =
    ground (arith, continuation-cons 0 c b1 l, continuation_done (c * 64 + b1 % 64) l)

sequence_three :
    (c b1 b2 : ℕ) (l : List ℕ)
    → c < 16
    → b1 < 256
    → b2 < 256
    → sequence (multi 2 c 0x800) (b1 ∷ b2 ∷ l) ≡ (
        if cont b1 && cont b2
        then accept 0x800 (goes ((c * 64 + b1 % 64) * 64 + b2 % 64, l))
        else refuses)
unfolding sequence accept
sequence_three c b1 b2 l h h1 h2 =
    let c1 = c * 64 + b1 % 64 in
    ground (
      arith,
      continuation-cons 1 c b1 (b2 ∷ l),
      continuation-cons 0 c1 b2 l,
      continuation_done (c1 * 64 + b2 % 64) l,
    )

sequence_four :
    (c b1 b2 b3 : ℕ) (l : List ℕ)
    → c < 8
    → b1 < 256
    → b2 < 256
    → b3 < 256
    → sequence (multi 3 c 0x10000) (b1 ∷ b2 ∷ b3 ∷ l) ≡ (
        if cont b1 && (cont b2 && cont b3)
        then accept 0x10000 (goes (((c * 64 + b1 % 64) * 64 + b2 % 64) * 64 + b3 % 64, l))
        else refuses)
unfolding sequence accept
sequence_four c b1 b2 b3 l h h1 h2 h3 =
    let c1 = c * 64 + b1 % 64 in
    let c2 = c1 * 64 + b2 % 64 in
    ground (
      arith,
      continuation-cons 2 c b1 (b2 ∷ b3 ∷ l),
      continuation-cons 1 c1 b2 (b3 ∷ l),
      continuation-cons 0 c2 b3 l,
      continuation_done (c2 * 64 + b3 % 64) l,
    )

-- The bytes `b ∷ rest` are the encoding of one code point, with `r` behind it.
abbrev pub IsChar : ℕ → List ℕ → List ℕ → Type 0
IsChar b rest r = (c : ℕ) × IsScalar c × (b ∷ rest ≡ utf8_head c ∷ (utf8_tail c ++ r))

two_sound :
    (b : ℕ) (rest r : List ℕ)
    → 0xc0 ≤ b
    → b < 0xe0
    → All IsByte rest
    → sequence (multi 1 (b % 32) 0x80) rest ≡ goes r
    → IsChar b rest r
unfolding accept is_out_of_range
two_sound b [] r lo hi h e = absurd (unfold sequence in ground arith)
two_sound b (b1 ∷ l) r lo hi h e = (
  b % 32 * 64 + b1 % 64,
  ground (arith, sequence_two (b % 32) b1 l),
  ground (arith, sequence_two (b % 32) b1 l),
)

three_sound :
    (b : ℕ) (rest r : List ℕ)
    → 0xe0 ≤ b
    → b < 0xf0
    → All IsByte rest
    → sequence (multi 2 (b % 16) 0x800) rest ≡ goes r
    → IsChar b rest r
unfolding accept is_out_of_range
three_sound b [] r lo hi h e = absurd (unfold sequence in ground arith)
three_sound b (b1 ∷ []) r lo hi h e = absurd (unfold sequence in ground arith)
three_sound b (b1 ∷ b2 ∷ l) r lo hi h e = (
  (b % 16 * 64 + b1 % 64) * 64 + b2 % 64,
  ground (arith, sequence_three (b % 16) b1 b2 l),
  ground (arith, sequence_three (b % 16) b1 b2 l),
)

four_sound :
    (b : ℕ) (rest r : List ℕ)
    → 0xf0 ≤ b
    → b < 0xf8
    → All IsByte rest
    → sequence (multi 3 (b % 8) 0x10000) rest ≡ goes r
    → IsChar b rest r
unfolding accept is_out_of_range
four_sound b [] r lo hi h e = absurd (unfold sequence in ground arith)
four_sound b (b1 ∷ []) r lo hi h e = absurd (unfold sequence in ground arith)
four_sound b (b1 ∷ b2 ∷ []) r lo hi h e = absurd (unfold sequence in ground arith)
four_sound b (b1 ∷ b2 ∷ b3 ∷ l) r lo hi h e = (
  ((b % 8 * 64 + b1 % 64) * 64 + b2 % 64) * 64 + b3 % 64,
  ground (arith, sequence_four (b % 8) b1 b2 b3 l),
  ground (arith, sequence_four (b % 8) b1 b2 b3 l),
)

round-lead : (b : ℕ) (rest : List ℕ) → utf8_round b rest ≡ sequence (lead b) rest
unfolding utf8_round
round-lead b rest = refl

by_lead :
    (b : ℕ) (rest r : List ℕ) (k : Lead)
    → lead b ≡ k
    → b < 256
    → All IsByte rest
    → sequence k rest ≡ goes r
    → IsChar b rest r
by_lead b rest r ascii q h hr e =
    (b, ground (arith, lead_lem b h), unfold sequence in ground (arith, lead_lem b h))
by_lead b rest r invalid q h hr e = absurd (unfold sequence in cc)
by_lead b rest r (multi extra c low) q h hr e = elim (Bool-cases (ltb b 0xe0)) [
  | inl two ↦
      two_sound b rest r (ground (arith, lead_lem b h)) (ltb→lt _ _ two) hr
        (ground (arith, lead_lem b h))
  | inr more ↦ elim (Bool-cases (ltb b 0xf0)) [
    | inl three ↦
        three_sound b rest r (ltb→ge _ _ more) (ltb→lt _ _ three) hr (ground (arith, lead_lem b h))
    | inr four ↦
        four_sound b rest r (ltb→ge _ _ four) (ground (arith, lead_lem b h)) hr
          (ground (arith, lead_lem b h))
  ]
]

-- A round that goes on has taken one encoded code point.
pub round_sound :
    (b : ℕ) (rest r : List ℕ)
    → b < 256
    → All IsByte rest
    → utf8_round b rest ≡ goes r
    → IsChar b rest r
round_sound b rest r h hr e = by_lead b rest r (lead b) refl h hr (sym (round-lead b rest) ∙ e)

one_complete : (c : ℕ) (r : List ℕ) → c < 0x80 → utf8_round c r ≡ goes r
unfolding sequence
one_complete c r h = round-lead c r ∙ ground (arith, lead_lem c)

two_complete :
    (c : ℕ) (r : List ℕ)
    → 0x80 ≤ c
    → c < 0x800
    → utf8_round (0xc0 + c / 64) ((0x80 + c % 64) ∷ r) ≡ goes r
unfolding accept is_out_of_range
two_complete c r lo hi =
    round-lead _ _
    ∙ ground (arith, lead_lem (0xc0 + c / 64), sequence_two (c / 64) (0x80 + c % 64) r)

three_complete :
    (c : ℕ) (r : List ℕ)
    → 0x800 ≤ c
    → c < 0x10000
    → (c < 0xd800) ⊎ (0xdfff < c)
    → utf8_round (0xe0 + c / 4096) ((0x80 + c / 64 % 64) ∷ (0x80 + c % 64) ∷ r) ≡ goes r
unfolding accept is_out_of_range
three_complete c r lo hi s =
    round-lead _ _
    ∙ ground (
      arith,
      lead_lem (0xe0 + c / 4096),
      sequence_three (c / 4096) (0x80 + c / 64 % 64) (0x80 + c % 64) r,
    )

four_complete :
    (c : ℕ) (r : List ℕ)
    → 0x10000 ≤ c
    → c ≤ 0x10ffff
    → utf8_round
        (0xf0 + c / 262144)
        ((0x80 + c / 4096 % 64) ∷ (0x80 + c / 64 % 64) ∷ (0x80 + c % 64) ∷ r)
      ≡ goes r
unfolding accept is_out_of_range
four_complete c r lo hi =
    round-lead _ _
    ∙ ground (
      arith,
      lead_lem (0xf0 + c / 262144),
      sequence_four (c / 262144) (0x80 + c / 4096 % 64) (0x80 + c / 64 % 64) (0x80 + c % 64) r,
    )

-- A round takes any encoded code point.
pub round_complete :
    (c : ℕ) (r : List ℕ) → IsScalar c → utf8_round (utf8_head c) (utf8_tail c ++ r) ≡ goes r
round_complete c r s =
    ground (arith, one_complete c r, two_complete c r, three_complete c r, four_complete c r)
