-- ===== src/Transport/Receive/Lengths.antt =====
-- The length bytes that `length_bytes` writes, read by the header's code.
use native.Mathlib.Nat.{pow-suc, div-le_self, div-div-eq-div-mul}
use hello_websocket.Prelude.Bits.{zero-bit_or, agree, agree→eq}
use hello_websocket.Prelude.{ltb→lt, subst₂, ap₂, not, leb, ltb, ◌==◌}
use hello_websocket.Prelude.Bits.{bit_or_disjoint, bit_and_byte, agree→eq, agree}
use hello_websocket.Transport.Receive.Reads.{
  Reads, Reads-bind, Reads-done, Reads-last, Reads-recv_all, Reads-return_if,
}
use hello_websocket.Transport.Frame.{high_bytes, length_bytes}
use hello_websocket.Prelude.{
  inr, ◌==◌, leb, inl, ltb, Bool-cases, not, ap₂, ℕ, zero, suc, ◌*◌, ◌/◌, ◌%◌, ◌^◌, ◌≤◌, ◌<◌, ◌≡◌,
  refl, sym, ap, ◌∙◌, subst, List, [], ◌∷◌, Bool, true, false, arith, bit_and, bit_or,
  if◌then◌else◌,
}
use hello_websocket.Transport.Receive.{Receiving, done, join_bytes, extend_len, long_len}

-- The low seven bits of the second byte, and the bytes of the extended length.
abbrev pub first_len : ℕ → ℕ
first_len len = if ltb len 126 then len else if leb len 65535 then 126 else 127

abbrev pub rest_len : ℕ → List ℕ
rest_len len =
    if ltb len 126
    then []
    else if leb len 65535
    then bit_and (len / 2 ^ 8) 0xff ∷ bit_and len 0xff ∷ []
    else high_bytes 8 len

pub first_len-lt : (len : ℕ) → first_len len < 128
first_len-lt len = ground arith

pub length_bytes-split :
    (flag len : ℕ) → length_bytes flag len ≡ bit_or flag (first_len len) ∷ rest_len len
unfolding length_bytes
length_bytes-split flag len = elim (Bool-cases (ltb len 126)) [
  | inl e ↦ rw (e) refl
  | inr e ↦
      rw (e) (elim (Bool-cases (leb len 65535)) [ inl e' ↦ rw (e') refl | inr e' ↦ rw (e') refl ])
]

shift_split : (i : ℕ) → 2 ^ (suc i * 8) ≡ 2 ^ (i * 8) * 256
shift_split i =
    let n = i * 8 in
    ap (λ (k : ℕ). 2 ^ k) {y = suc (suc (suc (suc (suc (suc (suc (suc n)))))))} (omega arith)
    ∙ omega (
      arith,
      pow-suc 2 n,
      pow-suc 2 (suc n),
      pow-suc 2 (suc (suc n)),
      pow-suc 2 (suc (suc (suc n))),
      pow-suc 2 (suc (suc (suc (suc n)))),
      pow-suc 2 (suc (suc (suc (suc (suc n))))),
      pow-suc 2 (suc (suc (suc (suc (suc (suc n)))))),
      pow-suc 2 (suc (suc (suc (suc (suc (suc (suc n))))))),
    )

-- One more byte of `len`, put behind those above it.
join_step :
    (len i : ℕ)
    → len < 2 ^ 64
    → bit_or (len / 2 ^ (suc i * 8) * 2 ^ 8 % 2 ^ 64) (bit_and (len / 2 ^ (i * 8)) 0xff)
      ≡ len / 2 ^ (i * 8)
join_step len i h =
    let q = len / 2 ^ (i * 8) in
    let above : len / 2 ^ (suc i * 8) ≡ q / 256 =
      ap (λ (d : ℕ). len / d) (shift_split i) ∙ sym (div-div-eq-div-mul len (2 ^ (i * 8)) 256) in
    let small : q < 2 ^ 64 = omega (arith, div-le_self len (2 ^ (i * 8))) in
    let wrap : len / 2 ^ (suc i * 8) * 2 ^ 8 % 2 ^ 64 ≡ q / 256 * 2 ^ 8 =
      omega (arith, above, small) in
    ap₂ bit_or wrap (bit_and_byte q)
    ∙ bit_or_disjoint 8 (q / 256) (q % 256) (omega arith)
    ∙ omega arith

join_high : (len n : ℕ) → len < 2 ^ 64 → join_bytes (len / 2 ^ (n * 8)) (high_bytes n len) ≡ len
unfolding join_bytes high_bytes
join_high len zero h = omega arith
join_high len (suc n) h =
    ap (λ (acc : ℕ). join_bytes acc (high_bytes n len)) (join_step len n h) ∙ join_high len n h

pub join_eight : (len : ℕ) → len < 2 ^ 64 → join_bytes 0 (high_bytes 8 len) ≡ len
join_eight len h =
    ap (λ (acc : ℕ). join_bytes acc (high_bytes 8 len)) (omega arith) ∙ join_high len 8 h

pub join_two :
    (len : ℕ)
    → len ≤ 65535
    → join_bytes 0 (bit_and (len / 2 ^ 8) 0xff ∷ bit_and len 0xff ∷ []) ≡ len
unfolding join_bytes
join_two len h =
    let step : bit_or 0 (bit_and (len / 2 ^ 8) 0xff) ≡ len / 2 ^ 8 =
      zero-bit_or (bit_and (len / 2 ^ 8) 0xff) ∙ bit_and_byte (len / 2 ^ 8) ∙ omega arith in
    let wrap : bit_or 0 (bit_and (len / 2 ^ 8) 0xff) * 2 ^ 8 % 2 ^ 64 ≡ len / 2 ^ 8 * 2 ^ 8 =
      omega (arith, step) in
    ap₂ bit_or wrap (bit_and_byte len)
    ∙ bit_or_disjoint 8 (len / 2 ^ 8) (len % 256) (omega arith)
    ∙ omega arith

leb→le : (a b : ℕ) → leb a b ≡ true → a ≤ b
leb→le a b h = ground arith

lt→ne : (a b : ℕ) → a < b → (a == b) ≡ false
lt→ne a b h = ground arith

extend_len-done : (len : ℕ) → len < 126 → extend_len len ≡ done len
unfolding extend_len
extend_len-done len h = rw (lt→ne len 126 h) (rw (lt→ne len 127 (omega arith)) refl)

-- The cases of `first_len` and `rest_len`.
module _ (len : ℕ) where
  short_len : ltb len 126 ≡ true → (first_len len ≡ len) × (rest_len len ≡ [])
  short_len e = rw (e) (refl, refl)

  middle_len :
      ltb len 126 ≡ false
      → leb len 65535 ≡ true
      → (first_len len ≡ 126) × (rest_len len ≡ bit_and (len / 2 ^ 8) 0xff ∷ bit_and len 0xff ∷ [])
  middle_len e e' = rw (e) (rw (e') (refl, refl))

  wide_len :
      ltb len 126 ≡ false
      → leb len 65535 ≡ false
      → (first_len len ≡ 127) × (rest_len len ≡ high_bytes 8 len)
  wide_len e e' = rw (e) (rw (e') (refl, refl))

Reads-two :
    (len : ℕ)
    → len ≤ 65535
    → Reads (extend_len 126) (bit_and (len / 2 ^ 8) 0xff ∷ bit_and len 0xff ∷ []) len
unfolding extend_len
Reads-two len h =
    subst (Reads (extend_len 126) (bit_and (len / 2 ^ 8) 0xff ∷ bit_and len 0xff ∷ []))
      (join_two len h) (Reads-last (join_bytes 0) (Reads-recv_all _ 2 refl (omega arith)))

high_clear : (len : ℕ) → len < 2 ^ 63 → bit_and (bit_and (len / 2 ^ 56) 0xff) 0x80 ≡ 0
unfolding agree
high_clear len h =
    agree→eq (λ v. bit_and v 0x80) (λ v. 0) 128 refl (bit_and (len / 2 ^ 56) 0xff)
      (omega (arith, bit_and_byte (len / 2 ^ 56)))

Reads-eight : (len : ℕ) → len < 2 ^ 63 → Reads (extend_len 127) (high_bytes 8 len) len
unfolding extend_len long_len high_bytes
Reads-eight len h =
    subst (Reads (extend_len 127) (high_bytes 8 len)) (join_eight len (omega arith)) (
      Reads-bind long_len (Reads-recv_all (high_bytes 8 len) 8 refl (omega arith)) (
        Reads-return_if (ap (λ (v : ℕ). not (v == 0)) (high_clear len h))
          (Reads-done (join_bytes 0 (high_bytes 8 len)))))

pub Reads-extend_len :
    (len : ℕ) → len < 2 ^ 63 → Reads (extend_len (first_len len)) (rest_len len) len
Reads-extend_len len h = elim (Bool-cases (ltb len 126)) [
  | inl e ↦
      let (first, rest) = short_len len e in
      subst₂ (λ v x. Reads (extend_len v) x len) (sym first) (sym rest)
        (subst (λ (m : Receiving ℕ). Reads m [] len) (sym (extend_len-done len (ltb→lt _ _ e)))
          (Reads-done len))
  | inr e ↦ elim (Bool-cases (leb len 65535)) [
    | inl e' ↦
        let (first, rest) = middle_len len e e' in
        subst₂ (λ v x. Reads (extend_len v) x len) (sym first) (sym rest)
          (Reads-two len (omega (arith, leb→le len 65535 e')))
    | inr e' ↦
        let (first, rest) = wide_len len e e' in
        subst₂ (λ v x. Reads (extend_len v) x len) (sym first) (sym rest) (Reads-eight len h)
  ]
]

-- The flag and the low bits of the second byte.
pub flag_of :
    (masked : Bool) (v : ℕ)
    → v < 128
    → (not (bit_and (bit_or (if masked then 0x80 else 0) v) 0x80 == 0)) ≡ masked
unfolding agree
flag_of true v h =
    ap (λ (b : ℕ). not (b == 0))
      (agree→eq (λ v. bit_and (bit_or 0x80 v) 0x80) (λ v. 0x80) 128 refl v h)
flag_of false v h =
    ap (λ (b : ℕ). not (b == 0)) (agree→eq (λ v. bit_and (bit_or 0 v) 0x80) (λ v. 0) 128 refl v h)

pub low_of :
    (masked : Bool) (v : ℕ) → v < 128 → bit_and (bit_or (if masked then 0x80 else 0) v) 0x7f ≡ v
unfolding agree
low_of true v h = agree→eq (λ v. bit_and (bit_or 0x80 v) 0x7f) (λ v. v) 128 refl v h
low_of false v h = agree→eq (λ v. bit_and (bit_or 0 v) 0x7f) (λ v. v) 128 refl v h
