-- ===== src/Hash/Padding.antt =====
-- `sha256` works on whole blocks.
use hello_websocket.Prelude.{
  ◌-◌, ℕ-cases, ℕ, zero, suc, ◌≡◌, ◌∙◌, refl, ap, sym, ◌++◌, ◌∷◌, [], List, length, arith,
  length-append, append_assoc, append-nil, ◌+◌, ◌*◌, ◌%◌, ◌^◌, ◌≤◌, ◌<◌, ◌==◌, ==_iff, Bool-cases,
  inl, inr, true, false,
}
use hello_websocket.Hash.{pad, pad_zeros, big_endian}

-- `count` zero bytes.
abbrev pub zeros : ℕ → List ℕ
zeros zero = []
zeros (suc count) = 0 ∷ zeros count

length-zeros : (n : ℕ) → length (zeros n) ≡ n
length-zeros zero = refl
length-zeros (suc n) = ap suc (length-zeros n)

module _ (fuel : ℕ) (msg : List ℕ) where
  loop_stop : (length msg % 64 == 56) ≡ true → pad_zeros (suc fuel) msg ≡ msg
  unfolding pad_zeros
  loop_stop e = rw (e, pad_zeros) refl

  loop_more :
      (length msg % 64 == 56) ≡ false → pad_zeros (suc fuel) msg ≡ pad_zeros fuel (msg ++ 0 ∷ [])
  unfolding pad_zeros
  loop_more e = rw (e, pad_zeros) refl

-- With as many rounds as zeros are missing, the loop appends zeros up to eight bytes before the end of
-- a block.
loop_ends :
    (fuel : ℕ) (msg : List ℕ) (missing : ℕ)
    → (length msg + missing) % 64 ≡ 56
    → missing < fuel
    → (count : ℕ) × (count ≤ missing)
      × (pad_zeros fuel msg ≡ msg ++ zeros count)
      × ((length msg + count) % 64 ≡ 56)
loop_ends zero msg missing h l = absurd (omega arith)
loop_ends (suc fuel) msg missing h l = elim (Bool-cases (length msg % 64 == 56)) [
  | inl e ↦ (
    0,
    omega arith,
    loop_stop fuel msg e ∙ sym (append-nil msg),
    omega (arith, (==_iff (length msg % 64) 56).0 e),
  )
  | inr e ↦ elim (ℕ-cases missing) [
    | inl none_missing ↦ absurd (ground arith)
    | inr (k, more) ↦
        let size = length-append msg (0 ∷ []) in
        let (count, few, appended, ends) =
          loop_ends fuel (msg ++ 0 ∷ []) k (omega (arith, size, more)) (omega arith) in
        (
          suc count,
          omega arith,
          loop_more fuel msg e ∙ appended ∙ append_assoc msg (0 ∷ []) (zeros count),
          omega (arith, size),
        )
  ]
]

length-big_endian : (n l : ℕ) → length (big_endian n l) ≡ n
unfolding big_endian
length-big_endian zero l = refl
length-big_endian (suc n) l = ap suc (length-big_endian n l)

pad-pad_zeros :
    (bytes : List ℕ)
    → pad bytes ≡ pad_zeros 64 (bytes ++ 0x80 ∷ []) ++ big_endian 8 (length bytes * 8 % 2 ^ 64)
unfolding pad
pad-pad_zeros bytes = refl

-- Zeros up to eight bytes before the end of a block, and eight bytes.
whole_blocks :
    (msg size_bytes : List ℕ) (count : ℕ)
    → (length msg + count) % 64 ≡ 56
    → length size_bytes ≡ 8
    → length (msg ++ (zeros count ++ size_bytes)) % 64 ≡ 0
whole_blocks msg size_bytes count ends eight = omega (
  arith,
  length-append msg (zeros count ++ size_bytes),
  length-append (zeros count) size_bytes,
  length-zeros count,
)

-- The loop of `sha256` that pads ends: the padded message is the message, the byte 0x80, fewer than 64
-- zeros, and the message's size in bits as eight bytes, and it is a number of whole blocks of 64
-- bytes.
pub pad_ends :
    (bytes : List ℕ)
    → (count : ℕ) × (count < 64)
      × (pad bytes
          ≡ (bytes ++ 0x80 ∷ []) ++ (zeros count ++ big_endian 8 (length bytes * 8 % 2 ^ 64)))
      × (length (pad bytes) % 64 ≡ 0)
pad_ends bytes =
    let msg = bytes ++ 0x80 ∷ [] in
    let size_bytes = big_endian 8 (length bytes * 8 % 2 ^ 64) in
    let (count, few, appended, ends) =
      loop_ends 64 msg ((120 - length msg % 64) % 64) (omega arith) (omega arith) in
    let whole : pad bytes ≡ msg ++ (zeros count ++ size_bytes) =
      pad-pad_zeros bytes
      ∙ ap (λ (l : List ℕ). l ++ size_bytes) appended
      ∙ append_assoc msg (zeros count) size_bytes in
    (
      count,
      omega arith,
      whole,
      ap (λ (l : List ℕ). length l % 64) whole
          ∙ whole_blocks msg size_bytes count ends (length-big_endian 8 _),
    )
