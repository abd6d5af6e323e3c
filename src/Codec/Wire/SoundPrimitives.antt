-- ===== src/Codec/Wire/SoundPrimitives.antt =====
-- The numbers and texts that a `ByteReader` returns on any input.
use hello_websocket.Prelude.Bits.{bit_or_disjoint}
use hello_websocket.Codec.Outcome.{not_utf8, ok, string_too_long, unexpected_end, throw}
use hello_websocket.Codec.Wire.{
  is_valid_utf8, wire_string, wire_i32, IsByte, IsI64, be32, wire_i64, IsText, IsI32,
}
use hello_websocket.Prelude.{
  All-append_inv, ltb→ge, inr, ltb→lt, inl, take-append-drop, length-take, drop-append, drop, take,
  length-append, ltb, if◌then◌else◌, Bool-cases, to_unsigned-to_signed32, ap₂,
  to_unsigned-to_signed64, append-nil, ◌/◌, to_signed-FitsIn32, to_signed, ◌%◌, to_signed-FitsIn64,
  bit_or, All, ℕ, ◌+◌, ◌*◌, ◌^◌, ◌≤◌, ◌<◌, ◌≡◌, refl, ap, ◌∙◌, sym, List, [], ◌∷◌, ◌++◌, arith,
  length,
}
use hello_websocket.Codec.Utf8.Inside.{is_valid_utf8_answers}
use hello_websocket.Codec.Outcome.{fault}
use hello_websocket.Codec.Reader.{read_u8, read_u32, read_i32, read_i64, read_text, read_string}
use hello_websocket.Codec.Wire.Parses.{
  Sound-weaken, Parses, parsed, rejected, Sound, Sound-bind, Sound-pure,
}
use hello_websocket.Codec.Wire.Reads.{
  advance-at, Reads-u8, be32_unique, at, check_short, read_u32-at,
}

abbrev pub IsU32 : ℕ → List ℕ → Type 0
IsU32 v x = (v < 2 ^ 32) × (x ≡ be32 v)

read_u32_short : (pre s : List ℕ) → length s < 4 → read_u32 (at pre s) ≡ throw unexpected_end
unfolding read_u32
read_u32_short pre s h = ground (arith, check_short 4 pre s h)

IsU32-answer : (pre s : List ℕ) → All IsByte s → Parses IsU32 pre s (read_u32 (at pre s))
IsU32-answer pre (a ∷ b ∷ c ∷ d ∷ s) h =
    rw (read_u32-at a b c d pre s h.0 h.1.0 h.1.1.0 h.1.1.1.0) (
      parsed _ (a ∷ b ∷ c ∷ d ∷ []) s refl refl
        (omega arith, sym (be32_unique a b c d _ h.0 h.1.0 h.1.1.0 h.1.1.1.0 refl)))
IsU32-answer pre s h = rw (read_u32_short pre s (omega arith)) (rejected unexpected_end)

pub Sound-IsU32 : Sound read_u32 IsU32
Sound-IsU32 = record { run = IsU32-answer }

read_u8_short : (pre : List ℕ) → read_u8 (at pre []) ≡ throw unexpected_end
unfolding read_u8
read_u8_short pre = ground (arith, check_short 1 pre [])

u8_answer :
    (pre s : List ℕ)
    → All IsByte s
    → Parses (λ v x. IsByte v × (x ≡ v ∷ [])) pre s (read_u8 (at pre s))
u8_answer pre [] h = rw (read_u8_short pre) (rejected unexpected_end)
u8_answer pre (v ∷ s) h = rw ((Reads-u8 v).run pre s) (parsed v (v ∷ []) s refl refl (h.0, refl))

pub Sound-u8 : Sound read_u8 (λ v x. IsByte v × (x ≡ v ∷ []))
Sound-u8 = record { run = u8_answer }

pub Sound-IsI32 : Sound read_i32 (λ v x. IsI32 v × (x ≡ wire_i32 v))
unfolding read_i32
Sound-IsI32 = Sound-bind _ _ Sound-IsU32 (λ v x p hx.
    Sound-pure _ (
      to_signed-FitsIn32 v p.0,
      append-nil x ∙ p.1 ∙ ap be32 (sym (to_unsigned-to_signed32 v p.0)),
    ))

join_halves_fits :
    (hi lo : ℕ) → hi < 2 ^ 32 → lo < 2 ^ 32 → bit_or (hi * 2 ^ 32 % 2 ^ 64) lo ≡ hi * 2 ^ 32 + lo
join_halves_fits hi lo h l = ground (arith, bit_or_disjoint 32 hi lo)

wire_i64-halves :
    (hi lo : ℕ)
    → hi < 2 ^ 32
    → lo < 2 ^ 32
    → wire_i64 (to_signed (2 ^ 64) (bit_or (hi * 2 ^ 32 % 2 ^ 64) lo)) ≡ be32 hi ++ be32 lo
wire_i64-halves hi lo h l =
    ap (λ (n : ℕ). be32 (n / 2 ^ 32) ++ be32 (n % 2 ^ 32))
      (to_unsigned-to_signed64 _ (omega (arith, join_halves_fits hi lo h l))
        ∙ join_halves_fits hi lo h l)
    ∙ ap₂ (λ (p q : ℕ). be32 p ++ be32 q) (omega arith) (omega arith)

pub Sound-IsI64 : Sound read_i64 (λ v x. IsI64 v × (x ≡ wire_i64 v))
unfolding read_i64
Sound-IsI64 = Sound-bind _ _ Sound-IsU32 (λ hi x p hx. Sound-bind _ _ Sound-IsU32 (λ lo y q hy.
    Sound-pure _ (
      to_signed-FitsIn64 _ (omega (arith, join_halves_fits hi lo p.0 q.0)),
      ap (λ (t : List ℕ). x ++ t) (append-nil y)
          ∙ ap₂ ◌++◌ p.1 q.1
          ∙ sym (wire_i64-halves hi lo p.0 q.0),
    )))

read_text_short :
    (n : ℕ) (pre s : List ℕ) → length s < n → read_text n (at pre s) ≡ throw string_too_long
unfolding read_text
read_text_short n pre s h = ground (arith, length-append pre s)

read_text_fits :
    (n : ℕ) (pre s : List ℕ)
    → n ≤ length s
    → read_text n (at pre s) ≡ (elim (is_valid_utf8 (take n s)) [
      | ok valid ↦ if valid then ok (take n s, at (pre ++ take n s) (drop n s)) else throw not_utf8
      | throw e ↦ throw e
      | fault ↦ fault
    ])
unfolding read_text
read_text_fits n pre s h = ground (
  arith,
  length-append pre s,
  drop-append pre s,
  length-take n s h,
  take-append-drop n s,
  advance-at (take n s) pre (drop n s),
)

IsText-answer :
    (n : ℕ) (pre s : List ℕ)
    → n < 2 ^ 32
    → All IsByte s
    → Parses (λ t x. IsText t × (x ≡ t) × (length t ≡ n)) pre s (read_text n (at pre s))
IsText-answer n pre s h hs = elim (Bool-cases (ltb (length s) n)) [
  | inl short ↦ rw (read_text_short n pre s (ltb→lt _ _ short)) (rejected string_too_long)
  | inr fits ↦
      rw (read_text_fits n pre s (ltb→ge _ _ fits)) (elim (is_valid_utf8_answers (take n s)) [
        | inl valid ↦ rw valid (
            parsed (take n s) (take n s) (drop n s) (sym (take-append-drop n s)) refl (
              record {
                bytes =
                    (All-append_inv IsByte (take n s) (drop n s) (rw (take-append-drop n s) hs)).0;
                valid = valid;
                short = omega (arith, length-take n s (ltb→ge _ _ fits));
              },
              refl,
              length-take n s (ltb→ge _ _ fits),
            ))
        | inr malformed ↦ rw malformed (rejected not_utf8)
      ])
]

pub Sound-IsText :
    (n : ℕ) → n < 2 ^ 32 → Sound (read_text n) (λ t x. IsText t × (x ≡ t) × (length t ≡ n))
Sound-IsText n h = record { run = λ pre s hs. IsText-answer n pre s h hs }

pub Sound-string : Sound read_string (λ t x. IsText t × (x ≡ wire_string t))
unfolding read_string
Sound-string = Sound-bind _ _ Sound-IsU32 (λ n x p hx.
    Sound-weaken (λ t y q. (q.0, ap₂ ◌++◌ (p.1 ∙ ap be32 (sym q.2)) q.1)) (Sound-IsText n p.0))
