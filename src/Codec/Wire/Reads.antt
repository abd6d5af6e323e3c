-- ===== src/Codec/Wire/Reads.antt =====
-- What a `ByteReader` returns on an encoding that stands at its position.
use hello_websocket.Prelude.{
  to_signed-to_unsigned64, to_unsigned-lt64, to_unsigned-lt32, to_signed-to_unsigned32, take-append,
  to_signed, subst, drop-append, ℕ, ◌+◌, ◌*◌, ◌/◌, ◌%◌, ◌^◌, ◌≤◌, ◌<◌, ◌≡◌, ap, ap₂, ◌∙◌, sym, List,
  [], ◌∷◌, ◌++◌, append_assoc, arith, length, length-append, get_elem?, bit_or, ℤ, Option, none,
  some,
}
use hello_websocket.Prelude.Bits.{bit_or_disjoint}
use hello_websocket.Codec.Outcome.{ok, throw, fault, byte_at, unexpected_end}
use hello_websocket.Codec.Reader.{
  ByteReader, Read, ◌>>=◌, pure, lift, check, peek, advance, read_u8, read_u32, read_i32, read_i64,
  read_text, read_string,
}
use hello_websocket.Codec.KvMap.{Text}
use hello_websocket.Codec.Wire.{
  to_unsigned, IsI32, IsI64, IsText, be32, wire_i32, wire_i64, wire_string,
}

-- The reader over `pre ++ rest` that has read `pre`.
abbrev pub at : List ℕ → List ℕ → ByteReader
at pre rest = record { bytes = pre ++ rest; len = length (pre ++ rest); pos = length pre }

-- `m` reads `x`, wherever it stands, and returns `a`.
pub record Reads {A : Type 0} (m : Read A) (x : List ℕ) (a : A) : Type 0 where
  pub run : (pre rest : List ℕ) → m (at pre (x ++ rest)) ≡ ok (a, at (pre ++ x) rest)

module _ {A B : Type 0} where
  pub bind_ok :
      (m : Read A) (f : A → Read B) {r r' : ByteReader} {a : A}
      → m r ≡ ok (a, r')
      → (m >>= f) r ≡ f a r'
  bind_ok m f e = rw (e, ◌>>=◌)

  pub Reads-bind :
      {m : Read A} (f : A → Read B) {x y : List ℕ} {a : A} {b : B}
      → Reads m x a
      → Reads (f a) y b
      → Reads (m >>= f) (x ++ y) b
  Reads-bind {m} f {x} {y} {a} {b} hm hf = record {
    run = λ pre rest.
        ap (λ s. (m >>= f) (at pre s)) (append_assoc x y rest)
        ∙ bind_ok m f (hm.run pre (y ++ rest))
        ∙ hf.run (pre ++ x) rest
        ∙ ap (λ (p : List ℕ). ok (b, at p rest)) (append_assoc pre x y);
  }

  pub Reads-last :
      {m : Read A} {x : List ℕ} {a : A} (f : A → B)
      → Reads m x a
      → Reads (m >>= λ c. pure (f c)) x (f a)
  Reads-last {m} f hm = record { run = λ pre rest. bind_ok m (λ c. pure (f c)) (hm.run pre rest) }

get_elem?-at : (pre xs : List ℕ) (k : ℕ) → get_elem? (pre ++ xs) (length pre + k) ≡ get_elem? xs k
get_elem?-at [] xs k = ground arith
get_elem?-at (p ∷ pre) xs k = ground (arith, get_elem?-at pre xs k)

pub check-at :
    (n : ℕ) (pre rest : List ℕ) → n ≤ length rest → check n (at pre rest) ≡ ok (tt, at pre rest)
unfolding check
check-at n pre rest h = ground (arith, length-append pre rest)

pub check_short :
    (n : ℕ) (pre rest : List ℕ) → length rest < n → check n (at pre rest) ≡ throw unexpected_end
unfolding check
check_short n pre rest h = ground (arith, length-append pre rest)

pub peek-at :
    (k : ℕ) (pre rest : List ℕ) → peek k (at pre rest) ≡ lift (byte_at rest k) (at pre rest)
peek-at k pre rest =
    ap (λ (o : Option ℕ). lift (elim o [ none ↦ fault | some b ↦ ok b ]) (at pre rest))
      (get_elem?-at pre rest k)

pub advance-at :
    (x pre rest : List ℕ) → advance (length x) (at pre (x ++ rest)) ≡ ok (tt, at (pre ++ x) rest)
advance-at x pre rest =
    ap₂ (λ (b : List ℕ) (p : ℕ). ok (tt, record { bytes = b; len = length b; pos = p }))
      (sym (append_assoc pre x rest)) (sym (length-append pre x))

pub big_endian32 :
    (a b c d : ℕ)
    → a < 256
    → b < 256
    → c < 256
    → d < 256
    → bit_or (bit_or (bit_or (a * 2 ^ 24 % 2 ^ 32) (b * 2 ^ 16 % 2 ^ 32)) (c * 2 ^ 8 % 2 ^ 32)) d
      ≡ a * 2 ^ 24 + b * 2 ^ 16 + c * 2 ^ 8 + d
big_endian32 a b c d ha hb hc hd = ground (
  arith,
  bit_or_disjoint 24 a (b * 2 ^ 16),
  bit_or_disjoint 16 (a * 256 + b) (c * 2 ^ 8),
  bit_or_disjoint 8 (a * 2 ^ 16 + b * 2 ^ 8 + c) d,
)

pub read_u32-at :
    (a b c d : ℕ) (pre rest : List ℕ)
    → a < 256
    → b < 256
    → c < 256
    → d < 256
    → read_u32 (at pre (a ∷ b ∷ c ∷ d ∷ rest))
      ≡ ok (a * 2 ^ 24 + b * 2 ^ 16 + c * 2 ^ 8 + d, at (pre ++ a ∷ b ∷ c ∷ d ∷ []) rest)
unfolding read_u32
read_u32-at a b c d pre rest ha hb hc hd = ground (
  arith,
  check-at 4 pre (a ∷ b ∷ c ∷ d ∷ rest) (omega arith),
  peek-at 0 pre (a ∷ b ∷ c ∷ d ∷ rest),
  peek-at 1 pre (a ∷ b ∷ c ∷ d ∷ rest),
  peek-at 2 pre (a ∷ b ∷ c ∷ d ∷ rest),
  peek-at 3 pre (a ∷ b ∷ c ∷ d ∷ rest),
  advance-at (a ∷ b ∷ c ∷ d ∷ []) pre rest,
  big_endian32 a b c d ha hb hc hd,
)

pub be32_unique :
    (a b c d n : ℕ)
    → a < 256
    → b < 256
    → c < 256
    → d < 256
    → a * 2 ^ 24 + b * 2 ^ 16 + c * 2 ^ 8 + d ≡ n
    → be32 n ≡ a ∷ b ∷ c ∷ d ∷ []
be32_unique a b c d n ha hb hc hd e = ground arith

pub Reads-u32 : (v : ℕ) → v < 2 ^ 32 → Reads read_u32 (be32 v) v
Reads-u32 v h = record {
  run = λ pre rest.
      read_u32-at _ _ _ _ pre rest (omega arith) (omega arith) (omega arith) (omega arith)
      ∙ ap (λ (n : ℕ). ok (n, at (pre ++ be32 v) rest)) (omega arith);
}

pub Reads-u8 : (v : ℕ) → Reads read_u8 (v ∷ []) v
Reads-u8 v = record {
  run = λ pre rest.
      unfold read_u8 in
      ground (
        arith,
        check-at 1 pre (v ∷ rest) (omega arith),
        peek-at 0 pre (v ∷ rest),
        advance-at (v ∷ []) pre rest,
      );
}

pub Reads-i32 : (v : ℤ) → IsI32 v → Reads read_i32 (wire_i32 v) v
unfolding read_i32
Reads-i32 v h =
    subst (λ (t : ℤ). Reads read_i32 (wire_i32 v) t) (to_signed-to_unsigned32 v h)
      (Reads-last (to_signed (2 ^ 32)) (Reads-u32 _ (to_unsigned-lt32 v)))

join_halves : (n : ℕ) → n < 2 ^ 64 → bit_or (n / 2 ^ 32 * 2 ^ 32 % 2 ^ 64) (n % 2 ^ 32) ≡ n
join_halves n h = ground (arith, bit_or_disjoint 32 (n / 2 ^ 32) (n % 2 ^ 32))

pub Reads-i64 : (v : ℤ) → IsI64 v → Reads read_i64 (wire_i64 v) v
unfolding read_i64
Reads-i64 v h =
    subst (λ (t : ℤ). Reads read_i64 (wire_i64 v) t)
      (ap (to_signed (2 ^ 64)) (join_halves (to_unsigned (2 ^ 64) v) (to_unsigned-lt64 v))
        ∙ to_signed-to_unsigned64 v h)
      (Reads-bind _
        (Reads-u32 (to_unsigned (2 ^ 64) v / 2 ^ 32) (omega (arith, to_unsigned-lt64 v)))
        (Reads-last _ (Reads-u32 (to_unsigned (2 ^ 64) v % 2 ^ 32) (omega arith))))

-- The text itself, behind its length.
Reads-text : (s : Text) → IsText s → Reads (read_text (length s)) s s
unfolding read_text
Reads-text s h = record {
  run = λ pre rest. ground (
    arith,
    h.valid,
    length-append pre (s ++ rest),
    length-append s rest,
    drop-append pre (s ++ rest),
    take-append s rest,
    advance-at s pre rest,
  );
}

pub Reads-string : (s : Text) → IsText s → Reads read_string (wire_string s) s
unfolding read_string
Reads-string s h = Reads-bind read_text (Reads-u32 (length s) h.short) (Reads-text s h)
