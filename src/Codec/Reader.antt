-- ===== src/Codec/Reader.antt =====
-- `ByteReader`. A method takes the reader and returns its result with the reader moved on.
-- Lengths are sizes of objects in memory, so the sums of positions do not wrap.
use hello_websocket.Prelude.{ℕ, zero, suc, ◌+◌, ◌-◌, ◌*◌, ◌/◌, ◌%◌, ◌^◌, bit_or, List, length}
use hello_websocket.Prelude.{ltb, if◌then◌else◌, [], ℤ, to_signed}
use hello_websocket.Codec.Outcome.{Exception, Result, ok, throw, fault, byte_at, slice}
use hello_websocket.Codec.Outcome.{unexpected_end, string_too_long, not_utf8, kv_count_too_large}
use hello_websocket.Codec.KvMap.{Text, KvMap, assign}
use hello_websocket.Codec.Utf8.{is_valid_utf8}

pub record ByteReader : Type 0 where
  pub bytes : List ℕ
  pub len : ℕ
  pub pos : ℕ

abbrev pub Read : Type 0 → Type 0
Read A = ByteReader → Result (A × ByteReader)

infixl 5 ◌>>=◌ ◌>>◌
abbrev pub ◌>>=◌ : {A B : Type 0} → Read A → (A → Read B) → Read B
◌>>=◌ m f r = elim (m r) [ ok (a, r') ↦ f a r' | throw e ↦ throw e | fault ↦ fault ]

abbrev pub ◌>>◌ : {B : Type 0} → Read (Unit {0}) → Read B → Read B
m >> k = m >>= λ _. k

abbrev pub pure : {A : Type 0} → A → Read A
pure a r = ok (a, r)

abbrev pub raise : {A : Type 0} → Exception → Read A
raise e r = throw e

abbrev pub lift : {A : Type 0} → Result A → Read A
lift (ok a) r = ok (a, r)
lift (throw e) r = throw e
lift fault r = fault

unfoldable pub new_reader : List ℕ → ByteReader
new_reader bytes = record { bytes = bytes; len = length bytes; pos = 0 }

unfoldable pub remaining : ByteReader → ℕ
remaining r = r.len - r.pos

unfoldable pub check : ℕ → Read (Unit {0})
check n r = if ltb r.len (r.pos + n) then throw unexpected_end else ok (tt, r)

-- `data_[pos_ + k]` and `pos_ += n`
abbrev pub peek : ℕ → Read ℕ
peek k r = lift (byte_at r.bytes (r.pos + k)) r

abbrev pub advance : ℕ → Read (Unit {0})
advance n r = ok (tt, record r { pos = r.pos + n })

unfoldable pub read_u8 : Read ℕ
read_u8 = do check 1; v ← peek 0; advance 1; pure v

unfoldable pub read_u16 : Read ℕ
read_u16 = do
  check 2
  b0 ← peek 0
  b1 ← peek 1
  let v = bit_or (b0 * 2 ^ 8) b1 % 2 ^ 16
  advance 2
  pure v

unfoldable pub read_u32 : Read ℕ
read_u32 = do
  check 4
  b0 ← peek 0
  b1 ← peek 1
  b2 ← peek 2
  b3 ← peek 3
  let high = bit_or (b0 * 2 ^ 24 % 2 ^ 32) (b1 * 2 ^ 16 % 2 ^ 32)
  let v = bit_or (bit_or high (b2 * 2 ^ 8 % 2 ^ 32)) b3
  advance 4
  pure v

unfoldable pub read_i32 : Read ℤ
read_i32 = do v ← read_u32; pure (to_signed (2 ^ 32) v)

unfoldable pub read_i64 : Read ℤ
read_i64 = do
  hi ← read_u32
  lo ← read_u32
  pure (to_signed (2 ^ 64) (bit_or (hi * 2 ^ 32 % 2 ^ 64) lo))

-- The rest of `readString`, once the length is read.
unfoldable pub read_text : ℕ → Read Text
read_text ln r =
    if ltb r.len (r.pos + ln)
    then throw string_too_long
    else (do
      s ← lift (slice r.bytes r.pos ln)
      valid ← lift (is_valid_utf8 s)
      if valid then (do advance ln; pure s) else raise not_utf8)
        r

unfoldable pub read_string : Read Text
unfolding read_text
read_string = do ln ← read_u32; read_text ln

unfoldable pub read_entries : ℕ → KvMap → Read KvMap
read_entries zero m = pure m
read_entries (suc left) m = do
  key ← read_string
  val ← read_string
  read_entries left (assign key val m)

-- The rest of `readKV`, once the count is read.
unfoldable pub read_counted : ℕ → Read KvMap
unfolding remaining
read_counted count r =
    if ltb (remaining r / 8) count then throw kv_count_too_large else read_entries count [] r

unfoldable pub read_kv : Read KvMap
unfolding read_counted
read_kv = do count ← read_u32; read_counted count
