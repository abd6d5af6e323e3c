-- ===== src/Codec/Writer.antt =====
-- `ByteWriter`. Each method returns the writer with its buffer extended.
use hello_websocket.Prelude.{ℕ, List, [], ◌∷◌, ◌++◌, ◌/◌, ◌%◌, ◌^◌, length, bit_and}
use hello_websocket.Prelude.{ℤ, to_unsigned, shift_right}
use hello_websocket.Codec.KvMap.{Text, KvMap}

pub record ByteWriter : Type 0 where
  pub buf : List ℕ

unfoldable pub empty_writer : ByteWriter
empty_writer = record { buf = [] }

push_back : ℕ → ByteWriter → ByteWriter
push_back v w = record { buf = w.buf ++ v ∷ [] }

unfoldable pub write_u8 : ℕ → ByteWriter → ByteWriter
unfolding push_back
write_u8 v w = push_back v w

unfoldable pub write_u16 : ℕ → ByteWriter → ByteWriter
unfolding push_back
write_u16 v w = push_back (bit_and v 0xff) (push_back (bit_and (v / 2 ^ 8) 0xff) w)

unfoldable pub write_u32 : ℕ → ByteWriter → ByteWriter
unfolding push_back
write_u32 v w =
    let w₁ = push_back (bit_and (v / 2 ^ 24) 0xff) w in
    let w₂ = push_back (bit_and (v / 2 ^ 16) 0xff) w₁ in
    let w₃ = push_back (bit_and (v / 2 ^ 8) 0xff) w₂ in push_back (bit_and v 0xff) w₃

unfoldable pub write_i32 : ℤ → ByteWriter → ByteWriter
write_i32 v w = write_u32 (to_unsigned (2 ^ 32) v) w

-- `v & 0xFFFFFFFF` keeps the low half of the two's complement pattern of `v`.
unfoldable pub write_i64 : ℤ → ByteWriter → ByteWriter
write_i64 v w =
    let high = to_unsigned (2 ^ 32) (shift_right v 32) in
    let low = bit_and (to_unsigned (2 ^ 64) v) 0xffff_ffff % 2 ^ 32 in
    write_u32 low (write_u32 high w)

unfoldable pub write_string : Text → ByteWriter → ByteWriter
write_string s w = let w' = write_u32 (length s % 2 ^ 32) w in record { buf = w'.buf ++ s }

unfoldable pub write_entries : KvMap → ByteWriter → ByteWriter
write_entries [] w = w
write_entries ((k, v) ∷ m) w = write_entries m (write_string v (write_string k w))

unfoldable pub write_kv : KvMap → ByteWriter → ByteWriter
write_kv m w = write_entries m (write_u32 (length m % 2 ^ 32) w)
