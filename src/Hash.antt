-- ===== src/Hash.antt =====
-- `detail::sha256` and `hashNumber` of hello-websocket-cpp/common/codec.hpp, and the conversions
-- of numbers to text that the programs use.
pub mod Digits
pub mod Padding
mod Examples
use hello_websocket.Prelude.{
  ℕ, zero, suc, ◌+◌, ◌-◌, ◌*◌, ◌/◌, ◌%◌, ◌^◌, List, [], ◌∷◌, ◌++◌, length, take, drop, element, ltb,
  ◌==◌, if◌then◌else◌, bit_and, bit_or, bit_xor, ℤ, pos, negsuc, codes,
}
use hello_websocket.Codec.KvMap.{Text}

-- The decimal digits of `n`, behind them `after`, on fuel.
unfoldable pub decimal : ℕ → ℕ → Text → Text
decimal zero n after = after
decimal (suc fuel) n after =
    let after' = (48 + n % 10) ∷ after in
    let more = decimal fuel (n / 10) after' in if ltb n 10 then after' else more

-- `std::to_string` of a 64-bit number, which has at most twenty digits.
unfoldable pub to_string : ℤ → Text
unfolding decimal
to_string (pos n) = decimal 20 n []
to_string (negsuc n) = 45 ∷ decimal 20 (suc n) []

-- The lower-case hexadecimal digit of a value below 16.
unfoldable pub hex_digit : ℕ → ℕ
hex_digit d = if ltb d 10 then 48 + d else 87 + d

unfoldable pub rotr : ℕ → ℕ → ℕ
rotr x n = bit_or (x / 2 ^ n) (x * 2 ^ (32 - n) % 2 ^ 32)

abbrev round_constants : List ℕ
round_constants =
    0x428a2f98 ∷ 0x71374491 ∷ 0xb5c0fbcf ∷ 0xe9b5dba5 ∷ 0x3956c25b ∷ 0x59f111f1 ∷ 0x923f82a4
    ∷ 0xab1c5ed5 ∷ 0xd807aa98 ∷ 0x12835b01 ∷ 0x243185be ∷ 0x550c7dc3 ∷ 0x72be5d74 ∷ 0x80deb1fe
    ∷ 0x9bdc06a7 ∷ 0xc19bf174 ∷ 0xe49b69c1 ∷ 0xefbe4786 ∷ 0x0fc19dc6 ∷ 0x240ca1cc ∷ 0x2de92c6f
    ∷ 0x4a7484aa ∷ 0x5cb0a9dc ∷ 0x76f988da ∷ 0x983e5152 ∷ 0xa831c66d ∷ 0xb00327c8 ∷ 0xbf597fc7
    ∷ 0xc6e00bf3 ∷ 0xd5a79147 ∷ 0x06ca6351 ∷ 0x14292967 ∷ 0x27b70a85 ∷ 0x2e1b2138 ∷ 0x4d2c6dfc
    ∷ 0x53380d13 ∷ 0x650a7354 ∷ 0x766a0abb ∷ 0x81c2c92e ∷ 0x92722c85 ∷ 0xa2bfe8a1 ∷ 0xa81a664b
    ∷ 0xc24b8b70 ∷ 0xc76c51a3 ∷ 0xd192e819 ∷ 0xd6990624 ∷ 0xf40e3585 ∷ 0x106aa070 ∷ 0x19a4c116
    ∷ 0x1e376c08 ∷ 0x2748774c ∷ 0x34b0bcb5 ∷ 0x391c0cb3 ∷ 0x4ed8aa4a ∷ 0x5b9cca4f ∷ 0x682e6ff3
    ∷ 0x748f82ee ∷ 0x78a5636f ∷ 0x84c87814 ∷ 0x8cc70208 ∷ 0x90befffa ∷ 0xa4506ceb ∷ 0xbef9a3f7
    ∷ 0xc67178f2 ∷ []

-- The bytes of `l` from the high end: `l >> (i * 8)`, cast to a byte, `i` from `count - 1` to 0.
unfoldable pub big_endian : ℕ → ℕ → List ℕ
big_endian zero l = []
big_endian (suc i) l = (l / 2 ^ (i * 8) % 256) ∷ big_endian i l

-- The loop `while (msg.size() % 64 != 56)`, on fuel.
unfoldable pub pad_zeros : ℕ → List ℕ → List ℕ
pad_zeros zero msg = msg
pad_zeros (suc fuel) msg =
    let more = pad_zeros fuel (msg ++ 0 ∷ []) in if length msg % 64 == 56 then msg else more

-- There are 64 remainders, so 64 rounds are enough.
unfoldable pub pad : List ℕ → List ℕ
unfolding pad_zeros big_endian
pad bytes = pad_zeros 64 (bytes ++ 0x80 ∷ []) ++ big_endian 8 (length bytes * 8 % 2 ^ 64)

-- The first sixteen words of `w`.
unfoldable pub load_words : ℕ → List ℕ → List ℕ
load_words zero block = []
load_words (suc n) block =
    let high = bit_or (element block 0 * 2 ^ 24) (element block 1 * 2 ^ 16) in
    bit_or (bit_or high (element block 2 * 2 ^ 8)) (element block 3) ∷ load_words n (drop 4 block)

-- The loop that extends `w`, by `count` words.
unfoldable pub extend_words : ℕ → List ℕ → List ℕ
extend_words zero w = w
extend_words (suc count) w =
    let i = length w in
    let v = element w (i - 15) in
    let u = element w (i - 2) in
    let s0 = bit_xor (bit_xor (rotr v 7) (rotr v 18)) (v / 2 ^ 3) in
    let s1 = bit_xor (bit_xor (rotr u 17) (rotr u 19)) (u / 2 ^ 10) in
    let next = (element w (i - 16) + s0 + element w (i - 7) + s1) % 2 ^ 32 in
    extend_words count (w ++ next ∷ [])

pub record Registers : Type 0 where
  pub a : ℕ
  pub b : ℕ
  pub c : ℕ
  pub d : ℕ
  pub e : ℕ
  pub f : ℕ
  pub g : ℕ
  pub h : ℕ

unfoldable pub hash_round : ℕ → ℕ → Registers → Registers
hash_round k w r =
    let s1 = bit_xor (bit_xor (rotr r.e 6) (rotr r.e 11)) (rotr r.e 25) in
    let ch = bit_xor (bit_and r.e r.f) (bit_and (2 ^ 32 - 1 - r.e) r.g) in
    let temp1 = (r.h + s1 + ch + k + w) % 2 ^ 32 in
    let s0 = bit_xor (bit_xor (rotr r.a 2) (rotr r.a 13)) (rotr r.a 22) in
    let maj = bit_xor (bit_xor (bit_and r.a r.b) (bit_and r.a r.c)) (bit_and r.b r.c) in
    let temp2 = (s0 + maj) % 2 ^ 32 in
    record {
      a = (temp1 + temp2) % 2 ^ 32;
      b = r.a;
      c = r.b;
      d = r.c;
      e = (r.d + temp1) % 2 ^ 32;
      f = r.e;
      g = r.f;
      h = r.g;
    }

unfoldable pub hash_rounds : List ℕ → List ℕ → Registers → Registers
hash_rounds [] ws r = r
hash_rounds (k ∷ ks) [] r = r
hash_rounds (k ∷ ks) (w ∷ ws) r = hash_rounds ks ws (hash_round k w r)

-- `h[0] += a`, and so on.
unfoldable pub add_words : Registers → Registers → Registers
add_words x y = record {
  a = (x.a + y.a) % 2 ^ 32;
  b = (x.b + y.b) % 2 ^ 32;
  c = (x.c + y.c) % 2 ^ 32;
  d = (x.d + y.d) % 2 ^ 32;
  e = (x.e + y.e) % 2 ^ 32;
  f = (x.f + y.f) % 2 ^ 32;
  g = (x.g + y.g) % 2 ^ 32;
  h = (x.h + y.h) % 2 ^ 32;
}

unfoldable pub hash_block : List ℕ → Registers → Registers
unfolding load_words extend_words hash_rounds add_words
hash_block block r =
    add_words r (hash_rounds round_constants (extend_words 48 (load_words 16 block)) r)

-- `count` blocks.
unfoldable pub hash_blocks : ℕ → List ℕ → Registers → Registers
hash_blocks zero msg r = r
hash_blocks (suc count) msg r = hash_blocks count (drop 64 msg) (hash_block (take 64 msg) r)

abbrev initial_registers : Registers
initial_registers = record {
  a = 0x6a09e667;
  b = 0xbb67ae85;
  c = 0x3c6ef372;
  d = 0xa54ff53a;
  e = 0x510e527f;
  f = 0x9b05688c;
  g = 0x1f83d9ab;
  h = 0x5be0cd19;
}

unfoldable pub sha256 : List ℕ → List ℕ
unfolding pad hash_blocks
sha256 bytes =
    let msg = pad bytes in
    let r = hash_blocks (length msg / 64) msg initial_registers in
    big_endian 4 r.a
    ++ big_endian 4 r.b
    ++ big_endian 4 r.c
    ++ big_endian 4 r.d
    ++ big_endian 4 r.e
    ++ big_endian 4 r.f
    ++ big_endian 4 r.g
    ++ big_endian 4 r.h

-- Two hexadecimal digits for each byte.
unfoldable pub hex_bytes : List ℕ → Text
hex_bytes [] = []
hex_bytes (b ∷ bytes) = hex_digit (b / 16) ∷ hex_digit (b % 16) ∷ hex_bytes bytes

unfoldable pub hash_number : ℤ → Text
unfolding sha256 to_string hex_bytes
hash_number num = hex_bytes (take 5 (sha256 (to_string num)))
