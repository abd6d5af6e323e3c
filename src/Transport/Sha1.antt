-- ===== src/Transport/Sha1.antt =====
-- `detail::SHA1` of hello-websocket-cpp/common/ws.hpp.
use hello_websocket.Prelude.{
  ℕ, zero, suc, ◌+◌, ◌-◌, ◌*◌, ◌/◌, ◌%◌, ◌^◌, List, [], ◌∷◌, ◌++◌, length, drop, element, ltb, ◌==◌,
  if◌then◌else◌, bit_and, bit_or, bit_xor,
}

-- The words `h[0]` to `h[4]`, or the registers `a` to `e`.
pub record Words : Type 0 where
  pub w0 : ℕ
  pub w1 : ℕ
  pub w2 : ℕ
  pub w3 : ℕ
  pub w4 : ℕ

-- `data` holds the first `datalen` bytes of the array.
pub record Sha1 : Type 0 where
  pub h : Words
  pub bitlen : ℕ
  pub buffer : List ℕ

unfoldable pub new_sha1 : Sha1
new_sha1 = record {
  h = record {
    w0 = 0x67452301;
    w1 = 0xefcdab89;
    w2 = 0x98badcfe;
    w3 = 0x10325476;
    w4 = 0xc3d2e1f0;
  };
  bitlen = 0;
  buffer = [];
}

unfoldable pub rotl : ℕ → ℕ → ℕ
rotl x n = bit_or (x * 2 ^ n % 2 ^ 32) (x / 2 ^ (32 - n))

-- `w[0]` to `w[15]`.
unfoldable pub first_words : ℕ → List ℕ → List ℕ
first_words zero block = []
first_words (suc n) block =
    let high = bit_or (element block 0 * 2 ^ 24) (element block 1 * 2 ^ 16) in
    bit_or (bit_or high (element block 2 * 2 ^ 8)) (element block 3) ∷ first_words n (drop 4 block)

-- The loop that fills `count` more words.
unfoldable pub more_words : ℕ → List ℕ → List ℕ
unfolding rotl
more_words zero w = w
more_words (suc count) w =
    let i = length w in
    let x = bit_xor (bit_xor (element w (i - 3)) (element w (i - 8))) (element w (i - 14)) in
    more_words count (w ++ rotl (bit_xor x (element w (i - 16))) 1 ∷ [])

unfoldable pub choose : ℕ → Words → ℕ
choose i r =
    if ltb i 20
    then bit_or (bit_and r.w1 r.w2) (bit_and (2 ^ 32 - 1 - r.w1) r.w3)
    else if ltb i 40
    then bit_xor (bit_xor r.w1 r.w2) r.w3
    else if ltb i 60
    then bit_or (bit_or (bit_and r.w1 r.w2) (bit_and r.w1 r.w3)) (bit_and r.w2 r.w3)
    else bit_xor (bit_xor r.w1 r.w2) r.w3

unfoldable pub round_constant : ℕ → ℕ
round_constant i =
    if ltb i 20
    then 0x5a827999
    else if ltb i 40
    then 0x6ed9eba1
    else if ltb i 60
    then 0x8f1bbcdc
    else 0xca62c1d6

-- The rounds from `i` on, for each word of the list.
unfoldable pub sha1_rounds : ℕ → List ℕ → Words → Words
unfolding rotl choose round_constant
sha1_rounds i [] r = r
sha1_rounds i (w ∷ ws) r =
    let temp = (rotl r.w0 5 + choose i r + r.w4 + round_constant i + w) % 2 ^ 32 in
    sha1_rounds (suc i) ws
      (record { w0 = temp; w1 = r.w0; w2 = rotl r.w1 30; w3 = r.w2; w4 = r.w3 })

unfoldable pub transform : List ℕ → Words → Words
unfolding first_words more_words sha1_rounds
transform block h =
    let r = sha1_rounds 0 (more_words 64 (first_words 16 block)) h in
    record {
      w0 = (h.w0 + r.w0) % 2 ^ 32;
      w1 = (h.w1 + r.w1) % 2 ^ 32;
      w2 = (h.w2 + r.w2) % 2 ^ 32;
      w3 = (h.w3 + r.w3) % 2 ^ 32;
      w4 = (h.w4 + r.w4) % 2 ^ 32;
    }

-- A round of `update`.
unfoldable pub update_byte : ℕ → Sha1 → Sha1
unfolding transform
update_byte b sha =
    let buffer = sha.buffer ++ b ∷ [] in
    if length buffer == 64
    then record { h = transform buffer sha.h; bitlen = (sha.bitlen + 512) % 2 ^ 64; buffer = [] }
    else record sha { buffer = buffer }

unfoldable pub update : List ℕ → Sha1 → Sha1
unfolding update_byte
update [] sha = sha
update (b ∷ bytes) sha = update bytes (update_byte b sha)

unfoldable pub zero_bytes : ℕ → List ℕ
zero_bytes zero = []
zero_bytes (suc n) = 0 ∷ zero_bytes n

-- The eight bytes `(totalBits >> ((7-i)*8)) & 0xFF`, and the four of a word.
unfoldable pub bytes_from_high : ℕ → ℕ → List ℕ
bytes_from_high zero v = []
bytes_from_high (suc i) v = bit_and (v / 2 ^ (i * 8)) 0xff ∷ bytes_from_high i v

-- A buffer with the byte 0x80 put at its end that has no room for the length is filled up with
-- zeros and used up first.
unfoldable pub last_block : List ℕ → ℕ → Words → Words
unfolding transform zero_bytes bytes_from_high
last_block buffer total h =
    if ltb 56 (length buffer)
    then transform (zero_bytes 56 ++ bytes_from_high 8 total)
        (transform (buffer ++ zero_bytes (64 - length buffer)) h)
    else transform (buffer ++ zero_bytes (56 - length buffer) ++ bytes_from_high 8 total) h

unfoldable pub final : Sha1 → List ℕ
unfolding last_block
final sha =
    let total = (sha.bitlen + length sha.buffer * 8) % 2 ^ 64 in
    let h = last_block (sha.buffer ++ 0x80 ∷ []) total sha.h in
    bytes_from_high 4 h.w0
    ++ bytes_from_high 4 h.w1
    ++ bytes_from_high 4 h.w2
    ++ bytes_from_high 4 h.w3
    ++ bytes_from_high 4 h.w4
