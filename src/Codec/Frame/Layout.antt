-- ===== src/Codec/Frame/Layout.antt =====
-- Which byte sequences `decodeFrame` accepts, and how it answers on the others.
use hello_websocket.Codec.Wire.Write.{be32-mod}
use hello_websocket.Prelude.Bits.{bit_and_byte}
use hello_websocket.Codec.Wire.{IsByte, be32}
use hello_websocket.Prelude.{
  ◌≢◌, ◌%◌, ap, All, ◌/◌, take-length, ◌==◌, if◌then◌else◌, ℕ, ◌+◌, ◌*◌, ◌^◌, ◌<◌, ◌≡◌, List, ◌∷◌,
  ◌++◌, length, arith,
}
use hello_websocket.Codec.Outcome.{fault, ok, throw}
use hello_websocket.Codec.Frame.{
  bad_magic, bad_version, payload_length_mismatch, version, frame_too_short, magic, Frame,
  encode_frame, decode_frame,
}
use hello_websocket.Codec.Wire.Reads.{be32_unique, big_endian32}

-- The envelope of PROTOCOL.md, section 2.
abbrev pub envelope : ℕ → ℕ → List ℕ → List ℕ
envelope msg_type flags payload =
    magic ∷ version ∷ msg_type ∷ flags ∷ (be32 (length payload) ++ payload)

pub encode_frame-envelope : (t : ℕ) (p : List ℕ) → encode_frame t p ≡ envelope t 0 p
unfolding encode_frame
encode_frame-envelope t p =
    simp bit_and_byte
      (ap (λ (l : List ℕ). magic ∷ version ∷ t ∷ 0 ∷ (l ++ p)) (be32-mod (length p)))

-- Too few bytes for a header are refused before anything is read.
pub decode_frame_short :
    (bytes : List ℕ)
    → length bytes < 8
    → decode_frame bytes ≡ throw (frame_too_short (length bytes))
unfolding decode_frame
decode_frame_short bytes h = ground arith

-- On a whole header, of which the four length bytes are bytes, and what follows it, `decodeFrame`
-- tests the magic, the version and the length, in this order, and returns the type byte with what
-- follows if all three are right.
pub decode_frame-header :
    (b0 b1 b2 b3 b4 b5 b6 b7 : ℕ) (rest : List ℕ)
    → b4 < 256
    → b5 < 256
    → b6 < 256
    → b7 < 256
    → decode_frame (b0 ∷ b1 ∷ b2 ∷ b3 ∷ b4 ∷ b5 ∷ b6 ∷ b7 ∷ rest) ≡ (
        if b0 == magic
        then if b1 == version
          then if b4 * 2 ^ 24 + b5 * 2 ^ 16 + b6 * 2 ^ 8 + b7 == length rest
            then ok (record { msg_type = b2; payload = rest })
            else throw payload_length_mismatch
          else throw bad_version
        else throw bad_magic)
unfolding decode_frame
decode_frame-header b0 b1 b2 b3 b4 b5 b6 b7 rest h4 h5 h6 h7 =
    ground (arith, big_endian32 b4 b5 b6 b7 h4 h5 h6 h7, take-length rest)

be32-value :
    (n : ℕ)
    → n < 2 ^ 32
    → n / 2 ^ 24 % 256 * 2 ^ 24 + n / 2 ^ 16 % 256 * 2 ^ 16 + n / 2 ^ 8 % 256 * 2 ^ 8 + n % 256 ≡ n
be32-value n h = omega arith

pub decode_frame-envelope :
    (t flags : ℕ) (p : List ℕ)
    → length p < 2 ^ 32
    → decode_frame (envelope t flags p) ≡ ok (record { msg_type = t; payload = p })
decode_frame-envelope t flags p h =
    let n = length p in
    ground (
      arith,
      be32-value n h,
      decode_frame-header magic version t flags (n / 2 ^ 24 % 256) (n / 2 ^ 16 % 256)
          (n / 2 ^ 8 % 256) (n % 256) p,
    )

-- A frame that `decodeFrame` returns is the one whose envelope the bytes are.
pub decode_frame-ok :
    (bytes : List ℕ) {f : Frame}
    → All IsByte bytes
    → decode_frame bytes ≡ ok f
    → (flags : ℕ) × (length f.payload < 2 ^ 32) × (bytes ≡ envelope f.msg_type flags f.payload)
decode_frame-ok (b0 ∷ b1 ∷ b2 ∷ b3 ∷ b4 ∷ b5 ∷ b6 ∷ b7 ∷ rest) {f} h e = (
  b3,
  ground (arith, decode_frame-header b0 b1 b2 b3 b4 b5 b6 b7 rest),
  ground (
    arith,
    decode_frame-header b0 b1 b2 b3 b4 b5 b6 b7 rest,
    be32_unique b4 b5 b6 b7 (length rest),
  ),
)
decode_frame-ok bytes h e = cc (decode_frame_short bytes (omega arith))

pub decode_frame-ne-fault : (bytes : List ℕ) → All IsByte bytes → decode_frame bytes ≢ fault
decode_frame-ne-fault (b0 ∷ b1 ∷ b2 ∷ b3 ∷ b4 ∷ b5 ∷ b6 ∷ b7 ∷ rest) h e =
    ground (arith, decode_frame-header b0 b1 b2 b3 b4 b5 b6 b7 rest)
decode_frame-ne-fault bytes h e = cc (decode_frame_short bytes (omega arith))
