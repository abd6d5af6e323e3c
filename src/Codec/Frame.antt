-- ===== src/Codec/Frame.antt =====
-- `encodeFrame` and `decodeFrame`.
pub mod Layout
use hello_websocket.Prelude.{
  ℕ, ◌-◌, ◌*◌, ◌/◌, ◌%◌, ◌^◌, bit_and, bit_or, List, [], ◌∷◌, ◌++◌, length,
}
use hello_websocket.Prelude.{not, ltb, ◌==◌}
use hello_websocket.Codec.Constants.{magic, version, header_len}
use hello_websocket.Codec.Outcome.{Result, ok, byte_at, slice, ◌>>=◌, ◌>>◌, throw_if}
use hello_websocket.Codec.Outcome.{frame_too_short, bad_magic, bad_version, payload_length_mismatch}

-- The header is written byte by byte into the front of a buffer whose rest is the payload.
unfoldable pub encode_frame : ℕ → List ℕ → List ℕ
encode_frame msg_type payload =
    let len = length payload % 2 ^ 32 in
    (magic
      ∷ version
      ∷ msg_type
      ∷ 0x00
      ∷ bit_and (len / 2 ^ 24) 0xff
      ∷ bit_and (len / 2 ^ 16) 0xff
      ∷ bit_and (len / 2 ^ 8) 0xff
      ∷ bit_and len 0xff
      ∷ [])
    ++ payload

pub record Frame : Type 0 where
  pub msg_type : ℕ
  pub payload : List ℕ

unfoldable pub decode_frame : List ℕ → Result Frame
decode_frame bytes = do
  let len = length bytes
  throw_if (ltb len header_len) (frame_too_short len)
  b0 ← byte_at bytes 0
  throw_if (not (b0 == magic)) bad_magic
  b1 ← byte_at bytes 1
  throw_if (not (b1 == version)) bad_version
  msg_type ← byte_at bytes 2
  b4 ← byte_at bytes 4
  b5 ← byte_at bytes 5
  b6 ← byte_at bytes 6
  b7 ← byte_at bytes 7
  let high = bit_or (b4 * 2 ^ 24 % 2 ^ 32) (b5 * 2 ^ 16 % 2 ^ 32)
  let payload_len = bit_or (bit_or high (b6 * 2 ^ 8 % 2 ^ 32)) b7
  throw_if (not (payload_len == len - header_len)) payload_length_mismatch
  payload ← slice bytes header_len payload_len
  ok (record { msg_type = msg_type; payload = payload })
