-- ===== src/Transport/Frame.antt =====
-- Sending WebSocket frames: `wsSendBinary`, `wsSendBinaryMasked`, `wsSendControl`, `wsSendClose`.
-- The key that `std::random_device` yields is an argument, its four bytes as a list.
use hello_websocket.Prelude.{
  ℕ, zero, suc, ◌*◌, ◌/◌, ◌%◌, ◌^◌, List, [], ◌∷◌, ◌++◌, length, element, ltb, leb, if◌then◌else◌,
  Bool, false, bit_or, bit_and, bit_xor,
}
use hello_websocket.Transport.Socket.{Socket, send_all}

-- `bytes[i] ^ mask[i % 4]` from the index `i` on.
unfoldable pub mask_from : List ℕ → ℕ → List ℕ → List ℕ
mask_from mask i [] = []
mask_from mask i (b ∷ bytes) = bit_xor b (element mask (i % 4)) ∷ mask_from mask (suc i) bytes

-- The loop `for (int i = count - 1; i >= 0; i--) frame.push_back((l >> (i * 8)) & 0xFF)`.
unfoldable pub high_bytes : ℕ → ℕ → List ℕ
high_bytes zero l = []
high_bytes (suc i) l = bit_and (l / 2 ^ (i * 8)) 0xff ∷ high_bytes i l

-- The second byte with the extended length, `flag` being the mask bit.
unfoldable pub length_bytes : ℕ → ℕ → List ℕ
length_bytes flag len =
    if ltb len 126
    then bit_or flag len ∷ []
    else if leb len 65535
    then bit_or flag 126 ∷ bit_and (len / 2 ^ 8) 0xff ∷ bit_and len 0xff ∷ []
    else bit_or flag 127 ∷ high_bytes 8 len

unfoldable pub ws_send_binary : List ℕ → Socket → Bool × Socket
ws_send_binary bytes s = send_all (0x82 ∷ length_bytes 0 (length bytes) ++ bytes) s

unfoldable pub ws_send_binary_masked : List ℕ → List ℕ → Socket → Bool × Socket
ws_send_binary_masked mask bytes s =
    send_all (0x82 ∷ length_bytes 0x80 (length bytes) ++ (mask ++ mask_from mask 0 bytes)) s

-- The bytes that `wsSendControl` puts together.
unfoldable pub control_bytes : ℕ → List ℕ → Bool → List ℕ → List ℕ
control_bytes opcode payload masked key =
    bit_or 0x80 (bit_and opcode 0xf)
    ∷ bit_or (if masked then 0x80 else 0) (length payload)
    ∷ (if masked then key ++ mask_from key 0 payload else payload)

unfoldable pub ws_send_control : ℕ → List ℕ → Bool → List ℕ → Socket → Bool × Socket
ws_send_control opcode payload masked key s =
    if ltb 125 (length payload)
    then (false, s)
    else send_all (control_bytes opcode payload masked key) s

unfoldable pub ws_send_close : List ℕ → Socket → Bool × Socket
ws_send_close [] s = send_all (0x88 ∷ 0x00 ∷ []) s
ws_send_close (c ∷ reason) s =
    let len = length (c ∷ reason) in
    let size =
      if ltb len 126 then len ∷ [] else 126 ∷ bit_and (len / 2 ^ 8) 0xff ∷ bit_and len 0xff ∷ [] in
    send_all (0x88 ∷ size ++ c ∷ reason) s
