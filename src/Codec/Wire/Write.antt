-- ===== src/Codec/Wire/Write.antt =====
-- `ByteWriter` and `Message::encode` produce the encodings of the protocol.
use hello_websocket.Prelude.{
  ℕ, ◌/◌, ◌%◌, ◌^◌, ◌≡◌, ◌≢◌, refl, ap, ◌∙◌, sym, List, [], ◌∷◌, ◌++◌, append_assoc, append-nil,
  arith, length, ℤ, pos, negsuc, to_unsigned, shift_right, bit_and,
}
use hello_websocket.Prelude.Bits.{bit_and_byte, bit_and_low}
use hello_websocket.Codec.Outcome.{ok, throw, unknown_message_type}
use hello_websocket.Codec.KvMap.{Text, KvMap}
use hello_websocket.Codec.Frame.{encode_frame}
use hello_websocket.Codec.Writer.{
  ByteWriter, write_u8, write_u32, write_i32, write_i64, write_string, write_entries, write_kv,
}
use hello_websocket.Codec.Message.{
  EchoResult, Message, write_results, encode, encode_as, Kind, kind_of, hello, bonjour,
  echo_request, echo_response, kiss_request, kiss_response, ping, pong, time_notification,
  random_number, hash_response, disconnect, error, unknown,
}
use hello_websocket.Codec.Wire.{
  be32, wire_i32, wire_i64, wire_string, wire_entries, wire_kv, wire_results, payload, code,
}

write_u32_lem : (v : ℕ) (w : ByteWriter) → (write_u32 v w).buf ≡ w.buf ++ be32 v
unfolding write_u32
write_u32_lem v w = simp (bit_and_byte, append_assoc)

pub be32-mod : (n : ℕ) → be32 (n % 2 ^ 32) ≡ be32 n
be32-mod n = ground arith

write_i32_lem : (v : ℤ) (w : ByteWriter) → (write_i32 v w).buf ≡ w.buf ++ wire_i32 v
unfolding write_i32
write_i32_lem v w = write_u32_lem _ w

high_half : (v : ℤ) → to_unsigned (2 ^ 32) (shift_right v 32) ≡ to_unsigned (2 ^ 64) v / 2 ^ 32
high_half (pos n) = omega arith
high_half (negsuc n) = omega arith

low_half :
    (v : ℤ)
    → bit_and (to_unsigned (2 ^ 64) v) 0xffff_ffff % 2 ^ 32 ≡ to_unsigned (2 ^ 64) v % 2 ^ 32
low_half v = omega (arith, bit_and_low 32 (to_unsigned (2 ^ 64) v))

write_i64_lem : (v : ℤ) (w : ByteWriter) → (write_i64 v w).buf ≡ w.buf ++ wire_i64 v
unfolding write_i64
write_i64_lem v w = simp (write_u32_lem, append_assoc, high_half, low_half)

write_string_lem : (s : Text) (w : ByteWriter) → (write_string s w).buf ≡ w.buf ++ wire_string s
unfolding write_string
write_string_lem s w =
    rw (write_u32_lem, be32-mod (length s)) (append_assoc w.buf (be32 (length s)) s)

write_entries_lem : (m : KvMap) (w : ByteWriter) → (write_entries m w).buf ≡ w.buf ++ wire_entries m
unfolding write_entries
write_entries_lem [] w = sym (append-nil w.buf)
write_entries_lem (e ∷ m) w =
    write_entries_lem m _ ∙ rw (write_string_lem e.1, write_string_lem e.0) (simp append_assoc)

write_kv_lem : (m : KvMap) (w : ByteWriter) → (write_kv m w).buf ≡ w.buf ++ wire_kv m
unfolding write_kv
write_kv_lem m w =
    write_entries_lem m _ ∙ rw (write_u32_lem, be32-mod (length m)) (append_assoc w.buf _ _)

write_results_lem :
    (rs : List EchoResult) (w : ByteWriter) → (write_results rs w).buf ≡ w.buf ++ wire_results rs
unfolding write_results
write_results_lem [] w = sym (append-nil w.buf)
write_results_lem (r ∷ rs) w =
    write_results_lem rs _
    ∙ rw write_kv_lem (unfold write_u8 in rw write_i64_lem (simp append_assoc))

pub kind_of-code : (t : ℕ) → kind_of t ≢ unknown → t ≡ code (kind_of t)
unfolding kind_of
kind_of-code t h = ground arith

ruleset write_laws =
    (write_i32_lem, write_i64_lem, write_string_lem, write_results_lem, write_u32_lem, append_assoc)

encode_as-payload :
    (k : Kind) (m : Message)
    → k ≢ unknown
    → encode_as k m ≡ ok (encode_frame (code k) (payload k m))
unfolding encode_as payload
encode_as-payload hello m h = simp write_laws
encode_as-payload bonjour m h = simp write_laws
encode_as-payload echo_request m h = simp write_laws
encode_as-payload echo_response m h = simp (write_laws, be32-mod)
encode_as-payload kiss_request m h = simp write_laws
encode_as-payload kiss_response m h = simp write_laws
encode_as-payload ping m h = simp write_laws
encode_as-payload pong m h = simp write_laws
encode_as-payload time_notification m h = simp write_laws
encode_as-payload random_number m h = simp write_laws
encode_as-payload hash_response m h = simp write_laws
encode_as-payload disconnect m h = simp write_laws
encode_as-payload error m h = simp write_laws
encode_as-payload unknown m h = absurd (h refl)

-- On a type of the registry `encode` returns the frame of that type around the payload that the
-- protocol lays down.
pub encode-payload :
    (m : Message)
    → kind_of m.type ≢ unknown
    → encode m ≡ ok (encode_frame m.type (payload (kind_of m.type) m))
unfolding encode
encode-payload m h =
    encode_as-payload (kind_of m.type) m h
    ∙ ap (λ (t : ℕ). ok (encode_frame t (payload (kind_of m.type) m))) (sym (kind_of-code m.type h))

-- On any other type it throws.
pub encode_unknown :
    (m : Message) → kind_of m.type ≡ unknown → encode m ≡ throw unknown_message_type
unfolding encode
encode_unknown m h = rw h
