-- ===== src/Codec/Wire/Bytes.antt =====
-- What `encode` returns is made of bytes.
use hello_websocket.Codec.Outcome.{ok}
use hello_websocket.Prelude.{
  ap, ◌∙◌, ◌<◌, ℕ, ◌≡◌, List, [], ◌∷◌, ◌++◌, All, All-append, ℤ, length, arith, subst, sym,
}
use hello_websocket.Codec.KvMap.{KvMap}
use hello_websocket.Codec.Message.{
  decode_message, encode, EchoResult, Message, Kind, kind_of, hello, bonjour, echo_request,
  echo_response, kiss_request, kiss_response, ping, pong, time_notification, random_number,
  hash_response, disconnect, error, unknown,
}
use hello_websocket.Codec.Frame.Layout.{encode_frame-envelope, envelope}
use hello_websocket.Codec.Wire.{
  carried, IsByte, IsText, IsEntry, IsResult, Carries, payload, code, be32, wire_i64, wire_string,
  wire_entries, wire_results,
}
use hello_websocket.Codec.Wire.RoundTrip.{decode_message-encode, IsEncodable}
use hello_websocket.Codec.Wire.Write.{encode-payload, kind_of-code}

record Bytes (l : List ℕ) : Type 0 where
  all : All IsByte l

be32-Bytes : (v : ℕ) → Bytes (be32 v)
be32-Bytes v = record { all = omega arith }

text-Bytes : (s : List ℕ) → IsText s → Bytes s
text-Bytes s h = record { all = h.bytes }

both : {l k : List ℕ} → Bytes l → Bytes k → Bytes (l ++ k)
both {l} {k} h g = record { all = All-append IsByte l k h.all g.all }

with_byte : {b : ℕ} {l : List ℕ} → IsByte b → Bytes l → Bytes (b ∷ l)
with_byte h g = record { all = (h, g.all) }

wire_i64-Bytes : (v : ℤ) → Bytes (wire_i64 v)
wire_i64-Bytes v = both (be32-Bytes _) (be32-Bytes _)

wire_string-Bytes : (s : List ℕ) → IsText s → Bytes (wire_string s)
wire_string-Bytes s h = both (be32-Bytes (length s)) (text-Bytes s h)

wire_entries-Bytes : (es : KvMap) → All IsEntry es → Bytes (wire_entries es)
wire_entries-Bytes [] h = record { all = tt }
wire_entries-Bytes (e ∷ es) h =
    both (wire_string-Bytes e.0 h.0.0)
      (both (wire_string-Bytes e.1 h.0.1) (wire_entries-Bytes es h.1))

wire_results-Bytes : (rs : List EchoResult) → All IsResult rs → Bytes (wire_results rs)
wire_results-Bytes [] h = record { all = tt }
wire_results-Bytes (r ∷ rs) h =
    both
      (both (wire_i64-Bytes r.idx) (
        with_byte h.0.type
          (both (be32-Bytes (length r.kv)) (wire_entries-Bytes r.kv h.0.kv.entries))))
      (wire_results-Bytes rs h.1)

payload-Bytes : (k : Kind) (m : Message) → Carries k m → Bytes (payload k m)
unfolding payload
payload-Bytes hello m h = wire_string-Bytes _ h
payload-Bytes bonjour m h = wire_string-Bytes _ h
payload-Bytes echo_request m h =
    both (wire_i64-Bytes m.echo_id) (both (wire_string-Bytes _ h.1) (wire_string-Bytes _ h.2))
payload-Bytes echo_response m h =
    both (be32-Bytes _)
      (both (be32-Bytes (length m.echo_results)) (wire_results-Bytes m.echo_results h.1))
payload-Bytes kiss_request m h =
    both (wire_string-Bytes _ h.0)
      (both (wire_string-Bytes _ h.1) (both (wire_string-Bytes _ h.2) (wire_string-Bytes _ h.3)))
payload-Bytes kiss_response m h =
    both (wire_string-Bytes _ h.0) (both (wire_string-Bytes _ h.1) (wire_string-Bytes _ h.2))
payload-Bytes ping m h = wire_i64-Bytes m.timestamp_ms
payload-Bytes pong m h = wire_i64-Bytes m.timestamp_ms
payload-Bytes time_notification m h = both (wire_i64-Bytes m.timestamp_ms) (wire_string-Bytes _ h.1)
payload-Bytes random_number m h = both (wire_i64-Bytes m.random_id) (wire_i64-Bytes m.random_number)
payload-Bytes hash_response m h = both (wire_i64-Bytes m.random_id) (wire_string-Bytes _ h.1)
payload-Bytes disconnect m h = wire_string-Bytes _ h
payload-Bytes error m h = both (be32-Bytes _) (wire_string-Bytes _ h.1)
payload-Bytes unknown m h = record { all = tt }

code-IsByte : (k : Kind) → code k < 256
code-IsByte hello = omega arith
code-IsByte bonjour = omega arith
code-IsByte echo_request = omega arith
code-IsByte echo_response = omega arith
code-IsByte kiss_request = omega arith
code-IsByte kiss_response = omega arith
code-IsByte ping = omega arith
code-IsByte pong = omega arith
code-IsByte time_notification = omega arith
code-IsByte random_number = omega arith
code-IsByte hash_response = omega arith
code-IsByte disconnect = omega arith
code-IsByte error = omega arith
code-IsByte unknown = omega arith

-- The frame that `encode` returns.
abbrev pub message_bytes : Message → List ℕ
message_bytes m = envelope m.type 0 (payload (kind_of m.type) m)

-- `encode` returns the envelope around the payload; it is made of bytes, and decodes to the fields
-- that the message carries.
pub encode-message_bytes :
    (m : Message)
    → IsEncodable m
    → (encode m ≡ ok (message_bytes m))
      × All IsByte (message_bytes m)
      × (decode_message (message_bytes m) ≡ ok (carried (kind_of m.type) m))
encode-message_bytes m h =
    let p = payload (kind_of m.type) m in
    let type_byte : m.type < 256 =
      subst (λ (t : ℕ). t < 256) (sym (kind_of-code m.type h.known))
        (code-IsByte (kind_of m.type)) in
    let (bytes, written, read) = decode_message-encode m h in
    let frame = encode-payload m h.known ∙ ap ok (encode_frame-envelope m.type p) in
    let same : bytes ≡ message_bytes m = cc in
    (
      frame,
      (
        omega arith,
        (
          omega arith,
          (
            type_byte,
            (
              omega arith,
              (both (be32-Bytes (length p)) (payload-Bytes (kind_of m.type) m h.carries)).all,
            ),
          ),
        ),
      ),
      subst (λ (b : List ℕ). decode_message b ≡ ok (carried (kind_of m.type) m)) same read,
    )
