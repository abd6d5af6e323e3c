-- ===== src/Codec/Examples.antt =====
-- Runs of the codec on the vectors of tests/protocol-vectors.json, and the theorems at concrete
-- messages.
use hello_websocket.Codec.Wire.Write.{encode-payload}
use hello_websocket.Codec.Frame.Layout.{decode_frame-header}
use hello_websocket.Codec.Wire.Canonical.{encode-decode_message}
use hello_websocket.Codec.Utf8.{is_valid_utf8}
use hello_websocket.Codec.KvMap.{compare_text}
use hello_websocket.Codec.Reader.{read_string, read_u32, check, new_reader}
use hello_websocket.Codec.Frame.{decode_frame, encode_frame}
use hello_websocket.Prelude.{ℕ, ◌≡◌, ◌≢◌, ◌↔◌, refl, List, [], ◌∷◌, codes, arith, true, pos, negsuc}
use hello_websocket.Codec.Outcome.{ok, fault}
use hello_websocket.Codec.Message.{unknown, Message, new_message, encode, kind_of, decode_message}
use hello_websocket.Codec.Wire.{IsText, payload, carried}
use hello_websocket.Codec.Wire.RoundTrip.{IsEncodable, decode_message-encode}
use hello_websocket.Codec.Wire.Sound.{Accepted, decode_message_iff, decode_message-ne-fault}
use hello_websocket.Codec.Utf8.Valid.{IsUtf8, is_valid_utf8_iff}

-- `hello_go`, the worked example of PROTOCOL.md, section 9.
abbrev hello_go : List ℕ
hello_go = 0x48 ∷ 1 ∷ 1 ∷ 0 ∷ 0 ∷ 0 ∷ 0 ∷ 6 ∷ 0 ∷ 0 ∷ 0 ∷ 2 ∷ 0x47 ∷ 0x6f ∷ []

abbrev go_message : Message
go_message = record (new_message 1) { client_language = codes "Go" }

-- `hello_chinese`: two characters of three bytes.
abbrev chinese : List ℕ
chinese = 0xe4 ∷ 0xbd ∷ 0xa0 ∷ 0xe5 ∷ 0xa5 ∷ 0xbd ∷ []

-- An answer to an echo request with id -1.
abbrev echo_answer : Message
echo_answer = record (new_message 4) {
  echo_status = pos 200;
  echo_results =
      record {
        idx = negsuc 0;
        type = 0;
        kv = (codes "data", codes "hi") ∷ (codes "id", chinese) ∷ [];
      }
      ∷ [];
}

go-IsText : IsText (codes "Go")
unfolding is_valid_utf8
go-IsText = record { bytes = omega arith; valid = refl; short = omega arith }

data-IsText : IsText (codes "data")
unfolding is_valid_utf8
data-IsText = record { bytes = omega arith; valid = refl; short = omega arith }

hi-IsText : IsText (codes "hi")
unfolding is_valid_utf8
hi-IsText = record { bytes = omega arith; valid = refl; short = omega arith }

id-IsText : IsText (codes "id")
unfolding is_valid_utf8
id-IsText = record { bytes = omega arith; valid = refl; short = omega arith }

chinese-IsText : IsText chinese
unfolding is_valid_utf8
chinese-IsText = record { bytes = omega arith; valid = refl; short = omega arith }

echo_answer-IsEncodable : IsEncodable echo_answer
unfolding kind_of payload compare_text
echo_answer-IsEncodable = record {
  known = cc;
  carries = (
    omega arith,
    (
      record {
        idx = omega arith;
        type = omega arith;
        kv = record {
          sorted = ((refl, tt), (tt, tt));
          entries = ((data-IsText, hi-IsText), ((id-IsText, chinese-IsText), tt));
          few = omega arith;
        };
      },
      tt,
    ),
    omega arith,
  );
  short = omega arith;
}

decode_message-encode_example :
    (bytes : List ℕ) × (encode echo_answer ≡ ok bytes)
    × (decode_message bytes ≡ ok (carried (kind_of 4) echo_answer))
decode_message-encode_example = decode_message-encode echo_answer echo_answer-IsEncodable

decode_message_iff_example :
    (decode_message hello_go ≡ ok go_message) ↔ Accepted hello_go go_message
decode_message_iff_example = decode_message_iff hello_go go_message (omega arith)

decode_message-ne-fault_example : decode_message hello_go ≢ fault
decode_message-ne-fault_example = decode_message-ne-fault hello_go (omega arith)

is_valid_utf8_iff_example : (is_valid_utf8 chinese ≡ ok true) ↔ IsUtf8 chinese
is_valid_utf8_iff_example = is_valid_utf8_iff chinese (omega arith)

hello_go-ok : decode_message hello_go ≡ ok go_message
unfolding decode_message decode_frame kind_of read_string read_u32 check new_reader is_valid_utf8
hello_go-ok = refl

encode-decode_message_example :
    (again : List ℕ) × (encode go_message ≡ ok again) × (decode_message again ≡ ok go_message)
encode-decode_message_example = encode-decode_message hello_go go_message (omega arith) hello_go-ok

decode_frame-header_example :
    decode_frame hello_go ≡ ok (record { msg_type = 1; payload = 0 ∷ 0 ∷ 0 ∷ 2 ∷ 0x47 ∷ 0x6f ∷ [] })
decode_frame-header_example =
    decode_frame-header 0x48 1 1 0 0 0 0 6 (0 ∷ 0 ∷ 0 ∷ 2 ∷ 0x47 ∷ 0x6f ∷ []) (omega arith)
      (omega arith) (omega arith) (omega arith)

go-known : kind_of go_message.type ≢ unknown
unfolding kind_of
go-known = cc

encode-payload_example : encode go_message ≡ ok (encode_frame 1 (0 ∷ 0 ∷ 0 ∷ 2 ∷ 0x47 ∷ 0x6f ∷ []))
unfolding payload kind_of
encode-payload_example = encode-payload go_message go-known
