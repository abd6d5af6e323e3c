-- ===== src/Codec/Wire.antt =====
-- The encodings of PROTOCOL.md, sections 3 and 5, as plain lists of bytes: what codec.hpp is held
-- against.
pub mod Write
pub mod Reads
pub mod ReadsKv
pub mod RoundTrip
pub mod Parses
pub mod Encodes
pub mod SoundPrimitives
pub mod SoundKv
pub mod Sound
pub mod Canonical
pub mod Bytes
use hello_websocket.Codec.Outcome.{ok}
use hello_websocket.Prelude.{
  ℕ, ◌/◌, ◌%◌, ◌^◌, ◌<◌, ◌≡◌, List, [], ◌∷◌, ◌++◌, length, All, true, ℤ, to_unsigned, FitsIn,
}
use hello_websocket.Codec.KvMap.{Text, KvMap, IsSorted}
use hello_websocket.Codec.Outcome.{ok}
use hello_websocket.Codec.Utf8.{is_valid_utf8}
use hello_websocket.Codec.Message.{
  EchoResult, Message, new_message, Kind, hello, bonjour, echo_request, echo_response, kiss_request,
  kiss_response, ping, pong, time_notification, random_number, hash_response, disconnect, error,
  unknown,
}

abbrev pub IsByte : ℕ → Type 0
IsByte b = b < 256

-- A u32, big-endian.
abbrev pub be32 : ℕ → List ℕ
be32 v = (v / 2 ^ 24 % 256) ∷ (v / 2 ^ 16 % 256) ∷ (v / 2 ^ 8 % 256) ∷ (v % 256) ∷ []

abbrev pub wire_i32 : ℤ → List ℕ
wire_i32 v = be32 (to_unsigned (2 ^ 32) v)

-- An i64: its two's complement pattern, high half first.
abbrev pub wire_i64 : ℤ → List ℕ
wire_i64 v = be32 (to_unsigned (2 ^ 64) v / 2 ^ 32) ++ be32 (to_unsigned (2 ^ 64) v % 2 ^ 32)

abbrev pub wire_string : Text → List ℕ
wire_string s = be32 (length s) ++ s

abbrev pub wire_entries : KvMap → List ℕ
wire_entries [] = []
wire_entries (e ∷ m) = wire_string e.0 ++ (wire_string e.1 ++ wire_entries m)

abbrev pub wire_kv : KvMap → List ℕ
wire_kv m = be32 (length m) ++ wire_entries m

abbrev pub wire_result : EchoResult → List ℕ
wire_result r = wire_i64 r.idx ++ (r.type ∷ wire_kv r.kv)

abbrev pub wire_results : List EchoResult → List ℕ
wire_results [] = []
wire_results (r ∷ rs) = wire_result r ++ wire_results rs

-- The payload of a message of each type.
unfoldable pub payload : Kind → Message → List ℕ
payload hello m = wire_string m.client_language
payload bonjour m = wire_string m.server_language
payload echo_request m = wire_i64 m.echo_id ++ (wire_string m.echo_meta ++ wire_string m.echo_data)
payload echo_response m =
    wire_i32 m.echo_status ++ (be32 (length m.echo_results) ++ wire_results m.echo_results)
payload kiss_request m =
    wire_string m.os_name
    ++ (wire_string m.os_version ++ (wire_string m.os_release ++ wire_string m.os_arch))
payload kiss_response m =
    wire_string m.kiss_language ++ (wire_string m.kiss_encoding ++ wire_string m.kiss_time_zone)
payload ping m = wire_i64 m.timestamp_ms
payload pong m = wire_i64 m.timestamp_ms
payload time_notification m = wire_i64 m.timestamp_ms ++ wire_string m.iso8601
payload random_number m = wire_i64 m.random_id ++ wire_i64 m.random_number
payload hash_response m = wire_i64 m.random_id ++ wire_string m.hash_hex
payload disconnect m = wire_string m.disconnect_reason
payload error m = wire_i32 m.error_code ++ wire_string m.error_message
payload unknown m = []

-- The code of each type in the registry of section 4.
abbrev pub code : Kind → ℕ
code hello = 0x01
code bonjour = 0x02
code echo_request = 0x03
code echo_response = 0x04
code kiss_request = 0x05
code kiss_response = 0x06
code ping = 0x07
code pong = 0x08
code time_notification = 0x09
code random_number = 0x0a
code hash_response = 0x0b
code disconnect = 0x0c
code error = 0x7f
code unknown = 0

abbrev pub IsI32 : ℤ → Type 0
IsI32 v = FitsIn (2 ^ 32) v

abbrev pub IsI64 : ℤ → Type 0
IsI64 v = FitsIn (2 ^ 64) v

-- A text of the protocol: bytes that are valid UTF-8, and fewer than 2^32.
pub record IsText (s : Text) : Type 0 where
  pub bytes : All IsByte s
  pub valid : is_valid_utf8 s ≡ ok true
  pub short : length s < 2 ^ 32

abbrev pub IsEntry : (Text × Text) → Type 0
IsEntry e = IsText e.0 × IsText e.1

pub record IsKv (m : KvMap) : Type 0 where
  pub sorted : IsSorted m
  pub entries : All IsEntry m
  pub few : length m < 2 ^ 32

pub record IsResult (r : EchoResult) : Type 0 where
  pub idx : IsI64 r.idx
  pub type : IsByte r.type
  pub kv : IsKv r.kv

-- The fields that a message of this type carries are values of their types.
abbrev pub Carries : Kind → Message → Type 0
Carries hello m = IsText m.client_language
Carries bonjour m = IsText m.server_language
Carries echo_request m = IsI64 m.echo_id × IsText m.echo_meta × IsText m.echo_data
Carries echo_response m =
    IsI32 m.echo_status × All IsResult m.echo_results × (length m.echo_results < 2 ^ 32)
Carries kiss_request m =
    IsText m.os_name × IsText m.os_version × IsText m.os_release × IsText m.os_arch
Carries kiss_response m = IsText m.kiss_language × IsText m.kiss_encoding × IsText m.kiss_time_zone
Carries ping m = IsI64 m.timestamp_ms
Carries pong m = IsI64 m.timestamp_ms
Carries time_notification m = IsI64 m.timestamp_ms × IsText m.iso8601
Carries random_number m = IsI64 m.random_id × IsI64 m.random_number
Carries hash_response m = IsI64 m.random_id × IsText m.hash_hex
Carries disconnect m = IsText m.disconnect_reason
Carries error m = IsI32 m.error_code × IsText m.error_message
Carries unknown m = ⊥

-- The message with only the fields that its type carries, all others as `Message{}` has them.
unfoldable pub carried : Kind → Message → Message
carried hello m = record (new_message m.type) { client_language = m.client_language }
carried bonjour m = record (new_message m.type) { server_language = m.server_language }
carried echo_request m = record (new_message m.type) {
  echo_id = m.echo_id;
  echo_meta = m.echo_meta;
  echo_data = m.echo_data;
}
carried echo_response m = record (new_message m.type) {
  echo_status = m.echo_status;
  echo_results = m.echo_results;
}
carried kiss_request m = record (new_message m.type) {
  os_name = m.os_name;
  os_version = m.os_version;
  os_release = m.os_release;
  os_arch = m.os_arch;
}
carried kiss_response m = record (new_message m.type) {
  kiss_language = m.kiss_language;
  kiss_encoding = m.kiss_encoding;
  kiss_time_zone = m.kiss_time_zone;
}
carried ping m = record (new_message m.type) { timestamp_ms = m.timestamp_ms }
carried pong m = record (new_message m.type) { timestamp_ms = m.timestamp_ms }
carried time_notification m = record (new_message m.type) {
  timestamp_ms = m.timestamp_ms;
  iso8601 = m.iso8601;
}
carried random_number m = record (new_message m.type) {
  random_id = m.random_id;
  random_number = m.random_number;
}
carried hash_response m = record (new_message m.type) {
  random_id = m.random_id;
  hash_hex = m.hash_hex;
}
carried disconnect m = record (new_message m.type) { disconnect_reason = m.disconnect_reason }
carried error m = record (new_message m.type) {
  error_code = m.error_code;
  error_message = m.error_message;
}
carried unknown m = m
