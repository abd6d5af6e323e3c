-- ===== src/Session/Examples.antt =====
-- The theorems on the two programs at concrete payloads.
use hello_websocket.Hash.Padding.{pad_ends, zeros}
use hello_websocket.Session.Heartbeat.{heartbeat}
use hello_websocket.Hash.{pad, hash_number, big_endian}
use hello_websocket.Transport.Frame.{ws_send_binary_masked, ws_send_control}
use hello_websocket.Session.Client.{Client, cleanup, on_payload as client_on_payload}
use hello_websocket.Session.Client.Replies.{
  kiss_request_answered, ping_answered, cleanup-ws_send_control, Answers as ClientAnswers,
}
use hello_websocket.Codec.Reader.{read_string, read_u32, read_i64, check, new_reader}
use hello_websocket.Codec.Frame.{decode_frame}
use hello_websocket.Codec.Utf8.{is_valid_utf8}
use hello_websocket.Prelude.{
  ◌^◌, ◌*◌, ◌++◌, ◌<◌, ◌%◌, length, negsuc, pos, ◌≡◌, refl, true, false, List, ℕ, arith, codes, [],
  ◌∷◌,
}
use hello_websocket.Codec.Message.{encode, Message, new_message, decode_message, kind_of}
use hello_websocket.Codec.Outcome.{ok, throw, bad_version}
use hello_websocket.Transport.Socket.{Socket}
use hello_websocket.Session.Server.{ping_message, Server, on_payload, what}
use hello_websocket.Session.Server.Replies.{
  Answers, hello_answered, random_number_answered, decode_error_answered,
}

abbrev quiet : Socket
quiet = record { incoming = []; rooms = 100 ∷ 100 ∷ []; outgoing = [] }

abbrev session : Server
session = record {
  socket = quiet;
  active = true;
  client_language = codes "unknown";
  last_pong_ts = 1000;
}

-- A HELLO from `Go`.
abbrev hello_bytes : List ℕ
hello_bytes = 0x48 ∷ 1 ∷ 1 ∷ 0 ∷ 0 ∷ 0 ∷ 0 ∷ 6 ∷ 0 ∷ 0 ∷ 0 ∷ 2 ∷ 0x47 ∷ 0x6f ∷ []

abbrev go_hello : Message
go_hello = record (new_message 1) { client_language = codes "Go" }

hello_read : decode_message hello_bytes ≡ ok go_hello
unfolding decode_message decode_frame kind_of read_string read_u32 read_i64 check new_reader
    is_valid_utf8
hello_read = refl

hello_answered_example :
    (st' : Server) × (on_payload 2000 hello_bytes session ≡ ok st')
    × Answers
        (record session { client_language = codes "Go" })
        st'
        (record (new_message 0x02) { server_language = codes "CPP" })
unfolding kind_of
hello_answered_example = hello_answered 2000 hello_bytes session refl go_hello hello_read refl

-- A RANDOM_NUMBER with id 7 and number -42.
abbrev random_bytes : List ℕ
random_bytes =
    0x48 ∷ 1 ∷ 0x0a ∷ 0 ∷ 0 ∷ 0 ∷ 0 ∷ 16 ∷ 0 ∷ 0 ∷ 0 ∷ 0 ∷ 0 ∷ 0 ∷ 0 ∷ 7 ∷ 255 ∷ 255 ∷ 255 ∷ 255
    ∷ 255 ∷ 255 ∷ 255 ∷ 214 ∷ []

abbrev random_42 : Message
random_42 = record (new_message 0x0a) { random_id = pos 7; random_number = negsuc 41 }

random_read : decode_message random_bytes ≡ ok random_42
unfolding decode_message decode_frame kind_of read_string read_u32 read_i64 check new_reader
    is_valid_utf8
random_read = refl

random_number_answered_example :
    (st' : Server) × (on_payload 2000 random_bytes session ≡ ok st')
    × Answers session st'
        (record (new_message 0x0b) { random_id = pos 7; hash_hex = hash_number (negsuc 41) })
unfolding kind_of
random_number_answered_example =
    random_number_answered 2000 random_bytes session refl random_42 random_read (omega arith) refl

-- A frame of another version.
abbrev old_bytes : List ℕ
old_bytes = 0x48 ∷ 2 ∷ 1 ∷ 0 ∷ 0 ∷ 0 ∷ 0 ∷ 0 ∷ []

old_refused : decode_message old_bytes ≡ throw bad_version
unfolding decode_message decode_frame
old_refused = refl

decode_error_answered_example :
    (st' : Server) × (on_payload 2000 old_bytes session ≡ ok (record st' { active = false }))
    × Answers session st'
        (record (new_message 0x7f) { error_code = pos 1; error_message = codes "bad version" })
unfolding what
decode_error_answered_example =
    decode_error_answered 2000 old_bytes session refl bad_version old_refused

-- The client's side.
abbrev mask : List ℕ
mask = 1 ∷ 2 ∷ 3 ∷ 4 ∷ []

abbrev client : Client
client = record { socket = quiet; active = true }

-- A PING of the moment 1000.
abbrev ping_bytes : List ℕ
ping_bytes = 0x48 ∷ 1 ∷ 7 ∷ 0 ∷ 0 ∷ 0 ∷ 0 ∷ 8 ∷ 0 ∷ 0 ∷ 0 ∷ 0 ∷ 0 ∷ 0 ∷ 3 ∷ 232 ∷ []

abbrev ping_1000 : Message
ping_1000 = record (new_message 7) { timestamp_ms = pos 1000 }

ping_read : decode_message ping_bytes ≡ ok ping_1000
unfolding decode_message decode_frame kind_of read_string read_u32 read_i64 check new_reader
    is_valid_utf8
ping_read = refl

ping_answered_example :
    (st' : Client) × (client_on_payload mask ping_bytes client ≡ ok st')
    × ClientAnswers mask client st' (record (new_message 0x08) { timestamp_ms = pos 1000 })
unfolding kind_of
ping_answered_example =
    ping_answered mask ping_bytes client refl ping_1000 ping_read (omega arith) refl

cleanup-ws_send_control_example :
    cleanup mask mask client
    ≡ ok (record { socket = (ws_send_control 8 [] true mask quiet).1; active = false })
cleanup-ws_send_control_example = cleanup-ws_send_control mask mask client

-- A KISS_REQUEST with empty names.
abbrev kiss_bytes : List ℕ
kiss_bytes =
    0x48 ∷ 1 ∷ 5 ∷ 0 ∷ 0 ∷ 0 ∷ 0 ∷ 16 ∷ 0 ∷ 0 ∷ 0 ∷ 0 ∷ 0 ∷ 0 ∷ 0 ∷ 0 ∷ 0 ∷ 0 ∷ 0 ∷ 0 ∷ 0 ∷ 0 ∷ 0
    ∷ 0 ∷ []

kiss_read : decode_message kiss_bytes ≡ ok (new_message 5)
unfolding decode_message decode_frame kind_of read_string read_u32 read_i64 check new_reader
    is_valid_utf8
kiss_read = refl

kiss_request_answered_example :
    (st' : Client) × (client_on_payload mask kiss_bytes client ≡ ok st')
    × ClientAnswers mask client st' (record (new_message 0x06) {
      kiss_language = codes "en_US";
      kiss_encoding = codes "UTF-8";
      kiss_time_zone = codes "UTC";
    })
unfolding kind_of
kiss_request_answered_example =
    kiss_request_answered mask kiss_bytes client refl (new_message 5) kiss_read refl

-- An ECHO_REQUEST with id 3, meta `m` and data `d`.
abbrev echo_bytes : List ℕ
echo_bytes =
    0x48 ∷ 1 ∷ 3 ∷ 0 ∷ 0 ∷ 0 ∷ 0 ∷ 18 ∷ 0 ∷ 0 ∷ 0 ∷ 0 ∷ 0 ∷ 0 ∷ 0 ∷ 3 ∷ 0 ∷ 0 ∷ 0 ∷ 1 ∷ 109 ∷ 0 ∷ 0
    ∷ 0 ∷ 1 ∷ 100 ∷ []

abbrev echo_3 : Message
echo_3 = record (new_message 3) { echo_id = pos 3; echo_meta = codes "m"; echo_data = codes "d" }

heartbeat_example :
    (ping_bytes : List ℕ) × (pong_bytes : List ℕ) × (c' : Client) × (encode (ping_message 1000)
      ≡ ok ping_bytes)
    × (client_on_payload mask ping_bytes client ≡ ok c')
    × (c'.socket ≡ (ws_send_binary_masked mask pong_bytes quiet).1)
    × (on_payload 1005 pong_bytes session ≡ ok (record session { last_pong_ts = 1005 }))
heartbeat_example = heartbeat 1000 1005 mask client session (omega arith) refl refl

pad_ends_example :
    (count : ℕ) × (count < 64)
    × (pad (codes "abc")
        ≡ (codes "abc" ++ 0x80 ∷ []) ++ (zeros count ++ big_endian 8 (3 * 8 % 2 ^ 64)))
    × (length (pad (codes "abc")) % 64 ≡ 0)
pad_ends_example = pad_ends (codes "abc")
