-- ===== src/Codec/Constants.antt =====
-- The constants of codec.hpp: envelope, message types, error codes, intervals in milliseconds.
use hello_websocket.Prelude.{ℕ, List, codes}

abbrev pub port : ℕ
port = 9898

abbrev pub magic : ℕ
magic = 0x48

abbrev pub version : ℕ
version = 0x01

abbrev pub header_len : ℕ
header_len = 8

abbrev pub server_lang : List ℕ
server_lang = codes "CPP"

abbrev pub client_lang : List ℕ
client_lang = codes "CPP"

abbrev pub msg_hello : ℕ
msg_hello = 0x01

abbrev pub msg_bonjour : ℕ
msg_bonjour = 0x02

abbrev pub msg_echo_request : ℕ
msg_echo_request = 0x03

abbrev pub msg_echo_response : ℕ
msg_echo_response = 0x04

abbrev pub msg_kiss_request : ℕ
msg_kiss_request = 0x05

abbrev pub msg_kiss_response : ℕ
msg_kiss_response = 0x06

abbrev pub msg_ping : ℕ
msg_ping = 0x07

abbrev pub msg_pong : ℕ
msg_pong = 0x08

abbrev pub msg_time_notification : ℕ
msg_time_notification = 0x09

abbrev pub msg_random_number : ℕ
msg_random_number = 0x0a

abbrev pub msg_hash_response : ℕ
msg_hash_response = 0x0b

abbrev pub msg_disconnect : ℕ
msg_disconnect = 0x0c

abbrev pub msg_error : ℕ
msg_error = 0x7f

abbrev pub err_decode : ℕ
err_decode = 0x01

abbrev pub err_unknown_msg_type : ℕ
err_unknown_msg_type = 0x02

abbrev pub err_truncated_payload : ℕ
err_truncated_payload = 0x03

abbrev pub err_bad_magic : ℕ
err_bad_magic = 0x04

abbrev pub err_bad_version : ℕ
err_bad_version = 0x05

abbrev pub err_session_not_found : ℕ
err_session_not_found = 0x06

abbrev pub err_internal : ℕ
err_internal = 0x07

abbrev pub ping_interval_ms : ℕ
ping_interval_ms = 1000

abbrev pub session_timeout_ms : ℕ
session_timeout_ms = 60000

abbrev pub time_interval_ms : ℕ
time_interval_ms = 5000

abbrev pub random_interval_ms : ℕ
random_interval_ms = 5000

abbrev pub kiss_interval_ms : ℕ
kiss_interval_ms = 5000
