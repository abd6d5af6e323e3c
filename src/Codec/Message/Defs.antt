-- ===== src/Codec/Message/Defs.antt =====
-- `EchoResult`, `Message`, and the cases of the two `switch` statements on the type byte.
use hello_websocket.Prelude.{ℕ, List, [], ◌==◌, if◌then◌else◌, ℤ, pos}
use hello_websocket.Codec.KvMap.{Text, KvMap}
use hello_websocket.Codec.Constants.{
  msg_hello, msg_bonjour, msg_echo_request, msg_echo_response, msg_kiss_request, msg_kiss_response,
  msg_ping, msg_pong, msg_time_notification, msg_random_number, msg_hash_response, msg_disconnect,
  msg_error,
}

pub record EchoResult : Type 0 where
  pub idx : ℤ
  pub type : ℕ
  pub kv : KvMap

pub record Message : Type 0 where
  pub type : ℕ
  pub client_language : Text
  pub server_language : Text
  pub echo_id : ℤ
  pub echo_meta : Text
  pub echo_data : Text
  pub echo_status : ℤ
  pub echo_results : List EchoResult
  pub os_name : Text
  pub os_version : Text
  pub os_release : Text
  pub os_arch : Text
  pub kiss_language : Text
  pub kiss_encoding : Text
  pub kiss_time_zone : Text
  pub timestamp_ms : ℤ
  pub iso8601 : Text
  pub random_id : ℤ
  pub random_number : ℤ
  pub hash_hex : Text
  pub disconnect_reason : Text
  pub error_code : ℤ
  pub error_message : Text

-- `Message m{}; m.type = type;`
abbrev pub new_message : ℕ → Message
new_message type = record {
  type = type;
  client_language = [];
  server_language = [];
  echo_id = pos 0;
  echo_meta = [];
  echo_data = [];
  echo_status = pos 0;
  echo_results = [];
  os_name = [];
  os_version = [];
  os_release = [];
  os_arch = [];
  kiss_language = [];
  kiss_encoding = [];
  kiss_time_zone = [];
  timestamp_ms = pos 0;
  iso8601 = [];
  random_id = pos 0;
  random_number = pos 0;
  hash_hex = [];
  disconnect_reason = [];
  error_code = pos 0;
  error_message = [];
}

-- The labels of the `switch`, `unknown` being its `default`.
pub data Kind : Type 0 where
  hello bonjour echo_request echo_response kiss_request kiss_response ping pong : Kind
  time_notification random_number hash_response disconnect error unknown : Kind

unfoldable pub kind_of : ℕ → Kind
kind_of t =
    if t == msg_hello
    then hello
    else if t == msg_bonjour
    then bonjour
    else if t == msg_echo_request
    then echo_request
    else if t == msg_echo_response
    then echo_response
    else if t == msg_kiss_request
    then kiss_request
    else if t == msg_kiss_response
    then kiss_response
    else if t == msg_ping
    then ping
    else if t == msg_pong
    then pong
    else if t == msg_time_notification
    then time_notification
    else if t == msg_random_number
    then random_number
    else if t == msg_hash_response
    then hash_response
    else if t == msg_disconnect
    then disconnect
    else if t == msg_error
    then error
    else unknown
