-- ===== src/Codec/Message/Encode.antt =====
-- `Message::encode`.
use hello_websocket.Prelude.{ℕ, List, [], ◌∷◌, ◌%◌, ◌^◌, length}
use hello_websocket.Codec.Outcome.{Result, ok, throw, unknown_message_type}
use hello_websocket.Codec.Constants.{
  msg_hello, msg_bonjour, msg_echo_request, msg_echo_response, msg_kiss_request, msg_kiss_response,
  msg_ping, msg_pong, msg_time_notification, msg_random_number, msg_hash_response, msg_disconnect,
  msg_error,
}
use hello_websocket.Codec.Writer.{
  ByteWriter, empty_writer, write_u8, write_u32, write_i32, write_i64, write_string, write_kv,
}
use hello_websocket.Codec.Frame.{encode_frame}
use hello_websocket.Codec.Message.Defs.{
  EchoResult, Message, Kind, kind_of, hello, bonjour, echo_request, echo_response, kiss_request,
  kiss_response, ping, pong, time_notification, random_number, hash_response, disconnect, error,
  unknown,
}

-- The loop over the results.
unfoldable pub write_results : List EchoResult → ByteWriter → ByteWriter
write_results [] w = w
write_results (r ∷ rs) w = write_results rs (write_kv r.kv (write_u8 r.type (write_i64 r.idx w)))

frame_of : ℕ → ByteWriter → Result (List ℕ)
frame_of t w = ok (encode_frame t w.buf)

-- One clause for each case of the `switch`; the calls on the writer nest from the inside out.
unfoldable pub encode_as : Kind → Message → Result (List ℕ)
unfolding empty_writer frame_of
encode_as hello m = frame_of msg_hello (write_string m.client_language empty_writer)
encode_as bonjour m = frame_of msg_bonjour (write_string m.server_language empty_writer)
encode_as echo_request m =
    frame_of msg_echo_request
      (write_string m.echo_data (write_string m.echo_meta (write_i64 m.echo_id empty_writer)))
encode_as echo_response m =
    let w = write_u32 (length m.echo_results % 2 ^ 32) (write_i32 m.echo_status empty_writer) in
    frame_of msg_echo_response (write_results m.echo_results w)
encode_as kiss_request m =
    let w = write_string m.os_version (write_string m.os_name empty_writer) in
    frame_of msg_kiss_request (write_string m.os_arch (write_string m.os_release w))
encode_as kiss_response m =
    let w = write_string m.kiss_encoding (write_string m.kiss_language empty_writer) in
    frame_of msg_kiss_response (write_string m.kiss_time_zone w)
encode_as ping m = frame_of msg_ping (write_i64 m.timestamp_ms empty_writer)
encode_as pong m = frame_of msg_pong (write_i64 m.timestamp_ms empty_writer)
encode_as time_notification m =
    frame_of msg_time_notification (write_string m.iso8601 (write_i64 m.timestamp_ms empty_writer))
encode_as random_number m =
    frame_of msg_random_number (write_i64 m.random_number (write_i64 m.random_id empty_writer))
encode_as hash_response m =
    frame_of msg_hash_response (write_string m.hash_hex (write_i64 m.random_id empty_writer))
encode_as disconnect m = frame_of msg_disconnect (write_string m.disconnect_reason empty_writer)
encode_as error m =
    frame_of msg_error (write_string m.error_message (write_i32 m.error_code empty_writer))
encode_as unknown m = throw unknown_message_type

unfoldable pub encode : Message → Result (List ℕ)
unfolding encode_as
encode m = encode_as (kind_of m.type) m
