-- ===== src/Codec/Message/Decode.antt =====
-- `decodeMessage`.
use hello_websocket.Prelude.{ℕ, zero, suc, List, [], ◌∷◌, ◌++◌, ◌/◌, ltb, if◌then◌else◌}
use hello_websocket.Codec.Outcome.{Result, ok, throw, fault}
use hello_websocket.Codec.Outcome.{unknown_message_type, result_count_too_large}
use hello_websocket.Codec.Reader.{
  ByteReader, Read, ◌>>=◌, pure, raise, new_reader, remaining, read_u8, read_u32, read_i32,
  read_i64, read_string, read_kv,
}
use hello_websocket.Codec.Frame.{Frame, decode_frame}
use hello_websocket.Codec.Message.Defs.{
  EchoResult, Message, new_message, Kind, kind_of, hello, bonjour, echo_request, echo_response,
  kiss_request, kiss_response, ping, pong, time_notification, random_number, hash_response,
  disconnect, error, unknown,
}

-- The loop that reads `left` more results behind those in `results`.
unfoldable pub read_results : ℕ → List EchoResult → Read (List EchoResult)
read_results zero results = pure results
read_results (suc left) results = do
  idx ← read_i64
  type ← read_u8
  kv ← read_kv
  read_results left (results ++ record { idx = idx; type = type; kv = kv } ∷ [])

unfoldable pub read_result_list : ℕ → Read (List EchoResult)
unfolding remaining
read_result_list count r =
    if ltb (remaining r / 13) count then throw result_count_too_large else read_results count [] r

-- One clause for each case of the `switch`, on `m` with its type set.
unfoldable pub decode_as : Kind → Message → Read Message
decode_as hello m = do s ← read_string; pure (record m { client_language = s })
decode_as bonjour m = do s ← read_string; pure (record m { server_language = s })
decode_as echo_request m = do
  id ← read_i64
  meta ← read_string
  body ← read_string
  pure (record m { echo_id = id; echo_meta = meta; echo_data = body })
decode_as echo_response m = do
  status ← read_i32
  count ← read_u32
  results ← read_result_list count
  pure (record m { echo_status = status; echo_results = results })
decode_as kiss_request m = do
  name ← read_string
  version ← read_string
  release ← read_string
  arch ← read_string
  pure (record m { os_name = name; os_version = version; os_release = release; os_arch = arch })
decode_as kiss_response m = do
  language ← read_string
  encoding ← read_string
  zone ← read_string
  pure (record m { kiss_language = language; kiss_encoding = encoding; kiss_time_zone = zone })
decode_as ping m = do t ← read_i64; pure (record m { timestamp_ms = t })
decode_as pong m = do t ← read_i64; pure (record m { timestamp_ms = t })
decode_as time_notification m = do
  t ← read_i64
  s ← read_string
  pure (record m { timestamp_ms = t; iso8601 = s })
decode_as random_number m = do
  id ← read_i64
  number ← read_i64
  pure (record m { random_id = id; random_number = number })
decode_as hash_response m = do
  id ← read_i64
  hash ← read_string
  pure (record m { random_id = id; hash_hex = hash })
decode_as disconnect m = do s ← read_string; pure (record m { disconnect_reason = s })
decode_as error m = do
  code ← read_i32
  s ← read_string
  pure (record m { error_code = code; error_message = s })
decode_as unknown m = raise unknown_message_type

-- The reader is a local of the function: where it stopped is dropped.
unfoldable pub result_of : Result (Message × ByteReader) → Result Message
result_of (ok (m, r)) = ok m
result_of (throw e) = throw e
result_of fault = fault

unfoldable pub decode_framed : Result Frame → Result Message
unfolding result_of decode_as
decode_framed (ok f) =
    result_of (decode_as (kind_of f.msg_type) (new_message f.msg_type) (new_reader f.payload))
decode_framed (throw e) = throw e
decode_framed fault = fault

unfoldable pub decode_message : List ℕ → Result Message
unfolding decode_framed
decode_message bytes = decode_framed (decode_frame bytes)
