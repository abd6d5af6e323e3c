-- ===== src/Transport/Examples.antt =====
-- Sockets, frames and the theorems at concrete ones.
use hello_websocket.Transport.Receive.RoundTrip.{frame_bytes}
use hello_websocket.Transport.Sha1.{final, update, new_sha1}
use hello_websocket.Transport.Http.Headers.{recv_http_headers_returns, IsComplete}
use hello_websocket.Transport.Http.{recv_http_headers}
use hello_websocket.Transport.Base64.RoundTrip.{base64_decode-base64_encode, base64_decode}
use hello_websocket.Transport.Base64.{base64_encode, ws_accept_key}
use hello_websocket.Prelude.{◌<◌, codes}
use hello_websocket.Prelude.{
  ◌⊎◌, ◌≤◌, ◌+◌, length, ◌∷◌, [], ◌++◌, if◌then◌else◌, ◌≡◌, refl, true, false, List, ℕ, some, none,
  arith,
}
use hello_websocket.Transport.Socket.{recv_all, Socket, send_all}
use hello_websocket.Transport.Socket.Stream.{stream, recv_all_decides}
use hello_websocket.Transport.Socket.Send.{send_all_whole, send_all_succeeds}
use hello_websocket.Transport.Frame.{
  ws_send_control, ws_send_binary, ws_send_binary_masked, mask_from, length_bytes, control_bytes,
}
use hello_websocket.Transport.Receive.{
  max_message_size, WsFrame, ws_recv_frame, ws_recv_loop, empty_frame,
}
use hello_websocket.Transport.Receive.Returns.{ws_recv_frame_returns}
use hello_websocket.Transport.Receive.Fragments.{Piece, more, pong, pieces_bytes, pieces-Gets}
use hello_websocket.Transport.Receive.Arrives.{
  ws_recv_frame-ws_send_binary, ws_recv_frame-ws_send_binary_masked, ping-ws_recv_loop, binary,
  Gets,
}

abbrev key : List ℕ
key = 1 ∷ 2 ∷ 3 ∷ 4 ∷ []

abbrev keys : ℕ → List ℕ
keys n = key

-- The word `Go` in a masked frame, and in one that is not masked.
abbrev masked_go : List ℕ
masked_go = 0x82 ∷ 0x82 ∷ 1 ∷ 2 ∷ 3 ∷ 4 ∷ 70 ∷ 109 ∷ []

abbrev plain_go : List ℕ
plain_go = 0x82 ∷ 2 ∷ 71 ∷ 111 ∷ []

-- A socket that takes three bytes, and then a hundred.
abbrev sending : Socket
sending = record { incoming = []; rooms = 3 ∷ 100 ∷ []; outgoing = 5 ∷ [] }

-- A socket on which bytes come in three pieces.
abbrev receiving : Socket
receiving = record {
  incoming = (0x82 ∷ []) ∷ (0x82 ∷ 1 ∷ 2 ∷ 3 ∷ []) ∷ (4 ∷ 70 ∷ 109 ∷ 9 ∷ []) ∷ [];
  rooms = 100 ∷ [];
  outgoing = [];
}

abbrev receiving_plain : Socket
receiving_plain = record {
  incoming = (0x82 ∷ []) ∷ (2 ∷ 71 ∷ 111 ∷ 9 ∷ []) ∷ [];
  rooms = [];
  outgoing = [];
}

-- A ping with the payload `Go`, in front of one more byte.
abbrev receiving_ping : Socket
receiving_ping = record {
  incoming = (0x89 ∷ 0x82 ∷ 1 ∷ 2 ∷ 3 ∷ 4 ∷ 70 ∷ 109 ∷ 9 ∷ []) ∷ [];
  rooms = 100 ∷ [];
  outgoing = [];
}

receiving-stream : stream receiving ≡ masked_go ++ 9 ∷ []
unfolding stream
receiving-stream = refl

receiving_plain-stream : stream receiving_plain ≡ plain_go ++ 9 ∷ []
unfolding stream
receiving_plain-stream = refl

receiving_ping-stream : stream receiving_ping ≡ control_bytes 9 (71 ∷ 111 ∷ []) true key ++ 9 ∷ []
unfolding stream control_bytes mask_from
receiving_ping-stream = refl

masked_success : (ws_send_binary_masked key (71 ∷ 111 ∷ []) sending).0 ≡ true
unfolding ws_send_binary_masked send_all length_bytes mask_from
masked_success = refl

masked_sent :
    (ws_send_binary_masked key (71 ∷ 111 ∷ []) sending).1.outgoing ≡ sending.outgoing ++ masked_go
unfolding ws_send_binary_masked send_all length_bytes mask_from
masked_sent = refl

plain_success : (ws_send_binary (71 ∷ 111 ∷ []) sending).0 ≡ true
unfolding ws_send_binary send_all length_bytes
plain_success = refl

plain_sent : (ws_send_binary (71 ∷ 111 ∷ []) sending).1.outgoing ≡ sending.outgoing ++ plain_go
unfolding ws_send_binary send_all length_bytes
plain_sent = refl

go_success : (send_all plain_go sending).0 ≡ true
unfolding send_all
go_success = refl

recv_all_decides_example :
    (((x : List ℕ) × (rest : List ℕ) × (stream receiving ≡ x ++ rest)
        × (length x ≡ 3)
        × ((recv_all 3 receiving).0 ≡ some x)
        × (stream (recv_all 3 receiving).1 ≡ rest))
      ⊎ ((length (stream receiving) < 3)
          × ((recv_all 3 receiving).0 ≡ none)
          × (stream (recv_all 3 receiving).1 ≡ [])))
    × ((recv_all 3 receiving).1.outgoing ≡ [])
recv_all_decides_example = recv_all_decides 3 receiving (omega arith)

send_all_whole_example : (send_all plain_go sending).1.outgoing ≡ 5 ∷ plain_go
send_all_whole_example = send_all_whole plain_go sending go_success

send_all_succeeds_example : (send_all (71 ∷ []) sending).0 ≡ true
send_all_succeeds_example =
    send_all_succeeds (71 ∷ []) sending (omega arith) (omega arith) (omega arith)

ws_recv_frame_returns_example :
    (r : WsFrame) × ((ws_recv_frame true keys receiving).0 ≡ some r)
    × (length r.payload ≤ max_message_size)
    × ((r.is_valid ≡ false)
        ⊎ (((r.is_close ≡ false) × (r.opcode ≡ 2)) ⊎ ((r.is_close ≡ true) × (r.opcode ≡ 8))))
ws_recv_frame_returns_example = ws_recv_frame_returns true keys receiving

ws_recv_frame-ws_send_binary_masked_example :
    Gets (ws_recv_frame true keys receiving) receiving (binary (71 ∷ 111 ∷ [])) (9 ∷ [])
ws_recv_frame-ws_send_binary_masked_example =
    ws_recv_frame-ws_send_binary_masked key (71 ∷ 111 ∷ []) keys sending receiving masked_go
      (9 ∷ []) (omega arith) refl (omega arith) (omega arith) masked_success masked_sent
      receiving-stream

ws_recv_frame-ws_send_binary_example :
    Gets
      (ws_recv_frame false keys receiving_plain)
      receiving_plain
      (binary (71 ∷ 111 ∷ []))
      (9 ∷ [])
ws_recv_frame-ws_send_binary_example =
    ws_recv_frame-ws_send_binary (71 ∷ 111 ∷ []) keys sending receiving_plain plain_go (9 ∷ [])
      (omega arith) (omega arith) plain_success plain_sent receiving_plain-stream

empty_fits : length empty_frame.payload + 2 ≤ max_message_size
unfolding empty_frame
empty_fits = omega arith

ping-ws_recv_loop_example :
    (s1 : Socket) × (stream s1 ≡ 9 ∷ [])
    × (s1.outgoing ≡ [])
    × (ws_recv_loop true keys 4 empty_frame false receiving_ping ≡ (
        let (sent, s2) = ws_send_control 10 (71 ∷ 111 ∷ []) false key s1 in
        if sent then ws_recv_loop true keys 3 empty_frame false s2 else (some empty_frame, s2)))
ping-ws_recv_loop_example =
    ping-ws_recv_loop true key (71 ∷ 111 ∷ []) keys empty_frame false receiving_ping (9 ∷ [])
      (omega arith) empty_fits refl (omega arith) (omega arith) 3 receiving_ping-stream

accept_key : ws_accept_key (codes "dGhlIHNhbXBsZSBub25jZQ==") ≡ codes "s3pPLMBiTxaQ9kYGzzhZRbK+xOo="
unfolding ws_accept_key final update new_sha1
accept_key = refl

base64_decode-base64_encode_example :
    base64_decode (base64_encode (1 ∷ 2 ∷ 3 ∷ 255 ∷ [])) ≡ 1 ∷ 2 ∷ 3 ∷ 255 ∷ []
base64_decode-base64_encode_example =
    base64_decode-base64_encode (1 ∷ 2 ∷ 3 ∷ 255 ∷ []) (omega arith)

-- A request that ends with an empty line, in front of one more byte.
abbrev requesting : Socket
requesting = record {
  incoming = (71 ∷ 13 ∷ 10 ∷ []) ∷ (13 ∷ 10 ∷ 9 ∷ []) ∷ [];
  rooms = [];
  outgoing = [];
}

recv_http_headers_returns_example :
    (text : List ℕ) × ((recv_http_headers requesting).0 ≡ some text)
    × ((text ≡ [])
        ⊎ ((stream requesting ≡ text ++ stream (recv_http_headers requesting).1)
            × IsComplete text
            × (length text ≤ 8193)))
recv_http_headers_returns_example = recv_http_headers_returns requesting

-- The word `Go!` in three fragments without a mask, a pong behind the first, in front of one more
-- byte.
abbrev receiving_pieces : Socket
receiving_pieces = record {
  incoming = (0x02 ∷ 1 ∷ 71 ∷ 0x8a ∷ 0 ∷ 0 ∷ 1 ∷ []) ∷ (111 ∷ 0x80 ∷ 1 ∷ 33 ∷ 9 ∷ []) ∷ [];
  rooms = [];
  outgoing = [];
}

abbrev two_pieces : List Piece
two_pieces = pong key [] ∷ more key (111 ∷ []) ∷ []

receiving_pieces-stream :
    stream receiving_pieces
    ≡ frame_bytes 0x02 false key (71 ∷ [])
      ++ (pieces_bytes false two_pieces ++ (frame_bytes 0x80 false key (33 ∷ []) ++ 9 ∷ []))
unfolding stream length_bytes
receiving_pieces-stream = refl

pieces-Gets_example :
    Gets
      (ws_recv_frame false keys receiving_pieces)
      receiving_pieces
      (binary (71 ∷ 111 ∷ 33 ∷ []))
      (9 ∷ [])
pieces-Gets_example =
    pieces-Gets false keys key (71 ∷ []) two_pieces key (33 ∷ []) receiving_pieces (9 ∷ []) refl
      (omega arith) (omega arith)
      ((refl, omega arith, tt, omega arith), ((refl, omega arith, omega arith), tt)) refl
      (omega arith) (omega arith) (omega arith) receiving_pieces-stream
