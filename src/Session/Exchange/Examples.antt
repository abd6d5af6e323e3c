-- ===== src/Session/Exchange/Examples.antt =====
-- A HELLO from the client to the server, a BONJOUR back, and the end of a client.
use hello_websocket.Prelude.{
  ◌≡◌, ◌≤◌, refl, true, false, List, ℕ, [], ◌∷◌, ◌++◌, length, arith, codes,
}
use hello_websocket.Codec.Outcome.{ok}
use hello_websocket.Codec.Message.{kind_of}
use hello_websocket.Codec.Wire.{carried, payload}
use hello_websocket.Codec.Wire.Bytes.{message_bytes}
use hello_websocket.Transport.Socket.{Socket}
use hello_websocket.Transport.Socket.Stream.{stream}
use hello_websocket.Transport.Frame.{length_bytes, mask_from, control_bytes, ws_send_control}
use hello_websocket.Transport.Receive.{max_message_size}
use hello_websocket.Handshake.Examples.{ones, ones-live}
use hello_websocket.Session.Client.{Client, hello_message}
use hello_websocket.Session.Client as Client
use hello_websocket.Session.Client.Loop.{hello_message-IsEncodable}
use hello_websocket.Session.Exchange.Farewell.{cleanup_ends_session}
use hello_websocket.Session.Round.{leaves}
use hello_websocket.Session.Server.{Server, bonjour_reply}
use hello_websocket.Session.Server as Server
use hello_websocket.Session.Server.Replies.{bonjour_reply-IsEncodable}
use hello_websocket.Session.Exchange.{
  round_of, masked_frame, plain_frame, client_message_dispatched, server_message_dispatched,
}

abbrev mask : List ℕ
mask = 1 ∷ 2 ∷ 3 ∷ 4 ∷ []

abbrev keys : ℕ → List ℕ
keys n = mask

abbrev server : Server
server = record {
  socket = record {
    incoming = masked_frame mask hello_message ∷ [];
    rooms = ones 40;
    outgoing = [];
  };
  active = true;
  client_language = codes "unknown";
  last_pong_ts = 1000;
}

abbrev client : Client
client = record {
  socket = record { incoming = plain_frame bonjour_reply ∷ []; rooms = ones 40; outgoing = [] };
  active = true;
}

server-stream : stream server.socket ≡ masked_frame mask hello_message ++ []
unfolding stream
server-stream = refl

client-stream : stream client.socket ≡ plain_frame bonjour_reply ++ []
unfolding stream
client-stream = refl

hello_small : length (message_bytes hello_message) ≤ max_message_size
unfolding hello_message kind_of payload
hello_small = omega arith

hello_frame_small : length (masked_frame mask hello_message) ≤ 40
unfolding hello_message kind_of payload length_bytes mask_from
hello_frame_small = omega arith

client_message_dispatched_example :
    (c' : Client) × (s' : Socket) × (Client.send_message mask hello_message client ≡ ok c')
    × (c'.socket.outgoing ≡ [] ++ masked_frame mask hello_message)
    × (stream s' ≡ [])
    × (s'.outgoing ≡ [])
    × (Server.receive_round keys 2000 server
        ≡ round_of (
            Server.dispatch
              (kind_of hello_message.type)
              2000
              (carried (kind_of hello_message.type) hello_message)
              (record server { socket = s' })))
client_message_dispatched_example =
    client_message_dispatched hello_message mask keys 2000 client server []
      hello_message-IsEncodable hello_small refl (omega arith) refl
      (omega (arith, hello_frame_small)) (ones-live 40) server-stream

bonjour_small : length (message_bytes bonjour_reply) ≤ max_message_size
unfolding bonjour_reply kind_of payload
bonjour_small = omega arith

bonjour_frame_small : length (plain_frame bonjour_reply) ≤ 40
unfolding bonjour_reply kind_of payload length_bytes
bonjour_frame_small = omega arith

server_message_dispatched_example :
    (st' : Server) × (s' : Socket) × (Server.send_message bonjour_reply server ≡ ok st')
    × (st'.socket.outgoing ≡ [] ++ plain_frame bonjour_reply)
    × (stream s' ≡ [])
    × (s'.outgoing ≡ [])
    × (Client.receive_round keys mask client
        ≡ round_of (
            Client.dispatch
              (kind_of bonjour_reply.type)
              mask
              (carried (kind_of bonjour_reply.type) bonjour_reply)
              (record client { socket = s' })))
server_message_dispatched_example =
    server_message_dispatched bonjour_reply mask keys server client [] bonjour_reply-IsEncodable
      bonjour_small refl (omega (arith, bonjour_frame_small)) (ones-live 40) client-stream

-- A session at the end of its client.
abbrev closed : Server
closed = record server {
  socket = record { incoming = control_bytes 8 [] true mask ∷ []; rooms = ones 40; outgoing = [] };
}

closed-stream : stream closed.socket ≡ control_bytes 8 [] true mask ++ []
unfolding stream control_bytes
closed-stream = refl

close_small : length (control_bytes 8 [] true mask) ≤ 40
unfolding control_bytes mask_from
close_small = omega arith

cleanup_ends_session_example :
    (c' : Client) × (s' : Socket) × (Client.cleanup mask mask client ≡ ok c')
    × (c'.active ≡ false)
    × (c'.socket.outgoing ≡ [] ++ control_bytes 8 [] true mask)
    × (stream s' ≡ [])
    × (s'.outgoing ≡ [])
    × (Server.receive_round keys 2000 closed
        ≡ ok (
            leaves (record closed {
              socket = (ws_send_control 8 [] false (keys (length (stream closed.socket))) s').1;
            })))
cleanup_ends_session_example =
    cleanup_ends_session mask mask keys 2000 client closed [] refl (omega arith)
      (omega (arith, close_small)) (ones-live 40) closed-stream
