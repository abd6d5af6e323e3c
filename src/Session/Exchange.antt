-- ===== src/Session/Exchange.antt =====
-- A message of one program, through both WebSocket layers, to the `switch` of the other.
pub mod Farewell
mod Examples
use hello_websocket.Prelude.{
  ◌≤◌, ◌<◌, ◌+◌, ◌≡◌, refl, ap, ap₂, sym, ◌∙◌, subst, true, false, List, ℕ, [], ◌∷◌, ◌++◌, All,
  length, arith, some, not, ◌||◌, inl, inr,
}
use hello_websocket.Codec.Outcome.{Result, ok, throw, fault, Result-cases}
use hello_websocket.Codec.Message.{
  Message, Kind, kind_of, encode, decode_message, hello, bonjour, echo_request, echo_response,
  kiss_request, kiss_response, ping, pong, time_notification, random_number, hash_response,
  disconnect, error, unknown,
}
use hello_websocket.Codec.Wire.{IsByte, carried}
use hello_websocket.Codec.Wire.Bytes.{message_bytes, encode-message_bytes}
use hello_websocket.Codec.Wire.RoundTrip.{IsEncodable}
use hello_websocket.Transport.Socket.{Socket, send_all}
use hello_websocket.Transport.Socket.Stream.{stream}
use hello_websocket.Transport.Socket.Send.{send_all_whole, send_all_succeeds}
use hello_websocket.Transport.Frame.{ws_send_binary_masked, ws_send_binary}
use hello_websocket.Transport.Receive.{ws_recv_frame, max_message_size}
use hello_websocket.Transport.Receive.RoundTrip.{frame_bytes, length-frame_bytes}
use hello_websocket.Transport.Receive.Arrives.{binary, binary_frame-Gets}
use hello_websocket.Session.Round.{Round, goes_on}
use hello_websocket.Session.Client.{Client}
use hello_websocket.Session.Client as Client
use hello_websocket.Session.Server.{Server}
use hello_websocket.Session.Server as Server

-- A round whose message was dealt with.
pub round_of : {S : Type 0} → Result S → Result (Round S)
round_of (ok st) = ok (goes_on st)
round_of (throw e) = throw e
round_of fault = fault

-- What the client sends for a message, and what the server sends.
abbrev pub masked_frame : List ℕ → Message → List ℕ
masked_frame mask m = frame_bytes 0x82 true mask (message_bytes m)

abbrev pub plain_frame : Message → List ℕ
plain_frame m = frame_bytes 0x82 false (0 ∷ 0 ∷ 0 ∷ 0 ∷ []) (message_bytes m)

client_sends :
    (mask : List ℕ) (m : Message) (c : Client)
    → IsEncodable m
    → c.active ≡ true
    → Client.send_message mask m c
      ≡ ok (record c { socket = (send_all (masked_frame mask m) c.socket).1 })
unfolding Client.send_message Client.send_frame ws_send_binary_masked
client_sends mask m c h on =
    let (written, bytes, read) = encode-message_bytes m h in simp (written, on, Client.send_message)

server_sends :
    (m : Message) (st : Server)
    → IsEncodable m
    → st.active ≡ true
    → Server.send_message m st ≡ ok (record st { socket = (send_all (plain_frame m) st.socket).1 })
unfolding Server.send_message Server.send_frame ws_send_binary
server_sends m st h on =
    let (written, bytes, read) = encode-message_bytes m h in simp (written, on, Server.send_message)

-- The server's round on a message.
module _ (keys : ℕ → List ℕ) (now : ℕ) (st : Server) (bytes : List ℕ)
    (got : (ws_recv_frame true keys st.socket).0 ≡ some (binary bytes)) where
  server_next : Server
  server_next = record st { socket = (ws_recv_frame true keys st.socket).1 }

  server_round :
      (r : Result Server)
      → Server.on_payload now bytes server_next ≡ r
      → Server.receive_round keys now st ≡ round_of r
  unfolding server_next round_of Server.receive_round
  server_round (ok st') e = rw (got, e, Server.receive_round) refl
  server_round (throw x) e = rw (got, e, Server.receive_round) refl
  server_round fault e = rw (got, e, Server.receive_round) refl

  server_dispatches :
      (m : Message)
      → decode_message bytes ≡ ok m
      → Server.receive_round keys now st
        ≡ round_of (Server.dispatch (kind_of m.type) now m server_next)
  unfolding Server.on_payload
  server_dispatches m read =
      server_round (Server.dispatch (kind_of m.type) now m server_next)
        (rw (read, Server.on_payload) refl)

-- The client's round on a message.
module _ (keys : ℕ → List ℕ) (mask : List ℕ) (c : Client) (bytes : List ℕ)
    (got : (ws_recv_frame false keys c.socket).0 ≡ some (binary bytes)) where
  client_next : Client
  client_next = record c { socket = (ws_recv_frame false keys c.socket).1 }

  client_round :
      (r : Result Client)
      → Client.on_payload mask bytes client_next ≡ r
      → Client.receive_round keys mask c ≡ round_of r
  unfolding client_next round_of Client.receive_round
  client_round (ok c') e = rw (got, e, Client.receive_round) refl
  client_round (throw x) e = rw (got, e, Client.receive_round) refl
  client_round fault e = rw (got, e, Client.receive_round) refl

  client_dispatches :
      (m : Message)
      → decode_message bytes ≡ ok m
      → Client.receive_round keys mask c
        ≡ round_of (Client.dispatch (kind_of m.type) mask m client_next)
  unfolding Client.on_payload
  client_dispatches m read =
      client_round (Client.dispatch (kind_of m.type) mask m client_next)
        (rw (read, Client.on_payload) refl)

carried_type : (k : Kind) (m : Message) → (carried k m).type ≡ m.type
unfolding carried
carried_type hello m = refl
carried_type bonjour m = refl
carried_type echo_request m = refl
carried_type echo_response m = refl
carried_type kiss_request m = refl
carried_type kiss_response m = refl
carried_type ping m = refl
carried_type pong m = refl
carried_type time_notification m = refl
carried_type random_number m = refl
carried_type hash_response m = refl
carried_type disconnect m = refl
carried_type error m = refl
carried_type unknown m = refl

-- For a message whose fields fit their types, of at most 1 MiB with its envelope, an active client,
-- a key of four bytes, and a system that takes a byte at each call of `::send`: the client's
-- `sendFrame` of the encoded message hands the system one masked frame; and where this frame comes
-- next, however it is cut up, a round of the server's loop ends as its `switch` does on the message
-- with the fields that its type carries, with what is behind the frame still in the stream.
pub client_message_dispatched :
    (m : Message) (mask : List ℕ) (keys : ℕ → List ℕ) (now : ℕ) (c : Client) (st : Server)
    (rest : List ℕ)
    → IsEncodable m
    → length (message_bytes m) ≤ max_message_size
    → length mask ≡ 4
    → All IsByte mask
    → c.active ≡ true
    → length (masked_frame mask m) ≤ length c.socket.rooms
    → All (λ (room : ℕ). 0 < room) c.socket.rooms
    → stream st.socket ≡ masked_frame mask m ++ rest
    → (c' : Client) × (s' : Socket) × (Client.send_message mask m c ≡ ok c')
      × (c'.socket.outgoing ≡ c.socket.outgoing ++ masked_frame mask m)
      × (stream s' ≡ rest)
      × (s'.outgoing ≡ st.socket.outgoing)
      × (Server.receive_round keys now st
          ≡ round_of (
              Server.dispatch
                (kind_of m.type)
                now
                (carried (kind_of m.type) m)
                (record st { socket = s' })))
unfolding server_next
client_message_dispatched m mask keys now c st rest h fits four hm on room live arrives =
    let (written, bytes, read) = encode-message_bytes m h in
    let g =
      binary_frame-Gets true mask (message_bytes m) fits four hm bytes keys st.socket rest
        arrives in
    (
      record c { socket = (send_all (masked_frame mask m) c.socket).1 },
      (ws_recv_frame true keys st.socket).1,
      client_sends mask m c h on,
      send_all_whole (masked_frame mask m) c.socket (
          send_all_succeeds (masked_frame mask m) c.socket
            (omega (arith, length-frame_bytes 0x82 true mask (message_bytes m) four)) room live),
      g.left,
      g.outgoing,
      server_dispatches keys now st (message_bytes m) g.answer (carried (kind_of m.type) m) read
          ∙ ap
              (λ (t : ℕ). round_of (
                Server.dispatch (kind_of t) now (carried (kind_of m.type) m)
                  (server_next keys now st (message_bytes m) g.answer)))
              (carried_type (kind_of m.type) m),
    )

-- For a message whose fields fit their types, of at most 1 MiB with its envelope, an active session
-- of the server, and a system that takes a byte at each call of `::send`: the server's `sendFrame`
-- of the encoded message hands the system one frame without a mask; and where this frame comes
-- next, however it is cut up, a round of the client's loop ends as its `switch` does on the message
-- with the fields that its type carries, with what is behind the frame still in the stream.
pub server_message_dispatched :
    (m : Message) (mask : List ℕ) (keys : ℕ → List ℕ) (st : Server) (c : Client) (rest : List ℕ)
    → IsEncodable m
    → length (message_bytes m) ≤ max_message_size
    → st.active ≡ true
    → length (plain_frame m) ≤ length st.socket.rooms
    → All (λ (room : ℕ). 0 < room) st.socket.rooms
    → stream c.socket ≡ plain_frame m ++ rest
    → (st' : Server) × (s' : Socket) × (Server.send_message m st ≡ ok st')
      × (st'.socket.outgoing ≡ st.socket.outgoing ++ plain_frame m)
      × (stream s' ≡ rest)
      × (s'.outgoing ≡ c.socket.outgoing)
      × (Client.receive_round keys mask c
          ≡ round_of (
              Client.dispatch
                (kind_of m.type)
                mask
                (carried (kind_of m.type) m)
                (record c { socket = s' })))
unfolding client_next
server_message_dispatched m mask keys st c rest h fits on room live arrives =
    let (written, bytes, read) = encode-message_bytes m h in
    let g =
      binary_frame-Gets false (0 ∷ 0 ∷ 0 ∷ 0 ∷ []) (message_bytes m) fits refl (omega arith) bytes
        keys c.socket rest arrives in
    (
      record st { socket = (send_all (plain_frame m) st.socket).1 },
      (ws_recv_frame false keys c.socket).1,
      server_sends m st h on,
      send_all_whole (plain_frame m) st.socket (
          send_all_succeeds (plain_frame m) st.socket
            (omega
              (arith, length-frame_bytes 0x82 false (0 ∷ 0 ∷ 0 ∷ 0 ∷ []) (message_bytes m) refl))
            room live),
      g.left,
      g.outgoing,
      client_dispatches keys mask c (message_bytes m) g.answer (carried (kind_of m.type) m) read
          ∙ ap
              (λ (t : ℕ). round_of (
                Client.dispatch (kind_of t) mask (carried (kind_of m.type) m)
                  (client_next keys mask c (message_bytes m) g.answer)))
              (carried_type (kind_of m.type) m),
    )
