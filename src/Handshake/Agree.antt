-- ===== src/Handshake/Agree.antt =====
-- `WSClient::connect` against `WSServer::accept`.
use hello_websocket.Prelude.{
  arith, ℕ, List, [], ◌++◌, All, ◌≡◌, ◌≢◌, ap, ◌∙◌, sym, length, ◌≤◌, ◌<◌, true, some, append-nil,
  Option-cases, List-cases, inl, inr,
}
use hello_websocket.Transport.Socket.{Socket, send_all}
use hello_websocket.Transport.Socket.Stream.{stream}
use hello_websocket.Transport.Socket.Send.{send_all_whole, send_all_succeeds}
use hello_websocket.Transport.Http.{recv_http_headers}
use hello_websocket.Transport.Http.Exact.{recv_http_headers-outgoing}
use hello_websocket.Strings.Find.{IsLine}
use hello_websocket.Handshake.Accept.{upgrade_response, accept}
use hello_websocket.Handshake.Accept.Request.{IsUserId}
use hello_websocket.Handshake.Accept.Accepts.{accept-upgrade_request}
use hello_websocket.Handshake.Connect.{generate_ws_key, upgrade_request, connect}
use hello_websocket.Handshake.Connect.Response.{connect-upgrade_response}

module _ (path host : List ℕ) (port : ℕ) (random user_id : List ℕ) where
  request : List ℕ
  request = upgrade_request path host port (generate_ws_key random) user_id

  -- Whatever comes back, the client sends its request and nothing else.
  connect-outgoing :
      (s : Socket)
      → (send_all request s).0 ≡ true
      → (connect path host port random user_id s).1.outgoing ≡ s.outgoing ++ request
  unfolding connect request
  connect-outgoing s sent =
      let s' = (send_all request s).1 in
      let same : (recv_http_headers s').1.outgoing ≡ s.outgoing ++ request =
        recv_http_headers-outgoing s' ∙ send_all_whole request s sent in
      elim (Option-cases (recv_http_headers s').0) [
        | inl e ↦ rw (sent, e, connect) same
        | inr (text, e) ↦ elim (List-cases text) [
          | inl e' ↦ rw (sent, e, e', connect) same
          | inr (c, t, e') ↦ rw (sent, e, e', connect) same
        ]
      ]

  -- When a client and a server begin on sockets on which nothing has been sent, each gets what the
  -- other sends, however it is cut up, and the system takes a byte at each call of `::send`, then
  -- `WSClient::connect` returns true and `WSServer::accept` the client's user id. The conditions
  -- are: the same path, without carriage returns, a host without them, a request of at most 8193
  -- bytes, at least one random byte for the key, and a user id of at most 128 characters, none a
  -- control character and the first no space.
  pub handshake :
      (now : ℕ) (client server : Socket)
      → IsLine path
      → IsLine host
      → random ≢ []
      → IsUserId user_id
      → length (upgrade_request path host port (generate_ws_key random) user_id) ≤ 8193
      → length (upgrade_request path host port (generate_ws_key random) user_id)
        ≤ length client.rooms
      → All (λ (room : ℕ). 0 < room) client.rooms
      → length (upgrade_response (generate_ws_key random)) ≤ length server.rooms
      → All (λ (room : ℕ). 0 < room) server.rooms
      → client.outgoing ≡ []
      → server.outgoing ≡ []
      → stream server ≡ (connect path host port random user_id client).1.outgoing
      → stream client ≡ (accept path now server).1.outgoing
      → ((connect path host port random user_id client).0 ≡ true)
        × ((accept path now server).0 ≡ some user_id)
  unfolding request
  handshake now client server hp hh hr hu short room live room' live' fresh fresh' to_server
        to_client =
      let sent = send_all_succeeds request client (omega arith) room live in
      let asked : stream server ≡ request ++ [] =
        to_server
        ∙ connect-outgoing client sent
        ∙ ap (λ (t : List ℕ). t ++ request) fresh
        ∙ sym (append-nil request) in
      let (accepted, left, answered) =
        accept-upgrade_request path host port random user_id now server [] hp hh hr hu short asked
          room' live' in
      let response = upgrade_response (generate_ws_key random) in
      let (connected, left', outgoing) =
        connect-upgrade_response path host port random user_id client [] sent (
          to_client
          ∙ answered
          ∙ ap (λ (t : List ℕ). t ++ response) fresh'
          ∙ sym (append-nil response)) in
      (connected, accepted)
