-- ===== src/Handshake/Connect.antt =====
-- `WSClient::connect` of hello-websocket-cpp/common/ws.hpp, from the connected socket on. `random`
-- are the sixteen bytes of `std::random_device`; false is a connection that was closed.
pub mod Response
use hello_websocket.Prelude.{
  ℕ, List, [], ◌∷◌, ◌++◌, ◌&&◌, if◌then◌else◌, Bool, true, false, none, some, pos, codes,
}
use hello_websocket.Codec.KvMap.{Text}
use hello_websocket.Strings.{starts_with}
use hello_websocket.Hash.{to_string}
use hello_websocket.Transport.Socket.{Socket, send_all}
use hello_websocket.Transport.Http.{equal_text, recv_http_headers}
use hello_websocket.Transport.Base64.{base64_encode, ws_accept_key}
use hello_websocket.Handshake.Header.{extract_header}

unfoldable pub generate_ws_key : List ℕ → Text
generate_ws_key random = base64_encode random

unfoldable pub upgrade_request : Text → Text → ℕ → Text → Text → Text
upgrade_request path host port ws_key user_id =
    codes "GET "
    ++ path
    ++ codes " HTTP/1.1\r\nHost: "
    ++ host
    ++ codes ":"
    ++ to_string (pos port)
    ++ codes "\r\nUpgrade: websocket\r\nConnection: Upgrade\r\nSec-WebSocket-Key: "
    ++ ws_key
    ++ codes "\r\nSec-WebSocket-Version: 13\r\nuserId: "
    ++ user_id
    ++ codes "\r\n\r\n"

unfoldable pub is_switched : Text → Text → Bool
is_switched ws_key response =
    starts_with response (codes "HTTP/1.1 101 ")
    && equal_text (extract_header response (codes "Sec-WebSocket-Accept")) (ws_accept_key ws_key)

unfoldable pub connect : Text → Text → ℕ → List ℕ → Text → Socket → Bool × Socket
unfolding generate_ws_key upgrade_request is_switched
connect path host port random user_id s =
    let ws_key = generate_ws_key random in
    let (sent, s') = send_all (upgrade_request path host port ws_key user_id) s in
    if sent
    then (let (response, s'') = recv_http_headers s' in
        elim response [
          | none ↦ (false, s'')
          | some [] ↦ (false, s'')
          | some (c ∷ text) ↦ (is_switched ws_key (c ∷ text), s'')
        ])
    else (false, s')
