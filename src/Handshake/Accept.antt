-- ===== src/Handshake/Accept.antt =====
-- `WSServer::accept` of hello-websocket-cpp/common/ws.hpp, from the accepted connection on. The
-- path is that of the environment, or `/ws`; `none` is a connection that was closed.
pub mod Request
pub mod Accepts
pub mod UserId
pub mod Sound
use hello_websocket.Prelude.{
  ◌&&◌, Bool, ℕ, List, [], ◌∷◌, ◌++◌, length, take, ltb, not, ◌||◌, if◌then◌else◌, Option, none,
  some, pos, codes,
}
use hello_websocket.Codec.KvMap.{Text}
use hello_websocket.Strings.{starts_with, is_control}
use hello_websocket.Hash.{to_string}
use hello_websocket.Transport.Socket.{Socket, send_all}
use hello_websocket.Transport.Http.{equal_text, recv_http_headers}
use hello_websocket.Transport.Base64.{ws_accept_key}
use hello_websocket.Handshake.Header.{extract_header}

-- `std::remove_if` by `iscntrl`, with the `erase`.
unfoldable pub without_controls : Text → Text
without_controls [] = []
without_controls (c ∷ s) = let rest = without_controls s in if is_control c then rest else c ∷ rest

unfoldable pub user_id_of : ℕ → Text → Text
unfolding without_controls
user_id_of now http_text =
    let id = without_controls (extract_header http_text (codes "userId")) in
    let id' = if ltb 128 (length id) then take 128 id else id in
    elim id' [ [] ↦ codes "cpp-" ++ to_string (pos now) | c ∷ s ↦ c ∷ s ]

unfoldable pub upgrade_response : Text → Text
upgrade_response ws_key =
    codes "HTTP/1.1 101 Switching Protocols\r\nUpgrade: websocket\r\nConnection: Upgrade\r\n"
    ++ codes "Sec-WebSocket-Accept: "
    ++ ws_accept_key ws_key
    ++ codes "\r\n"
    ++ codes "\r\n"

unfoldable pub is_upgrade : Text → Text → Bool
is_upgrade path http_text =
    starts_with http_text (codes "GET " ++ path ++ codes " HTTP/1.1\r\n")
    && equal_text (extract_header http_text (codes "Upgrade")) (codes "websocket")

-- From the headers that were received on.
unfoldable pub on_request : Text → ℕ → Text → Socket → Option Text × Socket
unfolding user_id_of upgrade_response is_upgrade
on_request path now http_text s =
    if not (is_upgrade path http_text)
    then (none, s)
    else elim (extract_header http_text (codes "Sec-WebSocket-Key")) [
      | [] ↦ (none, s)
      | c ∷ key ↦
          let (sent, s') = send_all (upgrade_response (c ∷ key)) s in
          (if sent then some (user_id_of now http_text) else none, s')
    ]

unfoldable pub accept : Text → ℕ → Socket → Option Text × Socket
unfolding on_request
accept path now s =
    let (text, s') = recv_http_headers s in
    elim text [
      | none ↦ (none, s')
      | some [] ↦ (none, s')
      | some (c ∷ http_text) ↦ on_request path now (c ∷ http_text) s'
    ]
