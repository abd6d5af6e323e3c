-- ===== src/Handshake/Accept/Accepts.antt =====
-- `WSServer::accept` on a request that the client writes.
use hello_websocket.Transport.Sha1.{bytes_from_high, final}
use hello_websocket.Transport.Base64.{base64_encode}
use hello_websocket.Prelude.{
  ◌<◌, ℕ, List, [], ◌∷◌, ◌++◌, All, ◌≡◌, ◌≢◌, refl, ap, ◌∙◌, codes, sym, length, ◌≤◌, true, some,
  arith, subst, drop,
}
use hello_websocket.Transport.Socket.{Socket, send_all}
use hello_websocket.Transport.Socket.Stream.{stream, stream_same}
use hello_websocket.Transport.Socket.Send.{send_all-Sends, send_all_whole, send_all_succeeds}
use hello_websocket.Transport.Sha1.{final, bytes_from_high}
use hello_websocket.Transport.Base64.{base64_encode, ws_accept_key}
use hello_websocket.Transport.Base64.Visible.{base64_encode-IsVisible, base64_encode-cons}
use hello_websocket.Transport.Http.{recv_http_headers}
use hello_websocket.Transport.Http.Exact.{recv_http_headers-Takes}
use hello_websocket.Strings.Find.{IsLine}
use hello_websocket.Handshake.Header.{extract_header}
use hello_websocket.Handshake.Header.Ends.{headers_text, headers_text-EndsAt}
use hello_websocket.Handshake.Accept.{
  ws_accept_key, user_id_of, is_upgrade, upgrade_response, on_request, accept,
}
use hello_websocket.Handshake.Accept.Request.{
  text, IsRequest, IsUserId, request_line, request_headers, upgrade_request-headers_text,
  request_line-IsLine, request_headers-IsHeader, text-is_upgrade, text-user_id, key_value,
}
use hello_websocket.Handshake.Connect.{generate_ws_key, upgrade_request}

module _ (path : List ℕ) (now : ℕ) (text : List ℕ) (s : Socket) where
  pub on_request_answer :
      (c : ℕ) (key : List ℕ)
      → is_upgrade path text ≡ true
      → extract_header text (codes "Sec-WebSocket-Key") ≡ c ∷ key
      → (send_all (upgrade_response (c ∷ key)) s).0 ≡ true
      → on_request path now text s
        ≡ (some (user_id_of now text), (send_all (upgrade_response (c ∷ key)) s).1)
  unfolding on_request
  on_request_answer c key upgrade found sent = rw (upgrade, found, sent, on_request) refl

accept_answer :
    (path : List ℕ) (now : ℕ) (s : Socket) (c : ℕ) (text : List ℕ) (s' : Socket)
    → recv_http_headers s ≡ (some (c ∷ text), s')
    → accept path now s ≡ on_request path now (c ∷ text) s'
unfolding accept
accept_answer path now s c text s' e =
    rw (e, accept) (ap (λ r. on_request path now (c ∷ text) r.1) e)

generate_ws_key-cons :
    (random : List ℕ) → random ≢ [] → (c : ℕ) × (key : List ℕ) × (generate_ws_key random ≡ c ∷ key)
unfolding generate_ws_key
generate_ws_key-cons [] h = absurd (h refl)
generate_ws_key-cons (r ∷ random) h = base64_encode-cons r random

length-upgrade_response : (key : List ℕ) → length (upgrade_response key) ≡ 129
unfolding upgrade_response ws_accept_key base64_encode final bytes_from_high
length-upgrade_response key = refl

-- When the request that the client writes comes next, however it is cut up, of at most 8193 bytes,
-- with a path and a host without carriage returns, at least one random byte for the key, and a
-- user id of at most 128 characters, none a control character and the first no space, and while
-- the system takes a byte at each call of `::send`, as often as the response has bytes,
-- `WSServer::accept` returns the user id; it hands the system the response to the client's key
-- alone, and what is behind the request stays in the stream.
pub accept-upgrade_request :
    (path host : List ℕ) (port : ℕ) (random user_id : List ℕ) (now : ℕ) (s : Socket) (rest : List ℕ)
    → IsLine path
    → IsLine host
    → random ≢ []
    → IsUserId user_id
    → length (upgrade_request path host port (generate_ws_key random) user_id) ≤ 8193
    → stream s ≡ upgrade_request path host port (generate_ws_key random) user_id ++ rest
    → length (upgrade_response (generate_ws_key random)) ≤ length s.rooms
    → All (λ (room : ℕ). 0 < room) s.rooms
    → ((accept path now s).0 ≡ some user_id)
      × (stream (accept path now s).1 ≡ rest)
      × ((accept path now s).1.outgoing ≡ s.outgoing ++ upgrade_response (generate_ws_key random))
unfolding text
accept-upgrade_request path host port random user_id now s rest hp hh hr hu short arrives room
      live =
    let ws_key = generate_ws_key random in
    let h : IsRequest path host port ws_key user_id = record {
      path_line = hp;
      host_line = hh;
      key_visible = unfold generate_ws_key in base64_encode-IsVisible random;
      id = hu;
    } in
    let headers = request_headers host port ws_key user_id in
    let text = headers_text (request_line path) headers in
    let whole = upgrade_request-headers_text path host port ws_key user_id in
    let (c, key, begins) = generate_ws_key-cons random hr in
    let (s', answer, takes) =
      recv_http_headers-Takes s 71 (drop 1 text) rest
        (headers_text-EndsAt (request_line path) headers
          (request_line-IsLine path host port ws_key user_id h)
          (request_headers-IsHeader path host port ws_key user_id h))
        (omega (arith, short, ap length whole)) (arrives ∙ ap (λ (t : List ℕ). t ++ rest) whole) in
    let response = upgrade_response ws_key in
    let sent : (send_all response s').0 ≡ true =
      send_all_succeeds response s' (omega (arith, length-upgrade_response ws_key))
        (omega (arith, room, ap length takes.rooms))
        (subst (All (λ (room' : ℕ). 0 < room')) (sym takes.rooms) live) in
    let result : accept path now s ≡ (some (user_id_of now text), (send_all response s').1) =
      accept_answer path now s 71 (drop 1 text) s' answer
      ∙ subst
          (λ (k : List ℕ).
            on_request path now text s'
            ≡ (some (user_id_of now text), (send_all (upgrade_response k) s').1))
          (sym begins)
          (on_request_answer path now text s' c key
            (text-is_upgrade path host port ws_key user_id h)
            (key_value path host port ws_key user_id h ∙ begins)
            (subst (λ (k : List ℕ). (send_all (upgrade_response k) s').0 ≡ true) begins sent)) in
    (
      ap (λ r. r.0) result ∙ ap some (text-user_id path host port ws_key user_id h now),
      ap (λ r. stream r.1) result
          ∙ stream_same s' (send_all response s').1 (send_all-Sends response s').incoming
          ∙ takes.behind,
      ap (λ r. r.1.outgoing) result
          ∙ send_all_whole response s' sent
          ∙ ap (λ (t : List ℕ). t ++ response) takes.outgoing,
    )
