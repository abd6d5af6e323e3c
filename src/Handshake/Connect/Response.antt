-- ===== src/Handshake/Connect/Response.antt =====
-- The client takes the response that the server writes to its key.
use hello_websocket.Prelude.{
  drop, length-append, append_assoc, ℕ, List, [], ◌∷◌, ◌++◌, All, ◌≡◌, refl, ap, ◌∙◌, codes, sym,
  append-nil, length, ◌≤◌, true, some, arith,
}
use hello_websocket.Transport.Socket.{Socket, send_all}
use hello_websocket.Transport.Socket.Stream.{stream, stream_same}
use hello_websocket.Transport.Socket.Send.{send_all-Sends, send_all_whole}
use hello_websocket.Transport.Sha1.{final}
use hello_websocket.Transport.Base64.{base64_encode, ws_accept_key}
use hello_websocket.Transport.Base64.Visible.{ws_accept_key-IsVisible}
use hello_websocket.Transport.Http.{recv_http_headers, blank_line}
use hello_websocket.Transport.Http.Exact.{recv_http_headers-Takes}
use hello_websocket.Strings.{starts_with, lower, to_lower}
use hello_websocket.Handshake.Header.{extract_header, blanks}
use hello_websocket.Handshake.Header.Line.{header_value, trim}
use hello_websocket.Handshake.Header.Ends.{
  headers_text, IsHeader, headers_text-EndsAt, extract_header-headers_text, equal_text_refl,
}
use hello_websocket.Handshake.Header.Values.{IsLine-of, IsLine-append, visible-IsLine, trim_visible}
use hello_websocket.Handshake.Accept.{upgrade_response}
use hello_websocket.Handshake.Connect.{generate_ws_key, upgrade_request, is_switched, connect}

abbrev status_line : List ℕ
status_line = codes "HTTP/1.1 101 Switching Protocols"

abbrev response_headers : List ℕ → List (List ℕ)
response_headers accept_key =
    codes "Upgrade: websocket"
    ∷ codes "Connection: Upgrade"
    ∷ (codes "Sec-WebSocket-Accept: " ++ accept_key)
    ∷ []

upgrade_response-headers_text :
    (ws_key : List ℕ)
    → upgrade_response ws_key ≡ headers_text status_line (response_headers (ws_accept_key ws_key))
unfolding upgrade_response
upgrade_response-headers_text ws_key =
    ap
      (λ (t : List ℕ).
        codes "HTTP/1.1 101 Switching Protocols\r\nUpgrade: websocket\r\nConnection: Upgrade\r\n"
        ++ codes "Sec-WebSocket-Accept: "
        ++ t)
      (append_assoc (ws_accept_key ws_key) (codes "\r\n") (codes "\r\n")
        ∙ ap (λ (t : List ℕ). t ++ blank_line) (sym (append-nil (ws_accept_key ws_key))))

response_headers-IsHeader :
    (ws_key : List ℕ) → All IsHeader (response_headers (ws_accept_key ws_key))
response_headers-IsHeader ws_key = (
  IsLine-of (codes "Upgrade: websocket") refl,
  (
    IsLine-of (codes "Connection: Upgrade") refl,
    (
      IsLine-append (codes "Sec-WebSocket-Accept: ") (ws_accept_key ws_key)
          (IsLine-of (codes "Sec-WebSocket-Accept: ") refl)
          (visible-IsLine (ws_accept_key ws_key) (ws_accept_key-IsVisible ws_key)),
      tt,
    ),
  ),
)

accept_value :
    (accept_key : List ℕ)
    → header_value (codes "Sec-WebSocket-Accept") (response_headers accept_key ++ [] ∷ [] ∷ [])
      ≡ trim accept_key
unfolding starts_with lower to_lower blanks
accept_value accept_key = refl

length-ws_accept_key : (ws_key : List ℕ) → length (ws_accept_key ws_key) ≡ 28
unfolding ws_accept_key final base64_encode
length-ws_accept_key ws_key = refl

-- The client's tests on the server's response.
is_switched-upgrade_response :
    (ws_key : List ℕ) → is_switched ws_key (upgrade_response ws_key) ≡ true
unfolding is_switched
is_switched-upgrade_response ws_key =
    let a = ws_accept_key ws_key in
    let found : extract_header (upgrade_response ws_key) (codes "Sec-WebSocket-Accept") ≡ a =
      ap (λ (t : List ℕ). extract_header t (codes "Sec-WebSocket-Accept"))
        (upgrade_response-headers_text ws_key)
      ∙ extract_header-headers_text (codes "Sec-WebSocket-Accept")
          (IsLine-of (codes "Sec-WebSocket-Accept") refl) status_line (response_headers a)
          (IsLine-of status_line refl) (response_headers-IsHeader ws_key)
      ∙ accept_value a
      ∙ trim_visible a (ws_accept_key-IsVisible ws_key) in
    let begins : starts_with (upgrade_response ws_key) (codes "HTTP/1.1 101 ") ≡ true =
      unfold upgrade_response in unfold starts_with in refl in
    rw (begins, found) (equal_text_refl a)

length-upgrade_response : (ws_key : List ℕ) → length (upgrade_response ws_key) ≤ 8193
length-upgrade_response ws_key = omega (
  arith,
  ap length (upgrade_response-headers_text ws_key),
  length-append (codes "Sec-WebSocket-Accept: " ++ ws_accept_key ws_key) [],
  length-append (codes "Sec-WebSocket-Accept: " ++ ws_accept_key ws_key ++ []) blank_line,
  length-append (codes "Sec-WebSocket-Accept: ") (ws_accept_key ws_key),
  length-ws_accept_key ws_key,
)

module _ (path host : List ℕ) (port : ℕ) (random user_id : List ℕ) (s : Socket) where
  request : List ℕ
  request = upgrade_request path host port (generate_ws_key random) user_id

  connect_answer :
      (c : ℕ) (text : List ℕ) (s' : Socket)
      → (send_all request s).0 ≡ true
      → recv_http_headers (send_all request s).1 ≡ (some (c ∷ text), s')
      → connect path host port random user_id s
        ≡ (is_switched (generate_ws_key random) (c ∷ text), s')
  unfolding connect request
  connect_answer c text s' sent answer =
      rw (sent, answer, connect)
        (ap (λ r. (is_switched (generate_ws_key random) (c ∷ text), r.1)) answer)

  -- When the client's request has been sent and the response that the server writes to its key
  -- comes next, however it is cut up, `WSClient::connect` returns true; it has handed the system
  -- its request alone, and what is behind the response stays in the stream.
  pub connect-upgrade_response :
      (rest : List ℕ)
      → (send_all (upgrade_request path host port (generate_ws_key random) user_id) s).0 ≡ true
      → stream s ≡ upgrade_response (generate_ws_key random) ++ rest
      → ((connect path host port random user_id s).0 ≡ true)
        × (stream (connect path host port random user_id s).1 ≡ rest)
        × ((connect path host port random user_id s).1.outgoing
            ≡ s.outgoing ++ upgrade_request path host port (generate_ws_key random) user_id)
  unfolding request
  connect-upgrade_response rest sent arrives =
      let ws_key = generate_ws_key random in
      let s' = (send_all request s).1 in
      let a = ws_accept_key ws_key in
      let whole = upgrade_response-headers_text ws_key in
      let (s'', answer, takes) =
        recv_http_headers-Takes s' 72 (drop 1 (headers_text status_line (response_headers a))) rest
          (headers_text-EndsAt status_line (response_headers a) (IsLine-of status_line refl)
            (response_headers-IsHeader ws_key))
          (omega (arith, length-upgrade_response ws_key, ap length whole))
          (stream_same s s' (send_all-Sends request s).incoming
            ∙ arrives
            ∙ ap (λ (t : List ℕ). t ++ rest) whole) in
      let result = connect_answer 72 _ s'' sent answer in
      (
        ap (λ r. r.0) result
            ∙ ap (is_switched ws_key) (sym whole)
            ∙ is_switched-upgrade_response ws_key,
        ap (λ r. stream r.1) result ∙ takes.behind,
        ap (λ r. r.1.outgoing) result ∙ takes.outgoing ∙ send_all_whole request s sent,
      )
