-- ===== src/Handshake/Accept/Request.antt =====
-- The server takes the request that the client writes.
use hello_websocket.Prelude.{
  drop, ge→ltb, ℕ, List, [], ◌∷◌, ◌++◌, All, ◌≡◌, ◌≢◌, refl, ap, ◌∙◌, codes, sym, length, ◌≤◌, true,
  false, ltb, arith, pos, append_assoc,
}
use hello_websocket.Transport.Base64.Visible.{IsVisible, to_string-IsVisible}
use hello_websocket.Hash.{to_string}
use hello_websocket.Transport.Http.{blank_line}
use hello_websocket.Strings.{starts_with, lower, to_lower, is_control}
use hello_websocket.Strings.Find.{IsLine, starts_with-append}
use hello_websocket.Handshake.Header.{extract_header, blanks}
use hello_websocket.Handshake.Header.Line.{lines_text, header_value, trim}
use hello_websocket.Handshake.Header.Ends.{
  headers_text, IsHeader, extract_header-headers_text, equal_text_refl,
}
use hello_websocket.Handshake.Header.Values.{
  is_line, IsLine-of, IsLine-append, visible-IsLine, trim_visible,
}
use hello_websocket.Handshake.Accept.{without_controls, user_id_of, is_upgrade}
use hello_websocket.Handshake.Connect.{upgrade_request}

-- A user id that the server takes as it is.
abbrev pub IsUserId : List ℕ → Type 0
IsUserId [] = ⊥
IsUserId (c ∷ l) = (c ≢ 32) × All (λ (b : ℕ). is_control b ≡ false) (c ∷ l) × (length (c ∷ l) ≤ 128)

abbrev pub request_line : List ℕ → List ℕ
request_line path = codes "GET " ++ path ++ codes " HTTP/1.1"

abbrev pub request_headers : List ℕ → ℕ → List ℕ → List ℕ → List (List ℕ)
request_headers host port ws_key user_id =
    (codes "Host: " ++ (host ++ (codes ":" ++ to_string (pos port))))
    ∷ codes "Upgrade: websocket"
    ∷ codes "Connection: Upgrade"
    ∷ (codes "Sec-WebSocket-Key: " ++ ws_key)
    ∷ codes "Sec-WebSocket-Version: 13"
    ∷ (codes "userId: " ++ user_id)
    ∷ []

pub upgrade_request-headers_text :
    (path host : List ℕ) (port : ℕ) (ws_key user_id : List ℕ)
    → upgrade_request path host port ws_key user_id
      ≡ headers_text (request_line path) (request_headers host port ws_key user_id)
unfolding upgrade_request
upgrade_request-headers_text path host port ws_key user_id = simp (append_assoc)

controls-IsLine : (l : List ℕ) → All (λ (b : ℕ). is_control b ≡ false) l → IsLine l
unfolding is_control
controls-IsLine [] h = tt
controls-IsLine (c ∷ l) h = (ground (arith, h.0), controls-IsLine l h.1)

user_id-IsLine : (l : List ℕ) → IsUserId l → IsLine l
user_id-IsLine [] h = tt
user_id-IsLine (c ∷ l) h = controls-IsLine (c ∷ l) h.1

trim_user_id : (l : List ℕ) → IsUserId l → trim l ≡ l
unfolding blanks is_control
trim_user_id [] h = refl
trim_user_id (c ∷ l) h = ground (arith, h.0, h.1.0)

without_controls_same :
    (l : List ℕ) → All (λ (b : ℕ). is_control b ≡ false) l → without_controls l ≡ l
unfolding without_controls
without_controls_same [] h = refl
without_controls_same (c ∷ l) h =
    rw (h.0) (ap (λ (t : List ℕ). c ∷ t) (without_controls_same l h.1))

user_id_kept :
    (now : ℕ) (text user_id : List ℕ)
    → IsUserId user_id
    → extract_header text (codes "userId") ≡ user_id
    → user_id_of now text ≡ user_id
unfolding user_id_of
user_id_kept now text [] h e = absurd h
user_id_kept now text (c ∷ l) h e =
    let short : ltb 128 (length (c ∷ l)) ≡ false = ge→ltb 128 (length (c ∷ l)) h.2 in
    rw (e, without_controls_same (c ∷ l) h.1, short, user_id_of) refl

module _ (path host : List ℕ) (port : ℕ) (ws_key user_id : List ℕ) where
  -- What a request of the client must be made of.
  pub record IsRequest : Type 0 where
    pub path_line : IsLine path
    pub host_line : IsLine host
    pub key_visible : IsVisible ws_key
    pub id : IsUserId user_id

  pub request_headers-IsHeader : IsRequest → All IsHeader (request_headers host port ws_key user_id)
  request_headers-IsHeader h = (
    IsLine-append (codes "Host: ") (host ++ (codes ":" ++ to_string (pos port)))
        (IsLine-of (codes "Host: ") refl)
        (IsLine-append host (codes ":" ++ to_string (pos port)) h.host_line (
          IsLine-append (codes ":") (to_string (pos port)) (IsLine-of (codes ":") refl)
            (visible-IsLine (to_string (pos port)) (to_string-IsVisible port)))),
    (
      IsLine-of (codes "Upgrade: websocket") refl,
      (
        IsLine-of (codes "Connection: Upgrade") refl,
        (
          IsLine-append (codes "Sec-WebSocket-Key: ") ws_key
              (IsLine-of (codes "Sec-WebSocket-Key: ") refl) (visible-IsLine ws_key h.key_visible),
          (
            IsLine-of (codes "Sec-WebSocket-Version: 13") refl,
            (
              IsLine-append (codes "userId: ") user_id (IsLine-of (codes "userId: ") refl)
                  (user_id-IsLine user_id h.id),
              tt,
            ),
          ),
        ),
      ),
    ),
  )

  pub request_line-IsLine : IsRequest → IsLine (request_line path)
  request_line-IsLine h =
      IsLine-append (codes "GET " ++ path) (codes " HTTP/1.1")
        (IsLine-append (codes "GET ") path (IsLine-of (codes "GET ") refl) h.path_line)
        (IsLine-of (codes " HTTP/1.1") refl)

  unfoldable pub text : List ℕ
  text = headers_text (request_line path) (request_headers host port ws_key user_id)

  module _ (h : IsRequest) where
    request_value :
        (key : List ℕ)
        → is_line key ≡ true
        → extract_header text key
          ≡ header_value key (request_headers host port ws_key user_id ++ [] ∷ [] ∷ [])
    unfolding text
    request_value key e =
        extract_header-headers_text key (IsLine-of key e) (request_line path)
          (request_headers host port ws_key user_id) (request_line-IsLine h)
          (request_headers-IsHeader h)

    upgrade_value : extract_header text (codes "Upgrade") ≡ codes "websocket"
    unfolding starts_with lower to_lower blanks
    upgrade_value = request_value (codes "Upgrade") refl

    pub key_value : extract_header text (codes "Sec-WebSocket-Key") ≡ ws_key
    unfolding starts_with lower to_lower blanks
    key_value = request_value (codes "Sec-WebSocket-Key") refl ∙ trim_visible ws_key h.key_visible

    id_value : extract_header text (codes "userId") ≡ user_id
    unfolding starts_with lower to_lower blanks
    id_value = request_value (codes "userId") refl ∙ trim_user_id user_id h.id

    text_begins : starts_with text (codes "GET " ++ path ++ codes " HTTP/1.1\r\n") ≡ true
    unfolding text
    text_begins =
        let more = drop 2 (lines_text (request_headers host port ws_key user_id) ++ blank_line) in
        let first = codes "GET " ++ path ++ codes " HTTP/1.1\r\n" in
        let split : text ≡ first ++ more =
          append_assoc (codes "GET " ++ path) (codes " HTTP/1.1") (13 ∷ 10 ∷ more)
          ∙ sym (append_assoc (codes "GET " ++ path) (codes " HTTP/1.1\r\n") more) in
        ap (λ t. starts_with t first) split ∙ starts_with-append first more

    pub text-is_upgrade : is_upgrade path text ≡ true
    unfolding is_upgrade
    text-is_upgrade = rw (text_begins, upgrade_value) (equal_text_refl (codes "websocket"))

    pub text-user_id : (now : ℕ) → user_id_of now text ≡ user_id
    text-user_id now = user_id_kept now text user_id h.id id_value
