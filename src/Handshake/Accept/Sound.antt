-- ===== src/Handshake/Accept/Sound.antt =====
-- What `WSServer::accept` does, whatever arrives.
use hello_websocket.Prelude.{
  drop, ℕ, List, [], ◌∷◌, ◌++◌, ◌≡◌, refl, ap, ◌∙◌, codes, sym, length, ◌<◌, true, false, some,
  none, arith, subst, ◌⊎◌, inl, inr, Bool-cases, List-cases, Option, append-nil,
}
use hello_websocket.Transport.Socket.{Socket, send_all}
use hello_websocket.Transport.Socket.Stream.{stream, stream_same}
use hello_websocket.Transport.Socket.Send.{send_all_whole, send_all-Sends}
use hello_websocket.Transport.Http.{recv_http_headers}
use hello_websocket.Transport.Http.Exact.{recv_http_headers-outgoing}
use hello_websocket.Transport.Http.Headers.{recv_http_headers_returns, equal_text-eq}
use hello_websocket.Transport.Receive.Returns.{and-both}
use hello_websocket.Strings.{starts_with}
use hello_websocket.Strings.Find.{starts_with-split}
use hello_websocket.Handshake.Header.{extract_header}
use hello_websocket.Handshake.Accept.Accepts.{on_request_answer}
use hello_websocket.Handshake.Accept.{
  equal_text, user_id_of, is_upgrade, upgrade_response, on_request, accept,
}
use hello_websocket.Handshake.Accept.UserId.{IsLoggable, user_id_of-IsLoggable}

-- A connection that was accepted.
pub record Accepted (path : List ℕ) (s : Socket) (user_id : List ℕ) (s' : Socket) : Type 0 where
  pub text : List ℕ
  pub body : List ℕ
  pub key : List ℕ
  pub taken : stream s ≡ text ++ stream s'
  pub request : text ≡ codes "GET " ++ path ++ codes " HTTP/1.1\r\n" ++ body
  pub upgrade : extract_header text (codes "Upgrade") ≡ codes "websocket"
  pub key_header : extract_header text (codes "Sec-WebSocket-Key") ≡ key
  pub has_key : 0 < length key
  pub answered : s'.outgoing ≡ s.outgoing ++ upgrade_response key
  pub id : IsLoggable user_id

-- A connection that was refused, which was sent nothing, or a part of a response.
pub record Refused (s s' : Socket) : Type 0 where
  pub sent : List ℕ
  pub outgoing : s'.outgoing ≡ s.outgoing ++ sent
  pub part :
      (sent ≡ []) ⊎ ((key : List ℕ) × (unsent : List ℕ) × (upgrade_response key ≡ sent ++ unsent))

Returns : List ℕ → Socket → Option (List ℕ) × Socket → Type 0
Returns path s (answer, s') =
    ((user_id : List ℕ) × (answer ≡ some user_id) × Accepted path s user_id s')
    ⊎ ((answer ≡ none) × Refused s s')

silent : (path : List ℕ) (s s' : Socket) → s'.outgoing ≡ s.outgoing → Returns path s (none, s')
unfolding Returns
silent path s s' e =
    inr (refl, record { sent = []; outgoing = e ∙ sym (append-nil s.outgoing); part = inl refl })

is_upgrade-parts :
    (path text : List ℕ)
    → is_upgrade path text ≡ true
    → (starts_with text (codes "GET " ++ path ++ codes " HTTP/1.1\r\n") ≡ true)
      × (equal_text (extract_header text (codes "Upgrade")) (codes "websocket") ≡ true)
unfolding is_upgrade
is_upgrade-parts path text e = and-both _ _ e

module _ (path : List ℕ) (now : ℕ) (text : List ℕ) (s0 s : Socket) where
  on_request_refused : is_upgrade path text ≡ false → on_request path now text s ≡ (none, s)
  unfolding on_request
  on_request_refused e = rw (e, on_request) refl

  on_request_no_key :
      is_upgrade path text ≡ true
      → extract_header text (codes "Sec-WebSocket-Key") ≡ []
      → on_request path now text s ≡ (none, s)
  unfolding on_request
  on_request_no_key e e' = rw (e, e', on_request) refl

  on_request_unsent :
      (c : ℕ) (key : List ℕ)
      → is_upgrade path text ≡ true
      → extract_header text (codes "Sec-WebSocket-Key") ≡ c ∷ key
      → (send_all (upgrade_response (c ∷ key)) s).0 ≡ false
      → on_request path now text s ≡ (none, (send_all (upgrade_response (c ∷ key)) s).1)
  unfolding on_request
  on_request_unsent c key e e' e'' = rw (e, e', e'', on_request) refl

  sending :
      (c : ℕ) (key : List ℕ)
      → stream s0 ≡ text ++ stream s
      → s.outgoing ≡ s0.outgoing
      → is_upgrade path text ≡ true
      → extract_header text (codes "Sec-WebSocket-Key") ≡ c ∷ key
      → Returns path s0 (on_request path now text s)
  unfolding Returns
  sending c key taken quiet upgrade found =
      let response = upgrade_response (c ∷ key) in
      let r = send_all-Sends response s in
      let s' = (send_all response s).1 in
      elim (Bool-cases (send_all response s).0) [
        | inr unsent ↦
            subst (Returns path s0) (sym (on_request_unsent c key upgrade found unsent)) (
              inr (
                refl,
                record {
                  sent = r.taken;
                  outgoing = r.outgoing ∙ ap (λ (t : List ℕ). t ++ r.taken) quiet;
                  part = inr (c ∷ key, r.unsent, r.parts);
                },
              ))
        | inl sent ↦
            let (begins, websocket) = is_upgrade-parts path text upgrade in
            subst (Returns path s0)
              (sym (on_request_answer path now text s c key upgrade found sent))
              (inl (
                user_id_of now text,
                refl,
                record {
                  text = text;
                  body = drop (length (codes "GET " ++ path ++ codes " HTTP/1.1\r\n")) text;
                  key = c ∷ key;
                  taken =
                      taken ∙ ap (λ (t : List ℕ). text ++ t) (sym (stream_same s s' r.incoming));
                  request =
                      starts_with-split text (codes "GET " ++ path ++ codes " HTTP/1.1\r\n") begins;
                  upgrade =
                      equal_text-eq (extract_header text (codes "Upgrade")) (codes "websocket")
                        websocket;
                  key_header = found;
                  has_key = omega arith;
                  answered =
                      send_all_whole response s sent ∙ ap (λ (t : List ℕ). t ++ response) quiet;
                  id = user_id_of-IsLoggable now text;
                },
              ))
      ]

  on_request-Returns :
      stream s0 ≡ text ++ stream s
      → s.outgoing ≡ s0.outgoing
      → Returns path s0 (on_request path now text s)
  on_request-Returns taken quiet = elim (Bool-cases (is_upgrade path text)) [
    | inr e ↦ subst (Returns path s0) (sym (on_request_refused e)) (silent path s0 s quiet)
    | inl e ↦ elim (List-cases (extract_header text (codes "Sec-WebSocket-Key"))) [
      | inl e' ↦ subst (Returns path s0) (sym (on_request_no_key e e')) (silent path s0 s quiet)
      | inr (c, key, e') ↦ sending c key taken quiet e e'
    ]
  ]

accept_closed :
    (path : List ℕ) (now : ℕ) (s : Socket)
    → (recv_http_headers s).0 ≡ some []
    → accept path now s ≡ (none, (recv_http_headers s).1)
unfolding accept
accept_closed path now s e = rw (e, accept) refl

accept_goes_on :
    (path : List ℕ) (now : ℕ) (s : Socket) (c : ℕ) (text : List ℕ)
    → (recv_http_headers s).0 ≡ some (c ∷ text)
    → accept path now s ≡ on_request path now (c ∷ text) (recv_http_headers s).1
unfolding accept
accept_goes_on path now s c text e = rw (e, accept) refl

-- Whatever arrives, `WSServer::accept` returns. Either it returns a user id that can stand in a
-- log, and then it has taken a request off the stream that begins with the request line for the
-- path, whose Upgrade is `websocket` and which has a key, and has sent exactly the response to
-- this key; or it refuses the connection, and has sent nothing or a part of a response.
pub accept_returns :
    (path : List ℕ) (now : ℕ) (s : Socket)
    → ((user_id : List ℕ) × ((accept path now s).0 ≡ some user_id)
        × Accepted path s user_id (accept path now s).1)
      ⊎ (((accept path now s).0 ≡ none) × Refused s (accept path now s).1)
unfolding Returns
accept_returns path now s =
    let (text, answer, got) = recv_http_headers_returns s in
    let s' = (recv_http_headers s).1 in
    let quiet = recv_http_headers-outgoing s in
    elim (List-cases text) [
      | inl empty ↦
          subst (Returns path s) (sym (accept_closed path now s (answer ∙ ap some empty)))
            (silent path s s' quiet)
      | inr (c, t, e) ↦
          subst (Returns path s) (sym (accept_goes_on path now s c t (answer ∙ ap some e))) (
            on_request-Returns path now (c ∷ t) s s'
              (elim got [
                | inl empty ↦ absurd (omega (arith, ap length (sym e ∙ empty)))
                | inr (whole, complete, small) ↦ whole ∙ ap (λ (l : List ℕ). l ++ stream s') e
              ])
              quiet)
    ]
