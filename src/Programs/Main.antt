-- ===== src/Programs/Main.antt =====
-- The server's loop over connections, and the client's three attempts.
use hello_websocket.Prelude.{
  All-append, if◌then◌else◌, ℕ, zero, suc, List, [], ◌∷◌, ◌++◌, All, ◌≡◌, ◌≢◌, ◌↔◌, refl, ◌∙◌,
  codes, sym, length, ◌≤◌, ◌<◌, ◌+◌, true, false, Bool, Bool-cases, some, none, arith, inl, inr,
  pos,
}
use hello_websocket.Codec.KvMap.{Text}
use hello_websocket.Hash.{to_string}
use hello_websocket.Hash.Digits.{length-to_string}
use hello_websocket.Strings.{is_control}
use hello_websocket.Strings.Find.{IsLine}
use hello_websocket.Transport.Socket.{Socket}
use hello_websocket.Transport.Socket.Stream.{stream}
use hello_websocket.Transport.Base64.Visible.{to_string-IsDigit}
use hello_websocket.Handshake.Accept.{upgrade_response, accept}
use hello_websocket.Handshake.Accept.Request.{IsUserId}
use hello_websocket.Handshake.Accept.Sound.{accept_returns}
use hello_websocket.Handshake.Accept.UserId.{IsLoggable, digits-plain}
use hello_websocket.Handshake.Connect.{generate_ws_key, upgrade_request, connect}
use hello_websocket.Handshake.Agree.{handshake}

-- The sessions that the server begins, on the connections that it gets, each with the moment.
unfoldable pub serve : Text → List (ℕ × Socket) → List (Text × Socket)
serve path [] = []
serve path ((now, s) ∷ connections) =
    let sessions = serve path connections in
    let (user_id, s') = accept path now s in
    elim user_id [ none ↦ sessions | some id ↦ (id, s') ∷ sessions ]

unfoldable pub client_user_id : ℕ → Text
client_user_id now = codes "cpp-client-" ++ to_string (pos now)

-- An attempt: the moment, the random bytes of its key, and the socket that it gets.
pub record Attempt : Type 0 where
  pub now : ℕ
  pub random : List ℕ
  pub socket : Socket

-- What `tryConnect` returns: whether there was a session.
unfoldable pub try_connect : Text → Text → ℕ → Attempt → Bool
unfolding client_user_id
try_connect path host port a = (connect path host port a.random (client_user_id a.now) a.socket).0

-- The loop of `main`, with `left` attempts to go; the result is the exit code.
unfoldable pub attempt_loop : ℕ → (ℕ → Bool) → ℕ → ℕ
attempt_loop zero connects attempt = 1
attempt_loop (suc left) connects attempt =
    let code = attempt_loop left connects (suc attempt) in if connects attempt then 0 else code

unfoldable pub client_main : Text → Text → ℕ → (ℕ → Attempt) → ℕ
unfolding attempt_loop try_connect
client_main path host port attempts =
    attempt_loop 3 (λ (i : ℕ). try_connect path host port (attempts i)) 1

-- The loop succeeds exactly if one of its attempts does.
attempt_loop_zero :
    (left : ℕ) (connects : ℕ → Bool) (attempt : ℕ)
    → attempt_loop left connects attempt ≡ 0
    → (i : ℕ) × (attempt ≤ i) × (i < attempt + left) × (connects i ≡ true)
unfolding attempt_loop
attempt_loop_zero zero connects attempt e = absurd (omega arith)
attempt_loop_zero (suc left) connects attempt e = elim (Bool-cases (connects attempt)) [
  | inl hit ↦ (attempt, omega arith, omega arith, hit)
  | inr miss ↦
      let later : attempt_loop left connects (suc attempt) ≡ 0 =
        sym (rw (miss, attempt_loop) refl) ∙ e in
      let (i, low, high, hit) = attempt_loop_zero left connects (suc attempt) later in
      (i, omega arith, omega arith, hit)
]

attempt_loop_success :
    (left : ℕ) (connects : ℕ → Bool) (attempt i : ℕ)
    → attempt ≤ i
    → i < attempt + left
    → connects i ≡ true
    → attempt_loop left connects attempt ≡ 0
unfolding attempt_loop
attempt_loop_success zero connects attempt i low high hit = absurd (omega arith)
attempt_loop_success (suc left) connects attempt i low high hit =
    elim (Bool-cases (connects attempt)) [
      | inl now ↦ rw (now, attempt_loop) refl
      | inr miss ↦
          let other : attempt ≢ i = λ same. cc in
          rw (miss, attempt_loop)
            (attempt_loop_success left connects (suc attempt) i (omega arith) (omega arith) hit)
    ]

-- The client returns 0 exactly if one of the attempts 1 to 3 gets a session.
pub client_main_iff :
    (path host : Text) (port : ℕ) (attempts : ℕ → Attempt)
    → (client_main path host port attempts ≡ 0)
      ↔ ((i : ℕ) × (1 ≤ i) × (i ≤ 3) × (try_connect path host port (attempts i) ≡ true))
unfolding client_main
client_main_iff path host port attempts =
    let connects : ℕ → Bool = λ i. try_connect path host port (attempts i) in
    (
      λ e. let (i, low, high, hit) = attempt_loop_zero 3 connects 1 e in (i, low, omega arith, hit),
      λ (i, low, high, hit). attempt_loop_success 3 connects 1 i low (omega arith) hit,
    )

pub client_user_id-IsUserId : (now : ℕ) → IsUserId (client_user_id now)
unfolding client_user_id is_control
client_user_id-IsUserId now = (
  omega arith,
  All-append (λ (c : ℕ). is_control c ≡ false) (codes "cpp-client-") (to_string (pos now))
      (refl, (refl, (refl, (refl, (refl, (refl, (refl, (refl, (refl, (refl, (refl, tt)))))))))))
      (digits-plain (to_string (pos now)) (to_string-IsDigit now)),
  omega (arith, length-to_string (pos now)),
)

-- When at one of the attempts 1 to 3 the client's socket and a server's socket, on which nothing has
-- been sent, are connected, so that each gets what the other sends, however it is cut up, and the
-- system takes a byte at each call of `::send`, then the client's `main` returns 0, and the server
-- accepts the connection with the user id `cpp-client-` and the moment of the attempt. The
-- conditions are: the same path, without carriage returns, a host without them, at least one random
-- byte for the key, and a request of at most 8193 bytes.
pub client_main_connects :
    (path host : Text) (port : ℕ) (attempts : ℕ → Attempt) (i now : ℕ) (server : Socket)
    → 1 ≤ i
    → i ≤ 3
    → IsLine path
    → IsLine host
    → (attempts i).random ≢ []
    → length (
        upgrade_request path host port
          (generate_ws_key (attempts i).random)
          (client_user_id (attempts i).now))
      ≤ 8193
    → length (
        upgrade_request path host port
          (generate_ws_key (attempts i).random)
          (client_user_id (attempts i).now))
      ≤ length (attempts i).socket.rooms
    → All (λ (room : ℕ). 0 < room) (attempts i).socket.rooms
    → length (upgrade_response (generate_ws_key (attempts i).random)) ≤ length server.rooms
    → All (λ (room : ℕ). 0 < room) server.rooms
    → (attempts i).socket.outgoing ≡ []
    → server.outgoing ≡ []
    → stream server
      ≡ (connect path host port
          (attempts i).random
          (client_user_id (attempts i).now)
          (attempts i).socket).1.outgoing
    → stream (attempts i).socket ≡ (accept path now server).1.outgoing
    → (client_main path host port attempts ≡ 0)
      × ((accept path now server).0 ≡ some (client_user_id (attempts i).now))
unfolding try_connect
client_main_connects path host port attempts i now server low high hp hh hr small room live room'
      live' fresh fresh' to_server to_client =
    let a = attempts i in
    let (connected, accepted) =
      handshake path host port a.random (client_user_id a.now) now a.socket server hp hh hr
        (client_user_id-IsUserId a.now) small room live room' live' fresh fresh' to_server
        to_client in
    ((client_main_iff path host port attempts).1 (i, low, high, connected), accepted)

-- Every session of the server has a user id that can stand in a log.
pub serve-IsLoggable :
    (path : Text) (connections : List (ℕ × Socket))
    → All (λ (session : Text × Socket). IsLoggable session.0) (serve path connections)
unfolding serve
serve-IsLoggable path [] = tt
serve-IsLoggable path ((now, s) ∷ connections) = elim (accept_returns path now s) [
  | inl (id, taken, a) ↦ rw (taken, serve) (a.id, serve-IsLoggable path connections)
  | inr (refused, r) ↦ rw (refused, serve) (serve-IsLoggable path connections)
]
