-- ===== src/Handshake/Examples.antt =====
-- A handshake.
use hello_websocket.Transport.Socket.Send.{send_all_succeeds}
use hello_websocket.Handshake.Accept.Request.{IsUserId}
use hello_websocket.Transport.Sha1.{final}
use hello_websocket.Handshake.Header.Values.{IsLine-of}
use hello_websocket.Hash.{to_string}
use hello_websocket.Prelude.{
  false, append-nil, ◌∙◌, sym, ap, take, zero, suc, ◌<◌, ◌≤◌, drop, suc, ◌≡◌, ◌≢◌, refl, codes,
  List, ℕ, [], ◌∷◌, ◌++◌, true, some, arith, ◌⊎◌, none, length, All,
}
use hello_websocket.Strings.{lower, find, to_lower, starts_with, is_control}
use hello_websocket.Strings.Find.{IsLine}
use hello_websocket.Transport.Socket.{Socket, send_all}
use hello_websocket.Transport.Socket.Stream.{stream}
use hello_websocket.Transport.Base64.{base64_encode, ws_accept_key}
use hello_websocket.Handshake.Header.{extract_header, blanks}
use hello_websocket.Handshake.Header.Line.{lines_text}
use hello_websocket.Handshake.Header.Lines.{extract_header-lines}
use hello_websocket.Handshake.Accept.{accept, upgrade_response}
use hello_websocket.Handshake.Accept.Accepts.{accept-upgrade_request}
use hello_websocket.Handshake.Accept.Sound.{accept_returns, Accepted, Refused}
use hello_websocket.Handshake.Connect.{connect, upgrade_request, generate_ws_key}
use hello_websocket.Handshake.Connect.Response.{connect-upgrade_response}
use hello_websocket.Handshake.Handles.{
  Handles, Balanced, AcceptBalanced, listen, connect_handle, accept_handle, handles_balance,
}

upgrade_header :
    extract_header (codes "GET / HTTP/1.1\r\nHost: a\r\nupGrade:  web\r\n\r\n") (codes "Upgrade")
    ≡ codes "web"
unfolding extract_header find lower to_lower
upgrade_header = refl

abbrev pub random_bytes : List ℕ
random_bytes = 1 ∷ 2 ∷ 3 ∷ 4 ∷ 5 ∷ 6 ∷ 7 ∷ 8 ∷ 9 ∷ 10 ∷ 11 ∷ 12 ∷ 13 ∷ 14 ∷ 15 ∷ 16 ∷ []

abbrev pub ones : ℕ → List ℕ
ones zero = []
ones (suc n) = 1000 ∷ ones n

abbrev pub request : List ℕ
request =
    codes
      "GET /ws HTTP/1.1\r\nHost: 127.0.0.1:8080\r\nUpgrade: websocket\r\nConnection: Upgrade\r\n"
    ++ codes "Sec-WebSocket-Key: AQIDBAUGBwgJCgsMDQ4PEA==\r\nSec-WebSocket-Version: 13\r\n"
    ++ codes "userId: cpp-client-7\r\n\r\n"

request_written :
    upgrade_request
      (codes "/ws")
      (codes "127.0.0.1")
      8080
      (generate_ws_key random_bytes)
      (codes "cpp-client-7")
    ≡ request
unfolding upgrade_request generate_ws_key base64_encode to_string
request_written = refl

pub ones-live : (n : ℕ) → All (λ (room : ℕ). 0 < room) (ones n)
ones-live zero = tt
ones-live (suc n) = (omega arith, ones-live n)

abbrev lines : List (List ℕ)
lines = codes "Host: a" ∷ codes "upGrade:  web" ∷ []

extract_header-lines_example :
    extract_header (codes "GET / HTTP/1.1" ++ lines_text lines) (codes "Upgrade") ≡ codes "web"
unfolding starts_with lower to_lower blanks
extract_header-lines_example =
    extract_header-lines (codes "Upgrade") (IsLine-of (codes "Upgrade") refl)
      (codes "GET / HTTP/1.1") lines (IsLine-of (codes "GET / HTTP/1.1") refl)
      (IsLine-of (codes "Host: a") refl, (IsLine-of (codes "upGrade:  web") refl, tt))

abbrev pub response : List ℕ
response = upgrade_response (generate_ws_key random_bytes)

-- A client to which the response comes, in two pieces, and a server to which the request comes.
abbrev pub client : Socket
client = record {
  incoming = take 9 response ∷ drop 9 response ∷ [];
  rooms = ones 200;
  outgoing = [];
}

abbrev pub server : Socket
server = record {
  incoming = take 20 request ∷ drop 20 request ∷ [];
  rooms = ones 200;
  outgoing = [];
}

server-stream :
    stream server
    ≡ upgrade_request
        (codes "/ws")
        (codes "127.0.0.1")
        8080
        (generate_ws_key random_bytes)
        (codes "cpp-client-7")
      ++ []
unfolding stream
server-stream = ap (λ (t : List ℕ). t ++ []) (sym request_written)

client-stream : stream client ≡ response ++ []
unfolding stream upgrade_response
client-stream = refl

abbrev pub user : List ℕ
user = codes "cpp-client-7"

user-IsUserId : IsUserId user
unfolding is_control
user-IsUserId = (
  omega arith,
  (
    refl,
    (refl, (refl, (refl, (refl, (refl, (refl, (refl, (refl, (refl, (refl, (refl, tt))))))))))),
  ),
  omega arith,
)

pub path-IsLine : IsLine (codes "/ws")
path-IsLine = IsLine-of (codes "/ws") refl

pub host-IsLine : IsLine (codes "127.0.0.1")
host-IsLine = IsLine-of (codes "127.0.0.1") refl

pub random_bytes-some : random_bytes ≢ []
random_bytes-some e = cc

pub request_small :
    length
      (upgrade_request (codes "/ws") (codes "127.0.0.1") 8080 (generate_ws_key random_bytes) user)
    ≤ 200
request_small = omega (arith, ap length request_written)

request_sent :
    (send_all
      (upgrade_request (codes "/ws") (codes "127.0.0.1") 8080 (generate_ws_key random_bytes) user)
      client).0
    ≡ true
request_sent =
    send_all_succeeds _ client (omega (arith, request_small)) (omega (arith, request_small))
      (ones-live 200)

pub response_small : length response ≤ 200
unfolding upgrade_response ws_accept_key final base64_encode
response_small = omega arith

client_connects :
    ((connect (codes "/ws") (codes "127.0.0.1") 8080 random_bytes user client).0 ≡ true)
    × (stream (connect (codes "/ws") (codes "127.0.0.1") 8080 random_bytes user client).1 ≡ [])
    × ((connect (codes "/ws") (codes "127.0.0.1") 8080 random_bytes user client).1.outgoing
        ≡ []
          ++ upgrade_request
              (codes "/ws")
              (codes "127.0.0.1")
              8080
              (generate_ws_key random_bytes)
              user)
client_connects =
    connect-upgrade_response (codes "/ws") (codes "127.0.0.1") 8080 random_bytes user client []
      request_sent client-stream

server_accepts :
    ((accept (codes "/ws") 99 server).0 ≡ some user)
    × (stream (accept (codes "/ws") 99 server).1 ≡ [])
    × ((accept (codes "/ws") 99 server).1.outgoing ≡ [] ++ response)
server_accepts =
    accept-upgrade_request (codes "/ws") (codes "127.0.0.1") 8080 random_bytes user 99 server []
      path-IsLine host-IsLine random_bytes-some user-IsUserId (omega (arith, request_small))
      server-stream (omega (arith, response_small)) (ones-live 200)

accept_returns_example :
    ((user_id : List ℕ) × ((accept (codes "/ws") 99 server).0 ≡ some user_id)
      × Accepted (codes "/ws") server user_id (accept (codes "/ws") 99 server).1)
    ⊎ (((accept (codes "/ws") 99 server).0 ≡ none)
        × Refused server (accept (codes "/ws") 99 server).1)
accept_returns_example = accept_returns (codes "/ws") 99 server

pub server-to_client : stream client ≡ (accept (codes "/ws") 99 server).1.outgoing
server-to_client = client-stream ∙ append-nil response ∙ sym server_accepts.2

pub client-to_server :
    stream server
    ≡ (connect (codes "/ws") (codes "127.0.0.1") 8080 random_bytes user client).1.outgoing
client-to_server = server-stream ∙ append-nil _ ∙ sym client_connects.2

abbrev no_handles : Handles
no_handles = record { sock = none; opened = 3 ∷ [] }

handles_balance_example :
    Balanced no_handles (some 5) (listen (some 5) true false no_handles)
    × Balanced no_handles (some 5) (
        connect_handle
          (some 5)
          false
          true
          true
          (codes "/ws")
          (codes "127.0.0.1")
          8080
          random_bytes
          user
          client
          no_handles)
    × AcceptBalanced (some 5) (3 ∷ []) (accept_handle (some 5) (codes "/ws") 99 client (3 ∷ []))
handles_balance_example =
    handles_balance (some 5) true false false true true (codes "/ws") (codes "127.0.0.1") 8080 99
      random_bytes user client no_handles
