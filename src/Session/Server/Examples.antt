-- ===== src/Session/Server/Examples.antt =====
-- The invariant of a session at a session that receives a PONG.
use hello_websocket.Prelude.{
  ◌<◌, false, length, ◌≡◌, refl, true, false, some, List, ℕ, arith, codes, [], ◌∷◌, All,
}
use hello_websocket.Codec.Wire.{IsByte}
use hello_websocket.Codec.Outcome.{ok}
use hello_websocket.Transport.Socket.{Socket, recv_all}
use hello_websocket.Transport.Socket.Stream.{stream}
use hello_websocket.Transport.Receive.{
  read_header, is_bad_header, extend_len, read_body, is_refused, empty_frame, read_payload,
  read_mask, read_unmasked,
}
use hello_websocket.Transport.Frame.{mask_from}
use hello_websocket.Session.Round.{Round}
use hello_websocket.Session.Server.{Server, new_session, receive_round, timeout_check}
use hello_websocket.Session.Server.Runs.{
  Running, testing, reading, behind, after, read_from, framed_by, Runs, start, step, entered,
  framed, checked,
}
use hello_websocket.Session.Server.Invariant.Places.{IsPlace, IsSession-Runs}
use hello_websocket.Transport.Receive.{Received, read_frame}
use hello_websocket.Session.Server.Invariant.{IsSession}
use hello_websocket.Session.Server.Invariant.Rounds.{new_session-IsSession, state_of}
use hello_websocket.Session.Server.Loop.{receive_loop, receive_loop_ends}
use hello_websocket.Session.Server.Invariant.Total.{receive_round_returns}

-- A PONG of the moment 1000, masked with zeros, in two pieces.
abbrev pong_pieces : List (List ℕ)
pong_pieces =
    (0x82 ∷ 0x90 ∷ 0 ∷ 0 ∷ 0 ∷ 0 ∷ 0x48 ∷ 1 ∷ 8 ∷ 0 ∷ [])
    ∷ (0 ∷ 0 ∷ 0 ∷ 8 ∷ 0 ∷ 0 ∷ 0 ∷ 0 ∷ 0 ∷ 0 ∷ 3 ∷ 232 ∷ [])
    ∷ []

abbrev pong_socket : Socket
pong_socket = record { incoming = pong_pieces; rooms = 100 ∷ 100 ∷ []; outgoing = [] }

abbrev keys : ℕ → List ℕ
keys n = 1 ∷ 2 ∷ 3 ∷ 4 ∷ []

abbrev pong_session : Server
pong_session = new_session pong_socket 1000

pong_socket-bytes : All IsByte (stream pong_socket)
unfolding stream
pong_socket-bytes = omega arith

pong_session-IsSession : IsSession pong_session
pong_session-IsSession = new_session-IsSession pong_socket 1000 pong_socket-bytes

receive_round_returns_example :
    (r : Round Server) × (receive_round keys 2000 pong_session ≡ ok r) × IsSession (state_of r)
receive_round_returns_example =
    receive_round_returns keys 2000 pong_session (omega arith) pong_session-IsSession

-- The PONG is read, and the timeout is checked.
abbrev pong_frame : Received
pong_frame = record {
  fin = true;
  opcode = 2;
  payload = 0x48 ∷ 1 ∷ 8 ∷ 0 ∷ 0 ∷ 0 ∷ 0 ∷ 8 ∷ 0 ∷ 0 ∷ 0 ∷ 0 ∷ 0 ∷ 0 ∷ 3 ∷ 232 ∷ [];
}

pong_read : (read_from empty_frame pong_session).0 ≡ some pong_frame
unfolding new_session recv_all mask_from read_frame read_header is_bad_header extend_len read_body
    is_refused empty_frame read_payload read_mask read_unmasked
pong_read = refl

abbrev read_session : Server
read_session = record pong_session {
  socket = (framed_by (keys 0) pong_frame empty_frame false pong_session).1;
}

abbrev pong_begins : Running
pong_begins = record { server = pong_session; place = testing }

abbrev pong_ends : Running
pong_ends = record {
  server = timeout_check (λ s. s) 9000 read_session;
  place = after (framed_by (keys 0) pong_frame empty_frame false pong_session).0;
}

pong_begins-Runs : Runs (λ s. s) pong_begins pong_ends
unfolding new_session
pong_begins-Runs =
    step (entered refl)
      (step (framed empty_frame false pong_frame (keys 0) pong_read) (step (checked 9000) start))

IsSession-Runs_example : IsSession pong_ends.server × IsPlace pong_ends.place
IsSession-Runs_example =
    IsSession-Runs (λ s. s) (λ s h. h) pong_begins pong_ends pong_session-IsSession tt
      pong_begins-Runs

-- A ping that arrives when the session is inactive and the receive thread is in `wsRecvFrame`.
abbrev ping_frame : Received
ping_frame = record { fin = true; opcode = 9; payload = [] }

abbrev ended_session : Server
ended_session = record {
  socket = record {
    incoming = (0x89 ∷ 0x80 ∷ 0 ∷ 0 ∷ 0 ∷ 0 ∷ []) ∷ [];
    rooms = 100 ∷ [];
    outgoing = 1 ∷ [];
  };
  active = false;
  client_language = codes "CPP";
  last_pong_ts = 1000;
}

abbrev ping_begins : Running
ping_begins = record { server = ended_session; place = reading empty_frame false }

abbrev ping_ends : Running
ping_ends = record {
  server = record ended_session {
    socket = (framed_by (keys 0) ping_frame empty_frame false ended_session).1;
  };
  place = after (framed_by (keys 0) ping_frame empty_frame false ended_session).0;
}

pong_session-short : length (stream pong_session.socket) < 23
unfolding stream new_session
pong_session-short = omega arith

receive_loop_ends_example :
    (st' : Server) × (receive_loop (λ n. keys) (λ n. 2000) 23 pong_session ≡ ok st')
    × IsSession st'
    × Runs (λ s. s) pong_begins (record { server = record st' { active = false }; place = behind })
receive_loop_ends_example =
    receive_loop_ends (λ n. keys) (λ n. 2000) (λ s. s) (λ n. omega arith) 23 pong_session
      pong_session-short pong_session-IsSession
