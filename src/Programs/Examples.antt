-- ===== src/Programs/Examples.antt =====
-- The programs' `main` at concrete environments.
use hello_websocket.Handshake.Examples.{
  server-to_client, client-to_server, response_small, ones-live, request_small, random_bytes-some,
  host-IsLine, path-IsLine, client, server, random_bytes,
}
use hello_websocket.Handshake.Accept.{accept}
use hello_websocket.Programs.Main.{client_main_connects, Attempt, client_user_id, client_main}
use hello_websocket.Prelude.{◌≡◌, refl, codes, ℕ, zero, suc, [], some, none, pos, arith, length}
use hello_websocket.Codec.Wire.{IsText}
use hello_websocket.Codec.Clock.{two_digits, Tm, now_iso, log_line}
use hello_websocket.Codec.Clock.Iso.{read_iso-now_iso, read_iso}
use hello_websocket.Hash.{to_string}
use hello_websocket.Programs.Port.{
  port_of, port_of-to_string, atoi, is_space, skip_spaces, read_digits,
}

port_of-to_string_example : port_of (some (to_string (pos 8080))) ≡ 8080
port_of-to_string_example = port_of-to_string 8080 (omega arith) (omega arith)

-- A number that is no port, a text that is no number, and none.
large_port : port_of (some (codes "65536")) ≡ 0
unfolding port_of atoi is_space skip_spaces read_digits
large_port = refl

text_port : port_of (some (codes "http")) ≡ 9898
unfolding port_of atoi is_space skip_spaces read_digits
text_port = refl

no_port : port_of none ≡ 9898
unfolding port_of
no_port = refl

abbrev leap_day : Tm
leap_day = record { tm_year = 124; tm_mon = 1; tm_mday = 29; tm_hour = 23; tm_min = 5; tm_sec = 9 }

read_iso-now_iso_example :
    (read_iso (now_iso leap_day) ≡ some leap_day)
    × IsText (now_iso leap_day)
    × (length (now_iso leap_day) ≡ 20)
read_iso-now_iso_example = read_iso-now_iso leap_day (record {
  year = omega arith;
  month = omega arith;
  day = (omega arith, omega arith);
  hour = omega arith;
  minute = omega arith;
  second = omega arith;
})

log_written :
    log_line (codes "ws-server") (codes "session+") leap_day
    ≡ codes "[2024-02-29 23:05:09] [INFO] [ws-server] session+\n"
unfolding log_line to_string two_digits
log_written = refl

-- The first two attempts get sockets on which nothing comes.
abbrev attempts : ℕ → Attempt
attempts (suc (suc (suc zero))) = record { now = 7; random = random_bytes; socket = client }
attempts i = record {
  now = 7;
  random = random_bytes;
  socket = record { incoming = []; rooms = []; outgoing = [] };
}

client_main_connects_example :
    (client_main (codes "/ws") (codes "127.0.0.1") 8080 attempts ≡ 0)
    × ((accept (codes "/ws") 99 server).0 ≡ some (codes "cpp-client-7"))
unfolding client_user_id to_string
client_main_connects_example =
    client_main_connects (codes "/ws") (codes "127.0.0.1") 8080 attempts 3 99 server (omega arith)
      (omega arith) path-IsLine host-IsLine random_bytes-some (omega (arith, request_small))
      (omega (arith, request_small)) (ones-live 200) (omega (arith, response_small)) (ones-live 200)
      refl refl client-to_server server-to_client
