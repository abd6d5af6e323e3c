-- ===== src/Session/Client/Examples.antt =====
-- A client that gets a PING, and one that sends random numbers.
use hello_websocket.Prelude.{◌≡◌, refl, true, List, ℕ, negsuc, [], ◌∷◌}
use hello_websocket.Codec.Writer.{write_i64, write_u32}
use hello_websocket.Codec.Frame.{encode_frame}
use hello_websocket.Codec.Message.{encode, kind_of}
use hello_websocket.Codec.Outcome.{ok}
use hello_websocket.Transport.Socket.{Socket, send_all}
use hello_websocket.Transport.Frame.{ws_send_binary_masked, length_bytes, mask_from}
use hello_websocket.Session.Client.{Client, send_frame, random_turn}
use hello_websocket.Session.Client.Loop.{Draw}

-- A PING of the moment 1000, in two pieces, and room for a few bytes.
abbrev ping_socket : Socket
ping_socket = record {
  incoming =
      (0x82 ∷ 0x10 ∷ 0x48 ∷ 1 ∷ [])
      ∷ (7 ∷ 0 ∷ 0 ∷ 0 ∷ 0 ∷ 8 ∷ 0 ∷ 0 ∷ 0 ∷ 0 ∷ 0 ∷ 0 ∷ 3 ∷ 232 ∷ [])
      ∷ [];
  rooms = 100 ∷ [];
  outgoing = [];
}

abbrev client : Client
client = record { socket = ping_socket; active = true }

abbrev keys : ℕ → List ℕ
keys n = 1 ∷ 2 ∷ 3 ∷ 4 ∷ []

abbrev mask : List ℕ
mask = 1 ∷ 2 ∷ 3 ∷ 4 ∷ []

-- The random thread draws -42 before each round.
abbrev draws : ℕ → List Draw
draws n = (mask, negsuc 41) ∷ []

-- The number -42 is drawn, and its message is sent.
abbrev number_bytes : List ℕ
number_bytes =
    0x48 ∷ 1 ∷ 0x0a ∷ 0 ∷ 0 ∷ 0 ∷ 0 ∷ 16 ∷ 0 ∷ 0 ∷ 0 ∷ 0 ∷ 0 ∷ 0 ∷ 0 ∷ 1 ∷ 255 ∷ 255 ∷ 255 ∷ 255
    ∷ 255 ∷ 255 ∷ 255 ∷ 214 ∷ []

abbrev next_client : Client
next_client = record client { socket = (ws_send_binary_masked mask number_bytes ping_socket).1 }

number_drawn : random_turn mask (negsuc 41) 1 client ≡ ok (2, next_client)
unfolding random_turn encode kind_of ws_send_binary_masked send_all send_frame length_bytes
    encode_frame write_i64 write_u32 mask_from
number_drawn = refl
