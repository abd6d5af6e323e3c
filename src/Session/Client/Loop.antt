-- ===== src/Session/Client/Loop.antt =====
-- `tryConnect` from the handshake to `ws.close()`, with turns of the random thread between the rounds of
-- the receive loop.
use hello_websocket.Prelude.{◌+◌, ◌≡◌, true, false, ℕ, zero, suc, [], List, All, length, arith}
use hello_websocket.Codec.Outcome.{Result, ok, throw, fault}
use hello_websocket.Codec.Wire.{payload}
use hello_websocket.Codec.Wire.RoundTrip.{IsEncodable}
use hello_websocket.Codec.Message.{kind_of}
use hello_websocket.Codec.Constants.{client_lang}
use hello_websocket.Hash.Digits.{IsText-ascii}
use hello_websocket.Transport.Socket.{Socket}
use hello_websocket.Transport.Receive.{ws_recv_frame}
use hello_websocket.Session.Round.{goes_on, leaves}
use hello_websocket.Session.Client.{
  Client, new_client, hello_message, greet, receive_round, cleanup,
}
use hello_websocket.Session.Client.{random_turn}
use hello_websocket.Prelude.{ℤ, ◌∷◌, ◌≤◌}
use hello_websocket.Codec.Wire.{IsI64}

-- A turn of the random thread: its masking key and the number that it draws.
abbrev pub Draw : Type 0
Draw = List ℕ × ℤ

-- Some turns of the random thread, one behind the other.
unfoldable pub random_turns : List Draw → ℕ → Client → Result (ℕ × Client)
unfolding random_turn
random_turns [] id c = ok (id, c)
random_turns ((mask, number) ∷ draws) id c = elim (random_turn mask number id c) [
  | ok (id', c') ↦ random_turns draws id' c'
  | throw e ↦ throw e
  | fault ↦ fault
]

-- `while (active) { ... }` in its `try`, on fuel, and the random thread, which takes any number of turns
-- before each test of `active`. `keys`, `masks` and `draws` are the random keys of a round and these
-- turns, by the fuel at which they are taken; `id` is `randomId`; `fault` is fuel used up. Only `encode`
-- throws in a round, and it throws before anything is sent: the state that `catch` gets is the one
-- behind the frame.
unfoldable pub receive_loop :
    (ℕ → ℕ → List ℕ) → (ℕ → List ℕ) → (ℕ → List Draw) → ℕ → ℕ → Client → Result Client
unfolding receive_round random_turns
receive_loop keys masks draws zero id c = fault
receive_loop keys masks draws (suc fuel) id c = elim (random_turns (draws fuel) id c) [
  | throw e ↦ throw e
  | fault ↦ fault
  | ok (id', c1) ↦ elim c1.active [
    | false ↦ ok c1
    | true ↦ elim (receive_round (keys fuel) (masks fuel) c1) [
      | ok (goes_on c') ↦ receive_loop keys masks draws fuel id' c'
      | ok (leaves c') ↦ ok c'
      | throw e ↦ ok (record c1 { socket = (ws_recv_frame false (keys fuel) c1.socket).1 })
      | fault ↦ fault
    ]
  ]
]

-- The whole session on the connected socket: HELLO with the key `first`, the loop with the random
-- thread, and the cleanup with the keys `last` and `key`.
unfoldable pub session :
    (ℕ → ℕ → List ℕ)
    → (ℕ → List ℕ)
    → (ℕ → List Draw)
    → List ℕ
    → List ℕ
    → List ℕ
    → ℕ
    → Socket
    → Result Client
unfolding new_client greet receive_loop cleanup
session keys masks draws first last key fuel s = elim (greet first (new_client s)) [
  | ok c ↦ elim (receive_loop keys masks draws fuel 1 c) [
    | ok c' ↦ cleanup last key c'
    | throw e ↦ throw e
    | fault ↦ fault
  ]
  | throw e ↦ throw e
  | fault ↦ fault
]

pub hello_message-IsEncodable : IsEncodable hello_message
unfolding hello_message kind_of payload
hello_message-IsEncodable = record {
  known = cc;
  carries = IsText-ascii client_lang (omega arith) (omega arith);
  short = omega arith;
}

-- The numbers fit in an i64.
abbrev pub AreNumbers : List Draw → Type 0
AreNumbers draws = All (λ (d : Draw). IsI64 d.1) draws

-- How many turns there are before the rounds that are left.
abbrev pub turns : (ℕ → List Draw) → ℕ → ℕ
turns draws zero = 0
turns draws (suc fuel) = length (draws fuel) + turns draws fuel

-- What a turn leaves: an id that is greater by one at most, and the stream.
Turned : ℕ → Client → Result (ℕ × Client) → ℕ → Type 0
Turned id c r n =
    (id' : ℕ) × (c' : Client) × (r ≡ ok (id', c'))
    × (id' ≤ id + n)
    × (c'.socket.incoming ≡ c.socket.incoming)
