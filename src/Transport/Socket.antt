-- ===== src/Transport/Socket.antt =====
-- `recvAll`, `sendAll` and `recvHttpHeaders` over the system's sockets.
pub mod Stream
pub mod Send
use hello_websocket.Prelude.{
  ℕ, zero, suc, ◌+◌, ◌-◌, ◌%◌, ◌^◌, List, [], ◌∷◌, ◌++◌, length, take, drop, ltb, ◌==◌,
  if◌then◌else◌, Option, none, some, Bool, true, false, codes,
}
use Prim.Native.Nat.{min}

-- The system's side of a connection. `incoming` holds what the calls of `::recv` can get: the
-- pieces in which the bytes arrive; an empty one, or the end of the list, is a connection that is
-- closed or broken, on which each call answers 0 or less from then on. `rooms` says how many bytes each call of `::send` can take, 0 or the end
-- of the list standing for an answer that is not positive; `outgoing` is what it has taken.
pub record Socket : Type 0 where
  pub incoming : List (List ℕ)
  pub rooms : List ℕ
  pub outgoing : List ℕ

-- What is left of a piece goes on waiting.
pub put_back : List ℕ → List (List ℕ) → List (List ℕ)
put_back [] pieces = pieces
put_back (b ∷ bs) pieces = (b ∷ bs) ∷ pieces

pub recv_from : ℕ → List (List ℕ) → List ℕ × List (List ℕ)
unfolding put_back
recv_from len [] = ([], [])
recv_from len ([] ∷ pieces) = ([], [] ∷ pieces)
recv_from len ((b ∷ bs) ∷ pieces) = (take len (b ∷ bs), put_back (drop len (b ∷ bs)) pieces)

-- `::recv(sock, p, len, 0)`: the bytes that it delivered, none if its answer is not positive.
unfoldable pub recv : ℕ → Socket → List ℕ × Socket
unfolding recv_from
recv len s =
    let (bytes, pieces) = recv_from len s.incoming in (bytes, record s { incoming = pieces })

-- How many bytes a call of `::recv` or `::send` for `static_cast<int>(len)` asks for. A negative `int`
-- becomes a size above what Linux moves at once, which is 0x7ffff000 bytes.
unfoldable pub int_size : ℕ → ℕ
int_size len = let n = len % 2 ^ 32 in if ltb n (2 ^ 31) then n else 0x7ffff000

-- The loop of `recvAll` with `left` bytes to go, on fuel; `none` is `return false`.
unfoldable pub recv_loop : ℕ → ℕ → List ℕ → Socket → Option (List ℕ) × Socket
recv_loop fuel zero got s = (some got, s)
recv_loop zero (suc left) got s = (none, s)
recv_loop (suc fuel) (suc left) got s =
    let (bytes, s') = recv (int_size (suc left)) s in
    elim bytes [
      | [] ↦ (none, s')
      | b ∷ bs ↦ recv_loop fuel (suc left - length (b ∷ bs)) (got ++ b ∷ bs) s'
    ]

-- A round delivers a byte at least, so `len` rounds are enough.
unfoldable pub recv_all : ℕ → Socket → Option (List ℕ) × Socket
unfolding recv_loop recv int_size
recv_all len s = recv_loop len len [] s

pub room_for : ℕ → List ℕ → ℕ × List ℕ
room_for len [] = (0, [])
room_for len (room ∷ rooms) = (min room len, rooms)

-- `::send(sock, p, len, 0)` with `bytes` from `p` on: the count that it took.
unfoldable pub send : ℕ → List ℕ → Socket → ℕ × Socket
unfolding room_for
send len bytes s =
    let (n, rooms) = room_for len s.rooms in
    (n, record s { rooms = rooms; outgoing = s.outgoing ++ take n bytes })

-- The loop of `sendAll` with `bytes` to go, on fuel.
unfoldable pub send_loop : ℕ → List ℕ → Socket → Bool × Socket
send_loop fuel [] s = (true, s)
send_loop zero (b ∷ bytes) s = (false, s)
send_loop (suc fuel) (b ∷ bytes) s =
    let (n, s') = send (int_size (length (b ∷ bytes))) (b ∷ bytes) s in
    elim n [ zero ↦ (false, s') | suc k ↦ send_loop fuel (drop (suc k) (b ∷ bytes)) s' ]

-- A round takes a byte at least, so `len` rounds are enough.
unfoldable pub send_all : List ℕ → Socket → Bool × Socket
unfolding send_loop send int_size
send_all bytes s = send_loop (length bytes) bytes s
