-- ===== src/Transport/Http.antt =====
-- `recvHttpHeaders` of hello-websocket-cpp/common/ws.hpp.
pub mod Headers
pub mod Exact
use hello_websocket.Prelude.{
  ℕ, zero, suc, ◌-◌, List, [], ◌∷◌, ◌++◌, length, drop, leb, ltb, ◌==◌, ◌&&◌, Bool, true, false,
  Option, none, some,
}
use hello_websocket.Codec.KvMap.{Text}
use hello_websocket.Transport.Socket.{Socket, recv}

-- `s == t` on strings.
unfoldable pub equal_text : Text → Text → Bool
equal_text [] [] = true
equal_text [] (c ∷ t) = false
equal_text (b ∷ s) [] = false
equal_text (b ∷ s) (c ∷ t) = b == c && equal_text s t

abbrev pub blank_line : Text
blank_line = 13 ∷ 10 ∷ 13 ∷ 10 ∷ []

-- `buf` ends with `"\r\n\r\n"`.
unfoldable pub is_complete : Text → Bool
unfolding equal_text
is_complete buf = leb 4 (length buf) && equal_text (drop (length buf - 4) buf) blank_line

-- The loop, on fuel; `none` is fuel used up, and an empty text an error.
unfoldable pub headers_loop : ℕ → Text → Socket → Option Text × Socket
headers_loop zero buf s = (none, s)
headers_loop (suc fuel) buf s =
    let (bytes, s') = recv 1 s in
    elim bytes [
      | [] ↦ (some [], s')
      | b ∷ bs ↦
          let buf' = buf ++ b ∷ bs in
          elim (is_complete buf') [
            | true ↦ (some buf', s')
            | false ↦ elim (ltb 8192 (length buf')) [
              | true ↦ (some [], s')
              | false ↦ headers_loop fuel buf' s'
            ]
          ]
    ]

-- A round that goes on adds a byte to at most 8192.
unfoldable pub recv_http_headers : Socket → Option Text × Socket
unfolding headers_loop is_complete
recv_http_headers s = headers_loop 8194 [] s
