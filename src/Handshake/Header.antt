-- ===== src/Handshake/Header.antt =====
-- `extractHeader` of hello-websocket-cpp/common/ws.hpp.
pub mod Line
pub mod Lines
pub mod Ends
pub mod Values
use hello_websocket.Prelude.{
  ℕ, suc, ◌+◌, ◌-◌, List, [], ◌∷◌, ◌++◌, length, take, drop, ◌==◌, ◌||◌, if◌then◌else◌, none, some,
  codes,
}
use hello_websocket.Codec.KvMap.{Text}
use hello_websocket.Strings.{lower, find}

-- How many spaces and tabs the loop passes over.
unfoldable pub blanks : Text → ℕ
blanks [] = 0
blanks (c ∷ s) = if c == 32 || c == 9 then suc (blanks s) else 0

-- The text from `pos` to the end of its line.
unfoldable pub line_from : Text → ℕ → Text
line_from http_text pos =
    let lower_text = lower http_text in
    elim (find (drop pos lower_text) (codes "\r\n")) [
      | none ↦ take (length lower_text - pos) (drop pos http_text)
      | some n ↦ take n (drop pos http_text)
    ]

-- From `pos`, behind the colon, on.
unfoldable pub value_from : Text → ℕ → Text
unfolding blanks line_from
value_from http_text pos = line_from http_text (pos + blanks (drop pos (lower http_text)))

unfoldable pub extract_header : Text → Text → Text
unfolding value_from
extract_header http_text key =
    let lower_key = lower (codes "\r\n" ++ key ++ codes ":") in
    elim (find (lower http_text) lower_key) [
      | none ↦ []
      | some found ↦ value_from http_text (found + length lower_key)
    ]
