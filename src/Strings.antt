-- ===== src/Strings.antt =====
-- The operations of `std::string` and of ctype.h, in the "C" locale, that the programs call. A
-- position is a count of characters, and `none` is `npos`.
pub mod Find
use hello_websocket.Prelude.{
  ℕ, suc, ◌+◌, List, [], ◌∷◌, Bool, true, false, leb, ltb, ◌==◌, ◌&&◌, ◌||◌, if◌then◌else◌, Option,
  none, some,
}
use hello_websocket.Codec.KvMap.{Text}

-- `s.rfind(t, 0) == 0`, and `s.find(t) == 0`.
unfoldable pub starts_with : Text → Text → Bool
starts_with s [] = true
starts_with [] (c ∷ t) = false
starts_with (b ∷ s) (c ∷ t) = if b == c then starts_with s t else false

unfoldable pub to_lower : ℕ → ℕ
to_lower c = if leb 65 c && leb c 90 then c + 32 else c

-- `for (auto& c : s) c = tolower(c);`
unfoldable pub lower : Text → Text
lower [] = []
lower (c ∷ s) = to_lower c ∷ lower s

-- A position in a text that begins `n` characters further on.
unfoldable pub shift : ℕ → Option ℕ → Option ℕ
shift n none = none
shift n (some p) = some (n + p)

-- `s.find(t)`
unfoldable pub find : Text → Text → Option ℕ
unfolding starts_with shift
find [] t = if starts_with [] t then some 0 else none
find (c ∷ s) t = let later = find s t in if starts_with (c ∷ s) t then some 0 else shift 1 later

-- `std::iscntrl`
unfoldable pub is_control : ℕ → Bool
is_control c = ltb c 32 || c == 127
