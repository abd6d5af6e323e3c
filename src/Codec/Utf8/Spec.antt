-- ===== src/Codec/Utf8/Spec.antt =====
-- UTF-8 as RFC 3629 defines it: the encoding of a code point in one to four bytes.
use hello_websocket.Prelude.{
  ℕ, ◌+◌, ◌/◌, ◌%◌, ◌≤◌, ◌<◌, ◌⊎◌, List, [], ◌∷◌, ◌++◌, ltb, if◌then◌else◌,
}

-- A code point that is no surrogate.
abbrev pub IsScalar : ℕ → Type 0
IsScalar c = (c ≤ 0x10ffff) × ((c < 0xd800) ⊎ (0xdfff < c))

abbrev pub utf8_head : ℕ → ℕ
utf8_head c =
    if ltb c 0x80
    then c
    else if ltb c 0x800
    then 0xc0 + c / 64
    else if ltb c 0x10000
    then 0xe0 + c / 4096
    else 0xf0 + c / 262144

abbrev pub utf8_tail : ℕ → List ℕ
utf8_tail c =
    if ltb c 0x80
    then []
    else if ltb c 0x800
    then (0x80 + c % 64) ∷ []
    else if ltb c 0x10000
    then (0x80 + c / 64 % 64) ∷ (0x80 + c % 64) ∷ []
    else (0x80 + c / 4096 % 64) ∷ (0x80 + c / 64 % 64) ∷ (0x80 + c % 64) ∷ []

-- The encoding of a sequence of code points.
abbrev pub utf8 : List ℕ → List ℕ
utf8 [] = []
utf8 (c ∷ cs) = utf8_head c ∷ (utf8_tail c ++ utf8 cs)
