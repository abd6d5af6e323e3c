-- ===== src/Codec/Utf8.antt =====
-- `isValidUtf8`. A list stands for the bytes from index `i` on, so `len - i` is its length.
pub mod Spec
pub mod Masks
pub mod Rounds
pub mod Inside
pub mod Valid
use hello_websocket.Prelude.{ℕ, zero, suc, ◌*◌, ◌%◌, ◌^◌, bit_and, bit_or, List, [], ◌∷◌, length}
use hello_websocket.Prelude.{Bool, true, false, ◌&&◌, ◌||◌}
use hello_websocket.Codec.Outcome.{Result, ok, fault}
use hello_websocket.Prelude.{ltb, leb, ◌==◌, if◌then◌else◌}

-- The leading byte: the bytes that follow it, its own bits, and the least code point allowed.
pub data Lead : Type 0 where
  ascii : Lead
  multi : (extra codepoint min_codepoint : ℕ) → Lead
  invalid : Lead

unfoldable pub lead : ℕ → Lead
lead b0 =
    if leb b0 0x7f
    then ascii
    else if bit_and b0 0xe0 == 0xc0
    then multi 1 (bit_and b0 0x1f) 0x80
    else if bit_and b0 0xf0 == 0xe0
    then multi 2 (bit_and b0 0x0f) 0x800
    else if bit_and b0 0xf8 == 0xf0
    then multi 3 (bit_and b0 0x07) 0x10000
    else invalid

-- How a part of the code ends: it goes on, it is left by `return false`, or it reads outside `data`.
pub data Reading (A : Type 0) : Type 0 where
  goes : A → Reading A
  refuses : Reading A
  outside : Reading A

-- The `for` loop, with `k` bytes left to read; the code point and what follows them.
unfoldable pub continuation : ℕ → ℕ → List ℕ → Reading (ℕ × List ℕ)
continuation zero codepoint rest = goes (codepoint, rest)
continuation (suc k) codepoint [] = outside
continuation (suc k) codepoint (bk ∷ rest) =
    let more = continuation k (bit_or (codepoint * 2 ^ 6 % 2 ^ 32) (bit_and bk 0x3f)) rest in
    if bit_and bk 0xc0 == 0x80 then more else refuses

unfoldable pub is_out_of_range : ℕ → ℕ → Bool
is_out_of_range codepoint min_codepoint =
    ltb codepoint min_codepoint
    || ltb 0x10ffff codepoint
    || (leb 0xd800 codepoint && leb codepoint 0xdfff)

unfoldable pub accept : ℕ → Reading (ℕ × List ℕ) → Reading (List ℕ)
accept min_codepoint refuses = refuses
accept min_codepoint outside = outside
accept min_codepoint (goes (codepoint, rest)) =
    if is_out_of_range codepoint min_codepoint then refuses else goes rest

unfoldable pub sequence : Lead → List ℕ → Reading (List ℕ)
sequence ascii rest = goes rest
sequence invalid rest = refuses
sequence (multi extra codepoint min_codepoint) rest =
    if ltb (length rest) extra
    then refuses
    else accept min_codepoint (continuation extra codepoint rest)

-- One round of the `while` loop on the byte `b0` and those behind it: what is left.
unfoldable pub utf8_round : ℕ → List ℕ → Reading (List ℕ)
utf8_round b0 rest = sequence (lead b0) rest

-- `fault` is a read outside `data`, or fuel used up.
unfoldable pub utf8_loop : ℕ → List ℕ → Result Bool
utf8_loop fuel [] = ok true
utf8_loop zero (b0 ∷ rest) = fault
utf8_loop (suc fuel) (b0 ∷ rest) = elim (utf8_round b0 rest) [
  | refuses ↦ ok false
  | outside ↦ fault
  | goes rest' ↦ utf8_loop fuel rest'
]

-- A round takes a byte at least, so `len` rounds are enough.
unfoldable pub is_valid_utf8 : List ℕ → Result Bool
unfolding utf8_loop utf8_round sequence lead continuation accept is_out_of_range
is_valid_utf8 bytes = utf8_loop (length bytes) bytes
