-- ===== src/Programs/Port.antt =====
-- The port that both programs read from the environment.
use hello_websocket.Prelude.{
  ℕ, zero, suc, ◌+◌, ◌-◌, ◌*◌, ◌/◌, ◌%◌, ◌^◌, ◌<◌, ◌≡◌, refl, ap, ◌∙◌, List, [], ◌∷◌, Bool,
  Bool-cases, true, inl, inr, leb, ltb, lt→ltb, ltb→lt, ◌==◌, ◌&&◌, ◌||◌, if◌then◌else◌, Option,
  none, some, ℤ, pos, negsuc, arith, All,
}
use native.Mathlib.Nat.{pow-suc}
use hello_websocket.Codec.KvMap.{Text}
use hello_websocket.Codec.Constants.{port}
use hello_websocket.Hash.{decimal, to_string}
use hello_websocket.Transport.Base64.Visible.{IsDigit, to_string-IsDigit}

unfoldable pub is_space : ℕ → Bool
is_space c = c == 32 || (leb 9 c && leb c 13)

unfoldable pub skip_spaces : Text → Text
unfolding is_space
skip_spaces [] = []
skip_spaces (c ∷ s) = let rest = skip_spaces s in if is_space c then rest else c ∷ s

-- The value of the decimal digits in front, behind those that make `acc`.
unfoldable pub read_digits : ℕ → Text → ℕ
read_digits acc [] = acc
read_digits acc (c ∷ s) =
    let more = read_digits (acc * 10 + (c - 48)) s in if leb 48 c && leb c 57 then more else acc

unfoldable pub negative : ℕ → ℤ
negative zero = pos 0
negative (suc n) = negsuc n

-- `atoi`, for a value that fits in an int.
unfoldable pub atoi : Text → ℤ
unfolding skip_spaces read_digits negative
atoi s = elim (skip_spaces s) [
  | [] ↦ pos 0
  | c ∷ t ↦
      if c == 45
      then negative (read_digits 0 t)
      else if c == 43
      then pos (read_digits 0 t)
      else pos (read_digits 0 (c ∷ t))
]

-- `WS_PORT`, if it is set and positive, cast to a `uint16_t`.
unfoldable pub port_of : Option Text → ℕ
unfolding atoi
port_of none = port
port_of (some s) = elim (atoi s) [
  | pos zero ↦ port
  | pos (suc v) ↦ suc v % 2 ^ 16
  | negsuc v ↦ port
]

read_one :
    (acc c : ℕ) (s : List ℕ)
    → IsDigit c
    → read_digits acc (c ∷ s) ≡ read_digits (acc * 10 + (c - 48)) s
unfolding read_digits
read_one acc c s h = ground (arith, h.0, h.1)

last_digit :
    (n : ℕ) (after : List ℕ) → n < 10 → read_digits 0 ((48 + n % 10) ∷ after) ≡ read_digits n after
last_digit n after h =
    read_one 0 (48 + n % 10) after (omega arith, omega arith)
    ∙ ap (λ (v : ℕ). read_digits v after) (omega arith)

-- Reading the digits of a number, on from nothing, is reading on from the number.
read_digits-decimal :
    (fuel n : ℕ) (after : List ℕ)
    → n < 10 ^ suc fuel
    → read_digits 0 (decimal (suc fuel) n after) ≡ read_digits n after
unfolding decimal
read_digits-decimal zero n after h =
    let small : ltb n 10 ≡ true = lt→ltb n 10 (omega arith) in
    rw (small, decimal) (last_digit n after (omega arith))
read_digits-decimal (suc fuel) n after h = elim (Bool-cases (ltb n 10)) [
  | inl small ↦ rw (small, decimal) (last_digit n after (ltb→lt n 10 small))
  | inr large ↦
      rw (large, decimal)
        (read_digits-decimal fuel (n / 10) ((48 + n % 10) ∷ after)
            (omega (arith, h, pow-suc 10 (suc fuel)))
          ∙ read_one (n / 10) (48 + n % 10) after (omega arith, omega arith)
          ∙ ap (λ (v : ℕ). read_digits v after) (omega arith))
]

atoi_digits : (s : List ℕ) (n : ℕ) → All IsDigit s → read_digits 0 s ≡ n → 0 < n → atoi s ≡ pos n
unfolding atoi is_space skip_spaces
atoi_digits [] n h e p =
    let nothing : 0 ≡ n = unfold read_digits in e in absurd (omega (arith, nothing))
atoi_digits (c ∷ s) n h e p = ground (arith, h.0.0, h.0.1, e)

port_of_positive : (s : List ℕ) (v : ℕ) → atoi s ≡ pos (suc v) → port_of (some s) ≡ suc v % 2 ^ 16
unfolding port_of
port_of_positive s v e = rw (e, port_of) refl

-- For a number above zero that fits in an int, its decimal digits in `WS_PORT` are read as the
-- number modulo 2^16: the number itself, if it is a port.
pub port_of-to_string :
    (n : ℕ) → 0 < n → n < 2 ^ 31 → port_of (some (to_string (pos n))) ≡ n % 2 ^ 16
unfolding to_string
port_of-to_string zero p h = absurd (omega arith)
port_of-to_string (suc v) p h = port_of_positive (decimal 20 (suc v) []) v (
    atoi_digits (decimal 20 (suc v) []) (suc v) (to_string-IsDigit (suc v))
      (read_digits-decimal 19 (suc v) [] (omega arith) ∙ unfold read_digits in refl) (omega arith))
