-- ===== src/Prelude/Int.antt =====
-- Signed integers, and the two's complement patterns of a given width.
use Prim.Native.Nat.{ℕ, ◌-◌, ◌/◌, ◌%◌, ◌^◌, ◌<◌}
use mathlib.Core.Path.{◌≡◌}
use native.Mathlib.Omega.{arith}
use package.hello_websocket.Prelude.Tests.{ltb, if◌then◌else◌}

-- `negsuc n` is -(n + 1).
pub data ℤ : Type 0 where
  pos : ℕ → ℤ
  negsuc : ℕ → ℤ

-- Conversion to an unsigned type of `m` values, and back to the signed type of that size.
abbrev pub to_unsigned : ℕ → ℤ → ℕ
to_unsigned m (pos n) = n % m
to_unsigned m (negsuc n) = m - 1 - n % m

abbrev pub to_signed : ℕ → ℕ → ℤ
to_signed m w = if ltb w (m / 2) then pos w else negsuc (m - 1 - w)

-- The values of the signed type with `m` values.
abbrev pub FitsIn : ℕ → ℤ → Type 0
FitsIn m (pos n) = n < m / 2
FitsIn m (negsuc n) = n < m / 2

-- `v >> k` on a signed value rounds down.
abbrev pub shift_right : ℤ → ℕ → ℤ
shift_right (pos n) k = pos (n / 2 ^ k)
shift_right (negsuc n) k = negsuc (n / 2 ^ k)

pub to_signed-FitsIn32 : (w : ℕ) → w < 2 ^ 32 → FitsIn (2 ^ 32) (to_signed (2 ^ 32) w)
to_signed-FitsIn32 w h = ground arith

pub to_signed-FitsIn64 : (w : ℕ) → w < 2 ^ 64 → FitsIn (2 ^ 64) (to_signed (2 ^ 64) w)
to_signed-FitsIn64 w h = ground arith

pub to_signed-to_unsigned32 :
    (v : ℤ) → FitsIn (2 ^ 32) v → to_signed (2 ^ 32) (to_unsigned (2 ^ 32) v) ≡ v
to_signed-to_unsigned32 (pos n) h = ground arith
to_signed-to_unsigned32 (negsuc n) h = ground arith

pub to_signed-to_unsigned64 :
    (v : ℤ) → FitsIn (2 ^ 64) v → to_signed (2 ^ 64) (to_unsigned (2 ^ 64) v) ≡ v
to_signed-to_unsigned64 (pos n) h = ground arith
to_signed-to_unsigned64 (negsuc n) h = ground arith

pub to_unsigned-to_signed32 : (w : ℕ) → w < 2 ^ 32 → to_unsigned (2 ^ 32) (to_signed (2 ^ 32) w) ≡ w
to_unsigned-to_signed32 w h = ground arith

pub to_unsigned-to_signed64 : (w : ℕ) → w < 2 ^ 64 → to_unsigned (2 ^ 64) (to_signed (2 ^ 64) w) ≡ w
to_unsigned-to_signed64 w h = ground arith

pub to_unsigned-lt32 : (v : ℤ) → to_unsigned (2 ^ 32) v < 2 ^ 32
to_unsigned-lt32 (pos n) = omega arith
to_unsigned-lt32 (negsuc n) = omega arith

pub to_unsigned-lt64 : (v : ℤ) → to_unsigned (2 ^ 64) v < 2 ^ 64
to_unsigned-lt64 (pos n) = omega arith
to_unsigned-lt64 (negsuc n) = omega arith
