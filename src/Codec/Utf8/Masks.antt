-- ===== src/Codec/Utf8/Masks.antt =====
-- The masks of `isValidUtf8` on a byte, as arithmetic: tables of 256 entries.
use hello_websocket.Prelude.{ℕ, ◌*◌, ◌/◌, ◌%◌, ◌<◌, ◌≡◌, refl, bit_and}
use hello_websocket.Prelude.Bits.{agree, agree→eq}

pub top3 : (b : ℕ) → b < 256 → bit_and b 0xe0 ≡ b / 32 * 32
unfolding agree
top3 = agree→eq _ _ 256 refl

pub top4 : (b : ℕ) → b < 256 → bit_and b 0xf0 ≡ b / 16 * 16
unfolding agree
top4 = agree→eq _ _ 256 refl

pub top5 : (b : ℕ) → b < 256 → bit_and b 0xf8 ≡ b / 8 * 8
unfolding agree
top5 = agree→eq _ _ 256 refl

pub top2 : (b : ℕ) → b < 256 → bit_and b 0xc0 ≡ b / 64 * 64
unfolding agree
top2 = agree→eq _ _ 256 refl

pub low5 : (b : ℕ) → b < 256 → bit_and b 0x1f ≡ b % 32
unfolding agree
low5 = agree→eq _ _ 256 refl

pub low4 : (b : ℕ) → b < 256 → bit_and b 0x0f ≡ b % 16
unfolding agree
low4 = agree→eq _ _ 256 refl

pub low3 : (b : ℕ) → b < 256 → bit_and b 0x07 ≡ b % 8
unfolding agree
low3 = agree→eq _ _ 256 refl

pub low6 : (b : ℕ) → b < 256 → bit_and b 0x3f ≡ b % 64
unfolding agree
low6 = agree→eq _ _ 256 refl
