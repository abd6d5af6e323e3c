-- ===== src/Handshake/Header/Values.antt =====
-- Texts that stand in a header as they are.
use hello_websocket.Prelude.{
  ℕ, List, [], ◌∷◌, ◌++◌, All-append, ◌≡◌, ◌≢◌, refl, ◌==◌, Bool, true, false, arith, if◌then◌else◌,
}
use hello_websocket.Strings.Find.{IsLine}
use hello_websocket.Transport.Base64.Visible.{IsVisible}
use hello_websocket.Handshake.Header.{blanks}
use hello_websocket.Handshake.Header.Line.{trim}

pub visible-IsLine : (s : List ℕ) → IsVisible s → IsLine s
visible-IsLine [] h = tt
visible-IsLine (c ∷ s) h = (omega (arith, h.0), visible-IsLine s h.1)

pub trim_visible : (s : List ℕ) → IsVisible s → trim s ≡ s
unfolding blanks
trim_visible [] h = refl
trim_visible (c ∷ s) h = ground (arith, h.0)

-- Whether a text has no carriage return.
abbrev pub is_line : List ℕ → Bool
is_line [] = true
is_line (c ∷ s) = let rest = is_line s in if c == 13 then false else rest

pub IsLine-of : (s : List ℕ) → is_line s ≡ true → IsLine s
IsLine-of [] e = tt
IsLine-of (c ∷ s) e = (ground arith, IsLine-of s (ground arith))

pub IsLine-append : (s t : List ℕ) → IsLine s → IsLine t → IsLine (s ++ t)
IsLine-append s t = All-append (λ (c : ℕ). c ≢ 13) s t
