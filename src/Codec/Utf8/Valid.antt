-- ===== src/Codec/Utf8/Valid.antt =====
-- `isValidUtf8` accepts exactly the encodings of sequences of code points.
use hello_websocket.Codec.Wire.{IsByte}
use hello_websocket.Prelude.{
  All-append_inv, inr, inl, ℕ, zero, suc, ◌≤◌, ◌≡◌, ◌↔◌, refl, ap, sym, ◌∙◌, List, [], ◌∷◌, ◌++◌,
  arith, All, true, length, length-append, subst,
}
use hello_websocket.Codec.Utf8.Spec.{IsScalar, utf8, utf8_head, utf8_tail}
use hello_websocket.Codec.Utf8.Rounds.{round_sound, round_complete}
use hello_websocket.Codec.Utf8.{utf8_round, utf8_loop, is_valid_utf8}
use hello_websocket.Codec.Utf8.Inside.{Reading-cases, loop_go, loop_stop, loop_outside}
use hello_websocket.Codec.Outcome.{ok}

-- The bytes are the encoding of code points.
abbrev pub IsUtf8 : List ℕ → Type 0
IsUtf8 bytes = (cs : List ℕ) × All IsScalar cs × (bytes ≡ utf8 cs)

loop_sound :
    (fuel : ℕ) (bytes : List ℕ) → All IsByte bytes → utf8_loop fuel bytes ≡ ok true → IsUtf8 bytes
loop_sound fuel [] h e = ([], tt, refl)
loop_sound zero (b ∷ rest) h e = absurd (unfold utf8_loop in cc)
loop_sound (suc fuel) (b ∷ rest) h e = elim (Reading-cases (utf8_round b rest)) [
  | inr (inl stop) ↦ let stops = loop_stop fuel b rest stop in absurd (cc)
  | inr (inr out) ↦ let faults = loop_outside fuel b rest out in absurd (cc)
  | inl (r, go) ↦
      let (c, scalar, front) = round_sound b rest r h.0 h.1 go in
      let hr = (All-append_inv IsByte (utf8_tail c) r (subst (All IsByte) front h).1).1 in
      let (cs, scalars, back) = loop_sound fuel r hr (sym (loop_go fuel b rest r go) ∙ e) in
      (
        c ∷ cs,
        (scalar, scalars),
        front ∙ ap (λ (t : List ℕ). utf8_head c ∷ (utf8_tail c ++ t)) back,
      )
]

loop_complete :
    (cs : List ℕ) (fuel : ℕ)
    → All IsScalar cs
    → length (utf8 cs) ≤ fuel
    → utf8_loop fuel (utf8 cs) ≡ ok true
loop_complete [] fuel s h = unfold utf8_loop in refl
loop_complete (c ∷ cs) zero s h = absurd (omega arith)
loop_complete (c ∷ cs) (suc fuel) s h =
    loop_go fuel (utf8_head c) (utf8_tail c ++ utf8 cs) (utf8 cs) (round_complete c (utf8 cs) s.0)
    ∙ loop_complete cs fuel s.1 (omega (arith, length-append (utf8_tail c) (utf8 cs)))

valid-loop : (bytes : List ℕ) → is_valid_utf8 bytes ≡ utf8_loop (length bytes) bytes
unfolding is_valid_utf8
valid-loop bytes = refl

-- On bytes, `isValidUtf8` returns true exactly when they are the UTF-8 encoding of a sequence of
-- code points, none a surrogate and none above U+10FFFF.
pub is_valid_utf8_iff :
    (bytes : List ℕ) → All IsByte bytes → (is_valid_utf8 bytes ≡ ok true) ↔ IsUtf8 bytes
is_valid_utf8_iff bytes h = (
  λ e. loop_sound (length bytes) bytes h (sym (valid-loop bytes) ∙ e),
  λ u.
      let (cs, scalars, e) = u in
      ap is_valid_utf8 e
      ∙ valid-loop (utf8 cs)
      ∙ loop_complete cs (length (utf8 cs)) scalars (omega arith),
)
