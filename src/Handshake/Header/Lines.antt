-- ===== src/Handshake/Header/Lines.antt =====
-- `extractHeader` on a text made of lines returns the value of the first line with that name.
use hello_websocket.Prelude.{
  length-append, Option-cases, Bool, Bool-cases, All-append, drop-append, subst, inl, inr, ℕ, suc,
  ◌+◌, ◌≤◌, ◌≡◌, ◌≢◌, refl, ap, ap₂, sym, ◌∙◌, List, [], ◌∷◌, ◌++◌, length, drop, All, true, false,
  Option, none, some, arith, if◌then◌else◌, codes,
}
use hello_websocket.Strings.{starts_with, lower, to_lower, shift, find}
use hello_websocket.Strings.Find.{
  starts_with-split, starts_with_line, find_at_line, lower-IsLine, find_past_line, length-lower,
  lower-append, IsLine,
}
use hello_websocket.Handshake.Header.{value_from, extract_header}
use hello_websocket.Handshake.Header.Line.{
  drop-IsLine, lines_text, trim, header_value, lines_text-IsEnd, lower_end, drop-plus,
  drop-drop_append, value_from_line,
}

-- What `find` finds among the lines: none of them has the key's name, or the first that has.
record Located (text key : List ℕ) (ls : List (List ℕ)) (p : ℕ) : Type 0 where
  line : List ℕ
  rest : List (List ℕ)
  is_line : IsLine line
  there : drop p text ≡ 13 ∷ 10 ∷ (line ++ lines_text rest)
  named : starts_with (lower line) (lower (key ++ codes ":")) ≡ true
  value : header_value key ls ≡ trim (drop (suc (length key)) line)

Locates : List ℕ → List ℕ → List (List ℕ) → Option ℕ → Type 0
Locates text key ls none = header_value key ls ≡ []
Locates text key ls (some p) = Located text key ls p

header_key : List ℕ → List ℕ
header_key key = 13 ∷ 10 ∷ lower (key ++ codes ":")

module _ (key : List ℕ) (hk : IsLine key) where
  key-IsLine : IsLine (lower (key ++ codes ":"))
  key-IsLine =
      lower-IsLine (key ++ codes ":")
        (All-append (λ (c : ℕ). c ≢ 13) key (codes ":") hk ((λ e. omega (arith, e)), tt))

  find_next :
      (l : List ℕ) (ls : List (List ℕ))
      → IsLine l
      → find (lower (lines_text (l ∷ ls))) (header_key key) ≡ (
          if starts_with (lower l) (lower (key ++ codes ":"))
          then some 0
          else shift (2 + length l) (find (lower (lines_text ls)) (header_key key)))
  unfolding header_key lower to_lower
  find_next l ls h =
      let k = lower (key ++ codes ":") in
      let r = lines_text ls in
      ap (λ (t : List ℕ). find (13 ∷ 10 ∷ t) (13 ∷ 10 ∷ k)) (lower-append l r)
      ∙ find_at_line (lower l) (lower r) k (lower-IsLine l h)
      ∙ ap₂
          (λ (b : Bool) (n : ℕ). if b then some 0 else shift (2 + n) (find (lower r) (13 ∷ 10 ∷ k)))
          (starts_with_line (lower l) (lower r) k key-IsLine (lower_end r (lines_text-IsEnd ls)))
          (length-lower l)

  Locates-shift :
      (l : List ℕ) (ls : List (List ℕ)) (o : Option ℕ)
      → starts_with (lower l) (lower (key ++ codes ":")) ≡ false
      → Locates (lines_text ls) key ls o
      → Locates (lines_text (l ∷ ls)) key (l ∷ ls) (shift (2 + length l) o)
  unfolding Locates shift
  Locates-shift l ls none e h = rw (e) h
  Locates-shift l ls (some p) e h = record {
    line = h.line;
    rest = h.rest;
    is_line = h.is_line;
    there =
        drop-plus (2 + length l) p (lines_text (l ∷ ls))
        ∙ ap (drop p) (
            ap (λ (n : ℕ). drop n (lines_text (l ∷ ls))) {y = suc (suc (length l))} (omega arith)
            ∙ drop-append l (lines_text ls))
        ∙ h.there;
    named = h.named;
    value = rw (e) h.value;
  }

  find-Locates :
      (ls : List (List ℕ))
      → All IsLine ls
      → Locates (lines_text ls) key ls (find (lower (lines_text ls)) (header_key key))
  unfolding header_key Locates lower
  find-Locates [] h = unfold find in refl
  find-Locates (l ∷ ls) h =
      subst (Locates (lines_text (l ∷ ls)) key (l ∷ ls)) (sym (find_next l ls h.0))
        (elim (Bool-cases (starts_with (lower l) (lower (key ++ codes ":")))) [
          | inl named ↦ rw (named) (record {
            line = l;
            rest = ls;
            is_line = h.0;
            there = refl;
            named = named;
            value = rw (named) refl;
          })
          | inr other ↦ rw (other) (Locates-shift l ls _ other (find-Locates ls h.1))
        ])

  -- The value behind the name that was found.
  value-Located :
      (first : List ℕ) (ls : List (List ℕ)) (p : ℕ)
      → Located (lines_text ls) key ls p
      → value_from (first ++ lines_text ls) (length first + p + length (header_key key))
        ≡ header_value key ls
  unfolding header_key
  value-Located first ls p h =
      let n = suc (suc (suc (length key))) in
      let size : length (header_key key) ≡ n =
        omega (arith, length-lower (key ++ codes ":"), length-append key (codes ":")) in
      let long : suc (length key) ≤ length h.line = omega (
        arith,
        ap length (starts_with-split (lower h.line) (lower (key ++ codes ":")) h.named),
        length-append (lower (key ++ codes ":"))
            (drop (length (lower (key ++ codes ":"))) (lower h.line)),
        length-lower h.line,
        length-lower (key ++ codes ":"),
        length-append key (codes ":"),
      ) in
      let text = first ++ lines_text ls in
      value_from_line text (length first + p + length (header_key key))
        (drop (suc (length key)) h.line) (lines_text h.rest)
        (ap (λ (m : ℕ). drop m text) {y = length first + (p + n)} (omega (arith, size))
          ∙ drop-plus (length first) (p + n) text
          ∙ ap (drop (p + n)) (drop-append first (lines_text ls))
          ∙ drop-plus p n (lines_text ls)
          ∙ ap (drop n) h.there
          ∙ drop-drop_append (suc (length key)) h.line (lines_text h.rest) long)
        (drop-IsLine (suc (length key)) h.line h.is_line) (lines_text-IsEnd h.rest)
      ∙ sym h.value

  extract_none :
      (text : List ℕ) → find (lower text) (header_key key) ≡ none → extract_header text key ≡ []
  unfolding extract_header header_key lower to_lower
  extract_none text e = rw (e, extract_header) refl

  extract_some :
      (text : List ℕ) (p : ℕ)
      → find (lower text) (header_key key) ≡ some p
      → extract_header text key ≡ value_from text (p + length (header_key key))
  unfolding extract_header header_key lower to_lower
  extract_some text p e = rw (e, extract_header) refl

  -- On a first line, further lines and a key, none with a carriage return, `extractHeader` returns the
  -- value of the first of the further lines that begins with the key, in any case, and a colon,
  -- without the spaces and tabs in front of it; and the empty text if there is no such line.
  pub extract_header-lines :
      (first : List ℕ) (ls : List (List ℕ))
      → IsLine first
      → All IsLine ls
      → extract_header (first ++ lines_text ls) key ≡ header_value key ls
  unfolding header_key shift Locates
  extract_header-lines first ls hf h =
      let r = lines_text ls in
      let found : find (lower (first ++ r)) (header_key key)
          ≡ shift (length first) (find (lower r) (header_key key)) =
        ap (λ (t : List ℕ). find t (header_key key)) (lower-append first r)
        ∙ find_past_line (lower first) (lower r) (10 ∷ lower (key ++ codes ":"))
            (lower-IsLine first hf)
        ∙ ap (λ (n : ℕ). shift n (find (lower r) (header_key key))) (length-lower first) in
      let located = find-Locates ls h in
      elim (Option-cases (find (lower r) (header_key key))) [
        | inl e ↦
            extract_none (first ++ r) (found ∙ ap (shift (length first)) e)
            ∙ sym (subst (Locates r key ls) e located)
        | inr (p, e) ↦
            extract_some (first ++ r) (length first + p) (found ∙ ap (shift (length first)) e)
            ∙ value-Located first ls p (subst (Locates r key ls) e located)
      ]
