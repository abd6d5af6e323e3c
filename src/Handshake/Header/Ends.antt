-- ===== src/Handshake/Header/Ends.antt =====
-- Where a text of lines that ends with an empty line is complete for `recvHttpHeaders`.
use hello_websocket.Handshake.Header.{extract_header}
use hello_websocket.Transport.Http.{is_complete, blank_line, equal_text}
use hello_websocket.Transport.Http.Headers.{IsComplete-of}
use hello_websocket.Transport.Http.Exact.{EndsAt}
use hello_websocket.Strings.{starts_with, find, shift}
use hello_websocket.Strings.Find.{
  IsLine, find-le, find_past_line, find_at_line, find_here, starts_with-append, other_char,
}
use hello_websocket.Handshake.Header.Line.{header_value, lines_text}
use hello_websocket.Handshake.Header.Lines.{extract_header-lines}
use hello_websocket.Prelude.{
  All-append, Bool-cases, append_assoc, length-append, drop-append, inl, inr, ap, ◌∙◌, ◌+◌, ◌-◌,
  sym, arith, leb, some, ℕ, ◌≡◌, refl, true, false, List, [], ◌∷◌, ◌++◌, length, drop, All,
  if◌then◌else◌,
}

-- A line of headers: not empty, without carriage returns.
abbrev pub IsHeader : List ℕ → Type 0
IsHeader [] = ⊥
IsHeader (c ∷ l) = IsLine (c ∷ l)

-- The first line, the headers, and the empty line.
abbrev pub headers_text : List ℕ → List (List ℕ) → List ℕ
headers_text first ls = first ++ (lines_text ls ++ blank_line)

pub equal_text_refl : (s : List ℕ) → equal_text s s ≡ true
unfolding equal_text
equal_text_refl [] = refl
equal_text_refl (c ∷ s) = ground (arith, equal_text_refl s)

is_complete-append : (head : List ℕ) → is_complete (head ++ blank_line) ≡ true
unfolding is_complete
is_complete-append head =
    let size : length (head ++ blank_line) ≡ length head + 4 = length-append head blank_line in
    let long : leb 4 (length (head ++ blank_line)) ≡ true = ground (arith, size) in
    let here : drop (length (head ++ blank_line) - 4) (head ++ blank_line) ≡ blank_line =
      ap (λ (n : ℕ). drop n (head ++ blank_line)) {y = length head} (omega (arith, size))
      ∙ drop-append head blank_line in
    rw (long, here) (equal_text_refl blank_line)

not_blank : (l s : List ℕ) → IsHeader l → starts_with (l ++ s) (13 ∷ 10 ∷ []) ≡ false
not_blank [] s h = absurd h
not_blank (c ∷ l) s h = other_char c 13 (l ++ s) (10 ∷ []) h.0

pub header-IsLine : (l : List ℕ) → IsHeader l → IsLine l
header-IsLine [] h = tt
header-IsLine (c ∷ l) h = h

otherwise :
    (l s : List ℕ)
    → starts_with (l ++ s) (13 ∷ 10 ∷ []) ≡ false
    → (if starts_with (l ++ s) (13 ∷ 10 ∷ [])
        then some 0
        else shift (2 + length l) (find s blank_line))
      ≡ shift (2 + length l) (find s blank_line)
otherwise l s e = rw (e) refl

find_blank :
    (ls : List (List ℕ))
    → All IsHeader ls
    → find (lines_text ls ++ blank_line) blank_line ≡ some (length (lines_text ls))
unfolding shift
find_blank [] h = find_here blank_line blank_line (unfold starts_with in refl)
find_blank (l ∷ ls) h =
    let s = lines_text ls ++ blank_line in
    ap (λ (t : List ℕ). find (13 ∷ 10 ∷ t) blank_line) (append_assoc l (lines_text ls) blank_line)
    ∙ find_at_line l s (13 ∷ 10 ∷ []) (header-IsLine l h.0)
    ∙ otherwise l s (not_blank l s h.0)
    ∙ ap (shift (2 + length l)) (find_blank ls h.1)
    ∙ ap some (omega (arith, length-append l (lines_text ls)))

find_end :
    (first : List ℕ) (ls : List (List ℕ))
    → IsLine first
    → All IsHeader ls
    → find (headers_text first ls) blank_line ≡ some (length first + length (lines_text ls))
unfolding shift
find_end first ls hf h =
    find_past_line first (lines_text ls ++ blank_line) (10 ∷ 13 ∷ 10 ∷ []) hf
    ∙ ap (shift (length first)) (find_blank ls h)

-- An earlier end would be found.
not_earlier :
    (text : List ℕ) (n : ℕ) (a : List ℕ) (b : ℕ) (c : List ℕ)
    → find text blank_line ≡ some n
    → length text ≡ n + 4
    → text ≡ a ++ b ∷ c
    → is_complete a ≡ false
not_earlier text n a b c found size e = elim (Bool-cases (is_complete a)) [
  | inr incomplete ↦ incomplete
  | inl complete ↦
      let (head, ends) = IsComplete-of a complete in
      let whole : text ≡ head ++ (blank_line ++ b ∷ c) =
        e ∙ ap (λ (l : List ℕ). l ++ b ∷ c) ends ∙ append_assoc head blank_line (b ∷ c) in
      let there : starts_with (drop (length head) text) blank_line ≡ true =
        ap (λ (t : List ℕ). starts_with (drop (length head) t) blank_line) whole
        ∙ ap (λ (t : List ℕ). starts_with t blank_line) (drop-append head (blank_line ++ b ∷ c))
        ∙ starts_with-append blank_line (b ∷ c) in
      let (k, earlier, small) = find-le text blank_line (length head) there in
      let same : n ≡ k = cc in
      absurd (omega (arith, same, size, ap length whole, length-append head (blank_line ++ b ∷ c)))
]

-- A text of headers ends at its first empty line.
pub headers_text-EndsAt :
    (first : List ℕ) (ls : List (List ℕ))
    → IsLine first
    → All IsHeader ls
    → EndsAt (headers_text first ls)
headers_text-EndsAt first ls hf h =
    let split : headers_text first ls ≡ (first ++ lines_text ls) ++ blank_line =
      sym (append_assoc first (lines_text ls) blank_line) in
    record {
      complete = ap is_complete split ∙ is_complete-append (first ++ lines_text ls);
      not_before = λ a b c e.
          not_earlier (headers_text first ls) (length first + length (lines_text ls)) a b c
            (find_end first ls hf h)
            (omega (
              arith,
              length-append first (lines_text ls ++ blank_line),
              length-append (lines_text ls) blank_line,
            ))
            e;
    }

lines_text-end :
    (ls : List (List ℕ)) → lines_text ls ++ blank_line ≡ lines_text (ls ++ [] ∷ [] ∷ [])
lines_text-end [] = refl
lines_text-end (l ∷ ls) =
    ap (λ (t : List ℕ). 13 ∷ 10 ∷ t)
      (append_assoc l (lines_text ls) blank_line ∙ ap (λ (t : List ℕ). l ++ t) (lines_text-end ls))

headers-IsLine : (ls : List (List ℕ)) → All IsHeader ls → All IsLine ls
headers-IsLine [] h = tt
headers-IsLine (l ∷ ls) h = (header-IsLine l h.0, headers-IsLine ls h.1)

-- The value of a header of such a text.
pub extract_header-headers_text :
    (key : List ℕ)
    → IsLine key
    → (first : List ℕ) (ls : List (List ℕ)) → IsLine first
    → All IsHeader ls
    → extract_header (headers_text first ls) key ≡ header_value key (ls ++ [] ∷ [] ∷ [])
extract_header-headers_text key hk first ls hf h =
    ap (λ (t : List ℕ). extract_header (first ++ t) key) (lines_text-end ls)
    ∙ extract_header-lines key hk first (ls ++ [] ∷ [] ∷ []) hf
        (All-append IsLine ls ([] ∷ [] ∷ []) (headers-IsLine ls h) (tt, (tt, tt)))
