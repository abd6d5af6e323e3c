-- ===== src/Handshake/Header/Line.antt =====
-- The value of one line of headers.
use hello_websocket.Prelude.{
  take-append, append-nil, take-length, ◌⊎◌, inl, inr, ℕ, zero, suc, ◌+◌, ◌-◌, ◌≤◌, ◌≡◌, refl, ap,
  ap₂, sym, ◌∙◌, List, [], ◌∷◌, ◌++◌, length, drop, take, none, some, arith, if◌then◌else◌, codes,
}
use hello_websocket.Strings.{starts_with, lower, to_lower, shift, find}
use hello_websocket.Strings.Find.{
  find_here, lower-IsLine, find_past_line, length-lower, lower-append, drop-lower, IsLine,
}
use hello_websocket.Handshake.Header.{line_from, blanks, value_from}

-- Lines, each behind the end of the line before it.
abbrev pub lines_text : List (List ℕ) → List ℕ
lines_text [] = []
lines_text (l ∷ ls) = 13 ∷ 10 ∷ (l ++ lines_text ls)

abbrev pub trim : List ℕ → List ℕ
trim l = drop (blanks l) l

-- The value in the first line whose name, in lower case, is that of the key.
abbrev pub header_value : List ℕ → List (List ℕ) → List ℕ
header_value key [] = []
header_value key (l ∷ ls) =
    if starts_with (lower l) (lower (key ++ codes ":"))
    then trim (drop (suc (length key)) l)
    else header_value key ls

-- What can stand behind a line.
abbrev pub IsEnd : List ℕ → Type 0
IsEnd s = (s ≡ []) ⊎ ((s' : List ℕ) × (s ≡ 13 ∷ 10 ∷ s'))

pub lines_text-IsEnd : (ls : List (List ℕ)) → IsEnd (lines_text ls)
lines_text-IsEnd [] = inl refl
lines_text-IsEnd (l ∷ ls) = inr (l ++ lines_text ls, refl)

pub lower_end : (s : List ℕ) → IsEnd s → (lower s ≡ []) ⊎ ((s' : List ℕ) × (lower s ≡ 13 ∷ s'))
unfolding lower to_lower
lower_end s (inl e) = inl (ap lower e)
lower_end s (inr (s', e)) = inr (10 ∷ lower s', ap lower e)

drop-nil : (n : ℕ) → ◌≡◌ {A = List ℕ} (drop n []) []
drop-nil zero = refl
drop-nil (suc n) = refl

pub drop-plus : (n m : ℕ) (s : List ℕ) → drop (n + m) s ≡ drop m (drop n s)
drop-plus zero m s = ap (λ (k : ℕ). drop k s) (omega arith)
drop-plus (suc n) m [] = drop-nil (suc n + m) ∙ sym (drop-nil m)
drop-plus (suc n) m (c ∷ s) =
    ap (λ (k : ℕ). drop k (c ∷ s)) {y = suc (n + m)} (omega arith) ∙ drop-plus n m s

pub drop-drop_append : (n : ℕ) (v s : List ℕ) → n ≤ length v → drop n (v ++ s) ≡ drop n v ++ s
drop-drop_append zero v s h = refl
drop-drop_append (suc n) [] s h = absurd (omega arith)
drop-drop_append (suc n) (c ∷ v) s h = drop-drop_append n v s (omega arith)

pub drop-IsLine : (n : ℕ) (l : List ℕ) → IsLine l → IsLine (drop n l)
drop-IsLine zero l h = h
drop-IsLine (suc n) [] h = tt
drop-IsLine (suc n) (c ∷ l) h = drop-IsLine n l h.1

blanks-le : (v : List ℕ) → blanks v ≤ length v
unfolding blanks
blanks-le [] = omega arith
blanks-le (c ∷ v) = ground (arith, blanks-le v)

blanks-lower : (v : List ℕ) → blanks (lower v) ≡ blanks v
unfolding blanks lower to_lower
blanks-lower [] = refl
blanks-lower (c ∷ v) = ground (arith, blanks-lower v)

blanks-append : (v s : List ℕ) → IsEnd s → blanks (v ++ s) ≡ blanks v
unfolding blanks
blanks-append [] s (inl e) = ap blanks e
blanks-append [] s (inr (s', e)) = ap blanks e
blanks-append (c ∷ v) s e = ground (arith, blanks-append v s e)

length-drop : (n : ℕ) (s : List ℕ) → length (drop n s) ≡ length s - n
length-drop zero s = omega arith
length-drop (suc n) [] = omega arith
length-drop (suc n) (c ∷ s) = omega (arith, length-drop n s)

module _ (text : List ℕ) (pos : ℕ) where
  line_to_end :
      find (drop pos (lower text)) (13 ∷ 10 ∷ []) ≡ none → line_from text pos ≡ drop pos text
  unfolding line_from
  line_to_end e =
      rw (e, line_from)
        (ap (λ (k : ℕ). take k (drop pos text))
            (ap (λ (k : ℕ). k - pos) (length-lower text) ∙ sym (length-drop pos text))
          ∙ take-length (drop pos text))

  line_to_line_end :
      (k : ℕ)
      → find (drop pos (lower text)) (13 ∷ 10 ∷ []) ≡ some k
      → line_from text pos ≡ take k (drop pos text)
  unfolding line_from
  line_to_line_end k e = rw (e, line_from) refl

-- The value of a line that ends at `s` is the line without the blanks in front.
pub value_from_line :
    (text : List ℕ) (pos : ℕ) (v s : List ℕ)
    → drop pos text ≡ v ++ s
    → IsLine v
    → IsEnd s
    → value_from text pos ≡ trim v
unfolding value_from shift find lower to_lower
value_from_line text pos v s e h end =
    let spaces : blanks (drop pos (lower text)) ≡ blanks v =
      ap blanks (drop-lower pos text)
      ∙ blanks-lower (drop pos text)
      ∙ ap blanks e
      ∙ blanks-append v s end in
    let behind : drop (pos + blanks v) text ≡ trim v ++ s =
      drop-plus pos (blanks v) text
      ∙ ap (drop (blanks v)) e
      ∙ drop-drop_append (blanks v) v s (blanks-le v) in
    let lowered : drop (pos + blanks v) (lower text) ≡ lower (trim v) ++ lower s =
      drop-lower (pos + blanks v) text ∙ ap lower behind ∙ lower-append (trim v) s in
    let w = trim v in
    let found : find (drop (pos + blanks v) (lower text)) (13 ∷ 10 ∷ [])
        ≡ shift (length w) (find (lower s) (13 ∷ 10 ∷ [])) =
      ap (λ (l : List ℕ). find l (13 ∷ 10 ∷ [])) lowered
      ∙ find_past_line (lower w) (lower s) (10 ∷ []) (lower-IsLine w (drop-IsLine (blanks v) v h))
      ∙ ap (λ (k : ℕ). shift k (find (lower s) (13 ∷ 10 ∷ []))) (length-lower w) in
    elim end [
      | inl nothing ↦
          ap (λ (n : ℕ). line_from text (pos + n)) spaces
          ∙ line_to_end text (pos + blanks v) (
              found ∙ ap (λ (l : List ℕ). shift (length w) (find (lower l) (13 ∷ 10 ∷ []))) nothing)
          ∙ behind
          ∙ ap (λ (l : List ℕ). w ++ l) nothing
          ∙ append-nil w
      | inr (s', more) ↦
          ap (λ (n : ℕ). line_from text (pos + n)) spaces
          ∙ line_to_line_end text (pos + blanks v) (length w + 0) (
              found
              ∙ ap (λ (l : List ℕ). shift (length w) (find (lower l) (13 ∷ 10 ∷ []))) more
              ∙ ap (shift (length w)) (find_here (13 ∷ 10 ∷ lower s') (13 ∷ 10 ∷ []) refl))
          ∙ ap₂ take (omega arith) behind
          ∙ take-append w s
    ]
