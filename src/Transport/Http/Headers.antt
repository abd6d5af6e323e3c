-- ===== src/Transport/Http/Headers.antt =====
-- What `recvHttpHeaders` returns.
use hello_websocket.Transport.Receive.Returns.{and-both}
use hello_websocket.Transport.Socket.Stream.{recv-Delivers, stream}
use hello_websocket.Prelude.{
  ltb→ge, Bool-cases, append_assoc, length-append, inr, subst, inl, ap, List-cases, ◌∙◌,
  take-append-drop, ◌+◌, ==_iff, sym, ap₂, ◌<◌, ◌-◌, arith, leb, ◌≤◌, ◌==◌, ◌⊎◌, ltb, some, Option,
  ℕ, ◌≡◌, refl, true, false, List, zero, suc, [], ◌∷◌, ◌++◌, length, drop, take,
}
use hello_websocket.Transport.Socket.{Socket, recv}
use hello_websocket.Transport.Http.{
  equal_text, blank_line, is_complete, headers_loop, recv_http_headers,
}

pub equal_text-eq : (s t : List ℕ) → equal_text s t ≡ true → s ≡ t
unfolding equal_text
equal_text-eq [] [] e = refl
equal_text-eq [] (c ∷ t) e = cc
equal_text-eq (b ∷ s) [] e = cc
equal_text-eq (b ∷ s) (c ∷ t) e =
    let (head, tail) = and-both (b == c) (equal_text s t) e in
    ap₂ (λ (x : ℕ) (l : List ℕ). x ∷ l) ((==_iff b c).0 head) (equal_text-eq s t tail)

-- The texts that end with an empty line.
abbrev pub IsComplete : List ℕ → Type 0
IsComplete text = (head : List ℕ) × (text ≡ head ++ blank_line)

pub IsComplete-of : (text : List ℕ) → is_complete text ≡ true → IsComplete text
unfolding is_complete
IsComplete-of text e =
    let (long, same) =
      and-both (leb 4 (length text)) (equal_text (drop (length text - 4) text) blank_line) e in
    (
      take (length text - 4) text,
      sym (take-append-drop (length text - 4) text)
          ∙ ap (λ (l : List ℕ). take (length text - 4) text ++ l) (equal_text-eq _ blank_line same),
    )

-- An answer on a stream `whole` from which nothing has been taken: none of an error, or the text
-- up to the first empty line behind it.
pub Outcome : List ℕ → Option (List ℕ) × Socket → Type 0
Outcome whole (answer, s') =
    (text : List ℕ) × (answer ≡ some text)
    × ((text ≡ []) ⊎ ((whole ≡ text ++ stream s') × IsComplete text × (length text ≤ 8193)))

module _ (fuel : ℕ) (buf : List ℕ) (s : Socket) where
  pub loop_stop : (recv 1 s).0 ≡ [] → headers_loop (suc fuel) buf s ≡ (some [], (recv 1 s).1)
  unfolding headers_loop
  loop_stop e = rw (e, headers_loop) refl

  module _ (b : ℕ) (bs : List ℕ) (e : (recv 1 s).0 ≡ b ∷ bs) where
    pub loop_complete :
        is_complete (buf ++ b ∷ bs) ≡ true
        → headers_loop (suc fuel) buf s ≡ (some (buf ++ b ∷ bs), (recv 1 s).1)
    unfolding headers_loop
    loop_complete e' = rw (e, e', headers_loop) refl

    pub loop_long :
        is_complete (buf ++ b ∷ bs) ≡ false
        → ltb 8192 (length (buf ++ b ∷ bs)) ≡ true
        → headers_loop (suc fuel) buf s ≡ (some [], (recv 1 s).1)
    unfolding headers_loop
    loop_long e' e'' = rw (e, e', e'', headers_loop) refl

    pub loop_more :
        is_complete (buf ++ b ∷ bs) ≡ false
        → ltb 8192 (length (buf ++ b ∷ bs)) ≡ false
        → headers_loop (suc fuel) buf s ≡ headers_loop fuel (buf ++ b ∷ bs) (recv 1 s).1
    unfolding headers_loop
    loop_more e' e'' = rw (e, e', e'', headers_loop) refl

headers_loop-Outcome :
    (whole : List ℕ) (fuel : ℕ) (buf : List ℕ) (s : Socket)
    → whole ≡ buf ++ stream s
    → length buf ≤ 8192
    → 8193 < fuel + length buf
    → Outcome whole (headers_loop fuel buf s)
unfolding Outcome
headers_loop-Outcome whole zero buf s e small enough = absurd (omega arith)
headers_loop-Outcome whole (suc fuel) buf s e small enough =
    let d = recv-Delivers 0 s in
    let s' = (recv 1 s).1 in
    elim (List-cases (recv 1 s).0) [
      | inl empty ↦ subst (Outcome whole) (sym (loop_stop fuel buf s empty)) ([], refl, inl refl)
      | inr (b, bs, some_bytes) ↦
          let buf' = buf ++ b ∷ bs in
          let size : length buf' ≤ length buf + 1 =
            omega (arith, length-append buf (b ∷ bs), d.few, ap length some_bytes) in
          let grows : length buf < length buf' = omega (arith, length-append buf (b ∷ bs)) in
          let split : whole ≡ buf' ++ stream s' =
            e
            ∙ ap (λ (l : List ℕ). buf ++ l)
                (d.parts ∙ ap (λ (l : List ℕ). l ++ stream s') some_bytes)
            ∙ sym (append_assoc buf (b ∷ bs) (stream s')) in
          elim (Bool-cases (is_complete buf')) [
            | inl complete ↦
                subst (Outcome whole) (sym (loop_complete fuel buf s b bs some_bytes complete))
                  (buf', refl, inr (split, IsComplete-of buf' complete, omega arith))
            | inr goes ↦ elim (Bool-cases (ltb 8192 (length buf'))) [
              | inl long ↦
                  subst (Outcome whole) (sym (loop_long fuel buf s b bs some_bytes goes long))
                    ([], refl, inl refl)
              | inr short ↦
                  subst (Outcome whole) (sym (loop_more fuel buf s b bs some_bytes goes short)) (
                    headers_loop-Outcome whole fuel buf' s' split (ltb→ge 8192 (length buf') short)
                      (omega arith))
            ]
          ]
    ]

-- Whatever arrives, `recvHttpHeaders` returns: the empty text, or a text of at most 8193 bytes
-- that ends with an empty line, and then it has taken exactly this text off the stream.
pub recv_http_headers_returns :
    (s : Socket)
    → (text : List ℕ) × ((recv_http_headers s).0 ≡ some text)
      × ((text ≡ [])
          ⊎ ((stream s ≡ text ++ stream (recv_http_headers s).1)
              × IsComplete text
              × (length text ≤ 8193)))
unfolding recv_http_headers Outcome
recv_http_headers_returns s =
    headers_loop-Outcome (stream s) 8194 [] s refl (omega arith) (omega arith)
