-- ===== src/Transport/Http/Exact.antt =====
-- `recvHttpHeaders` on a stream that holds a whole text of headers.
use hello_websocket.Transport.Socket.Stream.{recv-Delivers, stream}
use hello_websocket.Transport.Socket.{Socket, recv}
use hello_websocket.Transport.Http.{is_complete, headers_loop, recv_http_headers}
use hello_websocket.Transport.Http.Headers.{loop_long, loop_stop, loop_complete, loop_more}
use mathlib.Core.List.{head-eq_of_cons-eq, tail-eq_of_cons-eq}
use hello_websocket.Prelude.{
  Bool-cases, ge→ltb, append_assoc, length-append, inr, subst, inl, ap, ap₂, List-cases, ◌∙◌, sym,
  ◌<◌, arith, ◌≤◌, ltb, some, ℕ, ◌≡◌, refl, true, false, List, zero, suc, [], ◌∷◌, ◌++◌, length,
  nil_of_length,
}

-- No part in front of the end of the text is complete, and the text is.
pub record EndsAt (text : List ℕ) : Type 0 where
  pub complete : is_complete text ≡ true
  pub not_before : (a : List ℕ) (b : ℕ) (c : List ℕ) → text ≡ a ++ b ∷ c → is_complete a ≡ false

-- A call for one byte delivers the next one.
recv_one :
    (s : Socket) (b : ℕ) (rest : List ℕ)
    → stream s ≡ b ∷ rest
    → ((recv 1 s).0 ≡ b ∷ []) × (stream (recv 1 s).1 ≡ rest)
recv_one s b rest e =
    let d = recv-Delivers 0 s in
    elim (List-cases (recv 1 s).0) [
      | inl empty ↦ absurd (omega (arith, ap length (sym e ∙ d.live empty)))
      | inr (b', bs, got) ↦
          let none_behind : bs ≡ [] = nil_of_length bs (omega (arith, d.few, ap length got)) in
          let whole : b ∷ rest ≡ b' ∷ stream (recv 1 s).1 =
            sym e
            ∙ d.parts
            ∙ ap (λ (l : List ℕ). l ++ stream (recv 1 s).1) got
            ∙ ap (λ (l : List ℕ). (b' ∷ l) ++ stream (recv 1 s).1) none_behind in
          (
            got ∙ ap₂ (λ (x : ℕ) (l : List ℕ). x ∷ l) (sym (head-eq_of_cons-eq whole)) none_behind,
            sym (tail-eq_of_cons-eq whole),
          )
    ]

-- What the loop has done at the end of the text.
pub record Takes (text rest : List ℕ) (s s' : Socket) : Type 0 where
  pub behind : stream s' ≡ rest
  pub rooms : s'.rooms ≡ s.rooms
  pub outgoing : s'.outgoing ≡ s.outgoing

headers_loop-Takes :
    (text rest : List ℕ)
    → EndsAt text
    → length text ≤ 8193
    → (fuel : ℕ) (buf : List ℕ) (b : ℕ) (more : List ℕ) (s : Socket) → text ≡ buf ++ b ∷ more
    → stream s ≡ b ∷ (more ++ rest)
    → length more < fuel
    → (s' : Socket) × (headers_loop fuel buf s ≡ (some text, s')) × Takes text rest s s'
headers_loop-Takes text rest ends small zero buf b more s e arrives enough = absurd (omega arith)
headers_loop-Takes text rest ends small (suc fuel) buf b [] s e arrives enough =
    let (got, left) = recv_one s b rest arrives in
    (
      (recv 1 s).1,
      loop_complete fuel buf s b [] got
            (subst (λ (t : List ℕ). is_complete t ≡ true) e ends.complete)
          ∙ ap (λ (t : List ℕ). (some t, (recv 1 s).1)) (sym e),
      record { behind = left; rooms = unfold recv in refl; outgoing = unfold recv in refl },
    )
headers_loop-Takes text rest ends small (suc fuel) buf b (c ∷ more) s e arrives enough =
    let (got, left) = recv_one s b (c ∷ (more ++ rest)) arrives in
    let split : text ≡ (buf ++ b ∷ []) ++ c ∷ more =
      e ∙ sym (append_assoc buf (b ∷ []) (c ∷ more)) in
    let (s', answer, takes) =
      headers_loop-Takes text rest ends small fuel (buf ++ b ∷ []) c more (recv 1 s).1 split left
        (omega arith) in
    (
      s',
      loop_more fuel buf s b [] got (ends.not_before (buf ++ b ∷ []) c more split) (
            ge→ltb 8192 (length (buf ++ b ∷ []))
              (omega (arith, ap length split, length-append (buf ++ b ∷ []) (c ∷ more))))
          ∙ answer,
      record {
        behind = takes.behind;
        rooms = takes.rooms ∙ unfold recv in refl;
        outgoing = takes.outgoing ∙ unfold recv in refl;
      },
    )

-- However the system cuts the stream up: when a text that ends with its first empty line comes
-- next, `recvHttpHeaders` returns it and leaves what is behind it.
pub recv_http_headers-Takes :
    (s : Socket) (b : ℕ) (more rest : List ℕ)
    → EndsAt (b ∷ more)
    → length (b ∷ more) ≤ 8193
    → stream s ≡ (b ∷ more) ++ rest
    → (s' : Socket) × (recv_http_headers s ≡ (some (b ∷ more), s')) × Takes (b ∷ more) rest s s'
unfolding recv_http_headers
recv_http_headers-Takes s b more rest ends small e =
    headers_loop-Takes (b ∷ more) rest ends small 8194 [] b more s refl e (omega arith)

headers_loop-outgoing :
    (fuel : ℕ) (buf : List ℕ) (s : Socket) → (headers_loop fuel buf s).1.outgoing ≡ s.outgoing
headers_loop-outgoing zero buf s = unfold headers_loop in refl
headers_loop-outgoing (suc fuel) buf s =
    let same : (recv 1 s).1.outgoing ≡ s.outgoing = unfold recv in refl in
    elim (List-cases (recv 1 s).0) [
      | inl empty ↦ ap (λ r. r.1.outgoing) (loop_stop fuel buf s empty) ∙ same
      | inr (b, bs, got) ↦
          let buf' = buf ++ b ∷ bs in
          elim (Bool-cases (is_complete buf')) [
            | inl done ↦ ap (λ r. r.1.outgoing) (loop_complete fuel buf s b bs got done) ∙ same
            | inr goes ↦ elim (Bool-cases (ltb 8192 (length buf'))) [
              | inl long ↦ ap (λ r. r.1.outgoing) (loop_long fuel buf s b bs got goes long) ∙ same
              | inr short ↦
                  ap (λ r. r.1.outgoing) (loop_more fuel buf s b bs got goes short)
                  ∙ headers_loop-outgoing fuel buf' (recv 1 s).1
                  ∙ same
            ]
          ]
    ]

-- `recvHttpHeaders` sends nothing.
pub recv_http_headers-outgoing : (s : Socket) → (recv_http_headers s).1.outgoing ≡ s.outgoing
unfolding recv_http_headers
recv_http_headers-outgoing s = headers_loop-outgoing 8194 [] s
