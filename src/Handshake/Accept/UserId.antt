-- ===== src/Handshake/Accept/UserId.antt =====
-- The user id that `WSServer::accept` returns.
use hello_websocket.Prelude.{
  if◌then◌else◌, ℕ, zero, suc, List, [], ◌∷◌, ◌++◌, All, ◌≡◌, refl, ap, codes, length, ◌≤◌, ◌<◌,
  false, arith, subst, inl, inr, Bool-cases, List-cases, take, ltb, ltb→ge, pos, length-take-le,
}
use hello_websocket.Transport.Base64.Visible.{to_string-IsDigit, IsDigit}
use hello_websocket.Hash.{to_string}
use hello_websocket.Hash.Digits.{length-to_string}
use hello_websocket.Strings.{is_control}
use hello_websocket.Handshake.Header.{extract_header}
use hello_websocket.Handshake.Accept.{without_controls, user_id_of}

-- A user id that can stand in a log: not empty, at most 128 characters, none a control character.
pub record IsLoggable (id : List ℕ) : Type 0 where
  pub some_text : 0 < length id
  pub short : length id ≤ 128
  pub plain : All (λ (c : ℕ). is_control c ≡ false) id

without_controls-plain : (s : List ℕ) → All (λ (c : ℕ). is_control c ≡ false) (without_controls s)
unfolding without_controls
without_controls-plain [] = tt
without_controls-plain (c ∷ s) = elim (Bool-cases (is_control c)) [
  | inl e ↦ rw (e) (without_controls-plain s)
  | inr e ↦ rw (e) (e, without_controls-plain s)
]

take-plain :
    (n : ℕ) (s : List ℕ)
    → All (λ (c : ℕ). is_control c ≡ false) s
    → All (λ (c : ℕ). is_control c ≡ false) (take n s)
take-plain zero s h = tt
take-plain (suc n) [] h = tt
take-plain (suc n) (c ∷ s) h = (h.0, take-plain n s h.1)

pub digits-plain : (s : List ℕ) → All IsDigit s → All (λ (c : ℕ). is_control c ≡ false) s
unfolding is_control
digits-plain [] h = tt
digits-plain (c ∷ s) h = (ground (arith, h.0.0, h.0.1), digits-plain s h.1)

fallback-IsLoggable : (now : ℕ) → IsLoggable (codes "cpp-" ++ to_string (pos now))
fallback-IsLoggable now = record {
  some_text = omega arith;
  short = omega (arith, length-to_string (pos now));
  plain =
      unfold is_control in
      (refl, (refl, (refl, (refl, digits-plain (to_string (pos now)) (to_string-IsDigit now)))));
}

cut : List ℕ → List ℕ
cut id = if ltb 128 (length id) then take 128 id else id

cut-plain :
    (id : List ℕ)
    → All (λ (c : ℕ). is_control c ≡ false) id
    → All (λ (c : ℕ). is_control c ≡ false) (cut id) × (length (cut id) ≤ 128)
unfolding cut
cut-plain id h = elim (Bool-cases (ltb 128 (length id))) [
  | inl e ↦ rw (e) (take-plain 128 id h, length-take-le 128 id)
  | inr e ↦ rw (e) (h, ltb→ge 128 (length id) e)
]

pub user_id_of-IsLoggable : (now : ℕ) (text : List ℕ) → IsLoggable (user_id_of now text)
unfolding user_id_of cut
user_id_of-IsLoggable now text =
    let id = without_controls (extract_header text (codes "userId")) in
    let (plain, short) =
      cut-plain id (without_controls-plain (extract_header text (codes "userId"))) in
    elim (List-cases (cut id)) [
      | inl e ↦ rw (e, user_id_of) (fallback-IsLoggable now)
      | inr (c, l, e) ↦
          rw (e, user_id_of)
            (record {
              some_text = omega arith;
              short = omega (arith, short, ap length e);
              plain = subst (All (λ (b : ℕ). is_control b ≡ false)) e plain;
            })
    ]
