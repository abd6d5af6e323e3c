-- ===== src/Codec/Wire/Parses.antt =====
-- What a `ByteReader` does on any input: it stays inside its buffer, and what it returns is what
-- the bytes that it took encode.
use hello_websocket.Codec.Wire.{IsByte, All, be32}
use hello_websocket.Codec.Reader.{◌>>=◌, Read, pure, ByteReader}
use hello_websocket.Prelude.{
  All-append_inv, append_assoc, append-nil, ℕ, ◌^◌, ◌<◌, ◌≡◌, refl, ap, ◌∙◌, sym, List, [], ◌++◌,
  subst,
}
use hello_websocket.Codec.Outcome.{Exception, Result, ok, throw, fault}
use hello_websocket.Codec.Wire.Reads.{at}

-- An answer of a reader over `pre ++ s` that has read `pre`: a value `a` with the bytes `x` taken
-- from the front of `s`, related by `P`, or an exception. A read outside the buffer is neither.
pub data Parses {A : Type 0} (P : A → List ℕ → Type 0) (pre s : List ℕ)
    : Result (A × ByteReader) → Type 0 where
  parsed :
      (a : A) (x rest : List ℕ) {r : ByteReader}
      → s ≡ x ++ rest
      → r ≡ at (pre ++ x) rest
      → P a x
      → Parses P pre s (ok (a, r))
  rejected : (e : Exception) → Parses P pre s (throw e)

-- `m` answers so at every position of every sequence of bytes.
pub record Sound {A : Type 0} (m : Read A) (P : A → List ℕ → Type 0) : Type 0 where
  pub run : (pre s : List ℕ) → All IsByte s → Parses P pre s (m (at pre s))

module _ {A B : Type 0} (f : A → Read B) {P : A → List ℕ → Type 0} (Q : B → List ℕ → Type 0) where
  bind_answer :
      (pre s : List ℕ) (res : Result (A × ByteReader))
      → All IsByte s
      → Parses P pre s res
      → ((a : A) (x : List ℕ) → P a x → All IsByte x → Sound (f a) (λ b y. Q b (x ++ y)))
      → Parses Q pre s (elim res [ ok (a, r) ↦ f a r | throw e ↦ throw e | fault ↦ fault ])
  bind_answer pre s _ h (parsed a x rest {r} e er p) k =
      let (hx, hr) = All-append_inv IsByte x rest (subst (All IsByte) e h) in
      subst (λ (q : ByteReader). Parses Q pre s (f a q)) (sym er)
        (move a x rest e (((k a x p hx)).run (pre ++ x) rest hr))
    where
      move :
          (a : A) (x rest : List ℕ)
          → s ≡ x ++ rest
          → {res : Result (B × ByteReader)} → Parses (λ b y. Q b (x ++ y)) (pre ++ x) rest res
          → Parses Q pre s res
      move a x rest e (parsed b y rest' e' er' q) =
          parsed b (x ++ y) rest'
            (e ∙ ap (λ (t : List ℕ). x ++ t) e' ∙ sym (append_assoc x y rest'))
            (er' ∙ ap (λ (t : List ℕ). at t rest') (append_assoc pre x y)) q
      move a x rest e (rejected ex) = rejected ex
  bind_answer pre s _ h (rejected e) k = rejected e

  pub Sound-bind :
      {m : Read A}
      → Sound m P
      → ((a : A) (x : List ℕ) → P a x → All IsByte x → Sound (f a) (λ b y. Q b (x ++ y)))
      → Sound (m >>= f) Q
  Sound-bind {m} hm k = record {
    run = λ pre s h. bind_answer pre s (m (at pre s)) h (hm.run pre s h) k;
  }

module _ {A : Type 0} where
  pub Sound-pure : {Q : A → List ℕ → Type 0} (a : A) → Q a [] → Sound (pure a) Q
  Sound-pure a q = record {
    run = λ pre s h. parsed a [] s refl (ap (λ (t : List ℕ). at t s) (sym (append-nil pre))) q;
  }

  weaken :
      {P Q : A → List ℕ → Type 0} {pre s : List ℕ} {res : Result (A × ByteReader)}
      → ((a : A) (x : List ℕ) → P a x → Q a x)
      → Parses P pre s res
      → Parses Q pre s res
  weaken f (parsed a x rest e er p) = parsed a x rest e er (f a x p)
  weaken f (rejected e) = rejected e

  pub Sound-weaken :
      {m : Read A} {P Q : A → List ℕ → Type 0}
      → ((a : A) (x : List ℕ) → P a x → Q a x)
      → Sound m P
      → Sound m Q
  Sound-weaken f hm = record { run = λ pre s h. weaken f (hm.run pre s h) }

pub IsU32 : ℕ → List ℕ → Type 0
IsU32 v x = (v < 2 ^ 32) × (x ≡ be32 v)
