-- ===== src/Transport/Receive/Bounded.antt =====
-- The bytes that the statements of the loop of `wsRecvFrame` take.
pub mod Frame
use hello_websocket.Prelude.{element, ◌∷◌, not, ◌||◌}
use hello_websocket.Transport.Frame.{mask_from}
use hello_websocket.Prelude.{◌==◌, bit_and, refl, if◌then◌else◌}
use mathlib.Core.Option.{some-injective}
use hello_websocket.Prelude.{
  length-append, ap, drop, take, ltb→ge, length-take, take-append-drop, sym, ltb→lt, ltb,
  Bool-cases, ◌∙◌, inr, ◌+◌, ◌⊎◌, subst, inl, ◌≤◌, ◌<◌, ◌^◌, ◌++◌, Option-cases, ◌≡◌, arith, length,
  ℕ, suc, Bool, true, false, none, some, List, [],
}
use hello_websocket.Transport.Receive.{
  read_unmasked, is_bad_header, read_body, read_header, long_len, join_bytes, Receiving, ◌>>=◌,
  done, return_if, extend_len, Received, is_refused, max_message_size, read_mask, read_payload,
  read_frame,
}
use hello_websocket.Transport.Socket.{Socket, recv_all}
use hello_websocket.Transport.Socket.Stream.{stream, recv_all-Receives}

-- `m` takes `n` bytes at least if it answers, and its answer has the property `P`; it sends nothing.
pub record Bounded {A : Type 0} (n : ℕ) (P : A → Type 0) (m : Receiving A) : Type 0 where
  pub fewer : (s : Socket) → length (stream (m s).1) ≤ length (stream s)
  pub cost :
      (s : Socket) (a : A) → (m s).0 ≡ some a → length (stream (m s).1) + n ≤ length (stream s)
  pub sound : (s : Socket) (a : A) → (m s).0 ≡ some a → P a
  pub outgoing : (s : Socket) → (m s).1.outgoing ≡ s.outgoing

module _ {A B : Type 0} (m : Receiving A) (f : A → Receiving B) (s : Socket) where
  pub bind_none : (m s).0 ≡ none → (m >>= f) s ≡ (none, (m s).1)
  bind_none e = rw (e, ◌>>=◌)

  pub bind_some : (a : A) → (m s).0 ≡ some a → (m >>= f) s ≡ f a (m s).1
  bind_some a e = rw (e, ◌>>=◌)

pub Bounded-bind :
    {A B : Type 0} {n : ℕ} {P : A → Type 0} {Q : B → Type 0} {m : Receiving A} (f : A → Receiving B)
    → Bounded n P m
    → ((a : A) → P a → Bounded 0 Q (f a))
    → Bounded n Q (m >>= f)
Bounded-bind {n} {P} {Q} {m} f hm hf = record {
  fewer = λ s. elim (Option-cases (m s).0) [
    | inl e ↦ rw (bind_none m f s e) (hm.fewer s)
    | inr (a, e) ↦
        rw (bind_some m f s a e)
          (let k = hf a (hm.sound s a e) in omega (arith, k.fewer (m s).1, hm.fewer s))
  ];
  cost = λ s b. elim (Option-cases (m s).0) [
    | inl e ↦ rw (bind_none m f s e) (λ h. cc)
    | inr (a, e) ↦
        rw (bind_some m f s a e)
          (λ h. let k = hf a (hm.sound s a e) in omega (arith, k.fewer (m s).1, hm.cost s a e))
  ];
  sound = λ s b. elim (Option-cases (m s).0) [
    | inl e ↦ rw (bind_none m f s e) (λ h. cc)
    | inr (a, e) ↦ rw (bind_some m f s a e) ((hf a (hm.sound s a e)).sound (m s).1 b)
  ];
  outgoing = λ s. elim (Option-cases (m s).0) [
    | inl e ↦ rw (bind_none m f s e) (hm.outgoing s)
    | inr (a, e) ↦
        rw (bind_some m f s a e) ((hf a (hm.sound s a e)).outgoing (m s).1 ∙ hm.outgoing s)
  ];
}

pub Bounded-weaken :
    {A : Type 0} {n : ℕ} {P : A → Type 0} {m : Receiving A} → Bounded n P m → Bounded 0 P m
Bounded-weaken hm = record {
  fewer = hm.fewer;
  cost = λ s a e. omega (arith, hm.cost s a e);
  sound = hm.sound;
  outgoing = hm.outgoing;
}

pub Bounded-done : {A : Type 0} {P : A → Type 0} (a : A) → P a → Bounded 0 P (done a)
Bounded-done {P} a p = record {
  fewer = λ s. omega arith;
  cost = λ s b e. omega arith;
  sound = λ s b e. subst P (some-injective a b e) p;
  outgoing = λ s. refl;
}

pub Bounded-return_if :
    {A : Type 0} {P : A → Type 0} (test : Bool) {m : Receiving A}
    → (test ≡ false → Bounded 0 P m)
    → Bounded 0 P (return_if test m)
Bounded-return_if true h = record {
  fewer = λ s. omega arith;
  cost = λ s b e. cc;
  sound = λ s b e. cc;
  outgoing = λ s. refl;
}
Bounded-return_if false h = h refl

pub Bounded-if :
    {A : Type 0} {P : A → Type 0} (test : Bool) {m k : Receiving A}
    → Bounded 0 P m
    → Bounded 0 P k
    → Bounded 0 P (if test then m else k)
Bounded-if true hm hk = hm
Bounded-if false hm hk = hk

-- What `recvAll` of `n` bytes answers.
abbrev pub HasLength : ℕ → List ℕ → Type 0
HasLength n l = length l ≡ n

-- Either the stream has the bytes, or it runs out.
pub recv_all-cases :
    (n : ℕ) (s : Socket)
    → n < 2 ^ 32
    → ((x : List ℕ) × (rest : List ℕ) × (length x ≡ n)
        × (stream s ≡ x ++ rest)
        × ((recv_all n s).0 ≡ some x)
        × (stream (recv_all n s).1 ≡ rest))
      ⊎ (((recv_all n s).0 ≡ none) × (stream (recv_all n s).1 ≡ []))
recv_all-cases n s w =
    let r = recv_all-Receives n s w in
    elim (Bool-cases (ltb (length (stream s)) n)) [
      | inl less ↦ inr (r.short (ltb→lt _ _ less))
      | inr more ↦
          let parts = sym (take-append-drop n (stream s)) in
          let size = length-take n (stream s) (ltb→ge _ _ more) in
          let (a, t) = r.enough (take n (stream s)) (drop n (stream s)) parts size in
          inl (take n (stream s), drop n (stream s), size, parts, a, t)
    ]

pub Bounded-recv_all : (n : ℕ) → n < 2 ^ 32 → Bounded n (HasLength n) (recv_all n)
Bounded-recv_all n w = record {
  fewer = λ s. elim (recv_all-cases n s w) [
    | inl (x, rest, size, parts, a, t) ↦
        omega (arith, ap length parts, length-append x rest, ap length t)
    | inr (a, t) ↦ omega (arith, ap length t)
  ];
  cost = λ s b e. elim (recv_all-cases n s w) [
    | inl (x, rest, size, parts, a, t) ↦
        omega (arith, ap length parts, length-append x rest, ap length t)
    | inr (a, t) ↦ cc
  ];
  sound = λ s b e. elim (recv_all-cases n s w) [
    | inl (x, rest, size, parts, a, t) ↦ ap length (sym (some-injective x b (sym a ∙ e))) ∙ size
    | inr (a, t) ↦ cc
  ];
  outgoing = λ s. (recv_all-Receives n s w).outgoing;
}

-- Any answer.
abbrev pub Anything : {A : Type 0} → A → Type 0
Anything a = Unit {0}

pub Bounded-long_len : (ext : List ℕ) → Bounded 0 Anything (long_len ext)
unfolding long_len
Bounded-long_len ext = Bounded-return_if _ (λ e. Bounded-done (join_bytes 0 ext) tt)

pub Bounded-extend_len : (len : ℕ) → Bounded 0 Anything (extend_len len)
unfolding extend_len
Bounded-extend_len len =
    Bounded-if (len == 126)
      (Bounded-weaken (
        Bounded-bind (λ ext. done (join_bytes 0 ext)) (Bounded-recv_all 2 (omega arith))
          (λ ext h. Bounded-done (join_bytes 0 ext) tt)))
      (Bounded-if (len == 127)
        (Bounded-weaken (
          Bounded-bind long_len (Bounded-recv_all 8 (omega arith)) (λ ext h. Bounded-long_len ext)))
        (Bounded-done len tt))
