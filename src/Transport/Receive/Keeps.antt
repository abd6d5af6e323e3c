-- ===== src/Transport/Receive/Keeps.antt =====
-- The statements of the loop of `wsRecvFrame` on a stream of bytes.
use hello_websocket.Prelude.{
  element, ◌∷◌, not, ◌==◌, bit_and, if◌then◌else◌, sym, ltb, ◌∙◌, inr, ◌%◌, subst, inl,
  Option-cases, ◌≡◌, arith, ℕ, zero, suc, Bool, true, false, some, List, [], All, All-append_inv,
  ◌<◌, ◌≤◌, ◌^◌, refl,
}
use mathlib.Core.Option.{some-injective}
use hello_websocket.Prelude.Xor.{bit_xor-lt}
use hello_websocket.Codec.Wire.{IsByte}
use hello_websocket.Transport.Frame.{mask_from}
use hello_websocket.Transport.Receive.{
  read_unmasked, is_bad_header, read_body, read_header, long_len, join_bytes, Receiving, ◌>>=◌,
  done, return_if, extend_len, Received, is_refused, read_mask, read_payload, read_frame,
}
use hello_websocket.Transport.Receive.Bounded.{recv_all-cases, bind_none, bind_some, Anything}
use hello_websocket.Transport.Receive.Bounded.Frame.{not_refused}
use hello_websocket.Transport.Receive.{max_message_size}
use hello_websocket.Transport.Socket.{Socket, recv_all}
use hello_websocket.Transport.Socket.Stream.{stream}

-- On a stream of bytes, `m` leaves a stream of bytes, and its answer has the property `P`.
pub record Keeps {A : Type 0} (P : A → Type 0) (m : Receiving A) : Type 0 where
  pub kept : (s : Socket) → All IsByte (stream s) → All IsByte (stream (m s).1)
  pub sound : (s : Socket) → All IsByte (stream s) → (a : A) → (m s).0 ≡ some a → P a

Keeps-bind :
    {A B : Type 0} {P : A → Type 0} {Q : B → Type 0} {m : Receiving A} (f : A → Receiving B)
    → Keeps P m
    → ((a : A) → P a → Keeps Q (f a))
    → Keeps Q (m >>= f)
Keeps-bind {P} {Q} {m} f hm hf = record {
  kept = λ s h. elim (Option-cases (m s).0) [
    | inl e ↦ rw (bind_none m f s e) (hm.kept s h)
    | inr (a, e) ↦ rw (bind_some m f s a e) ((hf a (hm.sound s h a e)).kept (m s).1 (hm.kept s h))
  ];
  sound = λ s h b. elim (Option-cases (m s).0) [
    | inl e ↦ rw (bind_none m f s e) (λ e'. cc)
    | inr (a, e) ↦
        rw (bind_some m f s a e) ((hf a (hm.sound s h a e)).sound (m s).1 (hm.kept s h) b)
  ];
}

Keeps-done : {A : Type 0} {P : A → Type 0} (a : A) → P a → Keeps P (done a)
Keeps-done {P} a p = record { kept = λ s h. h; sound = λ s h b e. subst P (some-injective a b e) p }

Keeps-return_if :
    {A : Type 0} {P : A → Type 0} (test : Bool) {m : Receiving A}
    → (test ≡ false → Keeps P m)
    → Keeps P (return_if test m)
Keeps-return_if true hm = record { kept = λ s h. h; sound = λ s h b e. cc }
Keeps-return_if false hm = hm refl

Keeps-if :
    {A : Type 0} {P : A → Type 0} (test : Bool) {m k : Receiving A}
    → Keeps P m
    → Keeps P k
    → Keeps P (if test then m else k)
Keeps-if true hm hk = hm
Keeps-if false hm hk = hk

Keeps-recv_all : (n : ℕ) → n < 2 ^ 32 → Keeps (All IsByte) (recv_all n)
Keeps-recv_all n w = record {
  kept = λ s h. elim (recv_all-cases n s w) [
    | inl (x, rest, size, parts, a, t) ↦
        subst (All IsByte) (sym t) (All-append_inv IsByte x rest (subst (All IsByte) parts h)).1
    | inr (a, t) ↦ subst (All IsByte) (sym t) tt
  ];
  sound = λ s h b e. elim (recv_all-cases n s w) [
    | inl (x, rest, size, parts, a, t) ↦
        subst (All IsByte) (some-injective x b (sym a ∙ e))
          (All-append_inv IsByte x rest (subst (All IsByte) parts h)).0
    | inr (a, t) ↦ cc
  ];
}

Keeps-any : {A : Type 0} {P : A → Type 0} {m : Receiving A} → Keeps P m → Keeps Anything m
Keeps-any hm = record { kept = hm.kept; sound = λ s h a e. tt }

Keeps-extend_len : (len : ℕ) → Keeps Anything (extend_len len)
unfolding extend_len long_len
Keeps-extend_len len =
    Keeps-if (len == 126)
      (Keeps-bind (λ ext. done (join_bytes 0 ext)) (Keeps-recv_all 2 (omega arith))
        (λ ext h. Keeps-done _ tt))
      (Keeps-if (len == 127)
        (Keeps-bind long_len (Keeps-recv_all 8 (omega arith))
          (λ ext h. Keeps-return_if _ (λ _. Keeps-done (join_bytes 0 ext) tt)))
        (Keeps-done len tt))

element-IsByte : (l : List ℕ) (i : ℕ) → All IsByte l → element l i < 256
element-IsByte [] i h = omega arith
element-IsByte (b ∷ l) zero h = h.0
element-IsByte (b ∷ l) (suc i) h = element-IsByte l i h.1

mask_from-IsByte :
    (mask : List ℕ) (i : ℕ) (l : List ℕ)
    → All IsByte mask
    → All IsByte l
    → All IsByte (mask_from mask i l)
unfolding mask_from
mask_from-IsByte mask i [] hm h = tt
mask_from-IsByte mask i (b ∷ l) hm h = (
  bit_xor-lt 8 b (element mask (i % 4)) h.0 (element-IsByte mask (i % 4) hm),
  mask_from-IsByte mask (suc i) l hm h.1,
)

unmasked :
    (masked : Bool) (mask payload : List ℕ)
    → All IsByte mask
    → All IsByte payload
    → All IsByte (if masked then mask_from mask 0 payload else payload)
unmasked true mask payload hm h = mask_from-IsByte mask 0 payload hm h
unmasked false mask payload hm h = h

Keeps-read_mask : (masked : Bool) → Keeps (All IsByte) (read_mask masked)
unfolding read_mask
Keeps-read_mask masked =
    Keeps-if masked (Keeps-recv_all 4 (omega arith)) (Keeps-done _ (omega arith))

Keeps-read_payload :
    (masked : Bool) (len : ℕ)
    → len ≤ max_message_size
    → Keeps (All IsByte) (read_payload masked len)
unfolding read_payload read_unmasked
Keeps-read_payload masked len w =
    Keeps-bind (read_unmasked masked len) (Keeps-read_mask masked) (λ mask hm.
      Keeps-bind (λ payload. done (if masked then mask_from mask 0 payload else payload))
        (Keeps-if (ltb 0 len) (Keeps-recv_all len (omega arith)) (Keeps-done [] tt))
        (λ payload h. Keeps-done _ (unmasked masked mask payload hm h)))

abbrev pub OfBytes : Received → Type 0
OfBytes f = All IsByte f.payload

Keeps-read_body :
    (fin : Bool) (opcode : ℕ) (masked : Bool) (have len : ℕ)
    → Keeps OfBytes (read_body fin opcode masked have len)
unfolding read_body
Keeps-read_body fin opcode masked have len =
    Keeps-return_if (is_refused fin opcode len have) (λ accepted.
      Keeps-bind (λ payload. done (record { fin = fin; opcode = opcode; payload = payload }))
        (Keeps-read_payload masked len (omega (arith, not_refused fin opcode len have accepted)))
        (λ payload h. Keeps-done (record { fin = fin; opcode = opcode; payload = payload }) h))

pub Keeps-read_frame :
    (expect_masked : Bool) (have : ℕ) → Keeps OfBytes (read_frame expect_masked have)
unfolding read_frame read_header
Keeps-read_frame expect_masked have =
    Keeps-bind (λ hdr. read_header expect_masked have (element hdr 0) (element hdr 1))
      (Keeps-recv_all 2 (omega arith))
      (λ hdr _. Keeps-return_if (is_bad_header expect_masked (element hdr 0) (element hdr 1)) (λ _.
        Keeps-bind
          (read_body (not (bit_and (element hdr 0) 0x80 == 0)) (bit_and (element hdr 0) 0xf)
            (not (bit_and (element hdr 1) 0x80 == 0)) have)
          (Keeps-extend_len (bit_and (element hdr 1) 0x7f))
          (λ len _. Keeps-read_body _ _ _ have len)))
