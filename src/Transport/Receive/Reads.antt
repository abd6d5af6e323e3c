-- ===== src/Transport/Receive/Reads.antt =====
-- What the reads of `wsRecvFrame` get from bytes that `wsSendBinary`, `wsSendBinaryMasked` or
-- `wsSendControl` wrote.
use hello_websocket.Transport.Receive.Bounded.Frame.{length-mask_from}
use hello_websocket.Prelude.Xor.{bit_xor_cancel}
use hello_websocket.Transport.Socket.Stream.{recv_all-Receives}
use hello_websocket.Codec.Wire.{IsByte}
use hello_websocket.Transport.Frame.{mask_from}
use hello_websocket.Prelude.{
  element, lt→ltb, ap₂, ltb, All, append_assoc, ℕ, zero, suc, ◌%◌, ◌<◌, ◌^◌, ◌≡◌, refl, sym, ◌∙◌,
  subst, List, [], ◌∷◌, ◌++◌, length, Bool, true, false, some, arith, if◌then◌else◌,
}
use hello_websocket.Transport.Receive.{
  read_unmasked, read_mask, read_payload, stream, Socket, recv_all, Receiving, ◌>>=◌, done,
  return_if,
}

-- `m` reads `x` off the stream, wherever it stands, answers `a` and sends nothing.
pub record Reads {A : Type 0} (m : Receiving A) (x : List ℕ) (a : A) : Type 0 where
  pub run :
      (rest : List ℕ) (s : Socket)
      → stream s ≡ x ++ rest
      → ((m s).0 ≡ some a)
        × (stream (m s).1 ≡ rest)
        × ((m s).1.outgoing ≡ s.outgoing)
        × ((m s).1.rooms ≡ s.rooms)

pub Reads-recv_all : (x : List ℕ) (n : ℕ) → length x ≡ n → n < 2 ^ 32 → Reads (recv_all n) x x
Reads-recv_all x n l w = record {
  run = λ rest s e.
      let r = recv_all-Receives n s w in
      let (a, t) = r.enough x rest e l in (a, t, r.outgoing, r.rooms);
}

pub Reads-done : {A : Type 0} (a : A) → Reads (done a) [] a
Reads-done a = record { run = λ rest s e. (refl, e, refl, refl) }

bind_some :
    {A B : Type 0} (m : Receiving A) (f : A → Receiving B) (s : Socket) (a : A)
    → (m s).0 ≡ some a
    → (m >>= f) s ≡ f a (m s).1
bind_some m f s a e = rw (e, ◌>>=◌)

pub Reads-bind :
    {A B : Type 0} {m : Receiving A} (f : A → Receiving B) {x y : List ℕ} {a : A} {b : B}
    → Reads m x a
    → Reads (f a) y b
    → Reads (m >>= f) (x ++ y) b
Reads-bind {m} f {x} {y} {a} {b} hm hf = record {
  run = λ rest s e.
      let (a', t, o, r) = hm.run (y ++ rest) s (e ∙ append_assoc x y rest) in
      let (b', t', o', r') = hf.run rest (m s).1 t in
      rw (bind_some m f s a a') (b', t', o' ∙ o, r' ∙ r);
}

pub Reads-return_if :
    {A : Type 0} {test : Bool} {m : Receiving A} {x : List ℕ} {a : A}
    → test ≡ false
    → Reads m x a
    → Reads (return_if test m) x a
Reads-return_if {m} {x} {a} e h = subst (λ (t : Bool). Reads (return_if t m) x a) (sym e) h

-- Masking twice with one key restores the bytes.
element-IsByte : (mask : List ℕ) (i : ℕ) → All IsByte mask → element mask i < 256
element-IsByte [] i h = omega arith
element-IsByte (b ∷ mask) zero h = h.0
element-IsByte (b ∷ mask) (suc i) h = element-IsByte mask i h.1

pub mask_from_cancel :
    (mask : List ℕ) (i : ℕ) (bytes : List ℕ)
    → All IsByte mask
    → All IsByte bytes
    → mask_from mask i (mask_from mask i bytes) ≡ bytes
unfolding mask_from
mask_from_cancel mask i [] hm hb = refl
mask_from_cancel mask i (b ∷ bytes) hm hb =
    ap₂ (λ x l. x ∷ l)
      (bit_xor_cancel 8 b (element mask (i % 4)) hb.0 (element-IsByte mask (i % 4) hm))
      (mask_from_cancel mask (suc i) bytes hm hb.1)

pub Reads-last :
    {A B : Type 0} {m : Receiving A} (g : A → B) {x : List ℕ} {a : A}
    → Reads m x a
    → Reads (m >>= λ c. done (g c)) x (g a)
Reads-last {m} g {a} h = record {
  run = λ rest s e.
      let (a', t, o, r) = h.run rest s e in
      rw (bind_some m (λ c. done (g c)) s a a') (refl, t, o, r);
}

-- The payload as it stands on the wire.
abbrev pub on_wire : Bool → List ℕ → List ℕ → List ℕ
on_wire masked mask payload = if masked then mask ++ mask_from mask 0 payload else payload

Reads-body :
    (len : ℕ) (x : List ℕ)
    → length x ≡ len
    → len < 2 ^ 32
    → Reads (if ltb 0 len then recv_all len else done []) x x
Reads-body len [] e w = rw (sym e) (Reads-done [])
Reads-body len (b ∷ x) e w = rw (lt→ltb 0 len (omega (arith, e))) (Reads-recv_all (b ∷ x) len e w)

pub Reads-read_payload :
    (masked : Bool) (mask payload : List ℕ)
    → length payload < 2 ^ 32
    → length mask ≡ 4
    → All IsByte mask
    → All IsByte payload
    → Reads (read_payload masked (length payload)) (on_wire masked mask payload) payload
unfolding read_payload read_mask read_unmasked
Reads-read_payload true mask payload w four hm hp =
    let size = length-mask_from mask 0 payload in
    subst (Reads (read_payload true (length payload)) (on_wire true mask payload))
      (mask_from_cancel mask 0 payload hm hp)
      (Reads-bind (read_unmasked true (length payload)) (Reads-recv_all mask 4 four (omega arith)) (
        Reads-last (mask_from mask 0)
          (Reads-body (length payload) (mask_from mask 0 payload) size w)))
Reads-read_payload false mask payload w four hm hp =
    Reads-bind (read_unmasked false (length payload)) (Reads-done {A = List ℕ} (0 ∷ 0 ∷ 0 ∷ 0 ∷ []))
      (Reads-last (λ (l : List ℕ). l) (Reads-body (length payload) payload refl w))
