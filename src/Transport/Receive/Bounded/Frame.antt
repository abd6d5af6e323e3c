-- ===== src/Transport/Receive/Bounded/Frame.antt =====
-- The bytes that one frame of `wsRecvFrame` takes, and its payload's limit.
use hello_websocket.Prelude.{element, ◌∷◌, not, ◌||◌}
use hello_websocket.Transport.Frame.{mask_from}
use hello_websocket.Prelude.{◌==◌, bit_and, refl, if◌then◌else◌}
use hello_websocket.Prelude.{
  ap, ltb→ge, sym, ltb, ◌∙◌, ◌+◌, ◌≤◌, ◌≡◌, arith, length, ℕ, suc, Bool, true, false, List, [],
}
use hello_websocket.Transport.Receive.{
  read_unmasked, is_bad_header, read_body, read_header, ◌>>=◌, done, extend_len, Received,
  is_refused, max_message_size, read_mask, read_payload, read_frame,
}
use hello_websocket.Transport.Socket.{recv_all}
use hello_websocket.Transport.Receive.Bounded.{
  Bounded, Bounded-bind, Bounded-weaken, Bounded-done, Bounded-return_if, HasLength,
  Bounded-recv_all, Anything, Bounded-extend_len,
}

pub length-mask_from : (mask : List ℕ) (i : ℕ) (l : List ℕ) → length (mask_from mask i l) ≡ length l
unfolding mask_from
length-mask_from mask i [] = refl
length-mask_from mask i (b ∷ l) = ap suc (length-mask_from mask (suc i) l)

Bounded-read_mask : (masked : Bool) → Bounded 0 Anything (read_mask masked)
unfolding read_mask
Bounded-read_mask true = record {
  fewer = (Bounded-recv_all 4 (omega arith)).fewer;
  cost = λ s a e. omega (arith, (Bounded-recv_all 4 (omega arith)).cost s a e);
  sound = λ s a e. tt;
  outgoing = (Bounded-recv_all 4 (omega arith)).outgoing;
}
Bounded-read_mask false = Bounded-done _ tt

unmasked :
    (masked : Bool) (mask payload : List ℕ) {len : ℕ}
    → length payload ≡ len
    → length (if masked then mask_from mask 0 payload else payload) ≡ len
unmasked true mask payload h = length-mask_from mask 0 payload ∙ h
unmasked false mask payload h = h

Bounded-if_any :
    (test : Bool) (len : ℕ)
    → len ≤ max_message_size
    → (test ≡ false → len ≡ 0)
    → Bounded 0 (HasLength len) (if test then recv_all len else done [])
Bounded-if_any true len w h = Bounded-weaken (Bounded-recv_all len (omega arith))
Bounded-if_any false len w h = Bounded-done [] (sym (h refl))

Bounded-read_unmasked :
    (masked : Bool) (len : ℕ) (mask : List ℕ)
    → len ≤ max_message_size
    → Bounded 0 (HasLength len) (read_unmasked masked len mask)
unfolding read_unmasked
Bounded-read_unmasked masked len mask w =
    Bounded-bind (λ payload. done (if masked then mask_from mask 0 payload else payload))
      (Bounded-if_any (ltb 0 len) len w (λ e. omega (arith, ltb→ge 0 len e)))
      (λ payload h. Bounded-done _ (unmasked masked mask payload h))

Bounded-read_payload :
    (masked : Bool) (len : ℕ)
    → len ≤ max_message_size
    → Bounded 0 (HasLength len) (read_payload masked len)
unfolding read_payload
Bounded-read_payload masked len w =
    Bounded-bind (read_unmasked masked len) (Bounded-read_mask masked)
      (λ mask _. Bounded-read_unmasked masked len mask w)

-- With a payload so far of `have` bytes, what a round has read is within the limit.
abbrev pub Within : ℕ → Received → Type 0
Within have f = have + length f.payload ≤ max_message_size

or-false : (a b : Bool) → (a || b) ≡ false → b ≡ false
or-false true b e = cc
or-false false b e = e

pub not_refused :
    (fin : Bool) (opcode len have : ℕ)
    → is_refused fin opcode len have ≡ false
    → have + len ≤ max_message_size
unfolding is_refused
not_refused fin opcode len have e =
    omega (arith, ltb→ge max_message_size (have + len) (or-false _ _ e))

Bounded-read_body :
    (fin : Bool) (opcode : ℕ) (masked : Bool) (have len : ℕ)
    → Bounded 0 (Within have) (read_body fin opcode masked have len)
unfolding read_body
Bounded-read_body fin opcode masked have len =
    Bounded-return_if (is_refused fin opcode len have) (λ accepted.
      Bounded-bind (λ payload. done (record { fin = fin; opcode = opcode; payload = payload }))
        (Bounded-read_payload masked len (omega (arith, not_refused fin opcode len have accepted)))
        (λ payload h.
          Bounded-done (record { fin = fin; opcode = opcode; payload = payload })
            (omega (arith, h, not_refused fin opcode len have accepted))))

Bounded-read_header :
    (expect_masked : Bool) (have h0 h1 : ℕ)
    → Bounded 0 (Within have) (read_header expect_masked have h0 h1)
unfolding read_header
Bounded-read_header expect_masked have h0 h1 =
    let body =
      read_body (not (bit_and h0 0x80 == 0)) (bit_and h0 0xf) (not (bit_and h1 0x80 == 0)) have in
    Bounded-return_if (is_bad_header expect_masked h0 h1)
      {m = extend_len (bit_and h1 0x7f) >>= body}
      (λ _.
        Bounded-bind body (Bounded-extend_len (bit_and h1 0x7f))
          (λ len _. Bounded-read_body _ _ _ have len))

pub Bounded-read_frame :
    (expect_masked : Bool) (have : ℕ) → Bounded 2 (Within have) (read_frame expect_masked have)
unfolding read_frame
Bounded-read_frame expect_masked have =
    Bounded-bind (λ hdr. read_header expect_masked have (element hdr 0) (element hdr 1))
      (Bounded-recv_all 2 (omega arith))
      (λ hdr _. Bounded-read_header expect_masked have (element hdr 0) (element hdr 1))
