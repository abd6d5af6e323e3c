-- ===== src/Transport/Receive/RoundTrip.antt =====
-- A frame that one side sends is what the other side receives.
use hello_websocket.Prelude.{element, true, false}
use hello_websocket.Transport.Receive.Bounded.Frame.{not_refused, length-mask_from}
use hello_websocket.Transport.Frame.{length_bytes, high_bytes, mask_from}
use hello_websocket.Prelude.{length-append, Bool-cases, ltb, leb, inl, inr, ◌≤◌, ◌+◌}
use hello_websocket.Prelude.{[], arith, ◌∙◌, if◌then◌else◌, ◌||◌, ap₂}
use hello_websocket.Transport.Receive.Lengths.{
  length_bytes-split, Reads-extend_len, low_of, rest_len, flag_of, first_len-lt, first_len,
}
use hello_websocket.Codec.Wire.{IsByte}
use hello_websocket.Transport.Receive.Reads.{
  Reads-recv_all, Reads-read_payload, Reads-bind, Reads-last, Reads-return_if, on_wire, Reads,
}
use hello_websocket.Transport.Frame.{length_bytes}
use hello_websocket.Transport.Receive.{
  extend_len, is_refused, is_bad_header, read_header, read_frame, read_body, Received,
}
use hello_websocket.Prelude.{
  sym, subst, bit_or, ◌++◌, All, length, false, ◌==◌, not, bit_and, Bool, ℕ, ◌≡◌, refl, ◌∷◌, List,
}

-- The bytes of a frame, `masked` as the receiver expects it.
abbrev pub frame_bytes : ℕ → Bool → List ℕ → List ℕ → List ℕ
frame_bytes h0 masked mask payload =
    h0 ∷ length_bytes (if masked then 0x80 else 0) (length payload) ++ on_wire masked mask payload

length-length_bytes : (flag len : ℕ) → length (length_bytes flag len) ≤ 9
unfolding length_bytes high_bytes
length-length_bytes flag len = elim (Bool-cases (ltb len 126)) [
  | inl e ↦ rw (e) (omega arith)
  | inr e ↦ rw (e) (elim (Bool-cases (leb len 65535)) [
    | inl e' ↦ rw (e') (omega arith)
    | inr e' ↦ rw (e') (omega arith)
  ])
]

length-on_wire :
    (masked : Bool) (mask payload : List ℕ)
    → length mask ≡ 4
    → length (on_wire masked mask payload) ≤ length payload + 4
length-on_wire true mask payload four =
    omega (arith, length-append mask (mask_from mask 0 payload), length-mask_from mask 0 payload)
length-on_wire false mask payload four = omega arith

pub length-frame_bytes :
    (h0 : ℕ) (masked : Bool) (mask payload : List ℕ)
    → length mask ≡ 4
    → length (frame_bytes h0 masked mask payload) ≤ length payload + 14
length-frame_bytes h0 masked mask payload four =
    let size = length_bytes (if masked then 0x80 else 0) (length payload) in
    omega (
      arith,
      length-append size (on_wire masked mask payload),
      length-length_bytes (if masked then 0x80 else 0) (length payload),
      length-on_wire masked mask payload four,
    )

as_expected : (b : Bool) → (if b then not b else b) ≡ false
as_expected true = refl
as_expected false = refl

-- What `wsRecvFrame` has read of it.
abbrev pub received : ℕ → List ℕ → Received
received h0 payload = record {
  fin = not (bit_and h0 0x80 == 0);
  opcode = bit_and h0 0xf;
  payload = payload;
}

module _ (h0 : ℕ) (masked : Bool) (have : ℕ) (mask payload : List ℕ) where
  abbrev fin : Bool
  fin = not (bit_and h0 0x80 == 0)

  abbrev opcode : ℕ
  opcode = bit_and h0 0xf

  Reads-read_body :
      is_refused fin opcode (length payload) have ≡ false
      → length mask ≡ 4
      → All IsByte mask
      → All IsByte payload
      → Reads
          (read_body fin opcode masked have (length payload))
          (on_wire masked mask payload)
          (received h0 payload)
  unfolding read_body
  Reads-read_body refused four hm hp = Reads-return_if refused (
      Reads-last (λ (p : List ℕ). received h0 p)
        (Reads-read_payload masked mask payload
          (omega (arith, not_refused fin opcode (length payload) have refused)) four hm hp))

  good_header :
      (h1 : ℕ)
      → bit_and h0 0x70 ≡ 0
      → not (bit_and h1 0x80 == 0) ≡ masked
      → is_bad_header masked h0 h1 ≡ false
  unfolding is_bad_header
  good_header h1 reserved flag =
      ap₂ (λ x m. not (x == 0) || (if masked then not m else m)) reserved flag ∙ as_expected masked

  Reads-read_header :
      (h1 : ℕ) (size : List ℕ)
      → is_bad_header masked h0 h1 ≡ false
      → not (bit_and h1 0x80 == 0) ≡ masked
      → Reads (extend_len (bit_and h1 0x7f)) size (length payload)
      → Reads
          (read_body fin opcode masked have (length payload))
          (on_wire masked mask payload)
          (received h0 payload)
      → Reads
          (read_header masked have h0 h1)
          (size ++ on_wire masked mask payload)
          (received h0 payload)
  unfolding read_header
  Reads-read_header h1 size good flag sized body = Reads-return_if good (
      Reads-bind (read_body fin opcode (not (bit_and h1 0x80 == 0)) have) sized (
        subst
          (λ (b : Bool).
            Reads (read_body fin opcode b have (length payload)) (on_wire masked mask payload)
              (received h0 payload))
          (sym flag) body))

  -- Behind a header with no reserved bit, a frame that is not refused is read.
  pub Reads-read_frame :
      bit_and h0 0x70 ≡ 0
      → is_refused fin opcode (length payload) have ≡ false
      → length mask ≡ 4
      → All IsByte mask
      → All IsByte payload
      → Reads (read_frame masked have) (frame_bytes h0 masked mask payload) (received h0 payload)
  unfolding read_frame
  Reads-read_frame reserved refused four hm hp =
      let v = first_len (length payload) in
      let h1 = bit_or (if masked then 0x80 else 0) v in
      let size = first_len-lt (length payload) in
      let flag = flag_of masked v size in
      let fits = not_refused fin opcode (length payload) have refused in
      let sized =
        subst (λ (l : ℕ). Reads (extend_len l) (rest_len (length payload)) (length payload))
          (sym (low_of masked v size)) (Reads-extend_len (length payload) (omega arith)) in
      subst
        (λ (l : List ℕ).
          Reads (read_frame masked have) (h0 ∷ l ++ on_wire masked mask payload)
            (received h0 payload))
        (sym (length_bytes-split (if masked then 0x80 else 0) (length payload)))
        (Reads-bind (λ hdr. read_header masked have (element hdr 0) (element hdr 1))
          (Reads-recv_all (h0 ∷ h1 ∷ []) 2 refl (omega arith))
          (Reads-read_header h1 (rest_len (length payload)) (good_header h1 reserved flag) flag
            sized (Reads-read_body refused four hm hp)))
