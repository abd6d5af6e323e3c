-- ===== src/Transport/Receive/Fragments.antt =====
-- `wsRecvFrame` on a message in any number of fragments, with pongs between them.
use hello_websocket.Prelude.{
  ap, ap₂, sym, ◌∙◌, append_assoc, length-append, ge→ltb, arith, ◌||◌, zero, suc, ◌+◌, ◌≤◌, ◌<◌,
  some, length, ℕ, Bool, Option, ◌≡◌, refl, [], ◌∷◌, ◌++◌, List, true, false, All,
}
use hello_websocket.Codec.Wire.{IsByte}
use hello_websocket.Transport.Receive.{
  read_frame, stream, Socket, is_refused, max_message_size, WsFrame, on_frame, on_data,
  ws_recv_loop, ws_recv_frame, empty_frame,
}
use hello_websocket.Transport.Receive.Returns.{loop_continue, loop_return}
use hello_websocket.Transport.Receive.RoundTrip.{received, Reads-read_frame, frame_bytes}
use hello_websocket.Transport.Receive.Arrives.{binary, Gets}

-- A frame behind the first and in front of the last: a continuation without FIN, or a pong.
pub data Piece : Type 0 where
  more : (mask payload : List ℕ) → Piece
  pong : (mask payload : List ℕ) → Piece

abbrev pub piece_bytes : Bool → Piece → List ℕ
piece_bytes masked (more mask payload) = frame_bytes 0x00 masked mask payload
piece_bytes masked (pong mask payload) = frame_bytes 0x8a masked mask payload

abbrev pub pieces_bytes : Bool → List Piece → List ℕ
pieces_bytes masked [] = []
pieces_bytes masked (p ∷ ps) = piece_bytes masked p ++ pieces_bytes masked ps

-- What a piece adds to the message, and what its payload takes.
abbrev pub data_of : List Piece → List ℕ
data_of [] = []
data_of (more mask payload ∷ ps) = payload ++ data_of ps
data_of (pong mask payload ∷ ps) = data_of ps

abbrev pub pieces_size : List Piece → ℕ
pieces_size [] = 0
pieces_size (more mask payload ∷ ps) = length payload + pieces_size ps
pieces_size (pong mask payload ∷ ps) = length payload + pieces_size ps

-- A key of four bytes, a payload of bytes, and at most 125 of them in a pong.
abbrev pub IsPiece : Piece → Type 0
IsPiece (more mask payload) = (length mask ≡ 4) × All IsByte mask × All IsByte payload
IsPiece (pong mask payload) =
    (length mask ≡ 4) × All IsByte mask × All IsByte payload × (length payload ≤ 125)

fits_data :
    (fin : Bool) (have len : ℕ) → have + len ≤ max_message_size → is_refused fin 0 len have ≡ false
unfolding is_refused
fits_data fin have len h =
    ap₂ ◌||◌ (ge→ltb max_message_size len (omega arith)) (ge→ltb max_message_size (have + len) h)

fits_begin : (len : ℕ) → len ≤ max_message_size → is_refused false 2 len 0 ≡ false
unfolding is_refused
fits_begin len h =
    ap₂ ◌||◌ (ge→ltb max_message_size len h) (ge→ltb max_message_size (0 + len) (omega arith))

fits_pong :
    (have len : ℕ) → len ≤ 125 → have + len ≤ max_message_size → is_refused true 10 len have ≡ false
unfolding is_refused
fits_pong have len small h =
    ap₂ ◌||◌ (ap₂ ◌||◌ (ge→ltb 125 len small) (ge→ltb max_message_size len (omega arith)))
      (ge→ltb max_message_size (have + len) h)

-- The message so far.
abbrev begun : List ℕ → WsFrame
begun payload = record { opcode = 2; payload = payload; is_close = false; is_valid = false }

-- The loop answers `r` and leaves `rest`.
abbrev Ends : Option WsFrame × Socket → Socket → WsFrame → List ℕ → Type 0
Ends call s r rest = (call.0 ≡ some r) × (stream call.1 ≡ rest) × (call.1.outgoing ≡ s.outgoing)

module _ (masked : Bool) (keys : ℕ → List ℕ) (mask last rest : List ℕ) (four : length mask ≡ 4)
    (hm : All IsByte mask) (hl : All IsByte last) where
  last-Ends :
      (fuel : ℕ) (acc : List ℕ) (s : Socket)
      → length acc + length last ≤ max_message_size
      → stream s ≡ frame_bytes 0x80 masked mask last ++ rest
      → Ends (ws_recv_loop masked keys (suc fuel) (begun acc) true s) s (binary (acc ++ last)) rest
  unfolding on_frame on_data
  last-Ends fuel acc s fits e =
      let (got, left, out, rooms) =
        (Reads-read_frame 0x80 masked (length acc) mask last refl
            (fits_data true (length acc) (length last) fits) four hm hl).run
          rest s e in
      let whole =
        loop_return masked keys fuel (begun acc) true s (received 0x80 last) got
          (binary (acc ++ last)) refl in
      (ap (λ c. c.0) whole, ap (λ c. stream c.1) whole ∙ left, ap (λ c. c.1.outgoing) whole ∙ out)

  pieces-Ends :
      (ps : List Piece) (fuel : ℕ) (acc : List ℕ) (s : Socket)
      → All IsPiece ps
      → length acc + (pieces_size ps + length last) ≤ max_message_size
      → length ps < fuel
      → stream s ≡ pieces_bytes masked ps ++ (frame_bytes 0x80 masked mask last ++ rest)
      → Ends
          (ws_recv_loop masked keys fuel (begun acc) true s)
          s
          (binary (acc ++ (data_of ps ++ last)))
          rest
  unfolding on_frame on_data
  pieces-Ends ps zero acc s h fits enough e = absurd (omega arith)
  pieces-Ends [] (suc fuel) acc s h fits enough e = last-Ends fuel acc s (omega arith) e
  pieces-Ends (more key payload ∷ ps) (suc fuel) acc s h fits enough e =
      let behind = pieces_bytes masked ps ++ (frame_bytes 0x80 masked mask last ++ rest) in
      let (four', hk, hp) = h.0 in
      let (got, left, out, rooms) =
        (Reads-read_frame 0x00 masked (length acc) key payload refl
            (fits_data false (length acc) (length payload) (omega arith)) four' hk hp).run
          behind s
          (e
            ∙ append_assoc (frame_bytes 0x00 masked key payload) (pieces_bytes masked ps)
                (frame_bytes 0x80 masked mask last ++ rest)) in
      let s1 = (read_frame masked (length acc) s).1 in
      let next =
        loop_continue masked keys fuel (begun acc) true s (received 0x00 payload) got
          (begun (acc ++ payload)) true refl in
      let (answer, left', out') =
        pieces-Ends ps fuel (acc ++ payload) s1 h.1 (omega (arith, length-append acc payload))
          (omega arith) left in
      (
        ap (λ c. c.0) next
            ∙ answer
            ∙ ap (λ (l : List ℕ). some (binary l))
                (append_assoc acc payload (data_of ps ++ last)
                  ∙ ap (λ (l : List ℕ). acc ++ l) (sym (append_assoc payload (data_of ps) last))),
        ap (λ c. stream c.1) next ∙ left',
        ap (λ c. c.1.outgoing) next ∙ out' ∙ out,
      )
  pieces-Ends (pong key payload ∷ ps) (suc fuel) acc s h fits enough e =
      let behind = pieces_bytes masked ps ++ (frame_bytes 0x80 masked mask last ++ rest) in
      let (four', hk, hp, small) = h.0 in
      let (got, left, out, rooms) =
        (Reads-read_frame 0x8a masked (length acc) key payload refl
            (fits_pong (length acc) (length payload) small (omega arith)) four' hk hp).run
          behind s
          (e
            ∙ append_assoc (frame_bytes 0x8a masked key payload) (pieces_bytes masked ps)
                (frame_bytes 0x80 masked mask last ++ rest)) in
      let s1 = (read_frame masked (length acc) s).1 in
      let next =
        loop_continue masked keys fuel (begun acc) true s (received 0x8a payload) got (begun acc)
          true refl in
      let (answer, left', out') = pieces-Ends ps fuel acc s1 h.1 (omega arith) (omega arith) left in
      (
        ap (λ c. c.0) next ∙ answer,
        ap (λ c. stream c.1) next ∙ left',
        ap (λ c. c.1.outgoing) next ∙ out' ∙ out,
      )

length-pieces : (masked : Bool) (ps : List Piece) → length ps ≤ length (pieces_bytes masked ps)
length-pieces masked [] = omega arith
length-pieces masked (more mask payload ∷ ps) = omega (
  arith,
  length-append (frame_bytes 0x00 masked mask payload) (pieces_bytes masked ps),
  length-pieces masked ps,
)
length-pieces masked (pong mask payload ∷ ps) = omega (
  arith,
  length-append (frame_bytes 0x8a masked mask payload) (pieces_bytes masked ps),
  length-pieces masked ps,
)

-- A binary frame without FIN, any number of continuation frames without it and of pongs, in any
-- order, and a continuation frame with FIN, which stand one behind the other at the head of the
-- stream, each masked as expected by a key of four bytes, all payloads together of at most 1 MiB and
-- those of the pongs of at most 125 bytes, are received, however they are cut up, as one valid
-- binary message, the payloads of its fragments put together in their order; what follows is left
-- in the stream, and nothing is sent.
pub pieces-Gets :
    (masked : Bool) (keys : ℕ → List ℕ) (key first : List ℕ) (ps : List Piece) (mask last : List ℕ)
    (s : Socket) (rest : List ℕ)
    → length key ≡ 4
    → All IsByte key
    → All IsByte first
    → All IsPiece ps
    → length mask ≡ 4
    → All IsByte mask
    → All IsByte last
    → length first + (pieces_size ps + length last) ≤ max_message_size
    → stream s
      ≡ frame_bytes 0x02 masked key first
        ++ (pieces_bytes masked ps ++ (frame_bytes 0x80 masked mask last ++ rest))
    → Gets (ws_recv_frame masked keys s) s (binary (first ++ (data_of ps ++ last))) rest
unfolding ws_recv_frame empty_frame on_frame on_data
pieces-Gets masked keys key first ps mask last s rest four hk hf h four' hm hl fits e =
    let behind = pieces_bytes masked ps ++ (frame_bytes 0x80 masked mask last ++ rest) in
    let (got, left, out, rooms) =
      (Reads-read_frame 0x02 masked 0 key first refl (fits_begin (length first) (omega arith)) four
          hk hf).run
        behind s e in
    let next =
      loop_continue masked keys (length (stream s)) empty_frame false s (received 0x02 first) got
        (begun first) true refl in
    let (answer, left', out') =
      pieces-Ends masked keys mask last rest four' hm hl ps (length (stream s)) first
        (read_frame masked 0 s).1 h fits
        (omega (
          arith,
          ap length e,
          length-append (frame_bytes 0x02 masked key first) behind,
          length-append (pieces_bytes masked ps) (frame_bytes 0x80 masked mask last ++ rest),
          length-pieces masked ps,
        ))
        left in
    record {
      answer = ap (λ c. c.0) next ∙ answer;
      left = ap (λ c. stream c.1) next ∙ left';
      outgoing = ap (λ c. c.1.outgoing) next ∙ out' ∙ out;
    }
