-- ===== src/Transport/Receive/Arrives.antt =====
-- `wsRecvFrame` on the frames that the other side sends.
use hello_websocket.Prelude.{
  ℕ-cases, inr, inl, append-nil, Bool-cases, ltb, leb, sym, [], if◌then◌else◌, ◌&&◌,
}
use mathlib.Core.List.{append_cancel_left}
use hello_websocket.Transport.Socket.Send.{send_all-Sends}
use hello_websocket.Transport.Socket.{send_all}
use hello_websocket.Transport.Receive.Returns.{loop_continue, loop_return}
use hello_websocket.Transport.Receive.RoundTrip.{received, Reads-read_frame, frame_bytes}
use hello_websocket.Codec.Wire.{IsByte}
use hello_websocket.Prelude.{
  arith, lt→ltb, bit_and, ◌||◌, not, ap₂, suc, bit_or, ge→ltb, ◌+◌, ◌∙◌, ap, ◌++◌, All, ◌≤◌, some,
  length, ℕ, Bool, Option, ◌≡◌, refl, ◌∷◌, List, true, false,
}
use hello_websocket.Transport.Frame.{
  length_bytes, ws_send_binary, ws_send_binary_masked, ws_send_control, control_bytes,
}
use hello_websocket.Transport.Receive.{
  read_frame, stream, Socket, is_refused, max_message_size, WsFrame, on_frame, on_data, return,
  continue, ws_recv_loop, ws_recv_frame, empty_frame,
}

abbrev pub binary : List ℕ → WsFrame
binary payload = record { opcode = 2; payload = payload; is_close = false; is_valid = true }

-- The call answers `r`, takes what is before `rest` and sends nothing.
pub record Gets (call : Option WsFrame × Socket) (s : Socket) (r : WsFrame) (rest : List ℕ)
    : Type 0 where
  pub answer : call.0 ≡ some r
  pub left : stream call.1 ≡ rest
  pub outgoing : call.1.outgoing ≡ s.outgoing

module _ (masked : Bool) (mask payload : List ℕ) (fits : length payload ≤ max_message_size)
    (four : length mask ≡ 4) (hm : All IsByte mask) (hp : All IsByte payload) where
  fits_alone : is_refused true 2 (length payload) 0 ≡ false
  unfolding is_refused
  fits_alone =
      ap₂ ◌||◌ (ge→ltb max_message_size (length payload) fits)
        (ge→ltb max_message_size (0 + length payload) (omega arith))

  pub binary_frame-Gets :
      (keys : ℕ → List ℕ) (s : Socket) (rest : List ℕ)
      → stream s ≡ frame_bytes 0x82 masked mask payload ++ rest
      → Gets (ws_recv_frame masked keys s) s (binary payload) rest
  unfolding ws_recv_frame empty_frame on_frame on_data
  binary_frame-Gets keys s rest e =
      let (got, left, out, rooms) =
        (Reads-read_frame 0x82 masked 0 mask payload refl fits_alone four hm hp).run rest s e in
      let whole =
        loop_return masked keys (length (stream s)) empty_frame false s (received 0x82 payload) got
          (binary payload) refl in
      record {
        answer = ap (λ (c : Option WsFrame × Socket). c.0) whole;
        left = ap (λ (c : Option WsFrame × Socket). stream c.1) whole ∙ left;
        outgoing = ap (λ (c : Option WsFrame × Socket). c.1.outgoing) whole ∙ out;
      }

-- The bytes that a send which returns true has handed to the system.
pub sent_whole :
    (bytes sent : List ℕ) (s : Socket)
    → (send_all bytes s).0 ≡ true
    → (send_all bytes s).1.outgoing ≡ s.outgoing ++ sent
    → sent ≡ bytes
sent_whole bytes sent s success e =
    let r = send_all-Sends bytes s in
    append_cancel_left s.outgoing sent r.taken (sym e ∙ r.outgoing)
    ∙ sym (append-nil r.taken)
    ∙ ap (λ (l : List ℕ). r.taken ++ l) (sym (r.whole success))
    ∙ sym r.parts

-- For a payload of at most 1 MiB and a key of four bytes: when `wsSendBinaryMasked` returns true,
-- what it has sent is received, however it is cut up, by `wsRecvFrame` that expects masked
-- frames, as a valid binary message with that payload; what follows is left in the stream, and
-- nothing is sent back.
pub ws_recv_frame-ws_send_binary_masked :
    (mask payload : List ℕ) (keys : ℕ → List ℕ) (client server : Socket) (sent rest : List ℕ)
    → length payload ≤ max_message_size
    → length mask ≡ 4
    → All IsByte mask
    → All IsByte payload
    → (ws_send_binary_masked mask payload client).0 ≡ true
    → (ws_send_binary_masked mask payload client).1.outgoing ≡ client.outgoing ++ sent
    → stream server ≡ sent ++ rest
    → Gets (ws_recv_frame true keys server) server (binary payload) rest
unfolding ws_send_binary_masked
ws_recv_frame-ws_send_binary_masked mask payload keys client server sent rest fits four hm hp
      success e arrived =
    binary_frame-Gets true mask payload fits four hm hp keys server rest
      (arrived ∙ ap (λ (l : List ℕ). l ++ rest) (sent_whole _ sent client success e))

-- For a payload of at most 1 MiB: when `wsSendBinary` returns true, what it has sent is received,
-- however it is cut up, by `wsRecvFrame` that expects frames without a mask, as a valid binary
-- message with that payload; what follows is left in the stream, and nothing is sent back.
pub ws_recv_frame-ws_send_binary :
    (payload : List ℕ) (keys : ℕ → List ℕ) (server client : Socket) (sent rest : List ℕ)
    → length payload ≤ max_message_size
    → All IsByte payload
    → (ws_send_binary payload server).0 ≡ true
    → (ws_send_binary payload server).1.outgoing ≡ server.outgoing ++ sent
    → stream client ≡ sent ++ rest
    → Gets (ws_recv_frame false keys client) client (binary payload) rest
unfolding ws_send_binary
ws_recv_frame-ws_send_binary payload keys server client sent rest fits hp success e arrived =
    binary_frame-Gets false (0 ∷ 0 ∷ 0 ∷ 0 ∷ []) payload fits refl
      (omega arith, (omega arith, (omega arith, (omega arith, tt)))) hp keys client rest
      (arrived ∙ ap (λ (l : List ℕ). l ++ rest) (sent_whole _ sent server success e))

and_false : (a b : Bool) → b ≡ false → (a && b) ≡ false
and_false true b e = e
and_false false b e = refl

-- Two fragments of a binary message.
module _ (masked : Bool) (mask₁ mask₂ first second : List ℕ)
    (fits : length first + length second ≤ max_message_size) (four₁ : length mask₁ ≡ 4)
    (four₂ : length mask₂ ≡ 4) (h₁ : All IsByte mask₁) (h₂ : All IsByte mask₂)
    (p₁ : All IsByte first) (p₂ : All IsByte second) where
  fits_first : is_refused false 2 (length first) 0 ≡ false
  unfolding is_refused
  fits_first =
      ap₂ ◌||◌ (ge→ltb max_message_size (length first) (omega arith))
        (ge→ltb max_message_size (0 + length first) (omega arith))

  fits_second : is_refused true 0 (length second) (length first) ≡ false
  unfolding is_refused
  fits_second =
      ap₂ ◌||◌ (ge→ltb max_message_size (length second) (omega arith))
        (ge→ltb max_message_size (length first + length second) fits)

  abbrev begun : WsFrame
  begun = record { opcode = 2; payload = first; is_close = false; is_valid = false }

  -- A binary frame without FIN and a continuation frame with it, which stand one behind the other
  -- at the head of the stream, each masked as expected and both together of at most 1 MiB, are
  -- received as one valid binary message; what follows is left in the stream, and nothing is sent.
  pub fragments-Gets :
      (keys : ℕ → List ℕ) (s : Socket) (rest : List ℕ)
      → stream s
        ≡ frame_bytes 0x02 masked mask₁ first ++ (frame_bytes 0x80 masked mask₂ second ++ rest)
      → Gets (ws_recv_frame masked keys s) s (binary (first ++ second)) rest
  unfolding ws_recv_frame empty_frame on_frame on_data
  fragments-Gets keys s rest e =
      let s1 = (read_frame masked 0 s).1 in
      let (got1, left1, out1, rooms1) =
        (Reads-read_frame 0x02 masked 0 mask₁ first refl fits_first four₁ h₁ p₁).run
          (frame_bytes 0x80 masked mask₂ second ++ rest) s e in
      let (got2, left2, out2, rooms2) =
        (Reads-read_frame 0x80 masked (length first) mask₂ second refl fits_second four₂ h₂ p₂).run
          rest s1 left1 in
      let whole : ws_recv_frame masked keys s
          ≡ (some (binary (first ++ second)), (read_frame masked (length first) s1).1) =
        (elim (ℕ-cases (length (stream s))) [
          | inl z ↦ absurd (omega (arith, z, ap length e))
          | inr (k, more) ↦
              loop_continue masked keys (length (stream s)) empty_frame false s
                (received 0x02 first) got1 begun true refl
              ∙ ap (λ (fuel : ℕ). ws_recv_loop masked keys fuel begun true s1) more
              ∙ loop_return masked keys k begun true s1 (received 0x80 second) got2
                  (binary (first ++ second)) refl
        ]) in
      record {
        answer = ap (λ (c : Option WsFrame × Socket). c.0) whole;
        left = ap (λ (c : Option WsFrame × Socket). stream c.1) whole ∙ left2;
        outgoing = ap (λ (c : Option WsFrame × Socket). c.1.outgoing) whole ∙ out2 ∙ out1;
      }

-- A control frame on the wire is what `wsSendControl` puts together.
pub control_bytes-frame :
    (opcode : ℕ) (payload : List ℕ) (masked : Bool) (key : List ℕ)
    → length payload ≤ 125
    → control_bytes opcode payload masked key
      ≡ frame_bytes (bit_or 0x80 (bit_and opcode 0xf)) masked key payload
unfolding control_bytes length_bytes
control_bytes-frame opcode payload true key small =
    rw (lt→ltb (length payload) 126 (omega arith)) refl
control_bytes-frame opcode payload false key small =
    rw (lt→ltb (length payload) 126 (omega arith)) refl

module _ (masked : Bool) (key payload : List ℕ) (keys : ℕ → List ℕ) (message : WsFrame)
    (fragmented : Bool) (s : Socket) (rest : List ℕ) (small : length payload ≤ 125)
    (fits : length message.payload + length payload ≤ max_message_size) (four : length key ≡ 4)
    (hm : All IsByte key) (hp : All IsByte payload) where
  pub fits_control :
      (opcode : ℕ) → is_refused true opcode (length payload) (length message.payload) ≡ false
  unfolding is_refused
  fits_control opcode =
      ap₂ ◌||◌
        (ap₂ ◌||◌
          (and_false (leb 8 opcode) (ltb 125 (length payload)) (ge→ltb 125 (length payload) small))
          (ge→ltb max_message_size (length payload) (omega arith)))
        (ge→ltb max_message_size (length message.payload + length payload) fits)

  -- For a ping of at most 125 bytes at the head of the stream, which fits beside the message so
  -- far: a round of the loop takes the ping and hands `wsSendControl` a pong with its payload. If
  -- this is sent, the loop goes on with the message so far, and else it returns that message.
  pub ping-ws_recv_loop :
      (fuel : ℕ)
      → stream s ≡ control_bytes 9 payload masked key ++ rest
      → (s1 : Socket) × (stream s1 ≡ rest)
        × (s1.outgoing ≡ s.outgoing)
        × (ws_recv_loop masked keys (suc fuel) message fragmented s ≡ (
            let (sent, s2) = ws_send_control 10 payload (not masked) (keys fuel) s1 in
            if sent
            then ws_recv_loop masked keys fuel message fragmented s2
            else (some message, s2)))
  unfolding on_frame
  ping-ws_recv_loop fuel e =
      let (got, left, out, rooms) =
        (Reads-read_frame 0x89 masked (length message.payload) key payload refl (fits_control 9)
            four hm hp).run
          rest s
          (e ∙ ap (λ (l : List ℕ). l ++ rest) (control_bytes-frame 9 payload masked key small)) in
      let s1 = (read_frame masked (length message.payload) s).1 in
      let reply = ws_send_control 10 payload (not masked) (keys fuel) s1 in
      (
        s1,
        left,
        out,
        elim (Bool-cases reply.0) [
          | inl sent ↦
              loop_continue masked keys fuel message fragmented s (received 0x89 payload) got
                message fragmented
                (ap (λ (b : Bool). if b then continue message fragmented else return message) sent)
              ∙ sym (
                  ap
                    (λ (b : Bool).
                      if b
                      then ws_recv_loop masked keys fuel message fragmented reply.1
                      else (some message, reply.1))
                    sent)
          | inr failed ↦
              loop_return masked keys fuel message fragmented s (received 0x89 payload) got message
                (ap (λ (b : Bool). if b then continue message fragmented else return message)
                  failed)
              ∙ sym (
                  ap
                    (λ (b : Bool).
                      if b
                      then ws_recv_loop masked keys fuel message fragmented reply.1
                      else (some message, reply.1))
                    failed)
        ],
      )
