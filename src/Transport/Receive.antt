-- ===== src/Transport/Receive.antt =====
-- `WSFrame` and `wsRecvFrame`.
pub mod Reads
pub mod Bounded
pub mod Returns
pub mod Lengths
pub mod RoundTrip
pub mod Arrives
pub mod Fragments
pub mod Keeps
pub mod Bytes
pub mod Shrinks
pub mod Closes
use hello_websocket.Prelude.{
  element, ℕ, zero, suc, ◌+◌, ◌*◌, ◌%◌, ◌^◌, List, [], ◌∷◌, ◌++◌, length, ltb, leb, ◌==◌, not, ◌&&◌,
  ◌||◌, if◌then◌else◌, Bool, true, false, bit_or, bit_and, Option, none, some,
}
use hello_websocket.Transport.Socket.{Socket, recv_all, recv_loop}
use hello_websocket.Transport.Socket.Stream.{stream}
use hello_websocket.Transport.Frame.{mask_from, ws_send_control}

-- `opcode` is not set by the default constructor; it counts as 0 here until it is assigned.
pub record WsFrame : Type 0 where
  pub opcode : ℕ
  pub payload : List ℕ
  pub is_close : Bool
  pub is_valid : Bool

unfoldable pub empty_frame : WsFrame
empty_frame = record { opcode = 0; payload = []; is_close = false; is_valid = false }

abbrev pub max_message_size : ℕ
max_message_size = 1024 * 1024

-- Statements of the loop's body up to the unmasked payload; `none` is `return message`.
abbrev pub Receiving : Type 0 → Type 0
Receiving A = Socket → Option A × Socket

infixl 5 ◌>>=◌
abbrev pub ◌>>=◌ : {A B : Type 0} → Receiving A → (A → Receiving B) → Receiving B
◌>>=◌ m f s = let (o, s') = m s in elim o [ none ↦ (none, s') | some a ↦ f a s' ]

abbrev pub done : {A : Type 0} → A → Receiving A
done a s = (some a, s)

abbrev pub return_if : {A : Type 0} → Bool → Receiving A → Receiving A
return_if test m s = if test then (none, s) else m s

-- `payloadLen = (payloadLen << 8) | b` for each byte, in 64 bits.
unfoldable pub join_bytes : ℕ → List ℕ → ℕ
join_bytes acc [] = acc
join_bytes acc (b ∷ bs) = join_bytes (bit_or (acc * 2 ^ 8 % 2 ^ 64) b) bs

-- The eight bytes of a long length, the highest bit clear.
unfoldable pub long_len : List ℕ → Receiving ℕ
long_len ext = return_if (not (bit_and (element ext 0) 0x80 == 0)) (done (join_bytes 0 ext))

-- `payloadLen`, from the low seven bits of the second byte.
unfoldable pub extend_len : ℕ → Receiving ℕ
extend_len len =
    if len == 126
    then (recv_all 2 >>= λ ext. done (join_bytes 0 ext))
    else if len == 127
    then (recv_all 8 >>= long_len)
    else done len

-- What the loop's body has read: the bits of the header and the unmasked payload.
pub record Received : Type 0 where
  pub fin : Bool
  pub opcode : ℕ
  pub payload : List ℕ

-- The refusals that depend on the length.
unfoldable pub is_refused : Bool → ℕ → ℕ → ℕ → Bool
is_refused fin opcode len have =
    (leb 8 opcode && (not fin || ltb 125 len))
    || ltb max_message_size len
    || ltb max_message_size (have + len)

unfoldable pub read_mask : Bool → Receiving (List ℕ)
read_mask masked = if masked then recv_all 4 else done (0 ∷ 0 ∷ 0 ∷ 0 ∷ [])

unfoldable pub read_unmasked : Bool → ℕ → List ℕ → Receiving (List ℕ)
read_unmasked masked len mask = do
  payload ← if ltb 0 len then recv_all len else done []
  done (if masked then mask_from mask 0 payload else payload)

unfoldable pub read_payload : Bool → ℕ → Receiving (List ℕ)
read_payload masked len = read_mask masked >>= read_unmasked masked len

-- From the refusals by length on; `have` is `message.payload.size()`.
unfoldable pub read_body : Bool → ℕ → Bool → ℕ → ℕ → Receiving Received
read_body fin opcode masked have len = return_if (is_refused fin opcode len have) (
    read_payload masked len >>= λ payload.
    done (record { fin = fin; opcode = opcode; payload = payload }))

-- A reserved bit is set, or the mask bit is not as expected.
unfoldable pub is_bad_header : Bool → ℕ → ℕ → Bool
is_bad_header expect_masked h0 h1 =
    let masked = not (bit_and h1 0x80 == 0) in
    not (bit_and h0 0x70 == 0) || (if expect_masked then not masked else masked)

-- Behind the two bytes of the header.
unfoldable pub read_header : Bool → ℕ → ℕ → ℕ → Receiving Received
read_header expect_masked have h0 h1 =
    let fin = not (bit_and h0 0x80 == 0) in
    let opcode = bit_and h0 0xf in
    let masked = not (bit_and h1 0x80 == 0) in
    return_if (is_bad_header expect_masked h0 h1)
      (extend_len (bit_and h1 0x7f) >>= read_body fin opcode masked have)

unfoldable pub read_frame : Bool → ℕ → Receiving Received
read_frame expect_masked have =
    recv_all 2 >>= λ hdr. read_header expect_masked have (element hdr 0) (element hdr 1)

-- How a round of the loop ends.
pub data Step : Type 0 where
  return : WsFrame → Step
  continue : WsFrame → Bool → Step

-- A data frame, or an opcode that is out of place.
unfoldable pub on_data : Received → WsFrame → Bool → Step
on_data f message fragmented =
    if f.opcode == 2 && not fragmented
    then (let message' = record message { opcode = f.opcode; payload = f.payload } in
        if f.fin then return (record message' { is_valid = true }) else continue message' true)
    else if f.opcode == 0 && fragmented
    then (let message' = record message { payload = message.payload ++ f.payload } in
        if f.fin
        then return (record message' { is_valid = true })
        else continue message' fragmented)
    else return empty_frame

unfoldable pub on_frame : Bool → List ℕ → Received → WsFrame → Bool → Socket → Step × Socket
unfolding on_data
on_frame expect_masked key f message fragmented s =
    if f.opcode == 8
    then (let (sent, s') = ws_send_control 8 f.payload (not expect_masked) key s in
        (return (record { opcode = 8; payload = f.payload; is_close = true; is_valid = true }), s'))
    else if f.opcode == 9
    then (let (sent, s') = ws_send_control 10 f.payload (not expect_masked) key s in
        (if sent then continue message fragmented else return message, s'))
    else if f.opcode == 10
    then (continue message fragmented, s)
    else (on_data f message fragmented, s)

-- The loop, on fuel. `keys` are the random keys of the replies, by the fuel at which they are drawn; `none`
-- is fuel used up.
unfoldable pub ws_recv_loop :
    Bool → (ℕ → List ℕ) → ℕ → WsFrame → Bool → Socket → Option WsFrame × Socket
ws_recv_loop expect_masked keys zero message fragmented s = (none, s)
ws_recv_loop expect_masked keys (suc fuel) message fragmented s =
    let (got, s1) = read_frame expect_masked (length message.payload) s in
    elim got [
      | none ↦ (some message, s1)
      | some f ↦
          let (step, s2) = on_frame expect_masked (keys fuel) f message fragmented s1 in
          elim step [
            | return result ↦ (some result, s2)
            | continue message' fragmented' ↦
                ws_recv_loop expect_masked keys fuel message' fragmented' s2
          ]
    ]

-- Each round that goes on takes a header's two bytes at least off the stream.
unfoldable pub ws_recv_frame : Bool → (ℕ → List ℕ) → Socket → Option WsFrame × Socket
unfolding ws_recv_loop read_frame on_frame
ws_recv_frame expect_masked keys s =
    ws_recv_loop expect_masked keys (suc (length (stream s))) empty_frame false s
