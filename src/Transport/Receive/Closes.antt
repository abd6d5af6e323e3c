-- ===== src/Transport/Receive/Closes.antt =====
-- `wsRecvFrame` on a close frame.
use hello_websocket.Prelude.{
  false, ◌≤◌, ◌≡◌, ◌∙◌, ◌++◌, ap, arith, length, ℕ, Bool, true, not, some, List, All, refl,
}
use hello_websocket.Codec.Wire.{IsByte}
use hello_websocket.Transport.Socket.{Socket}
use hello_websocket.Transport.Socket.Stream.{stream}
use hello_websocket.Transport.Frame.{ws_send_control, control_bytes}
use hello_websocket.Transport.Receive.{WsFrame, read_frame, on_frame, ws_recv_frame, empty_frame}
use hello_websocket.Transport.Receive.Returns.{loop_return}
use hello_websocket.Transport.Receive.RoundTrip.{received, Reads-read_frame}
use hello_websocket.Transport.Receive.Arrives.{control_bytes-frame, fits_control}

abbrev pub closing : List ℕ → WsFrame
closing payload = record { opcode = 8; payload = payload; is_close = true; is_valid = true }

-- For a close frame of at most 125 bytes at the head of the stream, `wsRecvFrame` takes it, hands
-- `wsSendControl` a close frame with its payload, and returns it.
pub close-ws_recv_frame :
    (masked : Bool) (key payload : List ℕ) (keys : ℕ → List ℕ) (s : Socket) (rest : List ℕ)
    → length payload ≤ 125
    → length key ≡ 4
    → All IsByte key
    → All IsByte payload
    → stream s ≡ control_bytes 8 payload masked key ++ rest
    → (s1 : Socket) × (stream s1 ≡ rest)
      × (s1.outgoing ≡ s.outgoing)
      × (ws_recv_frame masked keys s ≡ (
        some (closing payload),
        (ws_send_control 8 payload (not masked) (keys (length (stream s))) s1).1,
      ))
unfolding ws_recv_frame empty_frame on_frame
close-ws_recv_frame masked key payload keys s rest small four hm hp e =
    let (got, left, out, rooms) =
      (Reads-read_frame 0x88 masked 0 key payload refl
          (fits_control masked key payload keys empty_frame false s rest small (omega arith) four hm
            hp 8)
          four hm hp).run
        rest s
        (e ∙ ap (λ (l : List ℕ). l ++ rest) (control_bytes-frame 8 payload masked key small)) in
    (
      (read_frame masked 0 s).1,
      left,
      out,
      loop_return masked keys (length (stream s)) empty_frame false s (received 0x88 payload) got
          (closing payload) refl,
    )
