-- ===== src/Transport/Receive/Bytes.antt =====
-- What `wsRecvFrame` returns on a stream of bytes is made of bytes.
use hello_websocket.Prelude.{
  not, ◌&&◌, ◌==◌, refl, sym, inr, subst, inl, Option-cases, ◌≡◌, length, ℕ, zero, suc, Bool, false,
  some, List, All, All-append, Option,
}
use mathlib.Core.Option.{some-injective}
use hello_websocket.Codec.Wire.{IsByte}
use hello_websocket.Transport.Frame.{ws_send_control}
use hello_websocket.Transport.Receive.{
  WsFrame, Step, return, continue, on_data, on_frame, ws_recv_loop, ws_recv_frame, empty_frame,
  Received, read_frame,
}
use hello_websocket.Transport.Receive.Returns.{
  if_both, ws_send_control-incoming, Step-cases, loop_stop, loop_return, loop_continue,
}
use hello_websocket.Transport.Socket.{Socket}
use hello_websocket.Transport.Socket.Stream.{stream, stream_same}
use hello_websocket.Transport.Receive.Keeps.{Keeps-read_frame}

-- The payload of the frame that a step returns or goes on with.
unfoldable pub payload_of : Step → List ℕ
payload_of (return r) = r.payload
payload_of (continue message fragmented) = message.payload

-- What a step leaves on the socket and in the message.
IsRound : Socket → Step × Socket → Type 0
IsRound s (step, s') = All IsByte (payload_of step) × (s'.incoming ≡ s.incoming)

module _ (f : Received) (message : WsFrame) (fragmented : Bool) (hf : All IsByte f.payload)
    (hm : All IsByte message.payload) where
  on_data-bytes : All IsByte (payload_of (on_data f message fragmented))
  unfolding on_data empty_frame payload_of
  on_data-bytes =
      let P : Step → Type 0 = λ step. All IsByte (payload_of step) in
      if_both P (f.opcode == 2 && not fragmented) (λ _. if_both P f.fin (λ _. hf) (λ _. hf))
        (λ _.
          if_both P (f.opcode == 0 && fragmented)
            (λ _.
              let both = All-append IsByte message.payload f.payload hm hf in
              if_both P f.fin (λ _. both) (λ _. both))
            (λ _. tt))

  on_frame-IsRound :
      (expect_masked : Bool) (key : List ℕ) (s : Socket)
      → IsRound s (on_frame expect_masked key f message fragmented s)
  unfolding on_frame IsRound payload_of
  on_frame-IsRound expect_masked key s =
      if_both (IsRound s) (f.opcode == 8)
        (λ _. (hf, ws_send_control-incoming 8 f.payload (not expect_masked) key s))
        (λ _.
          if_both (IsRound s) (f.opcode == 9)
            (λ _. (
              if_both (λ (step : Step). All IsByte (payload_of step))
                  (ws_send_control 10 f.payload (not expect_masked) key s).0 (λ _. hm) (λ _. hm),
              ws_send_control-incoming 10 f.payload (not expect_masked) key s,
            ))
            (λ _.
              if_both (IsRound s) (f.opcode == 10) (λ _. (hm, refl)) (λ _. (on_data-bytes, refl))))

  pub on_frame-bytes :
      (expect_masked : Bool) (key : List ℕ) (s : Socket)
      → All IsByte (payload_of (on_frame expect_masked key f message fragmented s).0)
  unfolding IsRound
  on_frame-bytes expect_masked key s = (on_frame-IsRound expect_masked key s).0

-- The loop leaves a stream of bytes, and answers with bytes.
unfoldable pub AreBytes : Option WsFrame × Socket → Type 0
AreBytes (answer, s) =
    All IsByte (stream s) × ((r : WsFrame) → answer ≡ some r → All IsByte r.payload)

answered :
    (r : WsFrame) (s : Socket) → All IsByte (stream s) → All IsByte r.payload → AreBytes (some r, s)
unfolding AreBytes
answered r s h p =
    (h, λ r' e. subst (λ (x : WsFrame). All IsByte x.payload) (some-injective r r' e) p)

ws_recv_loop-AreBytes :
    (expect_masked : Bool) (keys : ℕ → List ℕ) (fuel : ℕ) (message : WsFrame) (fragmented : Bool)
    (s : Socket)
    → All IsByte (stream s)
    → All IsByte message.payload
    → AreBytes (ws_recv_loop expect_masked keys fuel message fragmented s)
unfolding IsRound payload_of
ws_recv_loop-AreBytes expect_masked keys zero message fragmented s h p =
    unfold ws_recv_loop in unfold AreBytes in (h, λ r e. cc)
ws_recv_loop-AreBytes expect_masked keys (suc fuel) message fragmented s h p =
    let keeps = Keeps-read_frame expect_masked (length message.payload) in
    let s1 = (read_frame expect_masked (length message.payload) s).1 in
    let h1 = keeps.kept s h in
    elim (Option-cases (read_frame expect_masked (length message.payload) s).0) [
      | inl none_read ↦
          subst AreBytes (sym (loop_stop expect_masked keys fuel message fragmented s none_read))
            (answered message s1 h1 p)
      | inr (f, read) ↦
          let (bytes, same) =
            on_frame-IsRound f message fragmented (keeps.sound s h f read) p expect_masked
              (keys fuel) s1 in
          let s2 = (on_frame expect_masked (keys fuel) f message fragmented s1).1 in
          let h2 = subst (All IsByte) (sym (stream_same s1 s2 same)) h1 in
          elim (Step-cases (on_frame expect_masked (keys fuel) f message fragmented s1).0) [
            | inl (r, e) ↦
                subst AreBytes
                  (sym (loop_return expect_masked keys fuel message fragmented s f read r e))
                  (answered r s2 h2 (subst (λ (step : Step). All IsByte (payload_of step)) e bytes))
            | inr (message', fragmented', e) ↦
                subst AreBytes
                  (sym (
                    loop_continue expect_masked keys fuel message fragmented s f read message'
                      fragmented' e))
                  (ws_recv_loop-AreBytes expect_masked keys fuel message' fragmented' s2 h2
                    (subst (λ (step : Step). All IsByte (payload_of step)) e bytes))
          ]
    ]

-- On a stream of bytes, `wsRecvFrame` leaves a stream of bytes, and its payload is bytes.
pub ws_recv_frame-AreBytes :
    (expect_masked : Bool) (keys : ℕ → List ℕ) (s : Socket)
    → All IsByte (stream s)
    → AreBytes (ws_recv_frame expect_masked keys s)
unfolding ws_recv_frame empty_frame
ws_recv_frame-AreBytes expect_masked keys s h =
    ws_recv_loop-AreBytes expect_masked keys (suc (length (stream s))) empty_frame false s h tt
