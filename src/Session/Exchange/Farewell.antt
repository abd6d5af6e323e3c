-- ===== src/Session/Exchange/Farewell.antt =====
-- The end of `tryConnect`, and the session of `handleClient` that it ends.
use hello_websocket.Prelude.{
  ◌≤◌, ◌<◌, ◌≡◌, ◌∙◌, ◌++◌, refl, ap, true, false, List, ℕ, [], All, length, length-append, arith,
}
use hello_websocket.Codec.Outcome.{ok}
use hello_websocket.Codec.Wire.{IsByte}
use hello_websocket.Transport.Socket.{Socket}
use hello_websocket.Transport.Socket.Stream.{stream}
use hello_websocket.Transport.Socket.Send.{send_all_whole, send_all_succeeds}
use hello_websocket.Transport.Frame.{ws_send_control, control_bytes, mask_from}
use hello_websocket.Transport.Receive.Closes.{close-ws_recv_frame, closing}
use hello_websocket.Session.Round.{leaves}
use hello_websocket.Session.Client.{Client, cleanup}
use hello_websocket.Session.Client.Replies.{cleanup-ws_send_control}
use hello_websocket.Session.Server.{Server, receive_round}
use hello_websocket.Session.Server.Invariant.Rounds.{round_leaves}

-- For a key of four bytes and a system that takes a byte at each call of `::send`: the client's
-- cleanup hands the system a masked close frame and nothing else, and the client is inactive; and
-- where this frame comes next, however it is cut up, the server's loop is left with what is behind
-- the frame still in the stream, after an unmasked close frame is handed to `wsSendControl`.
pub cleanup_ends_session :
    (bye key : List ℕ) (keys : ℕ → List ℕ) (now : ℕ) (c : Client) (st : Server) (rest : List ℕ)
    → length key ≡ 4
    → All IsByte key
    → length (control_bytes 8 [] true key) ≤ length c.socket.rooms
    → All (λ (room : ℕ). 0 < room) c.socket.rooms
    → stream st.socket ≡ control_bytes 8 [] true key ++ rest
    → (c' : Client) × (s' : Socket) × (cleanup bye key c ≡ ok c')
      × (c'.active ≡ false)
      × (c'.socket.outgoing ≡ c.socket.outgoing ++ control_bytes 8 [] true key)
      × (stream s' ≡ rest)
      × (s'.outgoing ≡ st.socket.outgoing)
      × (receive_round keys now st
          ≡ ok (
              leaves (record st {
                socket = (ws_send_control 8 [] false (keys (length (stream st.socket))) s').1;
              })))
unfolding ws_send_control control_bytes mask_from
cleanup_ends_session bye key keys now c st rest four hm room live arrives =
    let frame = control_bytes 8 [] true key in
    let (s', left, out, got) =
      close-ws_recv_frame true key [] keys st.socket rest (omega arith) four hm tt arrives in
    (
      record { socket = (ws_send_control 8 [] true key c.socket).1; active = false },
      s',
      cleanup-ws_send_control bye key c,
      refl,
      send_all_whole frame c.socket (
          send_all_succeeds frame c.socket (omega (arith, length-append key (mask_from key 0 [])))
            room live),
      left,
      out,
      round_leaves keys now st (closing []) (ap (λ r. r.0) got) refl
          ∙ ap (λ r. ok (leaves (record st { socket = r.1 }))) got,
    )
