-- ===== src/Session/Client/Replies.antt =====
-- What the client answers, and what its cleanup sends.
use hello_websocket.Codec.Message.{new_message}
use hello_websocket.Codec.Wire.Sound.{decode_message_iff}
use hello_websocket.Hash.Digits.{IsText-ascii}
use hello_websocket.Codec.Wire.RoundTrip.{IsEncodable, decode_message-encode}
use hello_websocket.Codec.Wire.{Carries, IsByte, carried, IsI64, payload}
use hello_websocket.Codec.Message.{Message, kind_of, ping, kiss_request, decode_message}
use hello_websocket.Codec.Outcome.{ok}
use hello_websocket.Transport.Frame.{ws_send_binary_masked, ws_send_control}
use hello_websocket.Prelude.{subst, ap, codes, All, arith, ◌∙◌, ℕ, ◌≡◌, refl, true, false, List, []}
use hello_websocket.Session.Client.{
  Client, send_frame, send_message, pong_reply, kiss_reply, disconnect_message, dispatch,
  on_payload, cleanup,
}

-- `reply` was handed to `wsSendBinaryMasked` as bytes that decode to it.
pub record Answers (mask : List ℕ) (st st' : Client) (reply : Message) : Type 0 where
  pub sent : List ℕ
  pub understood : decode_message sent ≡ ok reply
  pub socket : st'.socket ≡ (ws_send_binary_masked mask sent st.socket).1
  pub active : st'.active ≡ st.active

pub send_message-Answers :
    (mask : List ℕ) (m : Message) (st : Client)
    → IsEncodable m
    → carried (kind_of m.type) m ≡ m
    → st.active ≡ true
    → (st' : Client) × (send_message mask m st ≡ ok st') × Answers mask st st' m
unfolding send_message send_frame
send_message-Answers mask m st h full on =
    let (bytes, written, read) = decode_message-encode m h in
    (
      record st { socket = (ws_send_binary_masked mask bytes st.socket).1 },
      rw (written, send_message) (rw (on) refl),
      record { sent = bytes; understood = read ∙ ap ok full; socket = refl; active = refl },
    )

pub pong_reply-IsEncodable : (m : Message) → IsI64 m.timestamp_ms → IsEncodable (pong_reply m)
unfolding pong_reply kind_of payload
pong_reply-IsEncodable m t = record { known = cc; carries = t; short = omega arith }

pub kiss_reply-IsEncodable : IsEncodable kiss_reply
unfolding kiss_reply kind_of payload
kiss_reply-IsEncodable = record {
  known = cc;
  carries = (
    IsText-ascii (codes "en_US") (omega arith) (omega arith),
    IsText-ascii (codes "UTF-8") (omega arith) (omega arith),
    IsText-ascii (codes "UTC") (omega arith) (omega arith),
  );
  short = omega arith;
}

module _ (mask bytes : List ℕ) (st : Client) (on : st.active ≡ true) (m : Message)
    (read : decode_message bytes ≡ ok m) where
  pub dispatched : on_payload mask bytes st ≡ dispatch (kind_of m.type) mask m st
  unfolding on_payload
  dispatched = rw (read, on_payload) refl

  -- While the client is active, a payload of bytes that decodes to a PING is answered by a frame,
  -- handed to `wsSendBinaryMasked`, that decodes to a PONG with its timestamp, and the client
  -- stays active.
  pub ping_answered :
      All IsByte bytes
      → kind_of m.type ≡ ping
      → (st' : Client) × (on_payload mask bytes st ≡ ok st')
        × Answers mask st st' (record (new_message 0x08) { timestamp_ms = m.timestamp_ms })
  unfolding dispatch kind_of pong_reply carried
  ping_answered h k =
      let t = subst (λ k. Carries k m) k ((decode_message_iff bytes m h).0 read).carries in
      let (st', sends, answers) =
        send_message-Answers mask (pong_reply m) st (pong_reply-IsEncodable m t) refl on in
      (st', dispatched ∙ ap (λ k. dispatch k mask m st) k ∙ sends, answers)

  -- While the client is active, a payload that decodes to a KISS_REQUEST is answered by a frame,
  -- handed to `wsSendBinaryMasked`, that decodes to a KISS_RESPONSE with en_US, UTF-8 and UTC,
  -- and the client stays active.
  pub kiss_request_answered :
      kind_of m.type ≡ kiss_request
      → (st' : Client) × (on_payload mask bytes st ≡ ok st')
        × Answers mask st st' (record (new_message 0x06) {
          kiss_language = codes "en_US";
          kiss_encoding = codes "UTF-8";
          kiss_time_zone = codes "UTC";
        })
  unfolding dispatch kind_of kiss_reply carried
  kiss_request_answered k =
      let (st', sends, answers) =
        send_message-Answers mask kiss_reply st kiss_reply-IsEncodable refl on in
      (st', dispatched ∙ ap (λ k. dispatch k mask m st) k ∙ sends, answers)

disconnect_message-IsEncodable : IsEncodable disconnect_message
unfolding disconnect_message kind_of payload
disconnect_message-IsEncodable = record {
  known = cc;
  carries = IsText-ascii (codes "client shutdown") (omega arith) (omega arith);
  short = omega arith;
}

-- Whatever the client's state, its cleanup hands the system nothing but the close frame: the
-- DISCONNECT message is not sent.
pub cleanup-ws_send_control :
    (mask key : List ℕ) (st : Client)
    → cleanup mask key st
      ≡ ok (record { socket = (ws_send_control 8 [] true key st.socket).1; active = false })
unfolding cleanup send_message send_frame
cleanup-ws_send_control mask key st =
    let (bytes, written, read) =
      decode_message-encode disconnect_message disconnect_message-IsEncodable in
    rw (written, cleanup, send_message) refl
