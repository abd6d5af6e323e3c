-- ===== src/Session/Client/Total.antt =====
-- The client's threads go on: on a stream of bytes, nothing in them throws.
use hello_websocket.Prelude.{
  ◌<◌, ◌≤◌, ◌+◌, ap, length, ◌^◌, ◌≡◌, inl, inr, refl, sym, subst, true, false, Bool-cases, ℕ, ℤ,
  suc, List, All, arith, some, not, ◌||◌, if◌then◌else◌, pos,
}
use hello_websocket.Codec.Outcome.{Result, ok, Result-cases}
use hello_websocket.Codec.Wire.{IsByte, IsI64, Carries, carried, payload}
use hello_websocket.Codec.Wire.RoundTrip.{decode_message-encode, IsEncodable}
use hello_websocket.Codec.Wire.Sound.{decode_message_iff, decode_message-ne-fault}
use hello_websocket.Codec.Message.{
  Message, Kind, kind_of, hello, bonjour, echo_request, echo_response, kiss_request, kiss_response,
  ping, pong, time_notification, random_number, hash_response, disconnect, error, unknown,
  decode_message,
}
use hello_websocket.Transport.Socket.Stream.{stream, stream_same}
use hello_websocket.Transport.Socket.Send.{send_all-Sends}
use hello_websocket.Transport.Frame.{ws_send_binary_masked}
use hello_websocket.Transport.Receive.{ws_recv_frame, WsFrame}
use hello_websocket.Transport.Receive.Shrinks.{ws_recv_frame-Shrinks, valid_of}
use hello_websocket.Transport.Receive.Returns.{ws_recv_frame_returns}
use hello_websocket.Transport.Receive.Bytes.{ws_recv_frame-AreBytes, AreBytes}
use hello_websocket.Session.Round.{Round, goes_on, leaves}
use hello_websocket.Session.Client.{
  Client, send_frame, send_message, pong_reply, kiss_reply, dispatch, on_payload, receive_round,
  random_message, random_turn,
}
use hello_websocket.Session.Client.Replies.{pong_reply-IsEncodable, kiss_reply-IsEncodable}

-- The client's stream is made of bytes.
abbrev pub OnBytes : Client → Type 0
OnBytes c = All IsByte (stream c.socket)

pub send_frame-incoming :
    (mask bytes : List ℕ) (c : Client)
    → (send_frame mask bytes c).1.socket.incoming ≡ c.socket.incoming
unfolding send_frame ws_send_binary_masked
send_frame-incoming mask bytes c = elim (Bool-cases c.active) [
  | inl on ↦ rw (on, send_frame) (send_all-Sends _ c.socket).incoming
  | inr off ↦ rw (off, send_frame) refl
]

pub send_frame-OnBytes :
    (mask bytes : List ℕ) (c : Client) → OnBytes c → OnBytes (send_frame mask bytes c).1
send_frame-OnBytes mask bytes c h =
    subst (All IsByte) (sym (stream_same _ _ (send_frame-incoming mask bytes c))) h

-- A result that has read nothing from the stream.
abbrev Goes : Client → Result Client → Type 0
Goes c r = (c' : Client) × (r ≡ ok c') × (c'.socket.incoming ≡ c.socket.incoming)

sends : (mask : List ℕ) (m : Message) (c : Client) → IsEncodable m → Goes c (send_message mask m c)
unfolding send_message
sends mask m c e =
    let (bytes, written, read) = decode_message-encode m e in
    ((send_frame mask bytes c).1, rw (written, send_message) refl, send_frame-incoming mask bytes c)

dispatch-Goes :
    (mask : List ℕ) (m : Message) (c : Client) (k : Kind)
    → Carries k m
    → Goes c (dispatch k mask m c)
unfolding dispatch
dispatch-Goes mask m c ping t = sends mask (pong_reply m) c (pong_reply-IsEncodable m t)
dispatch-Goes mask m c kiss_request t = sends mask kiss_reply c kiss_reply-IsEncodable
dispatch-Goes mask m c disconnect t = (record c { active = false }, refl, refl)
dispatch-Goes mask m c hello t = (c, refl, refl)
dispatch-Goes mask m c bonjour t = (c, refl, refl)
dispatch-Goes mask m c echo_request t = (c, refl, refl)
dispatch-Goes mask m c echo_response t = (c, refl, refl)
dispatch-Goes mask m c kiss_response t = (c, refl, refl)
dispatch-Goes mask m c pong t = (c, refl, refl)
dispatch-Goes mask m c time_notification t = (c, refl, refl)
dispatch-Goes mask m c random_number t = (c, refl, refl)
dispatch-Goes mask m c hash_response t = (c, refl, refl)
dispatch-Goes mask m c error t = (c, refl, refl)
dispatch-Goes mask m c unknown t = (c, refl, refl)

on_payload-Goes :
    (mask bytes : List ℕ) (c : Client) → All IsByte bytes → Goes c (on_payload mask bytes c)
unfolding on_payload
on_payload-Goes mask bytes c hb = elim (Result-cases (decode_message bytes)) [
  | inl (m, read) ↦
      rw (read, on_payload)
        (dispatch-Goes mask m c (kind_of m.type) ((decode_message_iff bytes m hb).0 read).carries)
  | inr (inl (x, thrown)) ↦ rw (thrown, on_payload) (c, refl, refl)
  | inr (inr failed) ↦ absurd (decode_message-ne-fault bytes hb failed)
]

module _ (keys : ℕ → List ℕ) (mask : List ℕ) (c : Client) (f : WsFrame)
    (got : (ws_recv_frame false keys c.socket).0 ≡ some f) where
  abbrev pub behind : Client
  behind = record c { socket = (ws_recv_frame false keys c.socket).1 }

  pub round_leaves :
      (not f.is_valid || f.is_close) ≡ true → receive_round keys mask c ≡ ok (leaves behind)
  unfolding receive_round
  round_leaves ends = rw (got, ends, receive_round) refl

  pub round_goes_on :
      (not f.is_valid || f.is_close) ≡ false
      → (c' : Client) → on_payload mask f.payload behind ≡ ok c'
      → receive_round keys mask c ≡ ok (goes_on c')
  unfolding receive_round
  round_goes_on more c' e = rw (got, more, e, receive_round) refl

abbrev pub state_of : Round Client → Client
state_of (goes_on c) = c
state_of (leaves c) = c

-- A round after which the loop goes on has taken a header's two bytes at least off the stream.
abbrev pub Shorter : Client → Round Client → Type 0
Shorter c (goes_on c') = length (stream c'.socket) + 2 ≤ length (stream c.socket)
Shorter c (leaves c') = Unit {0}

-- On a stream of bytes, a round of the client's receive loop ends, whatever arrives: it throws no
-- exception, decoding reads nothing outside the payload, its stream is again one of bytes, and it is shorter by two at
-- least if the loop goes on.
pub round_returns :
    (keys : ℕ → List ℕ) (mask : List ℕ) (c : Client)
    → All IsByte (stream c.socket)
    → (r : Round Client) × (receive_round keys mask c ≡ ok r)
      × All IsByte (stream (state_of r).socket)
      × Shorter c r
unfolding AreBytes
round_returns keys mask c h =
    let (f, got, limit, answer) = ws_recv_frame_returns false keys c.socket in
    let bytes = ws_recv_frame-AreBytes false keys c.socket h in
    let next = behind keys mask c f got in
    elim (Bool-cases (not f.is_valid || f.is_close)) [
      | inl ends ↦ (leaves next, round_leaves keys mask c f got ends, bytes.0, tt)
      | inr more ↦
          let (c', done, quiet) = on_payload-Goes mask f.payload next (bytes.1 f got) in
          let same = stream_same next.socket c'.socket quiet in
          let read =
            (ws_recv_frame-Shrinks false keys c.socket).cost f got
              (valid_of f.is_valid f.is_close more) in
          (
            goes_on c',
            round_goes_on keys mask c f got more c' done,
            subst (All IsByte) (sym same) bytes.0,
            omega (arith, read, ap length same),
          )
    ]

pub random_message-IsEncodable :
    (id : ℕ) (number : ℤ)
    → id < 2 ^ 63
    → IsI64 number
    → IsEncodable (random_message (pos id) number)
unfolding random_message kind_of payload
random_message-IsEncodable id number h k = record {
  known = cc;
  carries = (omega arith, k);
  short = omega arith;
}

-- A turn of the random thread of an active client, while the id and the number fit in an i64, hands
-- `wsSendBinaryMasked` bytes that decode to a RANDOM_NUMBER with this id and number. If they are
-- sent, the next turn has the next id and the client is as active as before; if not, the session has
-- ended.
pub random_turn_sends :
    (mask : List ℕ) (number : ℤ) (id : ℕ) (c : Client)
    → c.active ≡ true
    → id < 2 ^ 63
    → IsI64 number
    → (bytes : List ℕ) × (decode_message bytes ≡ ok (random_message (pos id) number))
      × (random_turn mask number id c
          ≡ ok (
              if (ws_send_binary_masked mask bytes c.socket).0
              then (suc id, record c { socket = (ws_send_binary_masked mask bytes c.socket).1 })
              else (
                id,
                record { socket = (ws_send_binary_masked mask bytes c.socket).1; active = false },
              )))
unfolding random_turn random_message send_frame carried kind_of
random_turn_sends mask number id c on h k =
    let (bytes, written, read) =
      decode_message-encode (random_message (pos id) number)
        (random_message-IsEncodable id number h k) in
    (bytes, read, simp (on, written, random_turn))
