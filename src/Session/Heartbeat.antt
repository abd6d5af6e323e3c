-- ===== src/Session/Heartbeat.antt =====
-- A PING of the server, through the client and back.
use hello_websocket.Session.Server.Invariant.Ticks.{ping_message-IsEncodable}
use hello_websocket.Codec.Wire.RoundTrip.{decode_message-encode}
use hello_websocket.Codec.Wire.{carried}
use hello_websocket.Codec.Message.{encode, kind_of}
use hello_websocket.Codec.Outcome.{ok}
use hello_websocket.Prelude.{◌∙◌, arith, ◌^◌, ◌<◌, ◌≡◌, refl, true, List, ℕ}
use hello_websocket.Transport.Frame.{ws_send_binary_masked}
use hello_websocket.Session.Server.{
  Server, ping_message, on_payload as server_on_payload, dispatch as server_dispatch,
}
use hello_websocket.Session.Server.Replies.{dispatched as server_dispatched}
use hello_websocket.Session.Client.{
  Client, pong_reply, on_payload as client_on_payload, dispatch as client_dispatch,
}
use hello_websocket.Session.Client.Replies.{
  dispatched as client_dispatched, send_message-Answers, pong_reply-IsEncodable,
}

-- The PING that the ping thread encodes at the moment `sent_at`, which fits in an i64, makes an
-- active client hand `wsSendBinaryMasked` the bytes of a PONG, and these make an active server session take the
-- moment `now` at which it decodes them for the last PONG; nothing else of the session changes.
pub heartbeat :
    (sent_at now : ℕ) (mask : List ℕ) (c : Client) (s : Server)
    → sent_at < 2 ^ 63
    → c.active ≡ true
    → s.active ≡ true
    → (ping_bytes : List ℕ) × (pong_bytes : List ℕ) × (c' : Client) × (encode (ping_message sent_at)
        ≡ ok ping_bytes)
      × (client_on_payload mask ping_bytes c ≡ ok c')
      × (c'.socket ≡ (ws_send_binary_masked mask pong_bytes c.socket).1)
      × (server_on_payload now pong_bytes s ≡ ok (record s { last_pong_ts = now }))
unfolding ping_message pong_reply server_dispatch client_dispatch kind_of carried
heartbeat sent_at now mask c s h on on' =
    let (ping_bytes, written, read) =
      decode_message-encode (ping_message sent_at) (ping_message-IsEncodable sent_at h) in
    let m = ping_message sent_at in
    let (c', sends, a) =
      send_message-Answers mask (pong_reply m) c (pong_reply-IsEncodable m (omega arith)) refl on in
    (
      ping_bytes,
      a.sent,
      c',
      written,
      client_dispatched mask ping_bytes c on m read ∙ sends,
      a.socket,
      server_dispatched now a.sent s on' (pong_reply m) a.understood,
    )
