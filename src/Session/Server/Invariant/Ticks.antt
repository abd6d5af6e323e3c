-- ===== src/Session/Server/Invariant/Ticks.antt =====
-- The turns of the threads that send throw nothing.
use hello_websocket.Prelude.{
  ◌<◌, ◌^◌, ◌≡◌, inl, inr, false, Bool-cases, ℕ, length, arith, codes, if◌then◌else◌,
}
use hello_websocket.Codec.KvMap.{Text}
use hello_websocket.Codec.Outcome.{Returns, ok}
use hello_websocket.Codec.Wire.{IsText, payload}
use hello_websocket.Codec.Wire.RoundTrip.{decode_message-encode, IsEncodable}
use hello_websocket.Codec.Message.{Message, kind_of}
use hello_websocket.Hash.Digits.{IsText-ascii}
use hello_websocket.Session.Server.{
  Server, send_frame, tick, ping_message, time_message, kiss_message,
}

tick-Returns : (m : Message) (st : Server) → IsEncodable m → Returns (tick m st)
unfolding tick
tick-Returns m st h =
    let (bytes, written, read) = decode_message-encode m h in
    elim (Bool-cases st.active) [
      | inr off ↦ (st, simp (off, tick))
      | inl on ↦ (
        (if (send_frame bytes st).0
            then (send_frame bytes st).1
            else record (send_frame bytes st).1 { active = false }),
        simp (on, written, tick),
      )
    ]

pub ping_message-IsEncodable : (now : ℕ) → now < 2 ^ 63 → IsEncodable (ping_message now)
unfolding ping_message kind_of payload
ping_message-IsEncodable now t = record { known = cc; carries = omega arith; short = omega arith }

time_message-IsEncodable :
    (now : ℕ) (iso : Text)
    → now < 2 ^ 63
    → IsText iso
    → length iso < 2 ^ 31
    → IsEncodable (time_message now iso)
unfolding time_message kind_of payload
time_message-IsEncodable now iso t h l = record {
  known = cc;
  carries = (omega arith, h);
  short = omega arith;
}

kiss_message-IsEncodable : IsEncodable kiss_message
unfolding kiss_message kind_of payload
kiss_message-IsEncodable = record {
  known = cc;
  carries = (
    IsText-ascii (codes "Linux") (omega arith) (omega arith),
    IsText-ascii (codes "unknown") (omega arith) (omega arith),
    IsText-ascii (codes "unknown") (omega arith) (omega arith),
    IsText-ascii (codes "x86_64") (omega arith) (omega arith),
  );
  short = omega arith;
}

-- At a moment that fits in an i64, with a time that is a text of fewer than 2^31 bytes, the turns of
-- the three threads that send end, whatever the session's state: they throw no exception.
pub ticks_return :
    (now : ℕ) (iso : Text) (st : Server)
    → now < 2 ^ 63
    → IsText iso
    → length iso < 2 ^ 31
    → ((st' : Server) × (tick (ping_message now) st ≡ ok st'))
      × ((st' : Server) × (tick (time_message now iso) st ≡ ok st'))
      × ((st' : Server) × (tick kiss_message st ≡ ok st'))
ticks_return now iso st t h l = (
  tick-Returns (ping_message now) st (ping_message-IsEncodable now t),
  tick-Returns (time_message now iso) st (time_message-IsEncodable now iso t h l),
  tick-Returns kiss_message st kiss_message-IsEncodable,
)
