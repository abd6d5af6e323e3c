-- ===== src/Session/Server/Runs.antt =====
-- The interleavings of a session's threads: the receive loop, which takes a step for each test of
-- `active`, each frame in `wsRecvFrame` and each message, and the four background threads, each turn
-- of which is a step. A step holds the lock of `sendFrame` or sends one control frame.
pub mod Frames
use hello_websocket.Prelude.{
  Option, ◌≡◌, ◌⊎◌, refl, true, false, List, ℕ, Bool, [], ◌++◌, length, none, some, not, ◌||◌,
  if◌then◌else◌,
}
use hello_websocket.Codec.Outcome.{ok, throw, Exception}
use hello_websocket.Codec.KvMap.{Text}
use hello_websocket.Transport.Frame.{control_bytes}
use hello_websocket.Transport.Receive.{
  WsFrame, Received, Step as FrameStep, return, continue, empty_frame, read_frame, on_frame,
  max_message_size,
}
use hello_websocket.Session.Server.{
  Socket, Message, Server, on_payload, tick, ping_message, time_message, kiss_message,
  timeout_check,
}

-- Where the receive thread stands: at the test of `while (active)`, in the loop of `wsRecvFrame`,
-- behind its call with a frame, or behind the loop.
pub data Place : Type 0 where
  testing : Place
  reading : WsFrame → Bool → Place
  handling : WsFrame → Place
  behind : Place

pub record Running : Type 0 where
  pub server : Server
  pub place : Place

-- Where a round of the loop of `wsRecvFrame` leads.
abbrev pub after : FrameStep → Place
after (return f) = handling f
after (continue message fragmented) = reading message fragmented

-- What the loop of `wsRecvFrame` has read, and what it does with the frame `f`.
abbrev pub read_from : WsFrame → Server → Option Received × Socket
read_from message st = read_frame true (length message.payload) st.socket

abbrev pub framed_by : List ℕ → Received → WsFrame → Bool → Server → FrameStep × Socket
framed_by key f message fragmented st =
    on_frame true key f message fragmented (read_from message st).1

-- `shutdown` is `::shutdown`, `key` a random masking key, `now` and `iso` are the clock's.
module _ (shutdown : Socket → Socket) where
  pub data Step : Running → Running → Type 0 where
    entered :
        {st : Server}
        → st.active ≡ true
        → Step
            (record { server = st; place = testing })
            (record { server = st; place = reading empty_frame false })
    stopped :
        {st : Server}
        → st.active ≡ false
        → Step (record { server = st; place = testing }) (record { server = st; place = behind })
    broken :
        {st : Server} (message : WsFrame) (fragmented : Bool)
        → (read_from message st).0 ≡ none
        → Step
            (record { server = st; place = reading message fragmented })
            (record {
              server = record st { socket = (read_from message st).1 };
              place = handling message;
            })
    framed :
        {st : Server} (message : WsFrame) (fragmented : Bool) (f : Received) (key : List ℕ)
        → (read_from message st).0 ≡ some f
        → Step
            (record { server = st; place = reading message fragmented })
            (record {
              server = record st { socket = (framed_by key f message fragmented st).1 };
              place = after (framed_by key f message fragmented st).0;
            })
    left :
        {st : Server} (f : WsFrame)
        → (not f.is_valid || f.is_close) ≡ true
        → Step
            (record { server = st; place = handling f })
            (record { server = record st { active = false }; place = behind })
    handled :
        {st st' : Server} (f : WsFrame) (now : ℕ)
        → (not f.is_valid || f.is_close) ≡ false
        → on_payload now f.payload st ≡ ok st'
        → Step
            (record { server = st; place = handling f })
            (record { server = st'; place = testing })
    caught :
        {st : Server} (f : WsFrame) (now : ℕ) (e : Exception)
        → (not f.is_valid || f.is_close) ≡ false
        → on_payload now f.payload st ≡ throw e
        → Step
            (record { server = st; place = handling f })
            (record { server = record st { active = false }; place = behind })
    pinged :
        {st st' : Server} {p : Place} (now : ℕ)
        → tick (ping_message now) st ≡ ok st'
        → Step (record { server = st; place = p }) (record { server = st'; place = p })
    timed :
        {st st' : Server} {p : Place} (now : ℕ) (iso : Text)
        → tick (time_message now iso) st ≡ ok st'
        → Step (record { server = st; place = p }) (record { server = st'; place = p })
    kissed :
        {st st' : Server} {p : Place}
        → tick kiss_message st ≡ ok st'
        → Step (record { server = st; place = p }) (record { server = st'; place = p })
    checked :
        {st : Server} {p : Place} (now : ℕ)
        → Step
            (record { server = st; place = p })
            (record { server = timeout_check shutdown now st; place = p })

  pub data Runs : Running → Running → Type 0 where
    start : {r : Running} → Runs r r
    step : {r r' r'' : Running} → Step r r' → Runs r' r'' → Runs r r''

  pub Runs-append : {r r' r'' : Running} → Runs r r' → Runs r' r'' → Runs r r''
  Runs-append start more = more
  Runs-append (step s runs) more = step s (Runs-append runs more)

-- What the system has taken of some control frames without a mask, each a close or a pong.
pub data Controls : List ℕ → Type 0 where
  no_more : Controls []
  control :
      {bytes : List ℕ} (opcode : ℕ) (payload key taken unsent : List ℕ)
      → (opcode ≡ 8) ⊎ (opcode ≡ 10)
      → control_bytes opcode payload false key ≡ taken ++ unsent
      → Controls bytes
      → Controls (taken ++ bytes)

-- The session is inactive, and it has sent nothing but parts of control frames.
pub record Fades (st st' : Server) : Type 0 where
  pub active : st'.active ≡ false
  pub sent : List ℕ
  pub controls : Controls sent
  pub outgoing : st'.socket.outgoing ≡ st.socket.outgoing ++ sent

-- What one control frame sends.
SendsControl : Socket → Socket → Type 0
SendsControl s s' = (sent : List ℕ) × Controls sent × (s'.outgoing ≡ s.outgoing ++ sent)

pub tick-inactive :
    (m : Message) (st st' : Server) → st.active ≡ false → tick m st ≡ ok st' → st' ≡ st
unfolding tick
tick-inactive m st st' off e = let stays : tick m st ≡ ok st = rw (off, tick) refl in cc

pub timeout_check-inactive :
    (shutdown : Socket → Socket) (now : ℕ) (st : Server)
    → st.active ≡ false
    → timeout_check shutdown now st ≡ st
unfolding timeout_check
timeout_check-inactive shutdown now st off = simp (off, timeout_check)
