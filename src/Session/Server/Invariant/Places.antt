-- ===== src/Session/Server/Invariant/Places.antt =====
-- Every turn of a session's threads keeps its invariant.
use hello_websocket.Prelude.{
  Bool, ◌≤◌, ◌≡◌, refl, sym, subst, true, false, ℕ, List, All, length, arith, some,
}
use hello_websocket.Codec.Wire.{IsByte}
use hello_websocket.Transport.Socket.{Socket}
use hello_websocket.Transport.Socket.Stream.{stream, stream_same}
use hello_websocket.Transport.Receive.{
  WsFrame, Received, Step as FrameStep, return, continue, empty_frame, max_message_size,
}
use hello_websocket.Transport.Receive.Bounded.Frame.{Bounded-read_frame}
use hello_websocket.Transport.Receive.Keeps.{Keeps-read_frame}
use hello_websocket.Transport.Receive.Returns.{IsPartial, IsStep, IsRound, on_frame-IsRound}
use hello_websocket.Transport.Receive.Bytes.{payload_of, on_frame-bytes}
use hello_websocket.Session.Server.{Server, ping_message, time_message, kiss_message}
use hello_websocket.Session.Server.Runs.{
  Running, Place, testing, reading, handling, behind, after, read_from, framed_by, Step, Runs,
  start, step, entered, stopped, broken, framed, left, handled, caught, pinged, timed, kissed,
  checked,
}
use hello_websocket.Session.Server.Invariant.{IsSession, inactive-IsSession, on_payload-IsSession}
use hello_websocket.Session.Server.Invariant.Rounds.{tick-IsSession, timeout_check-IsSession}

-- What the receive thread holds: the message so far, or a frame, of bytes and within the limit.
abbrev pub IsPlace : Place → Type 0
IsPlace testing = Unit {0}
IsPlace (reading message fragmented) = IsPartial message fragmented × All IsByte message.payload
IsPlace (handling f) = (length f.payload ≤ max_message_size) × All IsByte f.payload
IsPlace behind = Unit {0}

abbrev pub IsRunning : Running → Type 0
IsRunning r = IsSession r.server × IsPlace r.place

after-IsPlace : (s : FrameStep) → IsStep s → All IsByte (payload_of s) → IsPlace (after s)
unfolding payload_of
after-IsPlace (return f) h b = (h.limit, b)
after-IsPlace (continue message fragmented) h b = (h, b)

start-IsPlace : IsPlace (reading empty_frame false)
unfolding empty_frame
start-IsPlace =
    (record { limit = omega arith; invalid = refl; data_only = refl; binary = λ e. cc }, tt)

moved :
    (st : Server) (s : Socket)
    → IsSession st
    → All IsByte (stream s)
    → IsSession (record st { socket = s })
moved st s h b = record { bytes = b; language = h.language; small = h.small }

framed-IsRunning :
    (st : Server) (message : WsFrame) (fragmented : Bool) (f : Received) (key : List ℕ)
    → IsSession st
    → IsPlace (reading message fragmented)
    → (read_from message st).0 ≡ some f
    → IsRunning (record {
      server = record st { socket = (framed_by key f message fragmented st).1 };
      place = after (framed_by key f message fragmented st).0;
    })
unfolding IsRound
framed-IsRunning st message fragmented f key h p e =
    let s1 = (read_from message st).1 in
    let keeps = Keeps-read_frame true (length message.payload) in
    let within = (Bounded-read_frame true (length message.payload)).sound st.socket f e in
    let (is_step, same) = on_frame-IsRound f message fragmented p.0 within true key s1 in
    let read = keeps.kept st.socket h.bytes in
    (
      moved st (framed_by key f message fragmented st).1 h (
          subst (All IsByte) (sym (stream_same s1 (framed_by key f message fragmented st).1 same))
            read),
      after-IsPlace (framed_by key f message fragmented st).0 is_step
          (on_frame-bytes f message fragmented (keeps.sound st.socket h.bytes f e) p.1 true key s1),
    )

module _ (shutdown : Socket → Socket)
    (shut : (s : Socket) → All IsByte (stream s) → All IsByte (stream (shutdown s))) where
  step-IsRunning : (r r' : Running) → IsRunning r → Step shutdown r r' → IsRunning r'
  step-IsRunning r r' h (entered on) = (h.0, start-IsPlace)
  step-IsRunning r r' h (stopped off) = (h.0, tt)
  step-IsRunning r r' h (broken {st} message fragmented e) = (
    moved st (read_from message st).1 h.0
        ((Keeps-read_frame true (length message.payload)).kept st.socket h.0.bytes),
    (h.1.0.limit, h.1.1),
  )
  step-IsRunning r r' h (framed {st} message fragmented f key e) =
      framed-IsRunning st message fragmented f key h.0 h.1 e
  step-IsRunning r r' h (left {st} f ends) = (inactive-IsSession st h.0, tt)
  step-IsRunning r r' h (handled {st} {st'} f now more e) =
      (on_payload-IsSession now f.payload st st' h.0 h.1.1 h.1.0 e, tt)
  step-IsRunning r r' h (caught {st} f now x more e) = (inactive-IsSession st h.0, tt)
  step-IsRunning r r' h (pinged {st} {st'} now e) =
      (tick-IsSession (ping_message now) st st' h.0 e, h.1)
  step-IsRunning r r' h (timed {st} {st'} now iso e) =
      (tick-IsSession (time_message now iso) st st' h.0 e, h.1)
  step-IsRunning r r' h (kissed {st} {st'} e) = (tick-IsSession kiss_message st st' h.0 e, h.1)
  step-IsRunning r r' h (checked {st} now) = (timeout_check-IsSession shutdown shut now st h.0, h.1)

  -- Every sequence of turns of the threads keeps the invariant of a session: its stream is made of
  -- bytes, and the client's language is a text of at most 1 MiB; and what the receive thread has read
  -- of a message is bytes, at most 1 MiB. The condition is that `::shutdown` leaves a stream of bytes.
  pub IsSession-Runs :
      (r r' : Running)
      → IsSession r.server
      → IsPlace r.place
      → Runs shutdown r r'
      → IsSession r'.server × IsPlace r'.place
  IsSession-Runs r r' h p start = (h, p)
  IsSession-Runs r r' h p (step {r' = mid} s more) =
      let k = step-IsRunning r mid (h, p) s in IsSession-Runs mid r' k.0 k.1 more
