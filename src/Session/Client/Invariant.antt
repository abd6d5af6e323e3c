-- ===== src/Session/Client/Invariant.antt =====
-- What every interleaving of the client's threads keeps.
use hello_websocket.Prelude.{
  ◌≤◌, ◌≡◌, inl, inr, subst, true, false, Bool, Bool-cases, ℕ, ℤ, suc, List, All, arith,
  if◌then◌else◌, pos,
}
use hello_websocket.Codec.Outcome.{Exception, ok, throw, fault, Result-cases}
use hello_websocket.Codec.Wire.{IsByte}
use hello_websocket.Codec.Message.{encode}
use hello_websocket.Transport.Socket.Stream.{stream}
use hello_websocket.Session.Round.{Round, goes_on, leaves}
use hello_websocket.Session.Client.{Client, send_frame, receive_round, random_message, random_turn}
use hello_websocket.Session.Client.Runs.{
  Running, Step, Runs, received, left, caught, drawn, start, step,
}
use hello_websocket.Session.Client.Total.{OnBytes, round_returns, state_of, send_frame-OnBytes}

-- The stream stays one of bytes, and the random ids go up.
record Keeps (r r' : Running) : Type 0 where
  bytes : OnBytes r'.client
  ids : r.random_id ≤ r'.random_id

after_round :
    (keys : ℕ → List ℕ) (mask : List ℕ) (c : Client) (r : Round Client)
    → OnBytes c
    → receive_round keys mask c ≡ ok r
    → OnBytes (state_of r)
after_round keys mask c r h e =
    let (r', e', h', l) = round_returns keys mask c h in
    let same : r' ≡ r = cc in subst (λ (x : Round Client). OnBytes (state_of x)) same h'

-- A turn of the random thread, by its cases.
module _ (mask : List ℕ) (number : ℤ) (id : ℕ) (c : Client) where
  pub turn_off : c.active ≡ false → random_turn mask number id c ≡ ok (id, c)
  unfolding random_turn
  turn_off off = simp (off, random_turn)

  pub turn_sends :
      (bytes : List ℕ)
      → c.active ≡ true
      → encode (random_message (pos id) number) ≡ ok bytes
      → random_turn mask number id c
        ≡ ok (
            if (send_frame mask bytes c).0
            then (suc id, (send_frame mask bytes c).1)
            else (id, record (send_frame mask bytes c).1 { active = false }))
  unfolding random_turn
  turn_sends bytes on written = simp (on, written, random_turn)

  turn_throws :
      (x : Exception)
      → c.active ≡ true
      → encode (random_message (pos id) number) ≡ throw x
      → random_turn mask number id c ≡ throw x
  unfolding random_turn
  turn_throws x on thrown = simp (on, thrown, random_turn)

  turn_faults :
      c.active ≡ true
      → encode (random_message (pos id) number) ≡ fault
      → random_turn mask number id c ≡ fault
  unfolding random_turn
  turn_faults on failed = simp (on, failed, random_turn)

abbrev Advances : ℕ → ℕ × Client → Type 0
Advances id (id', c') = OnBytes c' × (id ≤ id')

sent_turn :
    (sent : Bool) (id : ℕ) (c : Client)
    → OnBytes c
    → Advances id (if sent then (suc id, c) else (id, record c { active = false }))
sent_turn true id c h = (h, omega arith)
sent_turn false id c h = (h, omega arith)

random_turn-Advances :
    (mask : List ℕ) (number : ℤ) (id : ℕ) (c : Client) (t : ℕ × Client)
    → OnBytes c
    → random_turn mask number id c ≡ ok t
    → Advances id t
random_turn-Advances mask number id c t h e = elim (Bool-cases c.active) [
  | inr off ↦
      let stays = turn_off mask number id c off in
      let same : (id, c) ≡ t = cc in subst (Advances id) same (h, omega arith)
  | inl on ↦ elim (Result-cases (encode (random_message (pos id) number))) [
    | inl (bytes, written) ↦
        let sends = turn_sends mask number id c bytes on written in
        let next = (send_frame mask bytes c).1 in
        let sent = (send_frame mask bytes c).0 in
        let same : (if sent then (suc id, next) else (id, record next { active = false })) ≡ t =
          cc in
        subst (Advances id) same (sent_turn sent id next (send_frame-OnBytes mask bytes c h))
    | inr (inl (x, thrown)) ↦ let throws = turn_throws mask number id c x on thrown in absurd (cc)
    | inr (inr failed) ↦ let faults = turn_faults mask number id c on failed in absurd (cc)
  ]
]

step-Keeps : (r r' : Running) → OnBytes r.client → Step r r' → Keeps r r'
step-Keeps r r' h (received {c} {c'} keys mask e) = record {
  bytes = after_round keys mask c (goes_on c') h e;
  ids = omega arith;
}
step-Keeps r r' h (left {c} {c'} keys mask e) = record {
  bytes = after_round keys mask c (leaves c') h e;
  ids = omega arith;
}
step-Keeps r r' h (caught keys mask x e) = record { bytes = h; ids = omega arith }
step-Keeps r r' h (drawn {c} {c'} {id} {id'} mask number e) =
    let (bytes, ids) = random_turn-Advances mask number id c (id', c') h e in
    record { bytes = bytes; ids = ids }

-- In every sequence of turns of the client's threads that begins on a stream of bytes, the stream
-- stays one of bytes, so that no round of the receive loop throws, and `randomId` never goes down.
pub Runs-keeps :
    (r r' : Running)
    → All IsByte (stream r.client.socket)
    → Runs r r'
    → All IsByte (stream r'.client.socket) × (r.random_id ≤ r'.random_id)
Runs-keeps r r' h start = (h, omega arith)
Runs-keeps r r' h (step {r' = mid} s more) =
    let k = step-Keeps r mid h s in
    let (bytes, ids) = Runs-keeps mid r' k.bytes more in (bytes, omega (arith, k.ids))
