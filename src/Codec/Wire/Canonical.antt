-- ===== src/Codec/Wire/Canonical.antt =====
-- A message that `decodeMessage` returned can be sent on: `encode` writes bytes that decode to it.
use hello_websocket.Codec.Outcome.{ok}
use hello_websocket.Codec.KvMap.Laws.{assign-cons}
use hello_websocket.Prelude.{
  ◌≢◌, ℕ, ◌+◌, ◌≤◌, ◌≡◌, refl, ap, sym, ◌∙◌, List, [], ◌∷◌, ◌++◌, arith, All, length, length-append,
}
use hello_websocket.Codec.Wire.{
  wire_result, Carries, wire_results, IsByte, wire_string, payload, wire_entries,
}
use hello_websocket.Codec.Wire.Encodes.{Encodes, EncodesResults, assign_all}
use hello_websocket.Codec.Wire.Sound.{Accepted, decode_message_iff}
use hello_websocket.Codec.Wire.RoundTrip.{IsEncodable, decode_message-encode}
use hello_websocket.Codec.Message.{
  encode, decode_message, kind_of, EchoResult, Message, Kind, echo_response, unknown,
}
use Prim.Native.Nat.{Ordering}
use hello_websocket.Codec.KvMap.{compare_text, Text, KvMap, assign, place}

-- Assigning an entry does not take more room than the entry.
room-cons :
    (e : Text × Text) (m : KvMap)
    → length (wire_entries (e ∷ m)) ≡ 8 + length e.0 + length e.1 + length (wire_entries m)
room-cons e m = omega (
  arith,
  length-append (wire_string e.0) (wire_string e.1 ++ wire_entries m),
  length-append (wire_string e.1) (wire_entries m),
)

room-place :
    (key value : Text) (e : Text × Text) (m rest : KvMap) (o : Ordering)
    → compare_text key e.0 ≡ o
    → length (wire_entries rest) ≤ 8 + length key + length value + length (wire_entries m)
    → length (wire_entries (place o key value e m rest))
      ≤ 8 + length key + length value + length (wire_entries (e ∷ m))
unfolding place
room-place key value e m rest Ordering.lt c h = omega (arith, room-cons (key, value) (e ∷ m))
room-place key value e m rest Ordering.eq c h =
    omega (arith, room-cons e m, room-cons (e.0, value) m)
room-place key value e m rest Ordering.gt c h = omega (arith, room-cons e m, room-cons e rest)

room-assign :
    (key value : Text) (m : KvMap)
    → length (wire_entries (assign key value m))
      ≤ 8 + length key + length value + length (wire_entries m)
room-assign key value [] = unfold assign in omega (arith, room-cons (key, value) [])
room-assign key value (e ∷ m) =
    rw assign-cons (room-place key value e m _ _ refl (room-assign key value m))

room-assign_all :
    (es acc : KvMap)
    → length (wire_entries (assign_all acc es))
      ≤ length (wire_entries acc) + length (wire_entries es)
room-assign_all [] acc = omega arith
room-assign_all (e ∷ es) acc =
    omega (arith, room-assign_all es (assign e.0 e.1 acc), room-assign e.0 e.1 acc, room-cons e es)

room-results :
    (rs : List EchoResult) (x : List ℕ) → EncodesResults rs x → length (wire_results rs) ≤ length x
room-results [] x h = omega arith
room-results (r ∷ rs) x (y, z, ex, (w, ey, (es, ew, em, valid, few)), hs) = omega (
  arith,
  ap length ex,
  ap length ey,
  ap length ew,
  ap (λ (m : KvMap). length (wire_entries m)) em,
  length-append y z,
  length-append (wire_result r) (wire_results rs),
  room-assign_all es [],
  room-results rs z hs,
)

room-payload :
    (k : Kind) (m : Message) (x : List ℕ) → Encodes k m x → length (payload k m) ≤ length x
unfolding payload
room-payload echo_response m x (y, ex, rs) =
    omega (arith, ap length ex, room-results m.echo_results y rs)
room-payload unknown m x e = absurd e
room-payload k m x e = omega (arith, ap length e)

Carries-known : (k : Kind) (m : Message) → Carries k m → k ≢ unknown
Carries-known unknown m h e = h
Carries-known k m h e = cc

pub Accepted-IsEncodable : (bytes : List ℕ) (m : Message) → Accepted bytes m → IsEncodable m
Accepted-IsEncodable bytes m a = record {
  known = Carries-known (kind_of m.type) m a.carries;
  carries = a.carries;
  short = omega (
    arith,
    a.short,
    length-append a.taken a.extra,
    room-payload (kind_of m.type) m a.taken a.encodes,
  );
}

-- Whatever `decodeMessage` returned, `encode` accepts it, and the bytes decode to the same message.
pub encode-decode_message :
    (bytes : List ℕ) (m : Message)
    → All IsByte bytes
    → decode_message bytes ≡ ok m
    → (again : List ℕ) × (encode m ≡ ok again) × (decode_message again ≡ ok m)
encode-decode_message bytes m h e =
    let a = (decode_message_iff bytes m h).0 e in
    let (again, written, read) = decode_message-encode m (Accepted-IsEncodable bytes m a) in
    (again, written, read ∙ ap ok (sym a.only))
