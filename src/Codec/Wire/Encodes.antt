-- ===== src/Codec/Wire/Encodes.antt =====
-- The bytes that a decoder takes for a value. They are not only those that the encoder writes: the
-- entries of a map may come in any order and repeat a key.
use hello_websocket.Prelude.{◌^◌, ◌<◌, ℕ, ◌≡◌, List, [], ◌∷◌, ◌++◌, length}
use hello_websocket.Codec.KvMap.{KvMap, assign}
use hello_websocket.Codec.Message.{
  EchoResult, Message, Kind, hello, bonjour, echo_request, echo_response, kiss_request,
  kiss_response, ping, pong, time_notification, random_number, hash_response, disconnect, error,
  unknown,
}
use hello_websocket.Codec.Wire.{IsEntry, All, be32, wire_i32, wire_i64, wire_kv, payload}

-- The entries assigned one after the other.
abbrev pub assign_all : KvMap → KvMap → KvMap
assign_all acc [] = acc
assign_all acc (e ∷ es) = assign_all (assign e.0 e.1 acc) es

abbrev pub EncodesKv : KvMap → List ℕ → Type 0
EncodesKv m x =
    (es : KvMap) × (x ≡ wire_kv es) × (m ≡ assign_all [] es) × All IsEntry es × (length es < 2 ^ 32)

abbrev pub EncodesResult : EchoResult → List ℕ → Type 0
EncodesResult r x = (y : List ℕ) × (x ≡ wire_i64 r.idx ++ r.type ∷ y) × EncodesKv r.kv y

abbrev pub EncodesResults : List EchoResult → List ℕ → Type 0
EncodesResults [] x = x ≡ []
EncodesResults (r ∷ rs) x =
    (y : List ℕ) × (z : List ℕ) × (x ≡ y ++ z) × EncodesResult r y × EncodesResults rs z

-- The bytes taken for a message of each type.
abbrev pub Encodes : Kind → Message → List ℕ → Type 0
Encodes hello m x = x ≡ payload hello m
Encodes bonjour m x = x ≡ payload bonjour m
Encodes echo_request m x = x ≡ payload echo_request m
Encodes echo_response m x =
    (y : List ℕ) × (x ≡ wire_i32 m.echo_status ++ (be32 (length m.echo_results) ++ y))
    × EncodesResults m.echo_results y
Encodes kiss_request m x = x ≡ payload kiss_request m
Encodes kiss_response m x = x ≡ payload kiss_response m
Encodes ping m x = x ≡ payload ping m
Encodes pong m x = x ≡ payload pong m
Encodes time_notification m x = x ≡ payload time_notification m
Encodes random_number m x = x ≡ payload random_number m
Encodes hash_response m x = x ≡ payload hash_response m
Encodes disconnect m x = x ≡ payload disconnect m
Encodes error m x = x ≡ payload error m
Encodes unknown m x = ⊥
