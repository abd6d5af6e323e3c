-- ===== src/Codec/Wire/RoundTrip.antt =====
-- `decodeMessage` reads back what `encode` wrote.
use hello_websocket.Codec.Wire.Encodes.{EncodesResults, Encodes}
use hello_websocket.Codec.Wire.Write.{encode-payload}
use hello_websocket.Codec.Frame.Layout.{decode_frame-envelope, encode_frame-envelope, envelope}
use hello_websocket.Codec.Outcome.{ok}
use hello_websocket.Codec.Reader.{new_reader}
use hello_websocket.Codec.Wire.ReadsKv.{assign_all-sorted, Reads-result_list}
use hello_websocket.Codec.Message.{
  EchoResult, encode, result_of, decode_framed, decode_message, new_message, Message, Kind,
  decode_as,
}
use hello_websocket.Codec.Message.{
  Kind, Message, kind_of, new_message, decode_as, hello, bonjour, echo_request, echo_response,
  kiss_request, kiss_response, ping, pong, time_notification, random_number, hash_response,
  disconnect, error, unknown,
}
use hello_websocket.Prelude.{
  append-nil, ℕ, ◌^◌, ◌<◌, ◌≡◌, ◌≢◌, refl, ap, ◌∙◌, sym, List, [], ◌∷◌, ◌++◌, length, subst,
}
use hello_websocket.Codec.Wire.Reads.{
  Reads, Reads-bind, Reads-last, Reads-string, Reads-u32, Reads-i32, Reads-i64,
}
use hello_websocket.Codec.Wire.{
  wire_kv, wire_result, wire_results, IsResult, All, payload, Carries, carried,
}

pub Reads-message :
    (k : Kind) (m : Message) (x : List ℕ)
    → Carries k m
    → Encodes k m x
    → Reads (decode_as k (new_message m.type)) x (carried k m)
unfolding decode_as payload carried
Reads-message hello m x h e =
    subst (λ (t : List ℕ). Reads (decode_as hello (new_message m.type)) t (carried hello m)) (sym e)
      (Reads-last _ (Reads-string _ h))
Reads-message bonjour m x h e =
    subst (λ (t : List ℕ). Reads (decode_as bonjour (new_message m.type)) t (carried bonjour m))
      (sym e) (Reads-last _ (Reads-string _ h))
Reads-message echo_request m x h e =
    subst
      (λ (t : List ℕ).
        Reads (decode_as echo_request (new_message m.type)) t (carried echo_request m))
      (sym e)
      (Reads-bind _ (Reads-i64 _ h.0)
        (Reads-bind _ (Reads-string _ h.1) (Reads-last _ (Reads-string _ h.2))))
Reads-message echo_response m x h (y, ex, rs) =
    subst
      (λ (t : List ℕ).
        Reads (decode_as echo_response (new_message m.type)) t (carried echo_response m))
      (sym ex)
      (Reads-bind _ (Reads-i32 _ h.0)
        (Reads-bind _ (Reads-u32 _ h.2) (Reads-last _ (Reads-result_list _ y h.1 rs))))
Reads-message kiss_request m x h e =
    subst
      (λ (t : List ℕ).
        Reads (decode_as kiss_request (new_message m.type)) t (carried kiss_request m))
      (sym e)
      (Reads-bind _ (Reads-string _ h.0) (
        Reads-bind _ (Reads-string _ h.1)
          (Reads-bind _ (Reads-string _ h.2) (Reads-last _ (Reads-string _ h.3)))))
Reads-message kiss_response m x h e =
    subst
      (λ (t : List ℕ).
        Reads (decode_as kiss_response (new_message m.type)) t (carried kiss_response m))
      (sym e)
      (Reads-bind _ (Reads-string _ h.0)
        (Reads-bind _ (Reads-string _ h.1) (Reads-last _ (Reads-string _ h.2))))
Reads-message ping m x h e =
    subst (λ (t : List ℕ). Reads (decode_as ping (new_message m.type)) t (carried ping m)) (sym e)
      (Reads-last _ (Reads-i64 _ h))
Reads-message pong m x h e =
    subst (λ (t : List ℕ). Reads (decode_as pong (new_message m.type)) t (carried pong m)) (sym e)
      (Reads-last _ (Reads-i64 _ h))
Reads-message time_notification m x h e =
    subst
      (λ (t : List ℕ).
        Reads (decode_as time_notification (new_message m.type)) t (carried time_notification m))
      (sym e) (Reads-bind _ (Reads-i64 _ h.0) (Reads-last _ (Reads-string _ h.1)))
Reads-message random_number m x h e =
    subst
      (λ (t : List ℕ).
        Reads (decode_as random_number (new_message m.type)) t (carried random_number m))
      (sym e) (Reads-bind _ (Reads-i64 _ h.0) (Reads-last _ (Reads-i64 _ h.1)))
Reads-message hash_response m x h e =
    subst
      (λ (t : List ℕ).
        Reads (decode_as hash_response (new_message m.type)) t (carried hash_response m))
      (sym e) (Reads-bind _ (Reads-i64 _ h.0) (Reads-last _ (Reads-string _ h.1)))
Reads-message disconnect m x h e =
    subst
      (λ (t : List ℕ). Reads (decode_as disconnect (new_message m.type)) t (carried disconnect m))
      (sym e) (Reads-last _ (Reads-string _ h))
Reads-message error m x h e =
    subst (λ (t : List ℕ). Reads (decode_as error (new_message m.type)) t (carried error m)) (sym e)
      (Reads-bind _ (Reads-i32 _ h.0) (Reads-last _ (Reads-string _ h.1)))
Reads-message unknown m x h e = absurd h

EncodesResults-wire : (rs : List EchoResult) → All IsResult rs → EncodesResults rs (wire_results rs)
EncodesResults-wire [] h = refl
EncodesResults-wire (r ∷ rs) h = (
  wire_result r,
  wire_results rs,
  refl,
  (
    wire_kv r.kv,
    refl,
    (r.kv, refl, sym (assign_all-sorted r.kv h.0.kv.sorted), h.0.kv.entries, h.0.kv.few),
  ),
  EncodesResults-wire rs h.1,
)

-- The payload that `encode` writes is among those that are taken for the message.
pub Encodes-payload : (k : Kind) (m : Message) → Carries k m → Encodes k m (payload k m)
unfolding payload
Encodes-payload hello m h = refl
Encodes-payload bonjour m h = refl
Encodes-payload echo_request m h = refl
Encodes-payload echo_response m h = (_, refl, EncodesResults-wire m.echo_results h.1)
Encodes-payload kiss_request m h = refl
Encodes-payload kiss_response m h = refl
Encodes-payload ping m h = refl
Encodes-payload pong m h = refl
Encodes-payload time_notification m h = refl
Encodes-payload random_number m h = refl
Encodes-payload hash_response m h = refl
Encodes-payload disconnect m h = refl
Encodes-payload error m h = refl
Encodes-payload unknown m h = absurd h

-- A message whose type is in the registry, and whose fields of that type fit.
pub record IsEncodable (m : Message) : Type 0 where
  pub known : kind_of m.type ≢ unknown
  pub carries : Carries (kind_of m.type) m
  pub short : length (payload (kind_of m.type) m) < 2 ^ 32

decode_as-Encodes :
    (m : Message) (x extra : List ℕ)
    → Carries (kind_of m.type) m
    → Encodes (kind_of m.type) m x
    → result_of (decode_as (kind_of m.type) (new_message m.type) (new_reader (x ++ extra)))
      ≡ ok (carried (kind_of m.type) m)
unfolding new_reader result_of
decode_as-Encodes m x extra h e =
    ap result_of ((Reads-message (kind_of m.type) m x h e).run [] extra)

-- `decodeMessage` on an envelope whose payload begins with an encoding of `m`.
pub decode_message-envelope :
    (m : Message) (flags : ℕ) (x extra : List ℕ)
    → Carries (kind_of m.type) m
    → Encodes (kind_of m.type) m x
    → length (x ++ extra) < 2 ^ 32
    → decode_message (envelope m.type flags (x ++ extra)) ≡ ok (carried (kind_of m.type) m)
unfolding decode_message decode_framed
decode_message-envelope m flags x extra h e short =
    ap decode_framed (decode_frame-envelope m.type flags (x ++ extra) short)
    ∙ decode_as-Encodes m x extra h e

-- For every message of a registered type whose carried fields fit their wire types, with a payload
-- below 2^32 bytes, `encode` returns bytes, and decoding them gives back every field that the type
-- carries; the others are those of a fresh message.
pub decode_message-encode :
    (m : Message)
    → IsEncodable m
    → (bytes : List ℕ) × (encode m ≡ ok bytes)
      × (decode_message bytes ≡ ok (carried (kind_of m.type) m))
decode_message-encode m h =
    let p = payload (kind_of m.type) m in
    (
      envelope m.type 0 p,
      encode-payload m h.known ∙ ap ok (encode_frame-envelope m.type p),
      ap (λ (t : List ℕ). decode_message (envelope m.type 0 t)) (sym (append-nil p))
          ∙ decode_message-envelope m 0 p [] h.carries
              (Encodes-payload (kind_of m.type) m h.carries) (rw append-nil h.short),
    )
