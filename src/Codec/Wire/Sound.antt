-- ===== src/Codec/Wire/Sound.antt =====
-- `decodeMessage` on any input: it never reads outside its buffers, and what it accepts are
-- encodings of the messages that it returns.
use hello_websocket.Codec.Wire.RoundTrip.{decode_message-envelope}
use hello_websocket.Codec.Frame.{Frame, decode_frame}
use hello_websocket.Codec.Frame.Layout.{decode_frame-ne-fault, decode_frame-ok, envelope}
use hello_websocket.Codec.Outcome.{throw, Exception, ok, fault, Result, unknown_message_type}
use hello_websocket.Codec.Wire.SoundKv.{Sound-IsResult_list}
use hello_websocket.Codec.Wire.SoundPrimitives.{Sound-IsU32, Sound-IsI32, Sound-IsI64, Sound-string}
use hello_websocket.Codec.Wire.{IsByte, payload, be32, Carries, carried}
use hello_websocket.Codec.Message.{
  decode_message, result_of, decode_framed, Kind, Message, kind_of, new_message, decode_as, hello,
  bonjour, echo_request, echo_response, kiss_request, kiss_response, ping, pong, time_notification,
  random_number, hash_response, disconnect, error, unknown,
}
use hello_websocket.Prelude.{
  ◌↔◌, ℕ, ◌^◌, ◌<◌, ◌≡◌, ◌≢◌, refl, ap, ap₂, ◌∙◌, sym, List, [], ◌++◌, arith, length, subst,
  append-nil, All,
}
use hello_websocket.Codec.Reader.{new_reader, ByteReader, Read, ◌>>=◌, pure}
use hello_websocket.Codec.Wire.Parses.{Parses, parsed, rejected, Sound, Sound-bind, Sound-pure}
use hello_websocket.Codec.Wire.Encodes.{Encodes}

-- The message `m` of type `t` was made from the bytes `x`.
abbrev Decoded : ℕ → Kind → Message → List ℕ → Type 0
Decoded t k m x = (m.type ≡ t) × (m ≡ carried k m) × Carries k m × Encodes k m x

module _ {A : Type 0} where
  -- The last read of a message.
  Sound-last :
      {m : Read A} (f : A → Message) {P : A → List ℕ → Type 0} (Q : Message → List ℕ → Type 0)
      → Sound m P
      → ((a : A) (x : List ℕ) → P a x → Q (f a) x)
      → Sound (m >>= λ a. pure (f a)) Q
  Sound-last f Q hm h =
      Sound-bind _ Q hm
        (λ a x p hx. Sound-pure (f a) (subst (Q (f a)) (sym (append-nil x)) (h a x p)))

Sound-message : (t : ℕ) (k : Kind) → Sound (decode_as k (new_message t)) (Decoded t k)
unfolding decode_as payload carried
Sound-message t hello = Sound-last _ _ Sound-string (λ s x p. (refl, refl, p.0, p.1))
Sound-message t bonjour = Sound-last _ _ Sound-string (λ s x p. (refl, refl, p.0, p.1))
Sound-message t echo_request = Sound-bind _ _ Sound-IsI64 (λ id x p hx.
    Sound-bind _ _ Sound-string (λ meta y q hy.
      Sound-last _ _ Sound-string
        (λ body z r. (refl, refl, (p.0, q.0, r.0), ap₂ ◌++◌ p.1 (ap₂ ◌++◌ q.1 r.1)))))
Sound-message t echo_response = Sound-bind _ _ Sound-IsI32 (λ status x p hx.
    Sound-bind _ _ Sound-IsU32 (λ n y q hy. Sound-last _ _ (Sound-IsResult_list n) (λ rs z r. (
      refl,
      refl,
      (p.0, r.0, omega (arith, r.2, q.0)),
      (z, ap₂ (λ (a b : List ℕ). a ++ (b ++ z)) p.1 (q.1 ∙ ap be32 (sym r.2)), r.1),
    ))))
Sound-message t kiss_request = Sound-bind _ _ Sound-string (λ a x p hx.
    Sound-bind _ _ Sound-string (λ b y q hy. Sound-bind _ _ Sound-string (λ c z r hz.
      Sound-last _ _ Sound-string (λ d w s.
        (refl, refl, (p.0, q.0, r.0, s.0), ap₂ ◌++◌ p.1 (ap₂ ◌++◌ q.1 (ap₂ ◌++◌ r.1 s.1)))))))
Sound-message t kiss_response = Sound-bind _ _ Sound-string (λ a x p hx.
    Sound-bind _ _ Sound-string (λ b y q hy.
      Sound-last _ _ Sound-string
        (λ c z r. (refl, refl, (p.0, q.0, r.0), ap₂ ◌++◌ p.1 (ap₂ ◌++◌ q.1 r.1)))))
Sound-message t ping = Sound-last _ _ Sound-IsI64 (λ v x p. (refl, refl, p.0, p.1))
Sound-message t pong = Sound-last _ _ Sound-IsI64 (λ v x p. (refl, refl, p.0, p.1))
Sound-message t time_notification =
    Sound-bind _ _ Sound-IsI64 (λ v x p hx.
      Sound-last _ _ Sound-string (λ s y q. (refl, refl, (p.0, q.0), ap₂ ◌++◌ p.1 q.1)))
Sound-message t random_number =
    Sound-bind _ _ Sound-IsI64
      (λ v x p hx. Sound-last _ _ Sound-IsI64 (λ s y q. (refl, refl, (p.0, q.0), ap₂ ◌++◌ p.1 q.1)))
Sound-message t hash_response =
    Sound-bind _ _ Sound-IsI64 (λ v x p hx.
      Sound-last _ _ Sound-string (λ s y q. (refl, refl, (p.0, q.0), ap₂ ◌++◌ p.1 q.1)))
Sound-message t disconnect = Sound-last _ _ Sound-string (λ s x p. (refl, refl, p.0, p.1))
Sound-message t error =
    Sound-bind _ _ Sound-IsI32 (λ v x p hx.
      Sound-last _ _ Sound-string (λ s y q. (refl, refl, (p.0, q.0), ap₂ ◌++◌ p.1 q.1)))
Sound-message t unknown = record { run = λ pre s h. rejected unknown_message_type }

-- What `decodeMessage` accepts for the message `m`: an envelope of a type in the registry, whose
-- payload begins with an encoding of the fields of that type. All other fields are unset.
pub record Accepted (bytes : List ℕ) (m : Message) : Type 0 where
  pub flags : ℕ
  pub taken : List ℕ
  pub extra : List ℕ
  pub layout : bytes ≡ envelope m.type flags (taken ++ extra)
  pub short : length (taken ++ extra) < 2 ^ 32
  pub carries : Carries (kind_of m.type) m
  pub encodes : Encodes (kind_of m.type) m taken
  pub only : m ≡ carried (kind_of m.type) m

-- How `decode_message` answers on the frame `f` whose envelope `bytes` is.
data Answers (bytes : List ℕ) : Result Message → Type 0 where
  accepts : (m : Message) → Accepted bytes m → Answers bytes (ok m)
  refuses : (e : Exception) → Answers bytes (throw e)

message_answer :
    (bytes : List ℕ) (t flags : ℕ) (p : List ℕ) (res : Result (Message × ByteReader))
    → bytes ≡ envelope t flags p
    → length p < 2 ^ 32
    → Parses (Decoded t (kind_of t)) [] p res
    → Answers bytes (result_of res)
unfolding result_of
message_answer bytes t flags p _ e short (parsed m x rest ep er (et, only, carries, encodes)) =
    accepts m (record {
      flags = flags;
      taken = x;
      extra = rest;
      layout = e ∙ ap₂ (λ (u : ℕ) (q : List ℕ). envelope u flags q) (sym et) ep;
      short = subst (λ (q : List ℕ). length q < 2 ^ 32) ep short;
      carries = subst (λ (u : ℕ). Carries (kind_of u) m) (sym et) carries;
      encodes = subst (λ (u : ℕ). Encodes (kind_of u) m x) (sym et) encodes;
      only = subst (λ (u : ℕ). m ≡ carried (kind_of u) m) (sym et) only;
    })
message_answer bytes t flags p _ e short (rejected ex) = refuses ex

framed_answer :
    (bytes : List ℕ) (res : Result Frame)
    → All IsByte bytes
    → decode_frame bytes ≡ res
    → Answers bytes (decode_framed res)
unfolding decode_framed new_reader
framed_answer bytes (ok f) h e =
    let (flags, short, layout) = decode_frame-ok bytes h e in
    let hp : All IsByte f.payload = (subst (All IsByte) layout h).1.1.1.1.1.1.1.1 in
    message_answer bytes f.msg_type flags f.payload _ layout short
      ((Sound-message f.msg_type (kind_of f.msg_type)).run [] f.payload hp)
framed_answer bytes (throw ex) h e = refuses ex
framed_answer bytes fault h e = absurd (decode_frame-ne-fault bytes h e)

answer : (bytes : List ℕ) → All IsByte bytes → Answers bytes (decode_message bytes)
unfolding decode_message
answer bytes h = framed_answer bytes (decode_frame bytes) h refl

Answers-ok :
    {bytes : List ℕ} {m : Message} {res : Result Message}
    → Answers bytes res
    → res ≡ ok m
    → Accepted bytes m
Answers-ok {bytes} (accepts m' a) e = subst (Accepted bytes) (cc) a
Answers-ok (refuses ex) e = cc

Answers-ne-fault : {bytes : List ℕ} {res : Result Message} → Answers bytes res → res ≢ fault
Answers-ne-fault (accepts m a) e = cc
Answers-ne-fault (refuses ex) e = cc

-- No input makes `decodeMessage` read outside its buffers.
pub decode_message-ne-fault : (bytes : List ℕ) → All IsByte bytes → decode_message bytes ≢ fault
decode_message-ne-fault bytes h = Answers-ne-fault (answer bytes h)

-- `decodeMessage` accepts exactly the encodings of the messages that it returns.
pub decode_message_iff :
    (bytes : List ℕ) (m : Message)
    → All IsByte bytes
    → (decode_message bytes ≡ ok m) ↔ Accepted bytes m
decode_message_iff bytes m h = (
  λ e. Answers-ok (answer bytes h) e,
  λ a.
      ap decode_message a.layout
      ∙ decode_message-envelope m a.flags a.taken a.extra a.carries a.encodes a.short
      ∙ ap ok (sym a.only),
)
