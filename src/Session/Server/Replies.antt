-- ===== src/Session/Server/Replies.antt =====
-- What the server answers, as its client decodes it.
use hello_websocket.Prelude.{pos}
use hello_websocket.Codec.Message.{new_message}
use hello_websocket.Hash.{hash_number}
use hello_websocket.Prelude.{Bool, if◌then◌else◌}
use hello_websocket.Codec.Wire.Sound.{decode_message_iff}
use hello_websocket.Codec.Message.{Message, kind_of, hello, random_number, decode_message}
use hello_websocket.Codec.Outcome.{
  Exception, ok, throw, frame_too_short, bad_magic, bad_version, payload_length_mismatch,
  unexpected_end, string_too_long, not_utf8, kv_count_too_large, result_count_too_large,
  unknown_message_type,
}
use hello_websocket.Transport.Frame.{ws_send_binary}
use hello_websocket.Hash.Digits.{
  length-decimal, decimal-IsAscii, hash_number-IsText, IsAscii, IsText-ascii,
}
use hello_websocket.Codec.Wire.RoundTrip.{decode_message-encode, IsEncodable}
use hello_websocket.Codec.Wire.{Carries, IsByte, IsI64, carried, payload, IsText}
use hello_websocket.Codec.Constants.{err_decode, err_unknown_msg_type, server_lang}
use hello_websocket.Prelude.{
  [], subst, ◌^◌, codes, All, All-append, ap, ◌∙◌, arith, ◌<◌, length, ℕ, ◌≡◌, refl, true, false,
  List,
}
use hello_websocket.Strings.{starts_with}
use hello_websocket.Session.Server.{
  decimal, Text, Server, send_frame, send_message, bonjour_reply, hash_reply, error_reply, dispatch,
  on_decode_error, on_payload, what,
}

-- `reply` was handed to `wsSendBinary` as bytes that decode to it; nothing else changed.
pub record Answers (st st' : Server) (reply : Message) : Type 0 where
  pub sent : List ℕ
  pub understood : decode_message sent ≡ ok reply
  pub socket : st'.socket ≡ (ws_send_binary sent st.socket).1
  pub active : st'.active ≡ st.active
  pub client_language : st'.client_language ≡ st.client_language
  pub last_pong_ts : st'.last_pong_ts ≡ st.last_pong_ts

pub send_message-Answers :
    (m : Message) (st : Server)
    → IsEncodable m
    → carried (kind_of m.type) m ≡ m
    → st.active ≡ true
    → (st' : Server) × (send_message m st ≡ ok st') × Answers st st' m
unfolding send_message send_frame
send_message-Answers m st h full on =
    let (bytes, written, read) = decode_message-encode m h in
    (
      record st { socket = (ws_send_binary bytes st.socket).1 },
      rw (written, send_message) (rw (on) refl),
      record {
        sent = bytes;
        understood = read ∙ ap ok full;
        socket = refl;
        active = refl;
        client_language = refl;
        last_pong_ts = refl;
      },
    )

server_lang-IsText : IsText server_lang
server_lang-IsText = IsText-ascii server_lang (omega arith) (omega arith)

pub bonjour_reply-IsEncodable : IsEncodable bonjour_reply
unfolding bonjour_reply kind_of payload
bonjour_reply-IsEncodable = record { known = cc; carries = server_lang-IsText; short = omega arith }

pub hash_reply-IsEncodable : (m : Message) → IsI64 m.random_id → IsEncodable (hash_reply m)
unfolding hash_reply kind_of payload
hash_reply-IsEncodable m id =
    let (text, size) = hash_number-IsText m.random_number in
    record { known = cc; carries = (id, text); short = omega (arith, size) }

pub error_reply-IsEncodable :
    (code : ℕ) (text : Text)
    → code < 2 ^ 31
    → IsText text
    → length text < 100
    → IsEncodable (error_reply code text)
unfolding error_reply kind_of payload
error_reply-IsEncodable code text h t l = record {
  known = cc;
  carries = (omega arith, t);
  short = omega arith;
}

-- The texts of the exceptions are short ASCII texts.
pub short_text :
    (text : Text) → IsAscii text → length text < 100 → IsText text × (length text < 100)
short_text text h l = (IsText-ascii text h (omega arith), l)

pub what-IsText : (e : Exception) → IsText (what e) × (length (what e) < 100)
unfolding what
what-IsText (frame_too_short n) =
    short_text (what (frame_too_short n))
      (All-append (λ (b : ℕ). b < 128) (codes "frame too short: ") (decimal 20 n []) (omega arith)
        (decimal-IsAscii 20 n [] tt))
      (omega (arith, length-decimal 20 n []))
what-IsText bad_magic = short_text (what bad_magic) (omega arith) (omega arith)
what-IsText bad_version = short_text (what bad_version) (omega arith) (omega arith)
what-IsText payload_length_mismatch =
    short_text (what payload_length_mismatch) (omega arith) (omega arith)
what-IsText unexpected_end = short_text (what unexpected_end) (omega arith) (omega arith)
what-IsText string_too_long = short_text (what string_too_long) (omega arith) (omega arith)
what-IsText not_utf8 = short_text (what not_utf8) (omega arith) (omega arith)
what-IsText kv_count_too_large = short_text (what kv_count_too_large) (omega arith) (omega arith)
what-IsText result_count_too_large =
    short_text (what result_count_too_large) (omega arith) (omega arith)
what-IsText unknown_message_type =
    short_text (what unknown_message_type) (omega arith) (omega arith)

pub code_small : (unknown : Bool) → (if unknown then err_unknown_msg_type else err_decode) < 2 ^ 31
code_small true = omega arith
code_small false = omega arith

-- `what()` begins with the text of the unknown type for that exception only.
abbrev pub is_unknown_type : Exception → Bool
is_unknown_type unknown_message_type = true
is_unknown_type e = false

pub starts_with-what :
    (e : Exception) → starts_with (what e) (codes "unknown message type") ≡ is_unknown_type e
unfolding starts_with what
starts_with-what (frame_too_short n) = refl
starts_with-what bad_magic = refl
starts_with-what bad_version = refl
starts_with-what payload_length_mismatch = refl
starts_with-what unexpected_end = refl
starts_with-what string_too_long = refl
starts_with-what not_utf8 = refl
starts_with-what kv_count_too_large = refl
starts_with-what result_count_too_large = refl
starts_with-what unknown_message_type = refl

on_decode_error_ends :
    (e : Exception) (st st' : Server)
    → send_message
        (error_reply (if is_unknown_type e then err_unknown_msg_type else err_decode) (what e))
        st
      ≡ ok st'
    → on_decode_error e st ≡ ok (if is_unknown_type e then st' else record st' { active = false })
unfolding on_decode_error
on_decode_error_ends e st st' h =
    rw (starts_with-what e, h, on_decode_error)
      (ap (λ (b : Bool). ok (if b then st' else record st' { active = false }))
        (starts_with-what e))

module _ (now : ℕ) (bytes : List ℕ) (st : Server) (on : st.active ≡ true) where
  module _ (m : Message) (read : decode_message bytes ≡ ok m) where
    pub dispatched : on_payload now bytes st ≡ dispatch (kind_of m.type) now m st
    unfolding on_payload
    dispatched = rw (read, on_payload) refl

    -- In an active session, a payload that decodes to a HELLO is answered by a frame, handed to
    -- `wsSendBinary`, that decodes to a BONJOUR with the language CPP; the session keeps the
    -- client's language, and its other variables but the socket are as before.
    pub hello_answered :
        kind_of m.type ≡ hello
        → (st' : Server) × (on_payload now bytes st ≡ ok st')
          × Answers
              (record st { client_language = m.client_language })
              st'
              (record (new_message 0x02) { server_language = codes "CPP" })
    unfolding dispatch kind_of bonjour_reply carried
    hello_answered k =
        let (st', sends, answers) =
          send_message-Answers bonjour_reply (record st { client_language = m.client_language })
            bonjour_reply-IsEncodable refl on in
        (st', dispatched ∙ ap (λ k. dispatch k now m st) k ∙ sends, answers)

    -- In an active session, a payload of bytes that decodes to a RANDOM_NUMBER is answered by a
    -- frame, handed to `wsSendBinary`, that decodes to a HASH_RESPONSE with its id and the
    -- number's hash; no other variable than the socket changes.
    pub random_number_answered :
        All IsByte bytes
        → kind_of m.type ≡ random_number
        → (st' : Server) × (on_payload now bytes st ≡ ok st')
          × Answers st st' (record (new_message 0x0b) {
            random_id = m.random_id;
            hash_hex = hash_number m.random_number;
          })
    unfolding dispatch kind_of hash_reply carried
    random_number_answered h k =
        let fields = subst (λ k. Carries k m) k ((decode_message_iff bytes m h).0 read).carries in
        let (st', sends, answers) =
          send_message-Answers (hash_reply m) st (hash_reply-IsEncodable m fields.0) refl on in
        (st', dispatched ∙ ap (λ k. dispatch k now m st) k ∙ sends, answers)

  -- In an active session, a payload on which `decodeMessage` throws is answered by an ERROR with
  -- the exception's text: with code 2 for an unknown type, after which the session is as active
  -- as before, and with code 1 for any other exception, after which it has ended.
  pub decode_error_answered :
      (e : Exception)
      → decode_message bytes ≡ throw e
      → (st' : Server) × (on_payload now bytes st
          ≡ ok (if is_unknown_type e then st' else record st' { active = false }))
        × Answers st st' (record (new_message 0x7f) {
          error_code = pos (if is_unknown_type e then 2 else 1);
          error_message = what e;
        })
  unfolding on_payload on_decode_error error_reply kind_of carried
  decode_error_answered e failed =
      let code = if is_unknown_type e then err_unknown_msg_type else err_decode in
      let (text, short) = what-IsText e in
      let encodable =
        error_reply-IsEncodable code (what e) (code_small (is_unknown_type e)) text short in
      let (st', sends, answers) =
        send_message-Answers (error_reply code (what e)) st encodable refl on in
      (st', rw (failed, on_payload) (on_decode_error_ends e st st' sends), answers)
