-- ===== src/Session/Server/Echo.antt =====
-- The answer to an ECHO_REQUEST.
use hello_websocket.Prelude.{length-append, ◌++◌, ◌∷◌, ◌+◌, ℕ}
use hello_websocket.Codec.Wire.RoundTrip.{IsEncodable}
use hello_websocket.Hash.Digits.{length-to_string, to_string-IsText, IsText-ascii, IsAscii}
use hello_websocket.Codec.Wire.{wire_string, wire_result, wire_entries, IsText, payload}
use hello_websocket.Codec.Message.{Message, new_message, kind_of}
use hello_websocket.Codec.KvMap.{Text, KvMap, assign, compare_text}
use hello_websocket.Prelude.{arith, ◌+◌, ◌^◌, ◌∷◌, length, pos, ◌<◌, codes, ℕ, ◌≡◌, refl, []}
use hello_websocket.Hash.{to_string}
use hello_websocket.Session.Server.{Server, echo_reply}

-- The entries of the answer, in the order of their keys.
abbrev pub echo_entries : Text → Message → KvMap
echo_entries client_language m =
    (codes "data", m.echo_data)
    ∷ (codes "id", to_string m.echo_id)
    ∷ (codes "lang", client_language)
    ∷ (codes "meta", m.echo_meta)
    ∷ []

abbrev pub echo_answer : ℕ → Text → Message → Message
echo_answer now client_language m = record (new_message 0x04) {
  echo_status = pos 200;
  echo_results = record { idx = pos now; type = 0; kv = echo_entries client_language m } ∷ [];
}

-- The four assignments put the entries in order.
pub echo_reply-answer :
    (now : ℕ) (client_language : Text) (m : Message)
    → echo_reply now client_language m ≡ echo_answer now client_language m
unfolding echo_reply assign compare_text
echo_reply-answer now client_language m = refl

key-IsText : (key : Text) → IsAscii key → length key < 100 → IsText key
key-IsText key h l = IsText-ascii key h (omega arith)

-- The bytes that the entries of a map take.
entries_size : KvMap → ℕ
entries_size [] = 0
entries_size (e ∷ es) = 8 + length e.0 + length e.1 + entries_size es

length-wire_entries : (es : KvMap) → length (wire_entries es) ≡ entries_size es
unfolding entries_size
length-wire_entries [] = refl
length-wire_entries (e ∷ es) = omega (
  arith,
  length-append (wire_string e.0) (wire_string e.1 ++ wire_entries es),
  length-append (wire_string e.1) (wire_entries es),
  length-wire_entries es,
)

pub echo_answer-IsEncodable :
    (now : ℕ) (client_language : Text) (m : Message)
    → now < 2 ^ 63
    → IsText client_language
    → IsText m.echo_meta
    → IsText m.echo_data
    → length client_language + length m.echo_meta + length m.echo_data < 2 ^ 31
    → IsEncodable (echo_answer now client_language m)
unfolding kind_of payload compare_text entries_size
echo_answer-IsEncodable now client_language m t lang meta body few = record {
  known = cc;
  carries = (
    omega arith,
    (
      record {
        idx = omega arith;
        type = omega arith;
        kv = record {
          sorted = ((refl, (refl, (refl, tt))), ((refl, (refl, tt)), ((refl, tt), (tt, tt))));
          entries = (
            (key-IsText (codes "data") (omega arith) (omega arith), body),
            (
              (key-IsText (codes "id") (omega arith) (omega arith), to_string-IsText m.echo_id),
              (
                (key-IsText (codes "lang") (omega arith) (omega arith), lang),
                ((key-IsText (codes "meta") (omega arith) (omega arith), meta), tt),
              ),
            ),
          );
          few = omega arith;
        };
      },
      tt,
    ),
    omega arith,
  );
  short =
      let entries = echo_entries client_language m in
      omega (
        arith,
        length-append (wire_result (record { idx = pos now; type = 0; kv = entries })) [],
        length-wire_entries entries,
        length-to_string m.echo_id,
      );
}
