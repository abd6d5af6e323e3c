-- ===== src/Transport/Base64.antt =====
-- `base64Encode` and `wsAcceptKey` of hello-websocket-cpp/common/ws.hpp.
pub mod RoundTrip
pub mod Visible
use hello_websocket.Prelude.{ℕ, ◌*◌, ◌/◌, ◌^◌, List, [], ◌∷◌, ◌++◌, element, bit_and, bit_or, codes}
use hello_websocket.Codec.KvMap.{Text}
use hello_websocket.Transport.Sha1.{new_sha1, update, final}

abbrev pub table : Text
table = codes "ABCDEFGHIJKLMNOPQRSTUVWXYZabcdefghijklmnopqrstuvwxyz0123456789+/"

-- `table[(n >> k) & 0x3F]`
unfoldable pub letter : ℕ → ℕ → ℕ
letter n k = element table (bit_and (n / 2 ^ k) 0x3f)

-- A round takes three bytes, or the one or two that are left.
unfoldable pub base64_encode : List ℕ → Text
unfolding letter
base64_encode [] = []
base64_encode (a ∷ []) = let n = a * 2 ^ 16 in letter n 18 ∷ letter n 12 ∷ 61 ∷ 61 ∷ []
base64_encode (a ∷ b ∷ []) =
    let n = bit_or (a * 2 ^ 16) (b * 2 ^ 8) in letter n 18 ∷ letter n 12 ∷ letter n 6 ∷ 61 ∷ []
base64_encode (a ∷ b ∷ c ∷ bytes) =
    let n = bit_or (bit_or (a * 2 ^ 16) (b * 2 ^ 8)) c in
    letter n 18 ∷ letter n 12 ∷ letter n 6 ∷ letter n 0 ∷ base64_encode bytes

unfoldable pub ws_accept_key : Text → Text
unfolding base64_encode
ws_accept_key client_key =
    base64_encode
      (final (update (client_key ++ codes "258EAFA5-E914-47DA-95CA-C5AB0DC85B11") new_sha1))
