-- ===== src/Relay/Base64.antt =====
-- `base64Encode` of linksocks/relay.go, which writes the credentials of an upstream HTTP proxy.
use linksocks.Prelude.{ℕ, ◌+◌, ◌*◌, ◌/◌, ◌%◌, ◌^◌, [], ◌∷◌, Bytes, get_or}
use linksocks.Prelude.ByteOrder.{codes}

abbrev pub base64_chars : Bytes
base64_chars = codes "ABCDEFGHIJKLMNOPQRSTUVWXYZabcdefghijklmnopqrstuvwxyz0123456789+/"

-- `base64Chars[n >> k & 0x3F]`; the index is below 64.
abbrev pub base64_char : ℕ → ℕ → ℕ
base64_char n k = get_or base64_chars (n / 2 ^ k % 64) 0

-- Three bytes side by side in a `uint32`.
abbrev pub group_of : ℕ → ℕ → ℕ → ℕ
group_of a b c = a * 2 ^ 16 + b * 2 ^ 8 + c

unfoldable pub base64_encode : Bytes → Bytes
base64_encode [] = []
base64_encode (a ∷ []) =
    let n = group_of a 0 0 in base64_char n 18 ∷ base64_char n 12 ∷ b'=' ∷ b'=' ∷ []
base64_encode (a ∷ b ∷ []) =
    let n = group_of a b 0 in base64_char n 18 ∷ base64_char n 12 ∷ base64_char n 6 ∷ b'=' ∷ []
base64_encode (a ∷ b ∷ c ∷ rest) =
    let n = group_of a b c in
    base64_char n 18 ∷ base64_char n 12 ∷ base64_char n 6 ∷ base64_char n 0 ∷ base64_encode rest
