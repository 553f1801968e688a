-- ===== src/Relay/Decoding.antt =====
-- What `base64Encode` of linksocks/relay.go writes, read by the decoder of RFC 4648.
use linksocks.Prelude.{
  ℕ, zero, suc, ◌+◌, ◌-◌, ◌*◌, ◌/◌, ◌%◌, ◌^◌, ◌<◌, ◌≡◌, refl, ap, Bool, true, false, ◌&&◌, not,
  Option, none, some, [], ◌∷◌, leb, ◌==◌, if◌then◌else◌, Bytes, arith, length, get_or, All,
  Bool-cases, inl, inr,
}
use linksocks.Prelude.ByteOrder.{IsByte}
use linksocks.Relay.Base64.{base64_chars, base64_char, group_of, base64_encode}

-- The value of a character of the alphabet of RFC 4648.
unfoldable pub value_of : ℕ → Option ℕ
value_of c =
    if leb b'A' c && leb c b'Z'
    then some (c - b'A')
    else if leb b'a' c && leb c b'z'
    then some (c - b'a' + 26)
    else if leb b'0' c && leb c b'9'
    then some (c - b'0' + 52)
    else if c == b'+'
    then some 62
    else if c == b'/'
    then some 63
    else none

-- The bytes of four characters, in front of others; padding stands only at the end.
unfoldable pub quad : Option ℕ → Option ℕ → Option ℕ → Option ℕ → Option Bytes → Option Bytes
quad (some p) (some q) (some r) (some s) (some rest) =
    some ((p * 4 + q / 16) ∷ (q % 16 * 16 + r / 4) ∷ (r % 4 * 64 + s) ∷ rest)
quad _ _ _ _ _ = none

unfoldable pub last_two : Option ℕ → Option ℕ → Option ℕ → Option Bytes
last_two (some p) (some q) (some r) = some ((p * 4 + q / 16) ∷ (q % 16 * 16 + r / 4) ∷ [])
last_two _ _ _ = none

unfoldable pub last_one : Option ℕ → Option ℕ → Option Bytes
last_one (some p) (some q) = some ((p * 4 + q / 16) ∷ [])
last_one _ _ = none

unfoldable pub base64_decode : Bytes → Option Bytes
base64_decode [] = some []
base64_decode (p ∷ q ∷ r ∷ s ∷ rest) =
    let later = base64_decode rest in
    if r == b'='
    then (if s == b'=' && length rest == 0 then last_one (value_of p) (value_of q) else none)
    else if s == b'='
    then (if length rest == 0 then last_two (value_of p) (value_of q) (value_of r) else none)
    else quad (value_of p) (value_of q) (value_of r) (value_of s) later
base64_decode _ = none

-- The character of a number below 64 has that number as its value, and is no padding.
is_own : ℕ → Bool
is_own v = elim (value_of (get_or base64_chars v 0)) [
  | none ↦ false
  | some w ↦ (w == v) && not (get_or base64_chars v 0 == b'=')
]

all_own : ℕ → Bool
all_own zero = true
all_own (suc n) = let below = all_own n in is_own n && below

all_own-64 : all_own 64 ≡ true
unfolding all_own is_own value_of
all_own-64 = refl

all_own-is_own : (n v : ℕ) → all_own n ≡ true → v < n → is_own v ≡ true
unfolding all_own
all_own-is_own zero v e h = absurd (omega arith)
all_own-is_own (suc n) v e h = elim (Bool-cases (v == n)) [
  | inl f ↦ ground (arith, e, f)
  | inr f ↦ ground (arith, e, f, all_own-is_own n v)
]

value_of-chars :
    (v : ℕ)
    → v < 64
    → (value_of (get_or base64_chars v 0) ≡ some v) × ((get_or base64_chars v 0 == b'=') ≡ false)
unfolding is_own
value_of-chars v h = ground (arith, all_own-is_own 64 v all_own-64 h)

char_value :
    (n k : ℕ)
    → (value_of (base64_char n k) ≡ some (n / 2 ^ k % 64)) × ((base64_char n k == b'=') ≡ false)
char_value n k = value_of-chars (n / 2 ^ k % 64) (omega arith)

-- Three bytes are the digits of their group.
group_bytes :
    (a b c : ℕ)
    → a < 256
    → b < 256
    → c < 256
    → let n = group_of a b c in
      (n / 2 ^ 18 % 64 * 4 + n / 2 ^ 12 % 64 / 16 ≡ a)
      × ((n / 2 ^ 12 % 64 % 16 * 16 + n / 2 ^ 6 % 64 / 4 ≡ b)
          × (n / 2 ^ 6 % 64 % 4 * 64 + n / 2 ^ 0 % 64 ≡ c))
group_bytes a b c ha hb hc = (omega arith, (omega arith, omega arith))

-- The decoder reads back the bytes that were encoded, and there are four characters for each three
-- bytes that were begun.
pub base64_decode-base64_encode :
    (b : Bytes)
    → All IsByte b
    → (base64_decode (base64_encode b) ≡ some b)
      × (length (base64_encode b) ≡ (length b + 2) / 3 * 4)
unfolding base64_encode base64_decode quad last_two last_one
base64_decode-base64_encode [] h = (refl, omega arith)
base64_decode-base64_encode (a ∷ []) h =
    let n = group_of a 0 0 in
    let digits = group_bytes a 0 0 h.0 (omega arith) (omega arith) in
    (
      rw ((char_value n 18).0, (char_value n 12).0) (ap (λ (x : ℕ). some (x ∷ [])) digits.0),
      omega arith,
    )
base64_decode-base64_encode (a ∷ b ∷ []) h =
    let n = group_of a b 0 in
    let digits = group_bytes a b 0 h.0 h.1.0 (omega arith) in
    (
      rw ((char_value n 6).1, (char_value n 18).0, (char_value n 12).0, (char_value n 6).0)
          (ground (arith, digits)),
      omega arith,
    )
base64_decode-base64_encode (a ∷ b ∷ c ∷ rest) h =
    let n = group_of a b c in
    let digits = group_bytes a b c h.0 h.1.0 h.1.1.0 in
    let later = base64_decode-base64_encode rest h.1.1.1 in
    (
      rw
          (
            (char_value n 6).1,
            (char_value n 0).1,
            (char_value n 18).0,
            (char_value n 12).0,
            (char_value n 6).0,
            (char_value n 0).0,
            later.0,
          )
          (ground (arith, digits)),
      omega (arith, later.1),
    )
