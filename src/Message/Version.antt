-- ===== src/Message/Version.antt =====
-- The protocol version byte of linksocks/message.go, and the parsers of version selectors.
-- Texts are lists of byte codes; `strings.TrimSpace` is modelled on ASCII white space.
pub mod Selectors
use Prim.Native.Nat.{bit_and}
use mathlib.Core.List.{reverse}
use linksocks.Prelude.{
  ℕ, ◌+◌, ◌-◌, ◌*◌, ◌/◌, Bool, false, ◌&&◌, ◌||◌, Option, none, some, [], ◌∷◌, map, ltb, leb, ◌==◌,
  if◌then◌else◌, Bytes, Result, ok, err, panic, plain, annotate, ◌>>=◌, length, drop,
}
use linksocks.Prelude.ByteOrder.{codes, bytes_eq}

abbrev pub protocol_version_v1 : ℕ
protocol_version_v1 = 0x04

abbrev pub protocol_version_v2 : ℕ
protocol_version_v2 = 0x20

abbrev pub protocol_version : ℕ
protocol_version = protocol_version_v2

unfoldable pub protocol_major : ℕ → ℕ
protocol_major v = bit_and (v / 16) 0x0f

unfoldable pub protocol_minor : ℕ → ℕ
protocol_minor v = bit_and v 0x0f

-- `none` is Go's `(0, false)`.
unfoldable pub protocol_known_minor_for_major : ℕ → Option ℕ
unfolding protocol_major protocol_minor
protocol_known_minor_for_major major =
    if major == protocol_major protocol_version_v2
    then some (protocol_minor protocol_version_v2)
    else if major == protocol_major protocol_version_v1
    then some (protocol_minor protocol_version_v1)
    else none

unfoldable pub protocol_minor_is_current : ℕ → Bool
unfolding protocol_known_minor_for_major
protocol_minor_is_current v = elim (protocol_known_minor_for_major (protocol_major v)) [
  | none ↦ false
  | some minor ↦ protocol_minor v == minor
]

unfoldable pub protocol_major_supported : ℕ → Bool
unfolding protocol_major
protocol_major_supported v =
    let major = protocol_major v in
    major == protocol_major protocol_version || major == protocol_major protocol_version_v1

is_space : ℕ → Bool
is_space c = c == 32 || leb 9 c && leb c 13

trim_left : Bytes → Bytes
trim_left [] = []
trim_left (c ∷ s) = if is_space c then trim_left s else c ∷ s

unfoldable pub trim_space : Bytes → Bytes
unfolding is_space trim_left
trim_space s = reverse (trim_left (reverse (trim_left s)))

unfoldable pub to_lower : ℕ → ℕ
to_lower c = if leb b'A' c && leb c b'Z' then c + 32 else c

-- The value of a digit, for bases up to 36.
digit_value : ℕ → Option ℕ
unfolding to_lower
digit_value c =
    if leb b'0' c && leb c b'9'
    then some (c - b'0')
    else if leb b'a' (to_lower c) && leb (to_lower c) b'z'
    then some (to_lower c - b'a' + 10)
    else none

add_digit : ℕ → ℕ → Option ℕ → Result ℕ
add_digit base n none = err (plain "invalid syntax")
add_digit base n (some d) =
    if leb base d
    then err (plain "invalid syntax")
    else if ltb 255 (n * base + d)
    then err (plain "value out of range")
    else ok (n * base + d)

parse_digits : ℕ → ℕ → Bytes → Result ℕ
parse_digits base n [] = ok n
parse_digits base n (c ∷ s) = add_digit base n (digit_value c) >>= λ m. parse_digits base m s

-- `strconv.ParseUint(s, base, 8)` for a base other than 0.
unfoldable pub parse_uint8 : Bytes → ℕ → Result ℕ
unfolding digit_value add_digit parse_digits
parse_uint8 [] base = err (plain "invalid syntax")
parse_uint8 (c ∷ s) base = parse_digits base 0 (c ∷ s)

has_hex_prefix : Bytes → Bool
has_hex_prefix (a ∷ b ∷ s) = a == b'0' && (b == b'x' || b == b'X')
has_hex_prefix _ = false

parse_decimal : Bytes → Result ℕ
unfolding parse_uint8
parse_decimal s = annotate "invalid protocol version" (parse_uint8 s 10)

-- Two characters that are no hexadecimal byte are tried as a decimal number.
or_decimal : Bytes → Result ℕ → Result ℕ
unfolding parse_decimal
or_decimal s (ok u) = ok u
or_decimal s (err e) = parse_decimal s
or_decimal s panic = panic

parse_trimmed : Bytes → Result ℕ
unfolding parse_uint8 has_hex_prefix parse_decimal or_decimal
parse_trimmed s =
    if bytes_eq s []
    then err (plain "empty protocol version")
    else if has_hex_prefix s
    then annotate "invalid protocol version hex" (parse_uint8 (drop 2 s) 16)
    else if length s == 2
    then or_decimal s (parse_uint8 s 16)
    else parse_decimal s

unfoldable pub parse_protocol_version_param : Bytes → Result ℕ
unfolding trim_space parse_trimmed
parse_protocol_version_param s = parse_trimmed (trim_space s)

-- The errors of a selector that is neither a name nor a supported raw version.
raw_generation : Result ℕ → Result ℕ
unfolding protocol_major_supported
raw_generation (ok v) =
    if protocol_major_supported v
    then ok v
    else err (plain "invalid protocol version: want v2 or v1")
raw_generation (err e) = err (plain "invalid protocol version: want v2 or v1")
raw_generation panic = panic

names_newest : Bytes → Bool
names_newest name = bytes_eq name [] || (bytes_eq name (codes "v2") || bytes_eq name (codes "2"))

names_legacy : Bytes → Bool
names_legacy name = bytes_eq name (codes "v1") || bytes_eq name (codes "1")

unfoldable pub parse_protocol_generation : Bytes → Result ℕ
unfolding parse_protocol_version_param raw_generation names_newest names_legacy
parse_protocol_generation s =
    let name = map to_lower (trim_space s) in
    if names_newest name
    then ok protocol_version_v2
    else if names_legacy name
    then ok protocol_version_v1
    else raw_generation (parse_protocol_version_param s)
