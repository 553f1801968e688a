-- ===== src/Message/Version/Selectors.antt =====
-- What the version selectors of linksocks/message.go accept.
use linksocks.Prelude.{
  ℕ, ◌+◌, ◌<◌, ◌/◌, ◌%◌, ◌≡◌, refl, Bool, true, false, not, ◌||◌, [], ◌∷◌, map, Bytes, Result, ok,
  arith, ltb, ◌==◌, if◌then◌else◌, passes_below, passes_below_lem,
}
use linksocks.Message.Version.{
  protocol_major_supported, protocol_minor_is_current, parse_protocol_version_param,
  parse_protocol_generation, raw_generation, names_newest, names_legacy, trim_space, to_lower,
}

-- `%02X` of a digit.
abbrev pub upper_digit : ℕ → ℕ
upper_digit d = if ltb d 10 then d + 48 else d + 55

-- `fmt.Sprintf("0x%02X", v)`, the form in which a client reports its version.
abbrev pub version_param : ℕ → Bytes
version_param v = b'0' ∷ b'x' ∷ upper_digit (v / 16) ∷ upper_digit (v % 16) ∷ []

abbrev is_ok_of : ℕ → Result ℕ → Bool
is_ok_of v (ok u) = u == v
is_ok_of v _ = false

is_ok_of→eq : (v : ℕ) (r : Result ℕ) → is_ok_of v r ≡ true → r ≡ ok v
is_ok_of→eq v (ok u) h = ground arith
is_ok_of→eq v _ h = ground arith

param_table :
    passes_below (λ v. is_ok_of v (parse_protocol_version_param (version_param v))) 256 ≡ true
unfolding passes_below parse_protocol_version_param
param_table = refl

-- Every version byte that a client reports as `0x%02X` is read back by the server.
pub parse_protocol_version_param-version_param :
    (v : ℕ) → v < 256 → parse_protocol_version_param (version_param v) ≡ ok v
parse_protocol_version_param-version_param v h =
    is_ok_of→eq v _ (passes_below_lem _ 256 v h param_table)

selection-supported :
    (newest legacy : Bool) (r : Result ℕ) (v : ℕ)
    → (if newest then ok 0x20 else if legacy then ok 0x04 else raw_generation r) ≡ ok v
    → protocol_major_supported v ≡ true
unfolding raw_generation protocol_major_supported
selection-supported newest legacy r v h = ground arith

-- A generation selector that is accepted names a version whose frames this build can parse.
pub parse_protocol_generation-supported :
    (s : Bytes) (v : ℕ) → parse_protocol_generation s ≡ ok v → protocol_major_supported v ≡ true
unfolding parse_protocol_generation
parse_protocol_generation-supported s v h =
    let name = map to_lower (trim_space s) in
    selection-supported (names_newest name) (names_legacy name) (parse_protocol_version_param s) v h

abbrev same : Bool → Bool → Bool
same true b = b
same false b = not b

same→eq : (a b : Bool) → same a b ≡ true → a ≡ b
same→eq a b h = ground arith

current_table :
    passes_below (λ v. same (protocol_minor_is_current v) (v == 0x20 || v == 0x04)) 256 ≡ true
unfolding passes_below protocol_minor_is_current
current_table = refl

-- A peer's version byte counts as current exactly when it is the stamp of one of the two
-- generations of this build, 0x20 or 0x04.
pub protocol_minor_is_current-exact :
    (v : ℕ) → v < 256 → protocol_minor_is_current v ≡ (v == 0x20 || v == 0x04)
protocol_minor_is_current-exact v h = same→eq _ _ (passes_below_lem _ 256 v h current_table)
