-- ===== src/Zone/Rules/Ports.antt =====
-- The port forms of zone/rules.go. `encoding/json` is the argument `json`; `bytes.TrimSpace` is
-- modelled on ASCII white space.
use linksocks.Prelude.{
  ℕ, ◌^◌, ◌≤◌, ◌<◌, ◌≡◌, refl, Bool, true, not, ◌&&◌, ◌||◌, Option, none, some, [], ltb, leb, ◌==◌,
  if◌then◌else◌, Bytes, Result, ok, err, panic, plain, ◌>>=◌, index, index_in, length, if_ind,
  get_or, arith,
}
use linksocks.Prelude.ByteOrder.{codes, bytes_eq}
use linksocks.Message.Version.{trim_space}
use linksocks.Zone.Addresses.{cut, parse_decimal_to, parse_decimal_to-le}

pub record PortField : Type 0 where
  pub is_set : Bool
  pub from : ℕ
  pub to : ℕ

-- What `json.Unmarshal` makes of a text: the string in it, and the members "from" and "to" of
-- the object in it; `none` is an error, and for a member its absence.
pub record Json : Type 0 where
  pub string : Bytes → Option Bytes
  pub range : Bytes → Option (Option Bytes × Option Bytes)

unfoldable pub set_range : ℕ → ℕ → Result PortField
set_range from to =
    if ltb to from
    then err (plain "invalid port range")
    else ok (record { is_set = true; from = from; to = to })

-- `strconv.ParseUint(text, 10, 16)` and its error
unfoldable pub port_of : Option ℕ → Result ℕ
port_of none = err (plain "invalid rule port")
port_of (some n) = ok n

unfoldable pub parse_port : Bytes → Result ℕ
parse_port text = port_of (parse_decimal_to 65535 text)

-- `set_string` of a text other than "" and "any".
unfoldable pub set_ports : Bytes × Option Bytes → Result PortField
set_ports (text, none) = parse_port text >>= λ port. set_range port port
set_ports (from, some to) = do
  start ← parse_port (trim_space from)
  end ← parse_port (trim_space to)
  set_range start end

unfoldable pub set_string : PortField → Bytes → Result PortField
set_string p text =
    if bytes_eq text [] || bytes_eq text (codes "any") then ok p else set_ports (cut b'-' text)

unfoldable pub set_quoted : PortField → Option Bytes → Result PortField
set_quoted p none = err (plain "json")
set_quoted p (some text) = set_string p text

module _ (json : Json) where
  unfoldable pub parse_port_raw : Bytes → Result ℕ
  parse_port_raw raw =
      parse_port (elim (json.string raw) [ some text ↦ text | none ↦ trim_space raw ])

  unfoldable pub set_members : Option Bytes × Option Bytes → Result PortField
  set_members (some from, some to) = do
    start ← parse_port_raw from
    end ← parse_port_raw to
    set_range start end
  set_members (some from, none) = err (plain "port range needs from and to")
  set_members (none, to) = err (plain "port range needs from and to")

  unfoldable pub set_object : Option (Option Bytes × Option Bytes) → Result PortField
  set_object none = err (plain "json")
  set_object (some members) = set_members members

  -- `UnmarshalJSON` into the field `p`.
  unfoldable pub unmarshal_json : PortField → Bytes → Result PortField
  unmarshal_json p text =
      let trimmed = trim_space text in
      if bytes_eq trimmed (codes "null")
      then ok p
      else index trimmed 0 >>= λ first.
          if first == b'"'
          then set_quoted p (json.string trimmed)
          else if first == b'{'
          then set_object (json.range trimmed)
          else set_string p trimmed

-- `contains`
unfoldable pub contains_port : PortField → ℕ → Bool
contains_port p port = not p.is_set || leb p.from port && leb port p.to

-- A field that matches every port, or a range of ports.
abbrev pub IsPortRange : PortField → Type 0
IsPortRange p = (p.from ≤ p.to) × (p.to < 2 ^ 16)

-- No panic, and the field of a successful result is a range of ports.
abbrev pub Gives : Result PortField → Type 0
Gives (ok p) = IsPortRange p
Gives (err e) = Unit
Gives panic = ⊥

abbrev GivesPort : Result ℕ → Type 0
GivesPort (ok n) = n < 2 ^ 16
GivesPort (err e) = Unit
GivesPort panic = ⊥

port_of-GivesPort : (o : Option ℕ) → ((n : ℕ) → o ≡ some n → n ≤ 65535) → GivesPort (port_of o)
unfolding port_of
port_of-GivesPort none h = tt
port_of-GivesPort (some n) h = let k = h n refl in omega arith

parse_port-GivesPort : (text : Bytes) → GivesPort (parse_port text)
unfolding parse_port
parse_port-GivesPort text = port_of-GivesPort _ (parse_decimal_to-le 65535 text)

set_range-Gives : (from to : ℕ) → to < 2 ^ 16 → Gives (set_range from to)
unfolding set_range
set_range-Gives from to h = ground arith

range-Gives :
    (a b : Result ℕ)
    → GivesPort a
    → GivesPort b
    → Gives (a >>= λ start. b >>= λ end. set_range start end)
range-Gives (ok a) (ok b) h k = set_range-Gives a b k
range-Gives (ok a) (err e) h k = tt
range-Gives (ok a) panic h k = elim k [ ]
range-Gives (err e) b h k = tt
range-Gives panic b h k = elim h [ ]

single-Gives : (a : Result ℕ) → GivesPort a → Gives (a >>= λ port. set_range port port)
single-Gives (ok a) h = set_range-Gives a a h
single-Gives (err e) h = tt
single-Gives panic h = elim h [ ]

set_ports-Gives : (parts : Bytes × Option Bytes) → Gives (set_ports parts)
unfolding set_ports
set_ports-Gives (text, none) = single-Gives (parse_port text) (parse_port-GivesPort text)
set_ports-Gives (from, some to) =
    range-Gives _ _ (parse_port-GivesPort (trim_space from)) (parse_port-GivesPort (trim_space to))

set_string-Gives : (p : PortField) (text : Bytes) → IsPortRange p → Gives (set_string p text)
unfolding set_string
set_string-Gives p text h = ground (arith, set_ports-Gives (cut b'-' text))

parse_port_raw-GivesPort : (json : Json) (raw : Bytes) → GivesPort (parse_port_raw json raw)
unfolding parse_port_raw
parse_port_raw-GivesPort json raw = parse_port-GivesPort _

set_quoted-Gives : (p : PortField) (text : Option Bytes) → IsPortRange p → Gives (set_quoted p text)
unfolding set_quoted
set_quoted-Gives p none h = tt
set_quoted-Gives p (some text) h = set_string-Gives p text h

set_members-Gives :
    (json : Json) (members : Option Bytes × Option Bytes) → Gives (set_members json members)
unfolding set_members
set_members-Gives json (some from, some to) =
    range-Gives _ _ (parse_port_raw-GivesPort json from) (parse_port_raw-GivesPort json to)
set_members-Gives json (some from, none) = tt
set_members-Gives json (none, to) = tt

set_object-Gives :
    (json : Json) (object : Option (Option Bytes × Option Bytes)) → Gives (set_object json object)
unfolding set_object
set_object-Gives json none = tt
set_object-Gives json (some members) = set_members-Gives json members

-- Reading a port form of a rule, given a text that is not only white space, never panics, and
-- when it succeeds on a field that is a range of ports, the field is one afterwards.
pub unmarshal_json-Gives :
    (json : Json) (p : PortField) (text : Bytes)
    → IsPortRange p
    → 0 < length (trim_space text)
    → Gives (unmarshal_json json p text)
unfolding unmarshal_json
unmarshal_json-Gives json p text h k = rw (index_in (trim_space text) 0 k) (
    if_ind Gives (bytes_eq (trim_space text) (codes "null")) h (
      if_ind Gives (get_or (trim_space text) 0 0 == b'"')
        (set_quoted-Gives p (json.string (trim_space text)) h)
        (if_ind Gives (get_or (trim_space text) 0 0 == b'{')
          (set_object-Gives json (json.range (trim_space text)))
          (set_string-Gives p (trim_space text) h))))
