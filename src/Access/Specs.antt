-- ===== src/Access/Specs.antt =====
-- The rules of linksocks/access.go and how their addresses are read. An `net.IP` is its bytes, and
-- what the code calls of the package net is a parameter.
use Prim.Native.Nat.{bit_or}
use linksocks.Prelude.{
  ℕ, ◌-◌, ◌%◌, Bool, true, false, ◌||◌, Option, none, some, List, [], ◌∷◌, Bytes, if◌then◌else◌,
  ltb, Result, ok, err, plain, ◌==◌, get_or,
}
use linksocks.Prelude.Int.{ℤ, pos, negsuc}
use linksocks.Prelude.ByteOrder.{bytes_eq}

-- A call gives a value, or `none` for its error or nil. `net.ParseCIDR` gives the address and the mask of the network, `net.ParseIP` a 16-byte address.
pub record NetPackage : Type 0 where
  pub parse_cidr : Bytes → Option (Bytes × Bytes)
  pub parse_ip : Bytes → Option Bytes
  -- `To4` and `To16`.
  pub to4 : Bytes → Option Bytes
  pub to16 : Bytes → Bytes
  pub ipv4 : ℕ → ℕ → ℕ → ℕ → Bytes
  pub lookup_ip : Bytes → Option (List Bytes)
  pub trim_space : Bytes → Bytes
  pub atoi : Bytes → Option ℤ

pub record PortSpec : Type 0 where
  pub start : ℤ
  pub end : ℤ

pub record AccessRule : Type 0 where
  pub addrs : List Bytes
  pub ports : List PortSpec

pub record IpRange : Type 0 where
  pub start : Bytes
  pub end : Bytes

pub record ParsedRule : Type 0 where
  pub addrs : List IpRange
  pub ports : List (ℤ × ℤ)

pub record AccessControl : Type 0 where
  pub rules : List ParsedRule
  pub raw : List AccessRule

-- `x < y` on `int`.
unfoldable pub int_lt : ℤ → ℤ → Bool
int_lt (pos a) (pos b) = ltb a b
int_lt (pos a) (negsuc b) = false
int_lt (negsuc a) (pos b) = true
int_lt (negsuc a) (negsuc b) = ltb b a

unfoldable pub contains_byte : ℕ → Bytes → Bool
contains_byte c [] = false
contains_byte c (x ∷ s) = let rest = contains_byte c s in if x == c then true else rest

-- `strings.Cut(spec, "-")`
unfoldable pub cut_at : ℕ → Bytes → Option (Bytes × Bytes)
cut_at c [] = none
cut_at c (x ∷ s) =
    let rest = cut_at c s in
    if x == c then some ([], s) else elim rest [ none ↦ none | some (lo, hi) ↦ some (x ∷ lo, hi) ]

-- `ipNetEnd` on the bytes of a network of one of the two lengths: `^mask[i]` is 255 less the byte.
unfoldable pub net_end : Bytes → Bytes → Bytes
net_end [] mask = []
net_end (x ∷ ip) [] = x ∷ ip
net_end (x ∷ ip) (y ∷ mask) = bit_or x (255 - y) ∷ net_end ip mask

-- `byte(last)` of a number that is not negative.
unfoldable pub to_nat : ℤ → ℕ
to_nat (pos n) = n % 256
to_nat (negsuc n) = 0

module _ (net : NetPackage) where
  unfoldable pub ip_net_end : Bytes → Bytes → Bytes
  ip_net_end ip mask = elim (net.to4 ip) [ some ip4 ↦ net_end ip4 mask | none ↦ net_end ip mask ]

  -- A range whose end is not an address: the last byte of the end, for IPv4.
  unfoldable pub last_octet : Option Bytes → Option ℤ → Result IpRange
  last_octet none last = err (plain "invalid address range")
  last_octet (some base) none = err (plain "invalid address range")
  last_octet (some base) (some last) =
      if int_lt last (pos 0) || int_lt (pos 255) last
      then err (plain "invalid address range")
      else ok (record {
        start = net.to16 base;
        end =
            net.to16 (net.ipv4 (get_or base 0 0) (get_or base 1 0) (get_or base 2 0) (to_nat last));
      })

  unfoldable pub range_spec : Option Bytes → Option Bytes → Option ℤ → Result IpRange
  range_spec none end last = err (plain "invalid address range")
  range_spec (some start) (some end) last =
      ok (record { start = net.to16 start; end = net.to16 end })
  range_spec (some start) none last = last_octet (net.to4 start) last

  unfoldable pub single_spec : Option Bytes → Result IpRange
  single_spec none = err (plain "invalid address")
  single_spec (some ip) = ok (record { start = net.to16 ip; end = net.to16 ip })

  unfoldable pub read_cidr : Option (Bytes × Bytes) → Result IpRange
  read_cidr none = err (plain "invalid CIDR")
  read_cidr (some (ip, mask)) =
      ok (record { start = net.to16 ip; end = net.to16 (ip_net_end ip mask) })

  -- `parseAddrSpec` on a text without space around it.
  unfoldable pub trimmed_spec : Bytes → Result IpRange
  trimmed_spec spec =
      if bytes_eq spec []
      then err (plain "empty address spec")
      else if contains_byte 47 spec
      then read_cidr (net.parse_cidr spec)
      else elim (cut_at 45 spec) [
        | some (lo, hi) ↦
            range_spec (net.parse_ip (net.trim_space lo)) (net.parse_ip (net.trim_space hi))
              (net.atoi (net.trim_space hi))
        | none ↦ single_spec (net.parse_ip spec)
      ]

  unfoldable pub parse_addr_spec : Bytes → Result IpRange
  parse_addr_spec spec = trimmed_spec (net.trim_space spec)
