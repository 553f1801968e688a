-- ===== src/Access/Tests.antt =====
-- Runs of linksocks/access.go over a simple package net, and the theorem at a concrete input.
use linksocks.Prelude.{◌≡◌, ◌↔◌, ◌⊎◌, refl, true, Option, none, some, List, [], ◌∷◌, Bytes, ok}
use linksocks.Prelude.Int.{pos}
use linksocks.Prelude.ByteOrder.{codes}
use linksocks.Access.Specs.{
  NetPackage, AccessRule, AccessControl, parse_addr_spec, trimmed_spec, range_spec, contains_byte,
  cut_at, int_lt,
}
use linksocks.Access.Control.{
  bad_ports, parse_ports, parse_addrs, parse_rules, new_access_control, addresses, allow_access,
}
use linksocks.Access.Decision.{Any, Permitted, allow_access_iff}

-- Addresses are written as one letter, and names do not resolve.
abbrev letter : Bytes → Option Bytes
letter [] = none
letter (c ∷ []) = some (c ∷ [])
letter (c ∷ d ∷ s) = none

abbrev net : NetPackage
net = record {
  parse_cidr = λ s. none;
  parse_ip = letter;
  to4 = λ ip. none;
  to16 = λ ip. ip;
  ipv4 = λ a b c d. a ∷ b ∷ c ∷ d ∷ [];
  lookup_ip = λ s. none;
  trim_space = λ s. s;
  atoi = λ s. none;
}

abbrev some_rules : List AccessRule
some_rules =
    record { addrs = codes "b-d" ∷ []; ports = record { start = pos 80; end = pos 90 } ∷ [] } ∷ []

abbrev some_control : AccessControl
some_control = record {
  rules =
      record {
        addrs = record { start = 98 ∷ []; end = 100 ∷ [] } ∷ [];
        ports = (pos 80, pos 90) ∷ [];
      }
      ∷ [];
  raw = some_rules;
}

read_rules : new_access_control net some_rules ≡ ok some_control
unfolding new_access_control parse_rules parse_addrs parse_ports bad_ports int_lt parse_addr_spec
    trimmed_spec range_spec contains_byte cut_at
read_rules = refl

allow_access_iff_example : (allow_access net (some some_control) (codes "c") (pos 85) ≡ true) ↔ (
    (some_control.rules ≡ [])
    ⊎ ((ips : List Bytes) × (addresses net (codes "c") ≡ some ips)
        × Any (λ rule. Permitted net rule ips (pos 85)) some_control.rules))
allow_access_iff_example = allow_access_iff net some_control (codes "c") (pos 85)
