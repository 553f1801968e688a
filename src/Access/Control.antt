-- ===== src/Access/Control.antt =====
-- `NewAccessControl` and `Allow` of linksocks/access.go.
use linksocks.Prelude.{
  Bool, true, false, not, ◌&&◌, ◌||◌, Option, none, some, List, [], ◌∷◌, Bytes, if◌then◌else◌, ltb,
  ◌==◌, Result, ok, err, plain, ◌>>=◌,
}
use linksocks.Prelude.Int.{ℤ, pos}
use linksocks.Access.Specs.{
  NetPackage, PortSpec, AccessRule, IpRange, ParsedRule, AccessControl, int_lt, parse_addr_spec,
}

-- A port range of a rule that `NewAccessControl` refuses.
unfoldable pub bad_ports : PortSpec → Bool
bad_ports p = int_lt p.start (pos 1) || (int_lt (pos 65535) p.end || int_lt p.end p.start)

unfoldable pub parse_ports : List PortSpec → Result (List (ℤ × ℤ))
parse_ports [] = ok []
parse_ports (p ∷ ports) =
    let rest = parse_ports ports in
    if bad_ports p
    then err (plain "invalid port range")
    else rest >>= λ parsed. ok ((p.start, p.end) ∷ parsed)

-- `bytes.Compare(a, b) <= 0`
unfoldable pub at_most_bytes : Bytes → Bytes → Bool
at_most_bytes [] b = true
at_most_bytes (x ∷ a) [] = false
at_most_bytes (x ∷ a) (y ∷ b) =
    let rest = at_most_bytes a b in if ltb x y then true else if x == y then rest else false

unfoldable pub port_in_ranges : List (ℤ × ℤ) → ℤ → Bool
port_in_ranges [] port = false
port_in_ranges ((lo, hi) ∷ ranges) port =
    let rest = port_in_ranges ranges port in
    if not (int_lt port lo) && not (int_lt hi port) then true else rest

-- `len(rule.addrs) == 0`, `len(rule.ports) > 0` and `Empty`.
unfoldable pub no_addrs : List IpRange → Bool
no_addrs [] = true
no_addrs (r ∷ addrs) = false

unfoldable pub has_ports : List (ℤ × ℤ) → Bool
has_ports [] = false
has_ports (p ∷ ports) = true

unfoldable pub no_rules : List ParsedRule → Bool
no_rules [] = true
no_rules (r ∷ rules) = false

unfoldable pub is_empty : AccessControl → Bool
is_empty a = no_rules a.rules

module _ (net : NetPackage) where
  unfoldable pub parse_addrs : List Bytes → Result (List IpRange)
  parse_addrs [] = ok []
  parse_addrs (spec ∷ addrs) =
      let rest = parse_addrs addrs in
      parse_addr_spec net spec >>= λ r. rest >>= λ parsed. ok (r ∷ parsed)

  unfoldable pub parse_rules : List AccessRule → Result (List ParsedRule)
  parse_rules [] = ok []
  parse_rules (rule ∷ rules) =
      let rest = parse_rules rules in
      parse_addrs rule.addrs >>= λ addrs. parse_ports rule.ports >>= λ ports.
      rest >>= λ parsed. ok (record { addrs = addrs; ports = ports } ∷ parsed)

  unfoldable pub new_access_control : List AccessRule → Result AccessControl
  new_access_control rules =
      parse_rules rules >>= λ parsed. ok (record { rules = parsed; raw = rules })

  unfoldable pub ip_in_range : Bytes → IpRange → Bool
  ip_in_range ip r = at_most_bytes r.start (net.to16 ip) && at_most_bytes (net.to16 ip) r.end

  unfoldable pub in_some_range : Bytes → List IpRange → Bool
  in_some_range ip [] = false
  in_some_range ip (r ∷ ranges) =
      let rest = in_some_range ip ranges in if ip_in_range ip r then true else rest

  -- The loop over the addresses of the host for one rule.
  unfoldable pub some_ip_allowed : List IpRange → List Bytes → Bool
  some_ip_allowed addrs [] = false
  some_ip_allowed addrs (ip ∷ ips) =
      let rest = some_ip_allowed addrs ips in
      if no_addrs addrs then true else if in_some_range ip addrs then true else rest

  unfoldable pub some_rule_allows : List ParsedRule → List Bytes → ℤ → Bool
  some_rule_allows [] ips port = false
  some_rule_allows (rule ∷ rules) ips port =
      let rest = some_rule_allows rules ips port in
      if has_ports rule.ports && not (port_in_ranges rule.ports port)
      then rest
      else if some_ip_allowed rule.addrs ips
      then true
      else rest

  -- The addresses of a host: its own, or those it resolves to.
  unfoldable pub addresses : Bytes → Option (List Bytes)
  addresses host = elim (net.parse_ip host) [ some ip ↦ some (ip ∷ []) | none ↦ net.lookup_ip host ]

  unfoldable pub when_resolved : AccessControl → ℤ → Option (List Bytes) → Bool
  when_resolved a port (some ips) = some_rule_allows a.rules ips port
  when_resolved a port none = false

  -- `Allow`; no access control is `nil`.
  unfoldable pub allow_access : Option AccessControl → Bytes → ℤ → Bool
  allow_access none host port = true
  allow_access (some a) host port =
      if is_empty a then true else when_resolved a port (addresses host)
