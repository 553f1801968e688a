-- ===== src/Access/Decision.antt =====
-- What `Allow` of linksocks/access.go permits, against the rules as the documentation reads.
use linksocks.Prelude.{
  ◌≡◌, ◌↔◌, ◌⊎◌, inl, inr, refl, true, false, not, ◌&&◌, Option, none, some, List, [], ◌∷◌, Bytes,
  if◌then◌else◌, arith, subst,
}
use linksocks.Prelude.Int.{ℤ}
use linksocks.Access.Specs.{NetPackage, AccessRule, IpRange, ParsedRule, AccessControl, int_lt}
use linksocks.Access.Control.{
  port_in_ranges, at_most_bytes, no_addrs, has_ports, no_rules, is_empty, ip_in_range,
  in_some_range, some_ip_allowed, some_rule_allows, addresses, when_resolved, allow_access,
}

abbrev pub Any {ℓ} : {A : Type ℓ} → (A → Type 0) → List A → Type 0
Any P [] = ⊥
Any P (x ∷ xs) = P x ⊎ Any P xs

abbrev pub PortWithin : ℤ → ℤ × ℤ → Type 0
PortWithin port (lo, hi) = (int_lt port lo ≡ false) × (int_lt hi port ≡ false)

-- No port range, or one that holds the port.
abbrev pub PortFits : List (ℤ × ℤ) → ℤ → Type 0
PortFits ranges port = (ranges ≡ []) ⊎ Any (PortWithin port) ranges

module _ (net : NetPackage) where
  abbrev pub Within : Bytes → IpRange → Type 0
  Within ip r =
      (at_most_bytes r.start (net.to16 ip) ≡ true) × (at_most_bytes (net.to16 ip) r.end ≡ true)

  -- No address range, or one that holds the address.
  abbrev pub AddressFits : List IpRange → Bytes → Type 0
  AddressFits ranges ip = (ranges ≡ []) ⊎ Any (Within ip) ranges

  abbrev pub Permitted : ParsedRule → List Bytes → ℤ → Type 0
  Permitted rule ips port = PortFits rule.ports port × Any (AddressFits rule.addrs) ips

  port_in_ranges_iff :
      (ranges : List (ℤ × ℤ)) (port : ℤ)
      → (port_in_ranges ranges port ≡ true) ↔ Any (PortWithin port) ranges
  unfolding port_in_ranges
  port_in_ranges_iff [] port = ground arith
  port_in_ranges_iff ((lo, hi) ∷ ranges) port = ground (arith, port_in_ranges_iff ranges port)

  in_some_range_iff :
      (ip : Bytes) (ranges : List IpRange)
      → (in_some_range net ip ranges ≡ true) ↔ Any (Within ip) ranges
  unfolding in_some_range ip_in_range
  in_some_range_iff ip [] = ground arith
  in_some_range_iff ip (r ∷ ranges) = ground (arith, in_some_range_iff ip ranges)

  some_ip_allowed_iff :
      (ranges : List IpRange) (ips : List Bytes)
      → (some_ip_allowed net ranges ips ≡ true) ↔ Any (AddressFits ranges) ips
  unfolding some_ip_allowed no_addrs in_some_range
  some_ip_allowed_iff ranges [] = ground arith
  some_ip_allowed_iff [] (ip ∷ ips) = ground (arith, some_ip_allowed_iff [] ips)
  some_ip_allowed_iff (r ∷ ranges) (ip ∷ ips) =
      ground (arith, some_ip_allowed_iff (r ∷ ranges) ips, in_some_range_iff ip (r ∷ ranges))

  rule_iff :
      (ports : List (ℤ × ℤ)) (port : ℤ)
      → ((has_ports ports && not (port_in_ranges ports port)) ≡ false) ↔ PortFits ports port
  unfolding has_ports port_in_ranges
  rule_iff [] port = ground arith
  rule_iff (r ∷ ports) port = ground (arith, port_in_ranges_iff (r ∷ ports) port)

  some_rule_allows_iff :
      (rules : List ParsedRule) (ips : List Bytes) (port : ℤ)
      → (some_rule_allows net rules ips port ≡ true) ↔ Any (λ rule. Permitted rule ips port) rules
  unfolding some_rule_allows
  some_rule_allows_iff [] ips port = ground arith
  some_rule_allows_iff (rule ∷ rules) ips port = ground (
    arith,
    rule_iff rule.ports port,
    some_ip_allowed_iff rule.addrs ips,
    some_rule_allows_iff rules ips port,
  )

  -- An access control permits a destination exactly when it has no rules, or when the host has or
  -- resolves to addresses of which one fits, together with the port, one and the same rule.
  pub allow_access_iff :
      (a : AccessControl) (host : Bytes) (port : ℤ)
      → (allow_access net (some a) host port ≡ true) ↔ (
          (a.rules ≡ [])
          ⊎ ((ips : List Bytes) × (addresses net host ≡ some ips)
              × Any (λ rule. Permitted rule ips port) a.rules))
  unfolding allow_access is_empty no_rules when_resolved
  allow_access_iff a host port = by a.rules a.raw (addresses net host)
    where
      by :
          (rules : List ParsedRule) (raw : List AccessRule) (r : Option (List Bytes))
          → ((if no_rules rules
                then true
                else when_resolved net (record { rules = rules; raw = raw }) port r)
              ≡ true)
            ↔ ((rules ≡ [])
                ⊎ ((ips : List Bytes) × (r ≡ some ips)
                    × Any (λ rule. Permitted rule ips port) rules))
      by [] raw r = (λ h. inl refl, λ h. refl)
      by (x ∷ rules) raw none = (
        λ h. ground (arith, h),
        λ h. elim h [ inl e ↦ ground (arith, e) | inr (ips, e, any) ↦ ground (arith, e) ],
      )
      by (x ∷ rules) raw (some ips) = (
        λ h. inr (ips, refl, (some_rule_allows_iff (x ∷ rules) ips port).0 h),
        λ h. elim h [
          | inl e ↦ ground (arith, e)
          | inr (ips', e, any) ↦
              let same : ips' ≡ ips = ground (arith, e) in
              (some_rule_allows_iff (x ∷ rules) ips port).1 (
                subst (λ (l : List Bytes). Any (λ rule. Permitted rule l port) (x ∷ rules)) same
                  any)
        ],
      )
