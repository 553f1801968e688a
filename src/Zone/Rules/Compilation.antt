-- ===== src/Zone/Rules/Compilation.antt =====
-- What the compiled rules of zone/rules.go look like.
use native.Mathlib.Nat.{mul-div_left, one-le-pow}
use linksocks.Prelude.{
  ℕ, ◌-◌, ◌*◌, ◌/◌, ◌^◌, ◌≤◌, ◌≡◌, refl, ap, Bool, true, false, not, ◌&&◌, ◌||◌, Option, none, some,
  List, [], ◌∷◌, All, String, Bytes, arith, length, ltb, if_ind, OfValue, bind-OfValue,
  reject-OfValue, annotate-OfValue,
}
use linksocks.Prelude.ByteOrder.{bytes_eq, codes}
use linksocks.Zone.Addresses.{Addr, Prefix, parse_prefix, parse_addr, masked, parse_prefix-bits}
use linksocks.Zone.Rules.Ruleset.{
  Rule, RuleConfig, Ruleset, Settings, network_of, parse_rule_network, is_protocol, without_ports,
  proto_of, action_of, compile_rule, compile_rules, compile_settings, max_zone_rules, is_action,
}

-- Any address, or a network of at most 32 bits whose host bits are zero.
abbrev pub IsNetwork : Option Prefix → Type 0
IsNetwork none = Unit
IsNetwork (some p) = (p.bits ≤ 32) × (masked p ≡ p)

-- A protocol of the five, two networks, no ports where they mean nothing.
abbrev pub IsRule : Rule → Type 0
IsRule r =
    (is_protocol r.proto ≡ true)
    × ((without_ports r.proto ≡ true → (r.src_port.is_set ≡ false) × (r.dst_port.is_set ≡ false))
        × (IsNetwork r.src × IsNetwork r.dst))

masked_idem : (p : Prefix) → masked (masked p) ≡ masked p
unfolding masked
masked_idem p =
    ap (λ (x : ℕ). record p { addr = x * 2 ^ (32 - p.bits) })
      (mul-div_left (p.addr / 2 ^ (32 - p.bits)) (one-le-pow (32 - p.bits) 2 (omega arith)))

masked-bits : (p : Prefix) → (masked p).bits ≡ p.bits
unfolding masked
masked-bits p = refl

network_of-IsNetwork :
    (p : Option Prefix) (a : Option Addr)
    → ((x : Prefix) → p ≡ some x → x.bits ≤ 32)
    → OfValue IsNetwork (network_of p a)
unfolding network_of masked
network_of-IsNetwork (some p) a h = (h p refl, masked_idem p)
network_of-IsNetwork none (some a) h =
    (omega arith, ap (λ (x : ℕ). record { addr = x; bits = 32 }) (omega arith))
network_of-IsNetwork none none h = tt

parse_rule_network-IsNetwork : (text : Bytes) → OfValue IsNetwork (parse_rule_network text)
unfolding parse_rule_network
parse_rule_network-IsNetwork text =
    if_ind (OfValue IsNetwork) (bytes_eq text [] || bytes_eq text (codes "any")) tt
      (network_of-IsNetwork (parse_prefix text) (parse_addr text) (parse_prefix-bits text))

action_of-OfValue : (action : String) → OfValue (λ _. Unit) (action_of action)
unfolding action_of
action_of-OfValue action = ground arith

assembled-IsRule :
    (config : RuleConfig) (src dst : Option Prefix) (allow : Bool)
    → not (is_protocol (proto_of config)) ≡ false
    → (without_ports (proto_of config) && (config.src_port.is_set || config.dst_port.is_set))
      ≡ false
    → IsNetwork src
    → IsNetwork dst
    → IsRule (record {
      src = src;
      dst = dst;
      src_port = config.src_port;
      dst_port = config.dst_port;
      proto = proto_of config;
      allow = allow;
    })
assembled-IsRule config src dst allow known portless h k =
    (ground (arith, known), (ground (arith, portless), (h, k)))

compile_rule-IsRule : (config : RuleConfig) → OfValue IsRule (compile_rule config)
unfolding compile_rule
compile_rule-IsRule config =
    bind-OfValue _ IsRule _ _
      (reject-OfValue (not (is_protocol (proto_of config))) "invalid protocol")
      (λ _ known.
        bind-OfValue IsNetwork IsRule _ _ (parse_rule_network-IsNetwork config.src) (λ src h.
          bind-OfValue IsNetwork IsRule _ _ (parse_rule_network-IsNetwork config.dst) (λ dst k.
            bind-OfValue _ IsRule _ _
              (reject-OfValue
                (without_ports (proto_of config)
                  && (config.src_port.is_set || config.dst_port.is_set))
                "ports do not apply")
              (λ _ portless.
                bind-OfValue (λ _. Unit) IsRule _ _ (action_of-OfValue config.action)
                  (λ allow _. assembled-IsRule config src dst allow known portless h k)))))

-- The rules stand for the configurations one by one.
abbrev AreRules : List RuleConfig → List Rule → Type 0
AreRules configs rules = (length rules ≡ length configs) × All IsRule rules

compile_rules-AreRules :
    (configs : List RuleConfig) → OfValue (AreRules configs) (compile_rules configs)
unfolding compile_rules
compile_rules-AreRules [] = (refl, tt)
compile_rules-AreRules (config ∷ rest) =
    bind-OfValue IsRule (AreRules (config ∷ rest)) _ _
      (annotate-OfValue IsRule "zone rule" (compile_rule config) (compile_rule-IsRule config))
      (λ r h.
        bind-OfValue (AreRules rest) (AreRules (config ∷ rest)) _ _ (compile_rules-AreRules rest)
          (λ rules k. (omega (arith, k.0), (h, k.1))))

-- A compiled firewall has one rule for each configuration, at most 64, and every rule names one
-- of the five protocols, holds networks with zero host bits, and has no port condition for ICMP
-- or ARP; compiling never panics.
pub compile_settings-IsRule :
    (s : Settings)
    → OfValue
        (λ rs. (length rs.rules ≡ length s.rules) × ((length rs.rules ≤ 64) × All IsRule rs.rules))
        (compile_settings s)
unfolding compile_settings
compile_settings-IsRule s =
    let Q : Ruleset → Type 0 =
      λ rs. (length rs.rules ≡ length s.rules) × ((length rs.rules ≤ 64) × All IsRule rs.rules) in
    bind-OfValue (λ _. not (is_action s.default_action) ≡ false) Q _ _
      (reject-OfValue (not (is_action s.default_action)) "invalid zone default action")
      (λ _ _.
        bind-OfValue (λ _. ltb max_zone_rules (length s.rules) ≡ false) Q _ _
          (reject-OfValue (ltb max_zone_rules (length s.rules)) "too many zone firewall rules")
          (λ _ few.
            bind-OfValue (AreRules s.rules) Q _ _ (compile_rules-AreRules s.rules)
              (λ rules h. (h.0, (ground (arith, few, h.0), h.1)))))
