-- ===== src/Zone/Rules/Ruleset.antt =====
-- The rules of zone/rules.go: how they are compiled and when one matches. `err` loses the texts
-- that the code formats into its messages.
use linksocks.Prelude.{
  ℕ, Bool, true, false, not, ◌&&◌, ◌||◌, Option, none, some, List, [], ◌∷◌, ltb, if◌then◌else◌,
  Bytes, Result, ok, err, plain, annotate, ◌>>=◌, ◌>>◌, reject, length, String, str_eq,
}
use linksocks.Prelude.ByteOrder.{codes, bytes_eq}
use linksocks.Zone.Addresses.{Addr, Prefix, parse_addr, parse_prefix, masked, contains}
use linksocks.Zone.Rules.Ports.{PortField, contains_port}

abbrev pub max_zone_rules : ℕ
max_zone_rules = 64

pub record RuleConfig : Type 0 where
  pub src : Bytes
  pub src_port : PortField
  pub proto : String
  pub dst : Bytes
  pub dst_port : PortField
  pub action : String

-- `none` is the zero `netip.Prefix`, which is not valid: any address.
pub record Rule : Type 0 where
  pub src : Option Prefix
  pub dst : Option Prefix
  pub src_port : PortField
  pub dst_port : PortField
  pub proto : String
  pub allow : Bool

pub record Ruleset : Type 0 where
  pub rules : List Rule
  pub default_allow : Bool

pub record Settings : Type 0 where
  pub default_action : String
  pub rules : List RuleConfig

-- `none` is the zero `netip.Addr`, which is not valid.
pub record Flow : Type 0 where
  pub src : Option Addr
  pub dst : Option Addr
  pub proto : String
  pub src_port : ℕ
  pub dst_port : ℕ
  pub src_port_known : Bool
  pub dst_port_known : Bool

unfoldable pub network_of : Option Prefix → Option Addr → Result (Option Prefix)
network_of (some p) addr = ok (some (masked p))
network_of none (some addr) = ok (some (record { addr = addr; bits = 32 }))
network_of none none = err (plain "expected any, an IPv4 CIDR or an IPv4 address")

unfoldable pub parse_rule_network : Bytes → Result (Option Prefix)
parse_rule_network text =
    if bytes_eq text [] || bytes_eq text (codes "any")
    then ok none
    else network_of (parse_prefix text) (parse_addr text)

unfoldable pub is_protocol : String → Bool
is_protocol p =
    str_eq p "any" || (str_eq p "tcp" || (str_eq p "udp" || (str_eq p "icmp" || str_eq p "arp")))

unfoldable pub without_ports : String → Bool
without_ports p = str_eq p "icmp" || str_eq p "arp"

unfoldable pub proto_of : RuleConfig → String
proto_of config = if str_eq config.proto "" then "any" else config.proto

unfoldable pub action_of : String → Result Bool
action_of action =
    if str_eq action "allow"
    then ok true
    else if str_eq action "deny"
    then ok false
    else err (plain "invalid rule action")

unfoldable pub compile_rule : RuleConfig → Result Rule
compile_rule config = do
  reject (not (is_protocol (proto_of config))) "invalid protocol"
  src ← parse_rule_network config.src
  dst ← parse_rule_network config.dst
  reject (without_ports (proto_of config) && (config.src_port.is_set || config.dst_port.is_set))
      "ports do not apply"
  allow ← action_of config.action
  ok (record {
    src = src;
    dst = dst;
    src_port = config.src_port;
    dst_port = config.dst_port;
    proto = proto_of config;
    allow = allow;
  })

unfoldable pub compile_rules : List RuleConfig → Result (List Rule)
compile_rules [] = ok []
compile_rules (config ∷ rest) = do
  compiled ← annotate "zone rule" (compile_rule config)
  rules ← compile_rules rest
  ok (compiled ∷ rules)

unfoldable pub is_action : String → Bool
is_action a = str_eq a "" || (str_eq a "allow" || str_eq a "deny")

unfoldable pub compile_settings : Settings → Result Ruleset
compile_settings s = do
  reject (not (is_action s.default_action)) "invalid zone default action"
  reject (ltb max_zone_rules (length s.rules)) "too many zone firewall rules"
  rules ← compile_rules s.rules
  ok (record { rules = rules; default_allow = not (str_eq s.default_action "deny") })

-- `return false` of `matches` for a port.
unfoldable pub port_fits : String → PortField → Bool → ℕ → Bool
port_fits proto field known port =
    if field.is_set
    then (if not (str_eq proto "tcp") && not (str_eq proto "udp")
        then false
        else known && contains_port field port)
    else true

unfoldable pub network_fits : Option Prefix → Option Addr → Bool
network_fits none a = true
network_fits (some p) none = false
network_fits (some p) (some a) = contains p a

unfoldable pub matches : Rule → Flow → Bool
matches r f =
    if not (str_eq r.proto "any") && not (str_eq r.proto f.proto)
    then false
    else if not (port_fits f.proto r.src_port f.src_port_known f.src_port)
    then false
    else if not (port_fits f.proto r.dst_port f.dst_port_known f.dst_port)
    then false
    else if not (network_fits r.src f.src)
    then false
    else if not (network_fits r.dst f.dst)
    then false
    else true

-- The loop of `allow`.
unfoldable pub first_match : List Rule → Bool → Flow → Bool
first_match [] default_allow f = default_allow
first_match (r ∷ rest) default_allow f =
    let later = first_match rest default_allow f in if matches r f then r.allow else later

unfoldable pub allow : Ruleset → Flow → Bool
allow rs f = first_match rs.rules rs.default_allow f
