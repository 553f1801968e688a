-- ===== src/Zone/Rules/Tests.antt =====
-- A small firewall and a packet on which the theorems on zone/rules.go are run.
use linksocks.Prelude.{
  ◌<◌, ◌≤◌, ◌≡◌, ◌⊎◌, true, false, none, some, [], ◌∷◌, ◌++◌, refl, All, Bytes, ok, length, arith,
  index, slice, OfValue, ◌↔◌, str_eq,
}
use linksocks.Prelude.ByteOrder.{IsByte, codes}
use linksocks.Message.Version.{trim_space}
use linksocks.Zone.Addresses.{
  contains, parse_prefix, cut, prefix_of, parse_addr, next_octet, parse_plain_decimal, leading_zero,
  parse_decimal_to, parse_digits, masked,
}
use linksocks.Zone.Rules.Ports.{contains_port, Json, PortField}
use linksocks.Zone.Rules.Ruleset.{
  first_match, port_fits, network_fits, is_action, compile_rules, compile_rule, is_protocol,
  proto_of, parse_rule_network, network_of, without_ports, action_of, Rule, Ruleset, Settings, Flow,
  matches, allow, compile_settings,
}
use linksocks.Zone.Rules.Matching.{MeetsPort, MeetsNetwork, matches_iff, Decides, allow-Decides}
use linksocks.Zone.Rules.Compilation.{IsRule, compile_settings-IsRule}
use linksocks.Zone.Rules.Frames.{
  ethernet_flow, uint16_at, typed_flow, ipv4_flow, addressed_flow, addr_at, transport_flow,
  read_ip_ports,
}
use linksocks.Zone.Rules.Classification.{IsFlow, ethernet_flow-IsFlow}

-- A decoder that reads no string and no object.
abbrev plain_json : Json
plain_json = record { string = λ b. none; range = λ b. none }

abbrev any_port : PortField
any_port = record { is_set = false; from = 0; to = 0 }

abbrev web_ports : PortField
web_ports = record { is_set = true; from = 80; to = 443 }

range_is_read : 0 < length (trim_space (codes "80-443"))
unfolding trim_space
range_is_read = omega arith

abbrev web_rule : Rule
web_rule = record {
  src = none;
  dst = some (record { addr = 0x0a000000; bits = 8 });
  src_port = any_port;
  dst_port = web_ports;
  proto = "tcp";
  allow = true;
}

abbrev web_flow : Flow
web_flow = record {
  src = some 0x0a000001;
  dst = some 0x0a000002;
  proto = "tcp";
  src_port = 5000;
  dst_port = 80;
  src_port_known = true;
  dst_port_known = true;
}

matches_iff_example : (matches web_rule web_flow ≡ true) ↔ (
    ((str_eq web_rule.proto "any" ≡ true) ⊎ (str_eq web_rule.proto web_flow.proto ≡ true))
    × (MeetsPort "tcp" any_port true 5000
        × (MeetsPort "tcp" web_ports true 80
            × (MeetsNetwork web_rule.src web_flow.src × MeetsNetwork web_rule.dst web_flow.dst))))
matches_iff_example = matches_iff web_rule web_flow

abbrev deny_but_web : Ruleset
deny_but_web = record { rules = web_rule ∷ []; default_allow = false }

allow-Decides_example : Decides (web_rule ∷ []) false web_flow (allow deny_but_web web_flow)
allow-Decides_example = allow-Decides deny_but_web web_flow

abbrev web_settings : Settings
web_settings = record {
  default_action = "deny";
  rules =
      (record {
        src = codes "any";
        src_port = any_port;
        proto = "tcp";
        dst = codes "10.0.0.0/8";
        dst_port = web_ports;
        action = "allow";
      })
      ∷ [];
}

compile_settings-IsRule_example :
    OfValue
      (λ rs.
        (length rs.rules ≡ length web_settings.rules)
        × ((length rs.rules ≤ 64) × All IsRule rs.rules))
      (compile_settings web_settings)
compile_settings-IsRule_example = compile_settings-IsRule web_settings

-- A TCP packet from 10.0.0.1, port 5000, to 10.0.0.2, port 80.
abbrev tcp_frame : Bytes
tcp_frame =
    (2 ∷ 0 ∷ 0 ∷ 0 ∷ 0 ∷ 2 ∷ 2 ∷ 0 ∷ 0 ∷ 0 ∷ 0 ∷ 1 ∷ 8 ∷ 0 ∷ [])
    ++ ((69 ∷ 0 ∷ 0 ∷ 24 ∷ 0 ∷ 0 ∷ 0 ∷ 0 ∷ 64 ∷ 6 ∷ 0 ∷ 0 ∷ 10 ∷ 0 ∷ 0 ∷ 1 ∷ 10 ∷ 0 ∷ 0 ∷ 2 ∷ [])
        ++ (19 ∷ 136 ∷ 0 ∷ 80 ∷ []))

tcp_frame-IsByte : All IsByte tcp_frame
tcp_frame-IsByte = ground arith

ethernet_flow-IsFlow_example : OfValue IsFlow (ethernet_flow tcp_frame)
ethernet_flow-IsFlow_example = ethernet_flow-IsFlow tcp_frame tcp_frame-IsByte

classifies_tcp : ethernet_flow tcp_frame ≡ ok web_flow
unfolding ethernet_flow uint16_at index typed_flow slice ipv4_flow addressed_flow addr_at
    transport_flow read_ip_ports
classifies_tcp = refl

allows_web : allow deny_but_web web_flow ≡ true
unfolding allow first_match matches port_fits contains_port network_fits contains
allows_web = refl

compiles : compile_settings web_settings ≡ ok deny_but_web
unfolding compile_settings is_action compile_rules compile_rule is_protocol proto_of
    parse_rule_network network_of parse_prefix cut prefix_of parse_addr next_octet
    parse_plain_decimal leading_zero parse_decimal_to parse_digits without_ports masked action_of
compiles = refl
