-- ===== src/Zone/Rules/Frames.antt =====
-- `ethernetFlow` of zone/rules.go: a frame classified for the firewall.
use linksocks.Prelude.{
  ℕ, ◌+◌, ◌*◌, ◌/◌, ◌%◌, true, false, not, ◌||◌, none, some, if◌then◌else◌, ltb, ◌==◌, Bytes,
  Result, ok, length, index, slice_from, ◌>>=◌,
}
use linksocks.Prelude.ByteOrder.{u16_of, u32_of}
use linksocks.Zone.Addresses.{Addr}
use linksocks.Zone.Rules.Ruleset.{Flow}

abbrev pub ether_type_ipv4 : ℕ
ether_type_ipv4 = 0x0800

abbrev pub ether_type_arp : ℕ
ether_type_arp = 0x0806

abbrev pub min_frame_size : ℕ
min_frame_size = 14

-- `binary.BigEndian.Uint16(b[i:])`
unfoldable pub uint16_at : Bytes → ℕ → Result ℕ
uint16_at b i = do x ← index b i; y ← index b (i + 1); ok (u16_of x y)

-- `netip.AddrFrom4([4]byte(b[i:i+4]))`
unfoldable pub addr_at : Bytes → ℕ → Result Addr
addr_at b i = do
  w ← index b i
  x ← index b (i + 1)
  y ← index b (i + 2)
  z ← index b (i + 3)
  ok (u32_of w x y z)

-- `f := flow{proto: "any"}`
abbrev pub any_flow : Flow
any_flow = record {
  src = none;
  dst = none;
  proto = "any";
  src_port = 0;
  dst_port = 0;
  src_port_known = false;
  dst_port_known = false;
}

unfoldable pub read_ip_ports : Flow → Bytes → ℕ → Result Flow
read_ip_ports f ip ihl = if ltb (length ip) (ihl + 4) then ok f else (do
  src_port ← uint16_at ip ihl
  dst_port ← uint16_at ip (ihl + 2)
  ok (record f {
    src_port = src_port;
    dst_port = dst_port;
    src_port_known = true;
    dst_port_known = true;
  }))

-- `switch ip[9]`
unfoldable pub transport_flow : Flow → Bytes → ℕ → ℕ → Result Flow
transport_flow f ip ihl protocol =
    if protocol == 1
    then ok (record f {
      proto = "icmp";
      src_port = 0;
      dst_port = 0;
      src_port_known = true;
      dst_port_known = true;
    })
    else if protocol == 6
    then read_ip_ports (record f { proto = "tcp" }) ip ihl
    else if protocol == 17
    then read_ip_ports (record f { proto = "udp" }) ip ihl
    else ok f

unfoldable pub addressed_flow : Bytes → ℕ → Result Flow
addressed_flow ip ihl = if ltb ihl 20 || ltb (length ip) ihl then ok any_flow else (do
  src ← addr_at ip 12
  dst ← addr_at ip 16
  protocol ← index ip 9
  transport_flow (record any_flow { src = some src; dst = some dst }) ip ihl protocol)

-- `case etherTypeIPv4`; `ip[0]&0x0f` is the remainder by 16 and `ip[0]>>4` the quotient.
unfoldable pub ipv4_flow : Bytes → Result Flow
ipv4_flow ip =
    if ltb (length ip) 20
    then ok any_flow
    else index ip 0 >>= λ first.
        if not (first / 16 == 4) then ok any_flow else addressed_flow ip (first % 16 * 4)

-- `case etherTypeARP`
unfoldable pub arp_flow : Bytes → Result Flow
arp_flow frame =
    if ltb (length frame) (28 + 14) then ok (record any_flow { proto = "arp" }) else (do
      src ← addr_at frame 28
      dst ← addr_at frame 38
      ok (record any_flow { proto = "arp"; src = some src; dst = some dst }))

-- `switch binary.BigEndian.Uint16(frame[12:14])`
unfoldable pub typed_flow : Bytes → ℕ → Result Flow
typed_flow frame ether_type =
    if ether_type == ether_type_ipv4
    then (slice_from frame 14 >>= λ ip. ipv4_flow ip)
    else if ether_type == ether_type_arp
    then arp_flow frame
    else ok any_flow

unfoldable pub ethernet_flow : Bytes → Result Flow
ethernet_flow frame =
    if ltb (length frame) min_frame_size
    then ok any_flow
    else (uint16_at frame 12 >>= λ ether_type. typed_flow frame ether_type)
