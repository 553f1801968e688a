-- ===== src/Zone/Rules/Classification.antt =====
-- What `ethernetFlow` of zone/rules.go can answer.
use linksocks.Prelude.{
  ℕ, zero, suc, ◌+◌, ◌*◌, ◌/◌, ◌%◌, ◌^◌, ◌≤◌, ◌<◌, ◌≡◌, ◌⊎◌, inl, inr, refl, true, not, ◌||◌,
  Option, none, some, [], ◌∷◌, ltb, ◌==◌, All, String, Bytes, arith, length, slice_in, piece, take,
  drop, if_ind, OfValue, bind-OfValue, index-OfValue, Bool-cases,
}
use linksocks.Prelude.ByteOrder.{IsByte}
use linksocks.Zone.Addresses.{Addr}
use linksocks.Zone.Rules.Ruleset.{Flow, is_protocol}
use linksocks.Zone.Rules.Frames.{
  uint16_at, addr_at, any_flow, read_ip_ports, transport_flow, addressed_flow, ipv4_flow, arp_flow,
  typed_flow, ethernet_flow, min_frame_size, ether_type_ipv4, ether_type_arp,
}

abbrev IsAddr : Addr → Type 0
IsAddr a = a < 2 ^ 32

abbrev pub IsPort : ℕ → Type 0
IsPort n = n < 2 ^ 16

abbrev pub Within : Option Addr → Type 0
Within none = Unit
Within (some a) = IsAddr a

abbrev pub HasPorts : String → Type 0
HasPorts proto = (proto ≡ "tcp") ⊎ ((proto ≡ "udp") ⊎ (proto ≡ "icmp"))

-- Addresses and ports in range, one of the five protocols, and known ports only where there are
-- ports.
abbrev pub IsFlow : Flow → Type 0
IsFlow f =
    (Within f.src × Within f.dst)
    × ((IsPort f.src_port × IsPort f.dst_port)
        × ((is_protocol f.proto ≡ true)
            × ((f.src_port_known ≡ f.dst_port_known)
                × (f.src_port_known ≡ true → HasPorts f.proto))))

pub uint16_at-IsPort :
    (b : Bytes) (i : ℕ) → i + 1 < length b → All IsByte b → OfValue IsPort (uint16_at b i)
unfolding uint16_at
uint16_at-IsPort b i h bytes =
    bind-OfValue IsByte IsPort _ _ (index-OfValue b i (omega arith) bytes) (λ x p.
      bind-OfValue IsByte IsPort _ _ (index-OfValue b (i + 1) h bytes) (λ y q. omega (arith, p, q)))

addr_at-IsAddr :
    (b : Bytes) (i : ℕ) → i + 3 < length b → All IsByte b → OfValue IsAddr (addr_at b i)
unfolding addr_at
addr_at-IsAddr b i h bytes =
    bind-OfValue IsByte IsAddr _ _ (index-OfValue b i (omega arith) bytes) (λ w p.
      bind-OfValue IsByte IsAddr _ _ (index-OfValue b (i + 1) (omega arith) bytes) (λ x q.
        bind-OfValue IsByte IsAddr _ _ (index-OfValue b (i + 2) (omega arith) bytes) (λ y r.
          bind-OfValue IsByte IsAddr _ _ (index-OfValue b (i + 3) h bytes)
            (λ z s. omega (arith, p, q, r, s)))))

any_flow-IsFlow : IsFlow any_flow
unfolding is_protocol
any_flow-IsFlow = ((tt, tt), ((omega arith, omega arith), (refl, (refl, λ e. ground (arith, e)))))

-- A flow with its ports put in, for a protocol that has ports.
with_ports-IsFlow :
    (f : Flow) (s d : ℕ)
    → IsFlow f
    → HasPorts f.proto
    → IsPort s
    → IsPort d
    → IsFlow (record f { src_port = s; dst_port = d; src_port_known = true; dst_port_known = true })
with_ports-IsFlow f s d h has p q = (h.0, ((p, q), (h.1.1.0, (refl, λ _. has))))

read_ip_ports-IsFlow :
    (f : Flow) (ip : Bytes) (ihl : ℕ)
    → IsFlow f
    → HasPorts f.proto
    → All IsByte ip
    → OfValue IsFlow (read_ip_ports f ip ihl)
unfolding read_ip_ports
read_ip_ports-IsFlow f ip ihl h has bytes = elim (Bool-cases (ltb (length ip) (ihl + 4))) [
  | inl e ↦ rw e h
  | inr e ↦ rw e (
      bind-OfValue IsPort IsFlow _ _ (uint16_at-IsPort ip ihl (ground (arith, e)) bytes) (λ s p.
        bind-OfValue IsPort IsFlow _ _ (uint16_at-IsPort ip (ihl + 2) (ground (arith, e)) bytes)
          (λ d q. with_ports-IsFlow f s d h has p q)))
]

-- The addresses put in, for each protocol that a packet may have.
packet-IsFlow :
    (src dst : Addr) (proto : String)
    → IsAddr src
    → IsAddr dst
    → is_protocol proto ≡ true
    → IsFlow (record any_flow { src = some src; dst = some dst; proto = proto })
packet-IsFlow src dst proto p q known =
    ((p, q), ((omega arith, omega arith), (known, (refl, λ e. ground (arith, e)))))

is_protocol-any : is_protocol "any" ≡ true
unfolding is_protocol
is_protocol-any = refl

is_protocol-arp : is_protocol "arp" ≡ true
unfolding is_protocol
is_protocol-arp = refl

is_protocol-tcp : is_protocol "tcp" ≡ true
unfolding is_protocol
is_protocol-tcp = refl

is_protocol-udp : is_protocol "udp" ≡ true
unfolding is_protocol
is_protocol-udp = refl

is_protocol-icmp : is_protocol "icmp" ≡ true
unfolding is_protocol
is_protocol-icmp = refl

transport_flow-IsFlow :
    (src dst : Addr) (ip : Bytes) (ihl protocol : ℕ)
    → IsAddr src
    → IsAddr dst
    → All IsByte ip
    → OfValue IsFlow
        (transport_flow (record any_flow { src = some src; dst = some dst }) ip ihl protocol)
unfolding transport_flow
transport_flow-IsFlow src dst ip ihl protocol p q bytes =
    if_ind (OfValue IsFlow) (protocol == 1)
      (with_ports-IsFlow (record any_flow { src = some src; dst = some dst; proto = "icmp" }) 0 0
        (packet-IsFlow src dst "icmp" p q is_protocol-icmp) (inr (inr refl)) (omega arith)
        (omega arith))
      (if_ind (OfValue IsFlow) (protocol == 6)
        (read_ip_ports-IsFlow _ ip ihl (packet-IsFlow src dst "tcp" p q is_protocol-tcp) (inl refl)
          bytes)
        (if_ind (OfValue IsFlow) (protocol == 17)
          (read_ip_ports-IsFlow _ ip ihl (packet-IsFlow src dst "udp" p q is_protocol-udp)
            (inr (inl refl)) bytes)
          (packet-IsFlow src dst "any" p q is_protocol-any)))

addressed_flow-IsFlow :
    (ip : Bytes) (ihl : ℕ) → 20 ≤ length ip → All IsByte ip → OfValue IsFlow (addressed_flow ip ihl)
unfolding addressed_flow
addressed_flow-IsFlow ip ihl h bytes =
    if_ind (OfValue IsFlow) (ltb ihl 20 || ltb (length ip) ihl) any_flow-IsFlow (
      bind-OfValue IsAddr IsFlow _ _ (addr_at-IsAddr ip 12 (omega arith) bytes) (λ src p.
        bind-OfValue IsAddr IsFlow _ _ (addr_at-IsAddr ip 16 (omega arith) bytes) (λ dst q.
          bind-OfValue IsByte IsFlow _ _ (index-OfValue ip 9 (omega arith) bytes)
            (λ protocol _. transport_flow-IsFlow src dst ip ihl protocol p q bytes))))

ipv4_flow-IsFlow : (ip : Bytes) → All IsByte ip → OfValue IsFlow (ipv4_flow ip)
unfolding ipv4_flow
ipv4_flow-IsFlow ip bytes = elim (Bool-cases (ltb (length ip) 20)) [
  | inl e ↦ rw e any_flow-IsFlow
  | inr e ↦ rw e (
      bind-OfValue IsByte IsFlow _ _ (index-OfValue ip 0 (ground (arith, e)) bytes) (λ first _.
        if_ind (OfValue IsFlow) (not (first / 16 == 4)) any_flow-IsFlow
          (addressed_flow-IsFlow ip (first % 16 * 4) (ground (arith, e)) bytes)))
]

arp_flow-IsFlow : (frame : Bytes) → All IsByte frame → OfValue IsFlow (arp_flow frame)
unfolding arp_flow
arp_flow-IsFlow frame bytes = elim (Bool-cases (ltb (length frame) (28 + 14))) [
  | inl e ↦
      rw e
        ((tt, tt), ((omega arith, omega arith), (is_protocol-arp, (refl, λ h. ground (arith, h)))))
  | inr e ↦ rw e (
      bind-OfValue IsAddr IsFlow _ _ (addr_at-IsAddr frame 28 (ground (arith, e)) bytes) (λ src p.
        bind-OfValue IsAddr IsFlow _ _ (addr_at-IsAddr frame 38 (ground (arith, e)) bytes)
          (λ dst q. packet-IsFlow src dst "arp" p q is_protocol-arp)))
]

drop-IsByte : (n : ℕ) (b : Bytes) → All IsByte b → All IsByte (drop n b)
drop-IsByte zero b h = h
drop-IsByte (suc n) [] h = tt
drop-IsByte (suc n) (x ∷ b) h = drop-IsByte n b h.1

take-IsByte : (n : ℕ) (b : Bytes) → All IsByte b → All IsByte (take n b)
take-IsByte zero b h = tt
take-IsByte (suc n) [] h = tt
take-IsByte (suc n) (x ∷ b) h = (h.0, take-IsByte n b h.1)

typed_flow-IsFlow :
    (frame : Bytes) (ether_type : ℕ)
    → 14 ≤ length frame
    → All IsByte frame
    → OfValue IsFlow (typed_flow frame ether_type)
unfolding typed_flow
typed_flow-IsFlow frame ether_type h bytes =
    if_ind (OfValue IsFlow) (ether_type == ether_type_ipv4)
      (rw (slice_in frame 14 (length frame) h (omega arith)) (
        ipv4_flow-IsFlow (piece frame 14 (length frame))
          (take-IsByte _ _ (drop-IsByte 14 frame bytes))))
      (if_ind (OfValue IsFlow) (ether_type == ether_type_arp) (arp_flow-IsFlow frame bytes)
        any_flow-IsFlow)

-- Whatever bytes arrive, the classifier does not panic: it reads only inside the frame, and
-- answers 32-bit addresses, 16-bit ports, one of the five protocols, and known
-- ports for TCP, UDP and ICMP only.
pub ethernet_flow-IsFlow : (frame : Bytes) → All IsByte frame → OfValue IsFlow (ethernet_flow frame)
unfolding ethernet_flow
ethernet_flow-IsFlow frame bytes = elim (Bool-cases (ltb (length frame) min_frame_size)) [
  | inl e ↦ rw e any_flow-IsFlow
  | inr e ↦ rw e (
      bind-OfValue IsPort IsFlow _ _ (uint16_at-IsPort frame 12 (ground (arith, e)) bytes)
        (λ ether_type _. typed_flow-IsFlow frame ether_type (ground (arith, e)) bytes))
]
