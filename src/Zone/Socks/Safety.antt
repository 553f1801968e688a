-- ===== src/Zone/Socks/Safety.antt =====
-- What zone/socks.go can read from a datagram: no datagram makes it index out of range.
use linksocks.Prelude.{
  ℕ, ◌+◌, ◌≤◌, ◌≡◌, if_ind, ok, err, panic, Result, Bytes, All, arith, length, ltb, ◌==◌, inl, inr,
  Bool-cases, index, index_in, slice_in, OfValue, bind-OfValue, index-OfValue, length-piece, piece,
  take, drop, take-all, take-append-drop, length-take, length-drop, ◌++◌, ◌-◌, ◌⊎◌, refl, sym, ap,
  ◌∙◌,
}
use linksocks.Prelude.ByteOrder.{IsByte}
use linksocks.Zone.Rules.Classification.{IsPort, uint16_at-IsPort}
use linksocks.Zone.Socks.Requests.{
  udp_ipv4, udp_name, udp_header, udp_by_type, parse_socks_udp_request, SocksRequest,
  socks_address_ipv4, socks_address_name,
}

-- A request with a port in range, whose payload is all that stands in the datagram behind its
-- header: ten bytes for an address, and seven and the length of the name for a name.
abbrev pub IsDatagram : Bytes → SocksRequest × Bytes → Type 0
IsDatagram packet (request, payload) =
    IsPort request.port
    × ((header : Bytes) × ((packet ≡ header ++ payload)
          × (((request.atyp ≡ socks_address_ipv4) × (length header ≡ 10))
              ⊎ ((request.atyp ≡ socks_address_name)
                  × (length header ≡ 7 + length request.address)))))

-- What a slice to the end leaves out stands in front of it.
behind :
    (packet : Bytes) (lo : ℕ)
    → lo ≤ length packet
    → (packet ≡ take lo packet ++ piece packet lo (length packet)) × (length (take lo packet) ≡ lo)
behind packet lo h =
    let all : piece packet lo (length packet) ≡ drop lo packet =
      take-all (length packet - lo) (drop lo packet) (omega (arith, length-drop lo packet)) in
    (
      sym (take-append-drop lo packet) ∙ ap (λ b. take lo packet ++ b) (sym all),
      omega (arith, h, length-take lo packet),
    )

udp_ipv4-IsDatagram :
    (packet : Bytes) → All IsByte packet → OfValue (IsDatagram packet) (udp_ipv4 packet)
unfolding udp_ipv4
udp_ipv4-IsDatagram packet bytes = elim (Bool-cases (ltb (length packet) 10)) [
  | inl e ↦ rw e tt
  | inr e ↦
      let long : 10 ≤ length packet = ground (arith, e) in
      let (whole, size) = behind packet 10 long in
      rw
        (
          e,
          index_in packet 4 (omega (arith, long)),
          index_in packet 5 (omega (arith, long)),
          index_in packet 6 (omega (arith, long)),
          index_in packet 7 (omega (arith, long)),
          slice_in packet 10 (length packet) long (omega arith),
        )
        (bind-OfValue IsPort (IsDatagram packet) _ _
          (uint16_at-IsPort packet 8 (omega (arith, long)) bytes)
          (λ port p. (p, (take 10 packet, (whole, inl (refl, size))))))
]

udp_name-IsDatagram :
    (packet : Bytes) → All IsByte packet → OfValue (IsDatagram packet) (udp_name packet)
unfolding udp_name
udp_name-IsDatagram packet bytes = elim (Bool-cases (ltb (length packet) 7)) [
  | inl e ↦ rw e tt
  | inr e ↦
      let long : 7 ≤ length packet = ground (arith, e) in
      rw e (
        bind-OfValue IsByte (IsDatagram packet) _ _
          (index-OfValue packet 4 (omega (arith, long)) bytes)
          (λ n p. elim (Bool-cases (ltb (length packet) (7 + n))) [
            | inl f ↦ rw f tt
            | inr f ↦
                let fits : 7 + n ≤ length packet = ground (arith, f) in
                let (whole, size) = behind packet (7 + n) fits in
                let name : length (piece packet 5 (5 + n)) ≡ n =
                  omega (arith, length-piece packet 5 (5 + n) (omega (arith, fits))) in
                rw
                  (
                    f,
                    slice_in packet 5 (5 + n) (omega arith) (omega (arith, fits)),
                    slice_in packet (7 + n) (length packet) fits (omega arith),
                  )
                  (bind-OfValue IsPort (IsDatagram packet) _ _
                    (uint16_at-IsPort packet (5 + n) (omega (arith, fits)) bytes)
                    (λ port q.
                      (q, (take (7 + n) packet, (whole, inr (refl, omega (arith, size, name)))))))
          ]))
]

udp_by_type-IsDatagram :
    (packet : Bytes) (atyp : ℕ)
    → All IsByte packet
    → OfValue (IsDatagram packet) (udp_by_type packet atyp)
unfolding udp_by_type
udp_by_type-IsDatagram packet atyp bytes =
    if_ind (OfValue (IsDatagram packet)) (atyp == socks_address_ipv4)
      (udp_ipv4-IsDatagram packet bytes)
      (if_ind (OfValue (IsDatagram packet)) (atyp == socks_address_name)
        (udp_name-IsDatagram packet bytes) tt)

-- The header is not cut short, and a fragment is refused.
udp_header-OfValue :
    (packet : Bytes) → All IsByte packet → OfValue (λ _. index packet 2 ≡ ok 0) (udp_header packet)
unfolding udp_header
udp_header-OfValue packet bytes = elim (Bool-cases (ltb (length packet) 4)) [
  | inl e ↦ rw e tt
  | inr e ↦
      let long : 4 ≤ length packet = ground (arith, e) in
      ground (
        arith,
        e,
        index_in packet 0 (omega (arith, long)),
        index_in packet 1 (omega (arith, long)),
        index_in packet 2 (omega (arith, long)),
        index_in packet 3 (omega (arith, long)),
      )
]

-- For every datagram the parser returns; what it accepts is unfragmented (its third byte is 0), has
-- a port of 16 bits, and its payload is the datagram less a header of ten bytes for an address, and
-- of seven bytes and the length of the name for a name.
pub parse_socks_udp_request-IsDatagram :
    (packet : Bytes)
    → All IsByte packet
    → OfValue
        (λ read. (index packet 2 ≡ ok 0) × IsDatagram packet read)
        (parse_socks_udp_request packet)
unfolding parse_socks_udp_request
parse_socks_udp_request-IsDatagram packet bytes =
    bind-OfValue (λ _. index packet 2 ≡ ok 0) _ (udp_header packet) (udp_by_type packet)
      (udp_header-OfValue packet bytes)
      (λ atyp h.
        both-OfValue h (udp_by_type packet atyp) (udp_by_type-IsDatagram packet atyp bytes))
  where
    both-OfValue :
        index packet 2 ≡ ok 0
        → (r : Result (SocksRequest × Bytes)) → OfValue (IsDatagram packet) r
        → OfValue (λ read. (index packet 2 ≡ ok 0) × IsDatagram packet read) r
    both-OfValue h (ok read) p = (h, p)
    both-OfValue h (err e) p = tt
    both-OfValue h panic p = elim p [ ]
