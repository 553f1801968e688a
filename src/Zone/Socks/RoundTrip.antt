-- ===== src/Zone/Socks/RoundTrip.antt =====
-- What a SOCKS client writes is what the server of zone/socks.go reads.
use linksocks.Prelude.{
  read_full-in, ℕ, ◌/◌, ◌%◌, ◌^◌, ◌<◌, ◌≡◌, refl, ap, ◌∙◌, true, false, Option, none, some, [], ◌∷◌,
  ◌++◌, Bytes, ok, arith, length, ltb, index_in, slice_from, slice_last, ◌≢◌,
}
use linksocks.Prelude.ByteOrder.{u16_bytes, u32_bytes, u32_of, u16_of-u16_bytes, u32_of-u32_bytes}
use linksocks.Zone.Addresses.{
  Addr, cut, parse_digits, parse_decimal_to, leading_zero, parse_plain_decimal, next_octet,
  parse_addr,
}
use linksocks.Zone.Rules.Frames.{uint16_at}
use linksocks.Zone.Socks.Requests.{
  octet_text, addr_text, offers_no_auth, no_auth_or_refuse, read_socks_greeting, read_address,
  read_socks_request, socks_version, socks_address_ipv4, SocksRequest, udp_ipv4, udp_header,
  udp_by_type, parse_socks_udp_request, format_socks_udp_response, resolve, handle_request,
  connect_handling, connects_to, replies, associates, greeted, answer_request, handle,
}

cut-octet_text :
    (n : ℕ) (s : Bytes) → n < 256 → cut b'.' (octet_text n (b'.' ∷ s)) ≡ (octet_text n [], some s)
unfolding cut octet_text
cut-octet_text n s h = ground arith

cut-octet_text_last : (n : ℕ) → n < 256 → cut b'.' (octet_text n []) ≡ (octet_text n [], none)
unfolding cut octet_text
cut-octet_text_last n h = ground arith

parse_plain_decimal-octet_text :
    (n : ℕ) → n < 256 → parse_plain_decimal 255 (octet_text n []) ≡ some n
unfolding octet_text parse_plain_decimal leading_zero parse_decimal_to parse_digits
parse_plain_decimal-octet_text n h = ground arith

next_octet-more :
    (n : ℕ) (s : Bytes) → n < 256 → next_octet (some (octet_text n (b'.' ∷ s))) ≡ some (n, some s)
unfolding next_octet
next_octet-more n s h = ground (arith, cut-octet_text n s h, parse_plain_decimal-octet_text n h)

next_octet-last : (n : ℕ) → n < 256 → next_octet (some (octet_text n [])) ≡ some (n, none)
unfolding next_octet
next_octet-last n h = ground (arith, cut-octet_text_last n h, parse_plain_decimal-octet_text n h)

-- The text of an address is read back as that address.
parse_addr-addr_text :
    (a b c d : ℕ)
    → a < 256
    → b < 256
    → c < 256
    → d < 256
    → parse_addr (addr_text a b c d) ≡ some (u32_of a b c d)
unfolding parse_addr addr_text
parse_addr-addr_text a b c d ha hb hc hd =
    rw
      (next_octet-more a _ ha, next_octet-more b _ hb, next_octet-more c _ hc, next_octet-last d hd)
      refl

-- The request for an address.
abbrev pub for_address : ℕ → Addr → ℕ → SocksRequest
for_address command dst port = record {
  command = command;
  atyp = socks_address_ipv4;
  address = addr_text (dst / 2 ^ 24 % 256) (dst / 2 ^ 16 % 256) (dst / 2 ^ 8 % 256) (dst % 256);
  port = port;
}

resolve-for_address :
    (members : Bytes → Option Addr) (command dst port : ℕ)
    → dst < 2 ^ 32
    → resolve members (for_address command dst port) ≡ some dst
unfolding resolve
resolve-for_address members command dst port h =
    parse_addr-addr_text _ _ _ _ (omega arith) (omega arith) (omega arith) (omega arith)
    ∙ ap (λ (a : ℕ). some a) (u32_of-u32_bytes dst h)

-- A reply that carries a datagram is itself a request to its sender.
pub parse_socks_udp_request-format_socks_udp_response :
    (members : Bytes → Option Addr) (src src_port : ℕ) (payload : Bytes)
    → src < 2 ^ 32
    → src_port < 2 ^ 16
    → (parse_socks_udp_request (format_socks_udp_response src src_port payload)
        ≡ ok (for_address 0 src src_port, payload))
      × (resolve members (for_address 0 src src_port) ≡ some src)
unfolding parse_socks_udp_request format_socks_udp_response udp_header udp_by_type udp_ipv4
    uint16_at
parse_socks_udp_request-format_socks_udp_response members src src_port payload h k =
    let raw = 0 ∷ 0 ∷ 0 ∷ 1 ∷ u32_bytes src (u16_bytes src_port payload) in
    let long : ltb (length raw) 4 ≡ false = ground arith in
    let longer : ltb (length raw) 10 ≡ false = ground arith in
    let behind : slice_from raw 10 ≡ ok payload =
      slice_last (0 ∷ 0 ∷ 0 ∷ 1 ∷ u32_bytes src (u16_bytes src_port [])) payload 10 (length raw)
        refl (omega arith) in
    (
      rw
          (
            long,
            index_in raw 0 (omega arith),
            index_in raw 1 (omega arith),
            index_in raw 2 (omega arith),
            index_in raw 3 (omega arith),
            longer,
            index_in raw 4 (omega arith),
            index_in raw 5 (omega arith),
            index_in raw 6 (omega arith),
            index_in raw 7 (omega arith),
            index_in raw 8 (omega arith),
            index_in raw 9 (omega arith),
            behind,
          )
          (ap (λ (n : ℕ). ok (record (for_address 0 src src_port) { port = n }, payload))
            (u16_of-u16_bytes src_port k)),
      resolve-for_address members 0 src src_port h,
    )

-- What a client that wants to reach an address sends.
abbrev pub client_bytes : Bytes → ℕ → Addr → ℕ → Bytes → Bytes
client_bytes methods command dst port more =
    socks_version
    ∷ length methods
    ∷ (methods
        ++ (socks_version ∷ command ∷ 0 ∷ socks_address_ipv4 ∷ u32_bytes dst (u16_bytes port more)))

read_socks_greeting-offered :
    (methods rest : Bytes)
    → offers_no_auth methods ≡ true
    → read_socks_greeting (socks_version ∷ length methods ∷ (methods ++ rest)) ≡ ok rest
unfolding read_socks_greeting no_auth_or_refuse
read_socks_greeting-offered methods rest e =
    let header = 5 ∷ length methods ∷ [] in
    rw
      (
        read_full-in 2 header (methods ++ rest) refl,
        index_in header 0 (omega arith),
        index_in header 1 (omega arith),
        read_full-in (length methods) methods rest refl,
        e,
      )
      refl

read_address-ipv4 :
    (a b c d : ℕ) (rest : Bytes)
    → read_address socks_address_ipv4 (a ∷ b ∷ c ∷ d ∷ rest) ≡ ok (addr_text a b c d, rest)
unfolding read_address
read_address-ipv4 a b c d rest =
    let raw = a ∷ b ∷ c ∷ d ∷ [] in
    rw
      (
        read_full-in 4 raw rest refl,
        index_in raw 0 (omega arith),
        index_in raw 1 (omega arith),
        index_in raw 2 (omega arith),
        index_in raw 3 (omega arith),
      )
      refl

read_socks_request-ipv4 :
    (command dst port : ℕ) (more : Bytes)
    → port < 2 ^ 16
    → read_socks_request
        (socks_version ∷ command ∷ 0 ∷ socks_address_ipv4 ∷ u32_bytes dst (u16_bytes port more))
      ≡ ok (for_address command dst port, more)
unfolding read_socks_request uint16_at
read_socks_request-ipv4 command dst port more h =
    let header = 5 ∷ command ∷ 0 ∷ 1 ∷ [] in
    let raw_port = u16_bytes port [] in
    rw
      (
        read_full-in 4 header (u32_bytes dst (u16_bytes port more)) refl,
        index_in header 0 (omega arith),
        index_in header 1 (omega arith),
        index_in header 3 (omega arith),
        read_address-ipv4 (dst / 2 ^ 24 % 256) (dst / 2 ^ 16 % 256) (dst / 2 ^ 8 % 256) (dst % 256)
            (u16_bytes port more),
        read_full-in 2 raw_port more refl,
        index_in raw_port 0 (omega arith),
        index_in raw_port 1 (omega arith),
      )
      (ap (λ (n : ℕ). ok (record (for_address command dst port) { port = n }, more))
        (u16_of-u16_bytes port h))

-- A client that offers the method without authentication and asks for an address is connected
-- to that address and port, is associated, or is refused, by its command alone.
pub handle-client_bytes :
    (members : Bytes → Option Addr) (methods : Bytes) (command dst port : ℕ) (more : Bytes)
    → offers_no_auth methods ≡ true
    → dst < 2 ^ 32
    → port < 2 ^ 16
    → (command ≡ 1
        → handle members (client_bytes methods command dst port more)
          ≡ some (greeted (connects_to dst port)))
      × ((command ≡ 3
            → handle members (client_bytes methods command dst port more)
              ≡ some (greeted associates))
          × (command ≢ 1
              → command ≢ 3
              → handle members (client_bytes methods command dst port more)
                ≡ some (greeted (replies 7))))
unfolding handle answer_request handle_request connect_handling
handle-client_bytes members methods command dst port more e h k =
    let rest = socks_version ∷ command ∷ 0 ∷ 1 ∷ u32_bytes dst (u16_bytes port more) in
    let read = read_socks_greeting-offered methods rest e in
    let asked = read_socks_request-ipv4 command dst port more k in
    let target = resolve-for_address members command dst port h in
    (
      λ c. ground (arith, read, asked, target, c),
      (
        λ c. ground (arith, read, asked, target, c),
        λ c d. ground (arith, read, asked, target, c, d),
      ),
    )
