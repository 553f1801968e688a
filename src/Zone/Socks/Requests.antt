-- ===== src/Zone/Socks/Requests.antt =====
-- The SOCKS messages of zone/socks.go. A reader is the bytes that are still to come; reading more of
-- them is an error.
use linksocks.Prelude.{
  read_full, ℕ, ◌+◌, ◌/◌, ◌%◌, Bool, true, false, not, Option, none, some, [], ◌∷◌, Bytes,
  if◌then◌else◌, ltb, ◌==◌, length, Result, ok, err, panic, plain, wrapped, Error, str_eq, ◌>>=◌,
  reject, ◌>>◌, index, slice, slice_from, replicate, String,
}
use linksocks.Prelude.ByteOrder.{u16_bytes, u32_bytes}
use linksocks.Zone.Addresses.{Addr, parse_addr}
use linksocks.Zone.Rules.Frames.{uint16_at}

abbrev pub socks_version : ℕ
socks_version = 5

abbrev pub socks_address_ipv4 : ℕ
socks_address_ipv4 = 1

abbrev pub socks_address_name : ℕ
socks_address_name = 3

pub record SocksRequest : Type 0 where
  pub command : ℕ
  pub atyp : ℕ
  pub address : Bytes
  pub port : ℕ

-- The decimal form of a byte.
unfoldable pub octet_text : ℕ → Bytes → Bytes
octet_text n rest =
    if ltb n 10
    then (b'0' + n) ∷ rest
    else if ltb n 100
    then (b'0' + n / 10) ∷ (b'0' + n % 10) ∷ rest
    else (b'0' + n / 100) ∷ (b'0' + n / 10 % 10) ∷ (b'0' + n % 10) ∷ rest

-- `netip.AddrFrom4(raw).String()`
unfoldable pub addr_text : ℕ → ℕ → ℕ → ℕ → Bytes
addr_text a b c d =
    octet_text a (b'.' ∷ octet_text b (b'.' ∷ octet_text c (b'.' ∷ octet_text d [])))

unfoldable pub offers_no_auth : Bytes → Bool
offers_no_auth [] = false
offers_no_auth (m ∷ methods) = let rest = offers_no_auth methods in if m == 0 then true else rest

unfoldable pub no_auth_or_refuse : Bytes → Bytes → Result Bytes
no_auth_or_refuse methods rest =
    if offers_no_auth methods
    then ok rest
    else err (plain "no acceptable SOCKS authentication method")

-- `readSocksGreeting`, with what is left to read.
unfoldable pub read_socks_greeting : Bytes → Result Bytes
read_socks_greeting r = do
  (header, r1) ← read_full 2 r
  version ← index header 0
  reject (not (version == socks_version)) "unsupported SOCKS version"
  count ← index header 1
  (methods, r2) ← read_full count r1
  no_auth_or_refuse methods r2

-- The address of a request, by its type.
unfoldable pub read_address : ℕ → Bytes → Result (Bytes × Bytes)
read_address atyp r =
    if atyp == socks_address_ipv4
    then (do
      (raw, r1) ← read_full 4 r
      a ← index raw 0
      b ← index raw 1
      c ← index raw 2
      d ← index raw 3
      ok (addr_text a b c d, r1))
    else if atyp == socks_address_name
    then (do (size, r1) ← read_full 1 r; n ← index size 0; read_full n r1)
    else err (plain "unsupported SOCKS address type")

unfoldable pub read_socks_request : Bytes → Result (SocksRequest × Bytes)
read_socks_request r = do
  (header, r1) ← read_full 4 r
  version ← index header 0
  reject (not (version == socks_version)) "unsupported SOCKS version"
  command ← index header 1
  atyp ← index header 3
  (address, r2) ← read_address atyp r1
  (raw_port, r3) ← read_full 2 r2
  port ← uint16_at raw_port 0
  ok (record { command = command; atyp = atyp; address = address; port = port }, r3)

-- `writeSocksReply`; `bound` is the address and port of a success.
unfoldable pub socks_reply : ℕ → Option (Addr × ℕ) → Bytes
socks_reply code none = socks_version ∷ code ∷ 0 ∷ socks_address_ipv4 ∷ replicate 6 0
socks_reply code (some (addr, port)) =
    if code == 0
    then socks_version ∷ code ∷ 0 ∷ socks_address_ipv4 ∷ u32_bytes addr (u16_bytes port [])
    else socks_version ∷ code ∷ 0 ∷ socks_address_ipv4 ∷ replicate 6 0

-- The IPv4 form of a request datagram, and the form with a name.
unfoldable pub udp_ipv4 : Bytes → Result (SocksRequest × Bytes)
udp_ipv4 packet = do
  reject (ltb (length packet) 10) "short SOCKS UDP datagram"
  a ← index packet 4
  b ← index packet 5
  c ← index packet 6
  d ← index packet 7
  port ← uint16_at packet 8
  payload ← slice_from packet 10
  ok (
    record { command = 0; atyp = socks_address_ipv4; address = addr_text a b c d; port = port },
    payload,
  )

unfoldable pub udp_name : Bytes → Result (SocksRequest × Bytes)
udp_name packet = do
  reject (ltb (length packet) 7) "short SOCKS UDP datagram"
  n ← index packet 4
  reject (ltb (length packet) (7 + n)) "short SOCKS UDP datagram"
  name ← slice packet 5 (5 + n)
  port ← uint16_at packet (5 + n)
  payload ← slice_from packet (7 + n)
  ok (record { command = 0; atyp = socks_address_name; address = name; port = port }, payload)

-- The test of the first four bytes, whose `||` stops at the first that holds.
unfoldable pub udp_header : Bytes → Result ℕ
udp_header packet = do
  reject (ltb (length packet) 4) "invalid SOCKS UDP datagram"
  x ← index packet 0
  reject (not (x == 0)) "invalid SOCKS UDP datagram"
  y ← index packet 1
  reject (not (y == 0)) "invalid SOCKS UDP datagram"
  z ← index packet 2
  reject (not (z == 0)) "invalid SOCKS UDP datagram"
  index packet 3

-- `switch packet[3]`
unfoldable pub udp_by_type : Bytes → ℕ → Result (SocksRequest × Bytes)
udp_by_type packet atyp =
    if atyp == socks_address_ipv4
    then udp_ipv4 packet
    else if atyp == socks_address_name
    then udp_name packet
    else err (plain "unsupported SOCKS address type")

unfoldable pub parse_socks_udp_request : Bytes → Result (SocksRequest × Bytes)
parse_socks_udp_request packet = do atyp ← udp_header packet; udp_by_type packet atyp

-- `formatSocksUDPResponse`
unfoldable pub format_socks_udp_response : Addr → ℕ → Bytes → Bytes
format_socks_udp_response src src_port payload =
    0 ∷ 0 ∷ 0 ∷ socks_address_ipv4 ∷ u32_bytes src (u16_bytes src_port payload)

-- `resolve`: `members` is `resolveMember` of the backend.
unfoldable pub resolve : (Bytes → Option Addr) → SocksRequest → Option Addr
resolve members request =
    if request.atyp == socks_address_ipv4
    then parse_addr request.address
    else if request.atyp == socks_address_name
    then elim (parse_addr request.address) [
      | some addr ↦ some addr
      | none ↦ members request.address
    ]
    else none

-- What went wrong with a connection, as `errors.Is` tells it, and the code of the reply.
pub data ConnectFailure : Type 0 where
  not_allowed unreachable stream_timeout refused other_failure : ConnectFailure

unfoldable pub socks_reply_for : ConnectFailure → ℕ
socks_reply_for not_allowed = 2
socks_reply_for unreachable = 4
socks_reply_for stream_timeout = 4
socks_reply_for refused = 5
socks_reply_for other_failure = 1

-- What the server does with a request: `replies` with a code, opens a stream through the zone, or
-- binds a socket for datagrams.
pub data Handling : Type 0 where
  replies : ℕ → Handling
  connects_to : Addr → ℕ → Handling
  associates : Handling

unfoldable pub connect_handling : Option Addr → ℕ → Handling
connect_handling none port = replies 4
connect_handling (some dst) port = connects_to dst port

unfoldable pub handle_request : (Bytes → Option Addr) → SocksRequest → Handling
handle_request members request =
    if request.command == 1
    then connect_handling (resolve members request) request.port
    else if request.command == 3
    then associates
    else replies 7

-- `errors.Is` of an error of this file, by its text.
unfoldable pub is_error : String → Error → Bool
is_error text (plain s) = str_eq s text
is_error text (wrapped prefix e) = is_error text e

-- What becomes of a connection: it is closed after these bytes, or it is told that no authentication
-- is needed and its request is dealt with.
pub data Served : Type 0 where
  closed : Bytes → Served
  greeted : Handling → Served

unfoldable pub answer_request :
    (Bytes → Option Addr) → Result (SocksRequest × Bytes) → Option Served
answer_request members (ok (request, rest)) = some (greeted (handle_request members request))
answer_request members (err e) =
    if is_error "unsupported SOCKS address type" e
    then some (greeted (replies 8))
    else some (greeted (replies 1))
answer_request members panic = none

-- `handle` of a connection whose client sends these bytes, where the writes succeed; `none` is a
-- panic.
unfoldable pub handle : (Bytes → Option Addr) → Bytes → Option Served
handle members sent = elim (read_socks_greeting sent) [
  | ok rest ↦ answer_request members (read_socks_request rest)
  | err e ↦ some (
      if is_error "no acceptable SOCKS authentication method" e
      then closed (socks_version ∷ 0xff ∷ [])
      else closed [])
  | panic ↦ none
]

-- The code of the reply to a connect request, by what `backend.connect` returned.
unfoldable pub connect_reply : Option ConnectFailure → ℕ
connect_reply none = 0
connect_reply (some failure) = socks_reply_for failure
