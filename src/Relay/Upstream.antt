-- ===== src/Relay/Upstream.antt =====
-- `dialViaSocks5` of linksocks/relay.go: what the relay writes to an upstream SOCKS5 proxy that
-- answers with these bytes. The target is given split into host and port, as `net.SplitHostPort` and
-- `strconv.Atoi` do; `parse_ip` is `net.ParseIP` with `To4` where that applies.
use linksocks.Prelude.{
  ℕ, ◌+◌, ◌%◌, ◌^◌, ◌&&◌, Option, none, some, [], ◌∷◌, ◌++◌, Bytes, if◌then◌else◌, ◌==◌, length,
  index, read_full, ok,
}
use linksocks.Prelude.ByteOrder.{u16_bytes}
use linksocks.Relay.Entry.{Spoken, ◌>>=◌, ◌>>◌, says, quietly, check, wants_credentials}

unfoldable pub credentials_message : Bytes → Bytes → Bytes
credentials_message name password =
    1 ∷ (length name % 256) ∷ (name ++ ((length password % 256) ∷ password))

unfoldable pub send_credentials : Bytes → Bytes → Bytes → Spoken Bytes
send_credentials name password answers = do
  says (credentials_message name password)
  (response, rest) ← quietly (read_full 2 answers)
  first ← quietly (index response 0)
  second ← quietly (index response 1)
  check ((first == 1) && (second == 0)) [] "authentication failed"
  quietly (ok rest)

-- The proxy's choice of a method.
unfoldable pub follow_method : Bytes → Bytes → ℕ → Bytes → Spoken Bytes
follow_method name password method answers =
    if method == 2
    then send_credentials name password answers
    else (do check (method == 0) [] "unsupported auth method"; quietly (ok answers))

unfoldable pub socks5_handshake : Bytes → Bytes → Bytes → Spoken Bytes
socks5_handshake name password answers = do
  says (5 ∷ 1 ∷ (if wants_credentials name password then 2 else 0) ∷ [])
  (response, rest) ← quietly (read_full 2 answers)
  version ← quietly (index response 0)
  check (version == 5) [] "invalid socks version"
  method ← quietly (index response 1)
  follow_method name password method rest

unfoldable pub address_message : Option Bytes → Bytes → Bytes → Bytes
address_message none host rest = 3 ∷ (length host % 256) ∷ (host ++ rest)
address_message (some ip) host rest = if length ip == 4 then 1 ∷ (ip ++ rest) else 4 ∷ (ip ++ rest)

unfoldable pub connect_message : (Bytes → Option Bytes) → Bytes → ℕ → Bytes
connect_message parse_ip host port =
    5 ∷ 1 ∷ 0 ∷ address_message (parse_ip host) host (u16_bytes (port % 2 ^ 16) [])

-- The bound address and port are skipped.
unfoldable pub skip_counted : Bytes → Spoken Bytes
skip_counted answers = do
  (size, r1) ← quietly (read_full 1 answers)
  count ← quietly (index size 0)
  (skipped, rest) ← quietly (read_full (count + 2) r1)
  quietly (ok rest)

unfoldable pub skip_bytes : ℕ → Bytes → Spoken Bytes
skip_bytes n answers = do (skipped, rest) ← quietly (read_full n answers); quietly (ok rest)

unfoldable pub skip_bound : ℕ → Bytes → Spoken Bytes
skip_bound atyp answers =
    if atyp == 1
    then skip_bytes 6 answers
    else if atyp == 3
    then skip_counted answers
    else if atyp == 4
    then skip_bytes 18 answers
    else ([], ok answers)

unfoldable pub socks5_connect : (Bytes → Option Bytes) → Bytes → ℕ → Bytes → Spoken Bytes
socks5_connect parse_ip host port answers = do
  says (connect_message parse_ip host port)
  (response, rest) ← quietly (read_full 4 answers)
  version ← quietly (index response 0)
  check (version == 5) [] "invalid socks version"
  code ← quietly (index response 1)
  check (code == 0) [] "connection failed"
  atyp ← quietly (index response 3)
  skip_bound atyp rest

unfoldable pub dial_via_socks5 :
    (Bytes → Option Bytes) → Bytes → Bytes → Bytes → ℕ → Bytes → Spoken Bytes
dial_via_socks5 parse_ip name password host port answers = do
  rest ← socks5_handshake name password answers
  socks5_connect parse_ip host port rest
