-- ===== src/Relay/Dialogue.antt =====
-- The SOCKS5 client and the SOCKS5 server of linksocks/relay.go, talking to each other.
use linksocks.Prelude.{
  ℕ, ◌%◌, ◌^◌, ◌<◌, ◌≡◌, refl, ap, ◌∙◌, true, Option, none, some, [], ◌∷◌, ◌++◌, Bytes, ◌==◌,
  length, Bool-cases, inl, inr, ok, index_in, read_full-in, arith, append-nil, append_assoc,
}
use linksocks.Prelude.ByteOrder.{u16_bytes}
use linksocks.Relay.Entry.{wants_credentials, accept_socks}
use linksocks.Relay.Upstream.{
  credentials_message, send_credentials, follow_method, socks5_handshake, address_message,
  connect_message, skip_bytes, skip_bound, socks5_connect, dial_via_socks5,
}
use linksocks.Relay.Credentials.{credential_bytes, greeting_bytes}
use linksocks.Relay.Reading.{IsIp, request_bytes, target_of, accept_socks-credentials}

-- The answer of a proxy to a request that it grants, with the bound address and port.
abbrev pub granted : Bytes → Bytes → Bytes
granted bound rest = 5 ∷ 0 ∷ 0 ∷ 1 ∷ (bound ++ rest)

send_credentials-accepted :
    (name password rest : Bytes)
    → send_credentials name password (1 ∷ 0 ∷ rest)
      ≡ (credentials_message name password ++ [], ok rest)
unfolding send_credentials
send_credentials-accepted name password rest =
    let response : Bytes = 1 ∷ 0 ∷ [] in
    rw
      (
        read_full-in 2 response rest refl,
        index_in response 0 (omega arith),
        index_in response 1 (omega arith),
      )
      refl

socks5_handshake-accepted :
    (name password rest : Bytes)
    → wants_credentials name password ≡ true
    → socks5_handshake name password (5 ∷ 2 ∷ 1 ∷ 0 ∷ rest)
      ≡ (5 ∷ 1 ∷ 2 ∷ (credentials_message name password ++ []), ok rest)
unfolding socks5_handshake follow_method
socks5_handshake-accepted name password rest w =
    let response : Bytes = 5 ∷ 2 ∷ [] in
    rw
      (
        w,
        read_full-in 2 response (1 ∷ 0 ∷ rest) refl,
        index_in response 0 (omega arith),
        index_in response 1 (omega arith),
        send_credentials-accepted name password rest,
      )
      refl

socks5_connect-granted :
    (parse_ip : Bytes → Option Bytes) (host bound rest : Bytes) (port : ℕ)
    → length bound ≡ 6
    → socks5_connect parse_ip host port (granted bound rest)
      ≡ (connect_message parse_ip host port ++ [], ok rest)
unfolding socks5_connect skip_bound skip_bytes
socks5_connect-granted parse_ip host bound rest port e =
    let response : Bytes = 5 ∷ 0 ∷ 0 ∷ 1 ∷ [] in
    rw
      (
        read_full-in 4 response (bound ++ rest) refl,
        index_in response 0 (omega arith),
        index_in response 1 (omega arith),
        index_in response 3 (omega arith),
        read_full-in 6 bound rest e,
      )
      refl

dial_via_socks5-granted :
    (parse_ip : Bytes → Option Bytes) (name password host bound rest : Bytes) (port : ℕ)
    → wants_credentials name password ≡ true
    → length bound ≡ 6
    → dial_via_socks5 parse_ip name password host port (5 ∷ 2 ∷ 1 ∷ 0 ∷ granted bound rest) ≡ (
      5 ∷ 1 ∷ 2 ∷ (credentials_message name password ++ connect_message parse_ip host port),
      ok rest,
    )
unfolding dial_via_socks5
dial_via_socks5-granted parse_ip name password host bound rest port w e =
    rw
      (
        socks5_handshake-accepted name password (granted bound rest) w,
        socks5_connect-granted parse_ip host bound rest port e,
        append-nil (credentials_message name password),
        append-nil (connect_message parse_ip host port),
      )
      refl

credentials_message-bytes :
    (name password rest : Bytes)
    → length name < 256
    → length password < 256
    → credentials_message name password ++ rest ≡ credential_bytes name password rest
unfolding credentials_message
credentials_message-bytes name password rest n p =
    let short_name : length name % 256 ≡ length name = omega (arith, n) in
    let short_password : length password % 256 ≡ length password = omega (arith, p) in
    rw (short_name, short_password, append_assoc name (length password ∷ password) rest) refl

address_message-append :
    (parsed : Option Bytes) (host x more : Bytes)
    → address_message parsed host x ++ more ≡ address_message parsed host (x ++ more)
unfolding address_message
address_message-append none host x more = rw (append_assoc host x more) refl
address_message-append (some ip) host x more = elim (Bool-cases (length ip == 4)) [
  | inl e ↦ rw (e, append_assoc ip x more) refl
  | inr e ↦ rw (e, append_assoc ip x more) refl
]

connect_message-bytes :
    (parse_ip : Bytes → Option Bytes) (host more : Bytes) (port : ℕ)
    → port < 2 ^ 16
    → connect_message parse_ip host port ++ more ≡ request_bytes (parse_ip host) host port more
unfolding connect_message
connect_message-bytes parse_ip host more port h =
    let small : port % 2 ^ 16 ≡ port = omega (arith, h) in
    rw small (
      ap (λ (b : Bytes). 5 ∷ 1 ∷ 0 ∷ b)
        (address_message-append (parse_ip host) host (u16_bytes port []) more))

-- A relay that dials through a proxy of the same program, which is configured with the same name
-- and password (of 1 to 255 bytes) and grants the request: the client ends in the tunnel, with all
-- its answers read; the proxy writes exactly the answers that the client reads before the grant,
-- and reads a CONNECT for the client's host, as `ip_text` shows it when it is an address, and the
-- client's port, with what the client sends next left unread.
pub dial_via_socks5-accept_socks :
    (ip_text : Bytes → Bytes) (parse_ip : Bytes → Option Bytes)
    (name password host bound rest more : Bytes) (port : ℕ)
    → wants_credentials name password ≡ true
    → length name < 256
    → length password < 256
    → length host < 256
    → IsIp (parse_ip host)
    → port < 2 ^ 16
    → length bound ≡ 6
    → let client =
        dial_via_socks5 parse_ip name password host port
          ((5 ∷ 2 ∷ 1 ∷ 0 ∷ []) ++ granted bound rest) in
      (client.1 ≡ ok rest)
      × (accept_socks ip_text name password (client.0 ++ more)
          ≡ (5 ∷ 2 ∷ 1 ∷ 0 ∷ [], ok (some (target_of ip_text (parse_ip host) host port, more))))
dial_via_socks5-accept_socks ip_text parse_ip name password host bound rest more port w n p l i h
      e =
    let client = dial_via_socks5-granted parse_ip name password host bound rest port w e in
    let sent : (credentials_message name password ++ connect_message parse_ip host port) ++ more
        ≡ credential_bytes name password (request_bytes (parse_ip host) host port more) =
      append_assoc (credentials_message name password) (connect_message parse_ip host port) more
      ∙ (ap (λ b. credentials_message name password ++ b)
            (connect_message-bytes parse_ip host more port h)
          ∙ credentials_message-bytes name password (request_bytes (parse_ip host) host port more) n
              p) in
    (
      ap (λ c. c.1) client,
      ap (λ c. accept_socks ip_text name password (c.0 ++ more)) client
          ∙ (ap (λ b. accept_socks ip_text name password (greeting_bytes (2 ∷ []) b)) sent
              ∙ accept_socks-credentials ip_text name password (parse_ip host) host more port w i l
                  h),
    )
