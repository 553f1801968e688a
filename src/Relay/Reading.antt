-- ===== src/Relay/Reading.antt =====
-- What `HandleSocksRequest` of linksocks/relay.go reads of a client that has the credentials.
use linksocks.Prelude.{
  ℕ, ◌+◌, ◌/◌, ◌%◌, ◌^◌, ◌<◌, ◌≡◌, ◌⊎◌, inl, inr, refl, sym, ap, ◌∙◌, true, false, Option, none,
  some, [], ◌∷◌, ◌++◌, Bytes, ◌==◌, length, ok, index, index_in, index_at, slice_at, read_full,
  read_full-in, String, arith, append_assoc, length-append,
}
use linksocks.Prelude.ByteOrder.{bytes_eq_refl, u16_bytes, u16_of-u16_bytes}
use linksocks.Relay.Entry.{
  Target, has_method, read_methods, read_counted, wants_credentials, read_credentials,
  require_credentials, authenticate, read_ip, read_domain, read_target, read_open_request,
  read_request, accept_socks, port_at,
}
use linksocks.Relay.Upstream.{address_message}
use linksocks.Relay.Credentials.{credential_bytes, greeting_bytes}

read_methods-greeting :
    (methods rest : Bytes)
    → (length methods == 0) ≡ false
    → read_methods (greeting_bytes methods rest) ≡ ([], ok (methods, rest))
unfolding read_methods
read_methods-greeting methods rest e =
    let header = 5 ∷ length methods ∷ [] in
    rw
      (
        read_full-in 2 header (methods ++ rest) refl,
        index_in header 0 (omega arith),
        index_in header 1 (omega arith),
        e,
        read_full-in (length methods) methods rest refl,
      )
      refl

read_counted-text :
    (p q : String) (x rest : Bytes) → read_counted p q (length x ∷ (x ++ rest)) ≡ ([], ok (x, rest))
unfolding read_counted
read_counted-text p q x rest =
    let size = length x ∷ [] in
    rw
      (
        read_full-in 1 size (x ++ rest) refl,
        index_in size 0 (omega arith),
        read_full-in (length x) x rest refl,
      )
      refl

read_credentials-credential_bytes :
    (name password rest : Bytes)
    → read_credentials name password (credential_bytes name password rest) ≡ (1 ∷ 0 ∷ [], ok rest)
unfolding read_credentials
read_credentials-credential_bytes name password rest =
    rw
      (
        read_full-in 1 (1 ∷ []) (length name ∷ (name ++ (length password ∷ (password ++ rest))))
            refl,
        index_in (1 ∷ []) 0 (omega arith),
        read_counted-text "read username length error" "read username error" name
            (length password ∷ (password ++ rest)),
        read_counted-text "read password length error" "read password error" password rest,
        bytes_eq_refl name,
        bytes_eq_refl password,
      )
      refl

-- How the server shows the host that the client was given.
abbrev pub shown : (Bytes → Bytes) → Option Bytes → Bytes → Bytes
shown ip_text none host = host
shown ip_text (some ip) host = ip_text ip

port_at-u16_bytes :
    (x : Bytes) (port i : ℕ)
    → length x ≡ i
    → port < 2 ^ 16
    → port_at (x ++ u16_bytes port []) i ≡ ok port
port_at-u16_bytes x port i e h =
    let high = port / 2 ^ 8 % 256 in
    let low = port % 256 in
    let moved : x ++ u16_bytes port [] ≡ (x ++ (high ∷ [])) ++ (low ∷ []) =
      sym (append_assoc x (high ∷ []) (low ∷ [])) in
    let first : index (x ++ u16_bytes port []) i ≡ ok high = index_at x high (low ∷ []) i e in
    let second : index (x ++ u16_bytes port []) (i + 1) ≡ ok low =
      ap (λ b. index b (i + 1)) moved
      ∙ index_at (x ++ (high ∷ [])) low [] (i + 1)
          (omega (arith, e, length-append x (high ∷ []))) in
    rw (first, second) (ap (λ (n : ℕ). ok n) (u16_of-u16_bytes port h))

whole_append :
    (x more : Bytes) (port : ℕ) → x ++ u16_bytes port more ≡ (x ++ u16_bytes port []) ++ more
whole_append x more port = sym (append_assoc x (u16_bytes port []) more)

read_full-port :
    (x more : Bytes) (size port : ℕ)
    → length x ≡ size
    → read_full (size + 2) (x ++ u16_bytes port more) ≡ ok (x ++ u16_bytes port [], more)
read_full-port x more size port e =
    ap (λ b. read_full (size + 2) b) (whole_append x more port)
    ∙ read_full-in (size + 2) (x ++ u16_bytes port []) more
        (omega (arith, e, length-append x (u16_bytes port [])))

read_ip-u16_bytes :
    (ip_text : Bytes → Bytes) (command size : ℕ) (ip more : Bytes) (port : ℕ)
    → length ip ≡ size
    → port < 2 ^ 16
    → read_ip ip_text command size (ip ++ u16_bytes port more)
      ≡ ([], ok (record { command = command; address = ip_text ip; port = port }, more))
unfolding read_ip
read_ip-u16_bytes ip_text command size ip more port e h =
    rw
      (
        read_full-port ip more size port e,
        slice_at [] ip (u16_bytes port []) 0 size refl (omega (arith, e)),
        port_at-u16_bytes ip port size e h,
      )
      refl

read_domain-u16_bytes :
    (command : ℕ) (host more : Bytes) (port : ℕ)
    → port < 2 ^ 16
    → read_domain command (length host ∷ (host ++ u16_bytes port more))
      ≡ ([], ok (record { command = command; address = host; port = port }, more))
unfolding read_domain
read_domain-u16_bytes command host more port h =
    let size = length host ∷ [] in
    rw
      (
        read_full-in 1 size (host ++ u16_bytes port more) refl,
        index_in size 0 (omega arith),
        read_full-port host more (length host) port refl,
        slice_at [] host (u16_bytes port []) 0 (length host) refl (omega arith),
        port_at-u16_bytes host port (length host) refl h,
      )
      refl

-- What `net.ParseIP` and `To4` give: four bytes or sixteen.
abbrev pub IsIp : Option Bytes → Type 0
IsIp none = Unit
IsIp (some ip) = (length ip ≡ 4) ⊎ (length ip ≡ 16)

-- The request of the client, with what follows it.
abbrev pub request_bytes : Option Bytes → Bytes → ℕ → Bytes → Bytes
request_bytes parsed host port more = 5 ∷ 1 ∷ 0 ∷ address_message parsed host (u16_bytes port more)

abbrev pub target_of : (Bytes → Bytes) → Option Bytes → Bytes → ℕ → Target
target_of ip_text parsed host port = record {
  command = 1;
  address = shown ip_text parsed host;
  port = port;
}

read_open_request-header :
    (ip_text : Bytes → Bytes) (atyp : ℕ) (rest : Bytes)
    → read_open_request ip_text (5 ∷ 1 ∷ 0 ∷ atyp ∷ rest)
      ≡ (([] ++ (read_target ip_text 1 atyp rest).0), (read_target ip_text 1 atyp rest).1)
unfolding read_open_request
read_open_request-header ip_text atyp rest =
    let header = 5 ∷ 1 ∷ 0 ∷ atyp ∷ [] in
    rw
      (
        read_full-in 4 header rest refl,
        index_in header 0 (omega arith),
        index_in header 1 (omega arith),
        index_in header 3 (omega arith),
      )
      refl

read_open_request-request_bytes :
    (ip_text : Bytes → Bytes) (parsed : Option Bytes) (host more : Bytes) (port : ℕ)
    → IsIp parsed
    → length host < 256
    → port < 2 ^ 16
    → read_open_request ip_text (request_bytes parsed host port more)
      ≡ ([], ok (target_of ip_text parsed host port, more))
unfolding address_message read_target
read_open_request-request_bytes ip_text none host more port i l h =
    let short : length host % 256 ≡ length host = omega (arith, l) in
    rw
      (
        short,
        read_open_request-header ip_text 3 (length host ∷ (host ++ u16_bytes port more)),
        read_domain-u16_bytes 1 host more port h,
      )
      refl
read_open_request-request_bytes ip_text (some ip) host more port (inl four) l h =
    rw
      (
        four,
        read_open_request-header ip_text 1 (ip ++ u16_bytes port more),
        read_ip-u16_bytes ip_text 1 4 ip more port four h,
      )
      refl
read_open_request-request_bytes ip_text (some ip) host more port (inr sixteen) l h =
    rw
      (
        sixteen,
        read_open_request-header ip_text 4 (ip ++ u16_bytes port more),
        read_ip-u16_bytes ip_text 1 16 ip more port sixteen h,
      )
      refl

read_request-request_bytes :
    (ip_text : Bytes → Bytes) (parsed : Option Bytes) (host more : Bytes) (port : ℕ)
    → IsIp parsed
    → length host < 256
    → port < 2 ^ 16
    → read_request ip_text (request_bytes parsed host port more)
      ≡ ([], ok (some (target_of ip_text parsed host port, more)))
unfolding read_request
read_request-request_bytes ip_text parsed host more port i l h =
    let sent : (length (request_bytes parsed host port more) == 0) ≡ false = ground arith in
    rw (sent, read_open_request-request_bytes ip_text parsed host more port i l h) refl

-- The server's side of the dialogue.
pub accept_socks-credentials :
    (ip_text : Bytes → Bytes) (name password : Bytes) (parsed : Option Bytes) (host more : Bytes)
    (port : ℕ)
    → wants_credentials name password ≡ true
    → IsIp parsed
    → length host < 256
    → port < 2 ^ 16
    → accept_socks ip_text name password (
        greeting_bytes
          (2 ∷ [])
          (credential_bytes name password (request_bytes parsed host port more)))
      ≡ (5 ∷ 2 ∷ 1 ∷ 0 ∷ [], ok (some (target_of ip_text parsed host port, more)))
unfolding accept_socks authenticate require_credentials has_method
accept_socks-credentials ip_text name password parsed host more port w i l h =
    let request = request_bytes parsed host port more in
    rw
      (
        read_methods-greeting (2 ∷ []) (credential_bytes name password request) refl,
        w,
        read_credentials-credential_bytes name password request,
        read_request-request_bytes ip_text parsed host more port i l h,
      )
      refl
