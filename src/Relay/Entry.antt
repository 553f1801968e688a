-- ===== src/Relay/Entry.antt =====
-- `HandleSocksRequest` of linksocks/relay.go up to the request that it carries out: the greeting,
-- the credentials and the target. The connection is the bytes to come; the writes succeed.
use linksocks.Prelude.{
  ℕ, ◌+◌, Bool, true, false, not, ◌&&◌, [], ◌∷◌, ◌++◌, Bytes, if◌then◌else◌, ◌==◌, Option, none,
  some, length, Result, ok, err, panic, plain, annotate, index, slice, read_full, String,
}
use linksocks.Prelude.ByteOrder.{bytes_eq, u16_of}
use linksocks.Prelude.{◌>>=◌ as bind}

-- What was written, and how it went on.
abbrev pub Spoken {ℓ} : Type ℓ → Type ℓ
Spoken A = Bytes × Result A

infixl 5 ◌>>=◌ ◌>>◌
abbrev pub ◌>>=◌ {ℓ κ} : {A : Type ℓ} {B : Type κ} → Spoken A → (A → Spoken B) → Spoken B
(out, ok a) >>= f = (out ++ (f a).0, (f a).1)
(out, err e) >>= f = (out, err e)
(out, panic) >>= f = (out, panic)

abbrev pub ◌>>◌ {ℓ} : {B : Type ℓ} → Spoken (Unit {0}) → Spoken B → Spoken B
m >> k = m >>= λ _. k

abbrev pub says : Bytes → Spoken (Unit {0})
says out = (out, ok tt)

abbrev pub quietly {ℓ} : {A : Type ℓ} → Result A → Spoken A
quietly r = ([], r)

-- A read whose failure is answered.
abbrev pub or_says {ℓ} : {A : Type ℓ} → Bytes → Result A → Spoken A
or_says out (ok a) = ([], ok a)
or_says out (err e) = (out, err e)
or_says out panic = ([], panic)

-- A condition without which the connection is closed, after these bytes.
abbrev pub check : Bool → Bytes → String → Spoken (Unit {0})
check true out message = ([], ok tt)
check false out message = (out, err (plain message))

-- `sendFailureAndClose`
abbrev pub failure : ℕ → Bytes
failure code = 5 ∷ code ∷ 0 ∷ 1 ∷ 0 ∷ 0 ∷ 0 ∷ 0 ∷ 0 ∷ 0 ∷ []

unfoldable pub has_method : ℕ → Bytes → Bool
has_method m [] = false
has_method m (x ∷ xs) = let rest = has_method m xs in if x == m then true else rest

-- The methods that the client offers.
unfoldable pub read_methods : Bytes → Spoken (Bytes × Bytes)
read_methods input = do
  (header, rest) ← quietly (annotate "read version error" (read_full 2 input))
  version ← quietly (index header 0)
  check (version == 5) (failure 1) "invalid socks version"
  count ← quietly (index header 1)
  check (not (count == 0)) (failure 1) "no auth methods provided"
  quietly (annotate "read auth methods error" (read_full count rest))

-- A text behind the byte of its length.
unfoldable pub read_counted : String → String → Bytes → Spoken (Bytes × Bytes)
read_counted length_error text_error input = do
  (size, rest) ← quietly (annotate length_error (read_full 1 input))
  count ← quietly (index size 0)
  quietly (annotate text_error (read_full count rest))

-- Both a name and a password are configured.
abbrev pub wants_credentials : Bytes → Bytes → Bool
wants_credentials name password = not (bytes_eq name []) && not (bytes_eq password [])

unfoldable pub read_credentials : Bytes → Bytes → Bytes → Spoken Bytes
read_credentials name password input = do
  (first, r1) ← quietly (annotate "read auth version error" (read_full 1 input))
  version ← quietly (index first 0)
  check (version == 1) (1 ∷ 1 ∷ []) "invalid auth version"
  (given_name, r2) ← read_counted "read username length error" "read username error" r1
  (given_password, r3) ← read_counted "read password length error" "read password error" r2
  check (bytes_eq given_name name && bytes_eq given_password password) (1 ∷ 1 ∷ [])
      "authentication failed"
  says (1 ∷ 0 ∷ [])
  quietly (ok r3)

unfoldable pub require_credentials : Bytes → Bytes → Bytes → Bytes → Spoken Bytes
require_credentials name password methods input = do
  check (has_method 2 methods) (5 ∷ 0xff ∷ []) "no username/password auth method"
  says (5 ∷ 2 ∷ [])
  read_credentials name password input

unfoldable pub authenticate : Bytes → Bytes → Bytes → Bytes → Spoken Bytes
authenticate name password methods input =
    if wants_credentials name password
    then require_credentials name password methods input
    else (5 ∷ 0 ∷ [], ok input)

pub record Target : Type 0 where
  pub command : ℕ
  pub address : Bytes
  pub port : ℕ

abbrev pub port_at : Bytes → ℕ → Result ℕ
port_at raw i = bind (index raw i) (λ x. bind (index raw (i + 1)) (λ y. ok (u16_of x y)))

-- An address of `size` bytes with its port; `ip_text` is `net.IP.String`.
unfoldable pub read_ip : (Bytes → Bytes) → ℕ → ℕ → Bytes → Spoken (Target × Bytes)
read_ip ip_text command size input = do
  (raw, rest) ← or_says (failure 1) (read_full (size + 2) input)
  ip ← quietly (slice raw 0 size)
  port ← quietly (port_at raw size)
  quietly (ok (record { command = command; address = ip_text ip; port = port }, rest))

unfoldable pub read_domain : ℕ → Bytes → Spoken (Target × Bytes)
read_domain command input = do
  (size, r1) ← or_says (failure 1) (read_full 1 input)
  count ← quietly (index size 0)
  (raw, rest) ← or_says (failure 1) (read_full (count + 2) r1)
  name ← quietly (slice raw 0 count)
  port ← quietly (port_at raw count)
  quietly (ok (record { command = command; address = name; port = port }, rest))

-- `switch atyp`
unfoldable pub read_target : (Bytes → Bytes) → ℕ → ℕ → Bytes → Spoken (Target × Bytes)
read_target ip_text command atyp input =
    if atyp == 1
    then read_ip ip_text command 4 input
    else if atyp == 3
    then read_domain command input
    else if atyp == 4
    then read_ip ip_text command 16 input
    else (failure 8, err (plain "unsupported address type"))

unfoldable pub read_open_request : (Bytes → Bytes) → Bytes → Spoken (Target × Bytes)
read_open_request ip_text input = do
  (header, rest) ← quietly (annotate "read request header error" (read_full 4 input))
  version ← quietly (index header 0)
  check (version == 5) (failure 1) "invalid socks version in request"
  command ← quietly (index header 1)
  atyp ← quietly (index header 3)
  read_target ip_text command atyp rest

abbrev found_request : Spoken (Target × Bytes) → Spoken (Option (Target × Bytes))
found_request m = m >>= λ read. ([], ok (some read))

-- A client that closes in front of its request ends the call without an error.
unfoldable pub read_request : (Bytes → Bytes) → Bytes → Spoken (Option (Target × Bytes))
read_request ip_text input =
    if length input == 0 then ([], ok none) else found_request (read_open_request ip_text input)

unfoldable pub accept_socks :
    (Bytes → Bytes) → Bytes → Bytes → Bytes → Spoken (Option (Target × Bytes))
accept_socks ip_text name password input = do
  (methods, r1) ← read_methods input
  r2 ← authenticate name password methods r1
  read_request ip_text r2
