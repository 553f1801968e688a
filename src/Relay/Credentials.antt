-- ===== src/Relay/Credentials.antt =====
-- Who gets past `HandleSocksRequest` of linksocks/relay.go.
use linksocks.Prelude.{
  ℕ, ◌≡◌, refl, ap, ◌∙◌, Bool, true, false, not, ◌&&◌, Option, [], ◌∷◌, ◌++◌, Bytes, ◌==◌, length,
  Result, ok, err, panic, annotate, index, read_full, read_full-parts, String, arith,
}
use linksocks.Prelude.ByteOrder.{bytes_eq, bytes_eq→eq}
use linksocks.Relay.Entry.{
  Spoken, ◌>>=◌, check, Target, has_method, read_methods, read_counted, wants_credentials,
  read_credentials, require_credentials, authenticate, read_request, accept_socks,
}

bind-ok {ℓ κ} :
    {A : Type ℓ} {B : Type κ} (m : Spoken A) (f : A → Spoken B) (b : B)
    → (m >>= f).1 ≡ ok b
    → (a : A) × ((m.1 ≡ ok a) × ((f a).1 ≡ ok b))
bind-ok (out, ok a) f b e = (a, (refl, e))
bind-ok (out, err x) f b e = cc
bind-ok (out, panic) f b e = cc

check-ok :
    {B : Type 0} (b : Bool) (out : Bytes) (message : String) (k : Spoken B) (v : B)
    → (check b out message >>= λ _. k).1 ≡ ok v
    → (b ≡ true) × (k.1 ≡ ok v)
check-ok true out message k v e = (refl, e)
check-ok false out message k v e = cc

annotate-ok :
    {A : Type 0} (prefix : String) (r : Result A) (a : A) → annotate prefix r ≡ ok a → r ≡ ok a
annotate-ok prefix (ok x) a e = e
annotate-ok prefix (err x) a e = cc
annotate-ok prefix panic a e = cc

-- One byte that was read.
one_byte : (s r : Bytes) (c : ℕ) → length s ≡ 1 → index s 0 ≡ ok c → s ++ r ≡ c ∷ r
unfolding index
one_byte [] r c e f = absurd (omega (arith, e))
one_byte (x ∷ []) r c e f = ground (arith, f)
one_byte (x ∷ y ∷ s) r c e f = absurd (omega (arith, e))

read_byte-ok :
    (prefix : String) (input s r : Bytes) (c : ℕ)
    → annotate prefix (read_full 1 input) ≡ ok (s, r)
    → index s 0 ≡ ok c
    → input ≡ c ∷ r
read_byte-ok prefix input s r c e f =
    let (whole, one) = read_full-parts 1 input s r (annotate-ok prefix _ _ e) in
    whole ∙ one_byte s r c one f

read_counted-ok :
    (p q : String) (input x rest : Bytes)
    → (read_counted p q input).1 ≡ ok (x, rest)
    → input ≡ length x ∷ (x ++ rest)
unfolding read_counted
read_counted-ok p q input x rest e =
    let ((s, r), (first, e1)) = bind-ok ([], annotate p (read_full 1 input)) _ _ e in
    let (count, (size, e2)) = bind-ok ([], index s 0) _ _ e1 in
    let (whole, exact) = read_full-parts count r x rest (annotate-ok q _ _ e2) in
    read_byte-ok p input s r count first size ∙ cc

-- What a client sends that has the credentials.
abbrev pub greeting_bytes : Bytes → Bytes → Bytes
greeting_bytes methods rest = 5 ∷ length methods ∷ (methods ++ rest)

abbrev pub credential_bytes : Bytes → Bytes → Bytes → Bytes
credential_bytes name password rest =
    1 ∷ length name ∷ (name ++ (length password ∷ (password ++ rest)))

two_bytes :
    (s r : Bytes) (a b : ℕ)
    → length s ≡ 2
    → index s 0 ≡ ok a
    → index s 1 ≡ ok b
    → s ++ r ≡ a ∷ b ∷ r
unfolding index
two_bytes [] r a b e f g = absurd (omega (arith, e))
two_bytes (x ∷ []) r a b e f g = absurd (omega (arith, e))
two_bytes (x ∷ y ∷ []) r a b e f g = ground (arith, f, g)
two_bytes (x ∷ y ∷ z ∷ s) r a b e f g = absurd (omega (arith, e))

read_methods-ok :
    (input methods rest : Bytes)
    → (read_methods input).1 ≡ ok (methods, rest)
    → input ≡ greeting_bytes methods rest
unfolding read_methods
read_methods-ok input methods rest e =
    let ((s, r), (header, e1)) =
      bind-ok ([], annotate "read version error" (read_full 2 input)) _ _ e in
    let (version, (first, e2)) = bind-ok ([], index s 0) _ _ e1 in
    let (five, e3) = check-ok (version == 5) _ _ _ _ e2 in
    let (count, (second, e4)) = bind-ok ([], index s 1) _ _ e3 in
    let (some_methods, e5) = check-ok (not (count == 0)) _ _ _ _ e4 in
    let (whole, two) = read_full-parts 2 input s r (annotate-ok _ _ _ header) in
    let (behind, exact) = read_full-parts count r methods rest (annotate-ok _ _ _ e5) in
    let is_five : version ≡ 5 = ground (arith, five) in
    let start : input ≡ version ∷ count ∷ r =
      whole ∙ two_bytes s r version count two first second in
    cc

read_credentials-ok :
    (name password input rest : Bytes)
    → (read_credentials name password input).1 ≡ ok rest
    → input ≡ credential_bytes name password rest
unfolding read_credentials
read_credentials-ok name password input rest e =
    let ((s, r1), (start, e1)) =
      bind-ok ([], annotate "read auth version error" (read_full 1 input)) _ _ e in
    let (version, (first, e2)) = bind-ok ([], index s 0) _ _ e1 in
    let (one, e3) = check-ok (version == 1) _ _ _ _ e2 in
    let ((given_name, r2), (named, e4)) = bind-ok (read_counted _ _ r1) _ _ e3 in
    let ((given_password, r3), (known, e5)) = bind-ok (read_counted _ _ r2) _ _ e4 in
    let (same, e6) =
      check-ok (bytes_eq given_name name && bytes_eq given_password password) _ _ _ _ e5 in
    let is_one : version ≡ 1 = ground (arith, one) in
    let same_name : bytes_eq given_name name ≡ true = ground (arith, same) in
    let same_password : bytes_eq given_password password ≡ true = ground (arith, same) in
    let begins = read_byte-ok "read auth version error" input s r1 version start first in
    let name_part = read_counted-ok _ _ r1 given_name r2 named in
    let password_part = read_counted-ok _ _ r2 given_password r3 known in
    let names = bytes_eq→eq given_name name same_name in
    let passwords = bytes_eq→eq given_password password same_password in
    let left : r3 ≡ rest = ground (arith, e6) in cc

authenticate-ok :
    (name password methods input rest : Bytes)
    → wants_credentials name password ≡ true
    → (authenticate name password methods input).1 ≡ ok rest
    → (has_method 2 methods ≡ true) × (input ≡ credential_bytes name password rest)
unfolding authenticate require_credentials
authenticate-ok name password methods input rest wants e =
    let e1 : (require_credentials name password methods input).1 ≡ ok rest =
      rw (authenticate, wants) at e in
    let (offered, e2) = check-ok (has_method 2 methods) _ _ _ _ e1 in
    (offered, read_credentials-ok name password input rest e2)

-- With a name and a password configured, a connection whose request is read has sent a greeting
-- that offers the method of passwords, then exactly that name and that password; the request is
-- what `HandleSocksRequest` reads of the bytes behind them.
pub accept_socks-Authenticated :
    (ip_text : Bytes → Bytes) (name password input : Bytes) (read : Option (Target × Bytes))
    → wants_credentials name password ≡ true
    → (accept_socks ip_text name password input).1 ≡ ok read
    → (methods : Bytes) × ((rest : Bytes) × ((input
            ≡ greeting_bytes methods (credential_bytes name password rest))
          × ((has_method 2 methods ≡ true) × ((read_request ip_text rest).1 ≡ ok read))))
unfolding accept_socks
accept_socks-Authenticated ip_text name password input read wants e =
    let ((methods, r1), (greeted, e1)) = bind-ok (read_methods input) _ _ e in
    let (rest, (known, e2)) = bind-ok (authenticate name password methods r1) _ _ e1 in
    let (offered, sent) = authenticate-ok name password methods r1 rest wants known in
    let start = read_methods-ok input methods r1 greeted in
    (methods, (rest, (start ∙ ap (λ r. greeting_bytes methods r) sent, (offered, e2))))
