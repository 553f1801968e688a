-- ===== src/Zone/Addresses.antt =====
-- The parts of Go's `net/netip` and `strconv` that zone/ uses, for IPv4 only: the callers refuse
-- every other address. An address is the number of its four bytes.
use native.Mathlib.Nat.{mul-div_left, one-le-pow}
use linksocks.Prelude.{
  ℕ, ◌+◌, ◌-◌, ◌*◌, ◌/◌, ◌^◌, ◌≤◌, ◌≡◌, Bool, false, ◌&&◌, Option, none, some, [], ◌∷◌, leb, ◌==◌,
  if◌then◌else◌, Bytes, arith, ap, refl,
}
use linksocks.Prelude.ByteOrder.{u32_of}

infixl 5 ◌>>=◌
abbrev ◌>>=◌ {ℓ κ} : {A : Type ℓ} {B : Type κ} → Option A → (A → Option B) → Option B
none >>= f = none
some a >>= f = f a

abbrev pub Addr : Type 0
Addr = ℕ

pub record Prefix : Type 0 where
  pub addr : Addr
  pub bits : ℕ

-- The digits of a decimal number of at most `limit`; any other text is refused.
unfoldable pub parse_digits : ℕ → ℕ → Bytes → Option ℕ
parse_digits limit n [] = some n
parse_digits limit n (c ∷ s) =
    let rest = parse_digits limit (n * 10 + (c - b'0')) s in
    if leb b'0' c && (leb c b'9' && leb (n * 10 + (c - b'0')) limit) then rest else none

unfoldable pub parse_decimal_to : ℕ → Bytes → Option ℕ
parse_decimal_to limit [] = none
parse_decimal_to limit (c ∷ s) = parse_digits limit 0 (c ∷ s)

-- A number of more than one digit does not begin with 0.
unfoldable pub leading_zero : Bytes → Bool
leading_zero (c ∷ d ∷ s) = c == b'0'
leading_zero s = false

unfoldable pub parse_plain_decimal : ℕ → Bytes → Option ℕ
parse_plain_decimal limit s = if leading_zero s then none else parse_decimal_to limit s

-- The text before the first `sep` and the text behind it.
unfoldable pub cut : ℕ → Bytes → Bytes × Option Bytes
cut sep [] = ([], none)
cut sep (c ∷ s) =
    let (before, behind) = cut sep s in if c == sep then ([], some s) else (c ∷ before, behind)

unfoldable pub next_octet : Option Bytes → Option (ℕ × Option Bytes)
next_octet none = none
next_octet (some s) =
    let (field, behind) = cut b'.' s in
    elim (parse_plain_decimal 255 field) [ none ↦ none | some n ↦ some (n, behind) ]

-- `netip.ParseAddr`, where the result is an IPv4 address.
unfoldable pub parse_addr : Bytes → Option Addr
parse_addr s = do
  (a, s1) ← next_octet (some s)
  (b, s2) ← next_octet s1
  (c, s3) ← next_octet s2
  (d, s4) ← next_octet s3
  elim s4 [ none ↦ some (u32_of a b c d) | some more ↦ none ]

unfoldable pub prefix_of : Option Addr → Option ℕ → Option Prefix
prefix_of (some addr) (some bits) = some (record { addr = addr; bits = bits })
prefix_of (some addr) none = none
prefix_of none bits = none

-- `netip.ParsePrefix`
unfoldable pub parse_prefix : Bytes → Option Prefix
parse_prefix s =
    let (text, behind) = cut b'/' s in
    elim behind [
      | none ↦ none
      | some bits_text ↦ prefix_of (parse_addr text) (parse_plain_decimal 32 bits_text)
    ]

-- `p.Masked()`
unfoldable pub masked : Prefix → Prefix
masked p = record p { addr = p.addr / 2 ^ (32 - p.bits) * 2 ^ (32 - p.bits) }

-- `p.Contains(a)`
unfoldable pub contains : Prefix → Addr → Bool
contains p a = p.addr / 2 ^ (32 - p.bits) == a / 2 ^ (32 - p.bits)

pub contains-masked : (p : Prefix) (a : Addr) → contains (masked p) a ≡ contains p a
unfolding contains masked
contains-masked p a =
    ap (λ x. x == a / 2 ^ (32 - p.bits))
      (mul-div_left (p.addr / 2 ^ (32 - p.bits)) (one-le-pow (32 - p.bits) 2 (omega arith)))

parse_digits-le :
    (limit n : ℕ) (s : Bytes) (k : ℕ) → n ≤ limit → parse_digits limit n s ≡ some k → k ≤ limit
unfolding parse_digits
parse_digits-le limit n [] k h e = ground (arith, e)
parse_digits-le limit n (c ∷ s) k h e =
    ground (arith, e, parse_digits-le limit (n * 10 + (c - b'0')) s k)

pub parse_decimal_to-le :
    (limit : ℕ) (s : Bytes) (k : ℕ) → parse_decimal_to limit s ≡ some k → k ≤ limit
unfolding parse_decimal_to
parse_decimal_to-le limit [] k e = ground (arith, e)
parse_decimal_to-le limit (c ∷ s) k e = parse_digits-le limit 0 (c ∷ s) k (omega arith) e

pub parse_plain_decimal-le :
    (limit : ℕ) (s : Bytes) (k : ℕ) → parse_plain_decimal limit s ≡ some k → k ≤ limit
unfolding parse_plain_decimal
parse_plain_decimal-le limit s k e = ground (arith, e, parse_decimal_to-le limit s k)

prefix_of-bits :
    (a : Option Addr) (bits : Option ℕ) (p : Prefix)
    → ((k : ℕ) → bits ≡ some k → k ≤ 32)
    → prefix_of a bits ≡ some p
    → p.bits ≤ 32
unfolding prefix_of
prefix_of-bits (some a) (some b) p h e = ground (arith, e, h b refl)
prefix_of-bits (some a) none p h e = ground (arith, e)
prefix_of-bits none b p h e = ground (arith, e)

parse_prefix-bits_go :
    (text : Bytes) (behind : Option Bytes) (p : Prefix)
    → (elim behind [
      | none ↦ none
      | some bits_text ↦ prefix_of (parse_addr text) (parse_plain_decimal 32 bits_text)
    ])
      ≡ some p
    → p.bits ≤ 32
parse_prefix-bits_go text none p e = ground (arith, e)
parse_prefix-bits_go text (some t) p e =
    prefix_of-bits (parse_addr text) (parse_plain_decimal 32 t) p (parse_plain_decimal-le 32 t) e

-- A network that was parsed has at most 32 bits.
pub parse_prefix-bits : (s : Bytes) (p : Prefix) → parse_prefix s ≡ some p → p.bits ≤ 32
unfolding parse_prefix
parse_prefix-bits s p e = parse_prefix-bits_go (cut b'/' s).0 (cut b'/' s).1 p e
