-- ===== src/Prelude/Go.antt =====
-- What Go code shares: a call that returns a value, returns an error, or panics, and the
-- indexing and slicing of byte slices with their bounds checks.
use Prim.Native.Nat.{ℕ, zero, suc, ◌+◌, ◌-◌, ◌≤◌, ◌<◌}
use Prim.Native.String.{String}
use mathlib.Core.Path.{◌≡◌, refl, sym, ap, ◌∙◌}
use mathlib.Core.Bool.{Bool, true, false, ◌||◌}
use mathlib.Core.List.{List, [], ◌∷◌, ◌++◌, append-nil}
use native.Mathlib.Omega.{arith}
use linksocks.Prelude.Tests.{ltb, ◌==◌, if◌then◌else◌, Bool-cases}
use linksocks.Prelude.Predicates.{All}
use mathlib.Core.Logic.{◌≢◌, ◌⊎◌, inl, inr}
use linksocks.Prelude.Lists.{length, get_or, take, drop, length-take, length-drop, length-append}

-- `errors.New` and `fmt.Errorf`; `wrapped` is `%w` behind its prefix.
pub data Error : Type 0 where
  plain : String → Error
  wrapped : String → Error → Error

pub data Result {ℓ} (A : Type ℓ) : Type ℓ where
  ok : A → Result A
  err : Error → Result A
  panic : Result A

infixl 5 ◌>>=◌ ◌>>◌
abbrev pub ◌>>=◌ {ℓ κ} : {A : Type ℓ} {B : Type κ} → Result A → (A → Result B) → Result B
ok a >>= f = f a
err e >>= f = err e
panic >>= f = panic

abbrev pub ◌>>◌ {ℓ} : {B : Type ℓ} → Result (Unit {0}) → Result B → Result B
m >> k = m >>= λ _. k

-- `if bad { return nil, errors.New(message) }`
abbrev pub reject : Bool → String → Result (Unit {0})
reject true message = err (plain message)
reject false message = ok tt

-- `fmt.Errorf("prefix: %w", err)` on the error path.
abbrev pub annotate {ℓ} : {A : Type ℓ} → String → Result A → Result A
annotate prefix (ok a) = ok a
annotate prefix (err e) = err (wrapped prefix e)
annotate prefix panic = panic

abbrev pub Bytes : Type 0
Bytes = List ℕ

-- `b[i]`: out of range it panics.
unfoldable pub index : Bytes → ℕ → Result ℕ
index b i = if ltb i (length b) then ok (get_or b i 0) else panic

-- `b[lo:hi]`. Go lets `hi` pass `len(b)` up to the capacity; here that panics too.
unfoldable pub slice : Bytes → ℕ → ℕ → Result Bytes
slice b lo hi = if ltb hi lo || ltb (length b) hi then panic else ok (take (hi - lo) (drop lo b))

-- `b[lo:]`
abbrev pub slice_from : Bytes → ℕ → Result Bytes
slice_from b lo = slice b lo (length b)

-- The value of a slice expression that is in range.
abbrev pub piece {ℓ} : {A : Type ℓ} → List A → ℕ → ℕ → List A
piece b lo hi = take (hi - lo) (drop lo b)

pub index_in : (b : Bytes) (i : ℕ) → i < length b → index b i ≡ ok (get_or b i 0)
unfolding index
index_in b i h = ground arith

pub slice_in :
    (b : Bytes) (lo hi : ℕ) → lo ≤ hi → hi ≤ length b → slice b lo hi ≡ ok (piece b lo hi)
unfolding slice
slice_in b lo hi p q = ground arith

pub get_or-append : (x : Bytes) (b : ℕ) (z : Bytes) → get_or (x ++ (b ∷ z)) (length x) 0 ≡ b
get_or-append [] b z = refl
get_or-append (a ∷ x) b z = get_or-append x b z

pub drop-append {ℓ} : {A : Type ℓ} (x z : List A) → drop (length x) (x ++ z) ≡ z
drop-append [] z = refl
drop-append (a ∷ x) z = drop-append x z

pub take-append {ℓ} : {A : Type ℓ} (y z : List A) → take (length y) (y ++ z) ≡ y
take-append [] z = refl
take-append (a ∷ y) z = ap (λ r. a ∷ r) (take-append y z)

pub drop-nil {ℓ} : {A : Type ℓ} (n : ℕ) → drop {A = A} n [] ≡ []
drop-nil zero = refl
drop-nil (suc n) = refl

pub drop-drop {ℓ} : {A : Type ℓ} (n m : ℕ) (x : List A) → drop m (drop n x) ≡ drop (n + m) x
drop-drop zero m x = let e : zero + m ≡ m = omega arith in rw e
drop-drop (suc n) m [] = drop-nil m ∙ sym (drop-nil (suc n + m))
drop-drop (suc n) m (a ∷ x) =
    let e : suc n + m ≡ suc (n + m) = omega arith in rw e (drop-drop n m x)

pub length-piece {ℓ} :
    {A : Type ℓ} (b : List A) (lo hi : ℕ) → hi ≤ length b → length (piece b lo hi) ≡ hi - lo
length-piece b lo hi h = omega (arith, length-take (hi - lo) (drop lo b), length-drop lo b)

-- Without a panic there is a value or there is an error.
pub Result-cases {ℓ} :
    {A : Type ℓ} (call : Result A)
    → call ≢ panic
    → ((value : A) × (call ≡ ok value)) ⊎ ((failure : Error) × (call ≡ err failure))
Result-cases panic returns = absurd (returns refl)
Result-cases (err failure) returns = inr (failure, refl)
Result-cases (ok value) returns = inl (value, refl)

-- `switch t { case k: return x … default: return d }`: the first case that fits.
unfoldable pub switch {ℓ} : {A : Type ℓ} → ℕ → List (ℕ × A) → A → A
switch t [] d = d
switch t ((k, x) ∷ cases) d = if t == k then x else switch t cases d

-- What holds of every case and of the default holds of the result.
pub switch-All {ℓ κ} :
    {A : Type ℓ} (P : A → Type κ) (t : ℕ) (cases : List (ℕ × A)) (d : A)
    → All (λ c. P c.1) cases
    → P d
    → P (switch t cases d)
unfolding switch
switch-All P t [] d h hd = hd
switch-All P t ((k, x) ∷ cases) d h hd = elim (Bool-cases (t == k)) [
  | inl e ↦ rw e h.0
  | inr e ↦ rw e (switch-All P t cases d h.1 hd)
]

-- Reading a slice that is known to be joined from parts.
pub index_at :
    (x : Bytes) (b : ℕ) (z : Bytes) (i : ℕ) → length x ≡ i → index (x ++ (b ∷ z)) i ≡ ok b
index_at x b z i e = rw (← e) (
    index_in _ (length x) (omega (arith, length-append x (b ∷ z)))
    ∙ ap (λ (v : ℕ). ok v) (get_or-append x b z))

pub slice_at :
    (x y z : Bytes) (lo hi : ℕ)
    → length x ≡ lo
    → lo + length y ≡ hi
    → slice (x ++ (y ++ z)) lo hi ≡ ok y
slice_at x y z lo hi e f =
    slice_in _ lo hi (omega arith) (omega (arith, length-append x (y ++ z), length-append y z))
    ∙ ap (λ (v : Bytes). ok v) inner
  where
    inner : piece (x ++ (y ++ z)) lo hi ≡ y
    inner =
        let d : hi - lo ≡ length y = omega arith in
        rw (d, ← e, drop-append x (y ++ z)) (take-append y z)

-- The last part of a joined slice.
pub slice_last :
    (x y : Bytes) (lo hi : ℕ) → length x ≡ lo → lo + length y ≡ hi → slice (x ++ y) lo hi ≡ ok y
slice_last x y lo hi e f = rw (append-nil) at (slice_at x y [] lo hi e f)
