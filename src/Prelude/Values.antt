-- ===== src/Prelude/Values.antt =====
-- What is known of a result: that it is no panic, and a property of its value.
use Prim.Native.Nat.{ℕ, zero, suc, ◌<◌}
use Prim.Native.String.{String}
use mathlib.Core.Path.{◌≡◌, refl}
use mathlib.Core.Bool.{Bool, true, false}
use mathlib.Core.List.{[], ◌∷◌}
use native.Mathlib.Omega.{arith}
use linksocks.Prelude.Go.{Result, ok, err, panic, ◌>>=◌, reject, annotate, Bytes, index, index_in}
use linksocks.Prelude.Lists.{length, get_or}
use linksocks.Prelude.Predicates.{All}
use linksocks.Prelude.ByteOrder.{IsByte}

abbrev pub OfValue {ℓ} : {A : Type ℓ} → (A → Type 0) → Result A → Type 0
OfValue P (ok a) = P a
OfValue P (err e) = Unit
OfValue P panic = ⊥

-- Binding keeps what is known of the value.
pub bind-OfValue {ℓ κ} :
    {A : Type ℓ} {B : Type κ} (P : A → Type 0) (Q : B → Type 0) (r : Result A) (f : A → Result B)
    → OfValue P r
    → ((a : A) → P a → OfValue Q (f a))
    → OfValue Q (r >>= f)
bind-OfValue P Q (ok a) f h k = k a h
bind-OfValue P Q (err e) f h k = tt
bind-OfValue P Q panic f h k = elim h [ ]

pub reject-OfValue : (b : Bool) (message : String) → OfValue (λ _. b ≡ false) (reject b message)
reject-OfValue true message = tt
reject-OfValue false message = refl

pub annotate-OfValue {ℓ} :
    {A : Type ℓ} (P : A → Type 0) (prefix : String) (r : Result A)
    → OfValue P r
    → OfValue P (annotate prefix r)
annotate-OfValue P prefix (ok a) h = h
annotate-OfValue P prefix (err e) h = tt
annotate-OfValue P prefix panic h = h

get_or-IsByte : (b : Bytes) (i : ℕ) → All IsByte b → IsByte (get_or b i 0)
get_or-IsByte [] i h = omega arith
get_or-IsByte (x ∷ b) zero h = h.0
get_or-IsByte (x ∷ b) (suc i) h = get_or-IsByte b i h.1

-- Reading a byte in range.
pub index-OfValue : (b : Bytes) (i : ℕ) → i < length b → All IsByte b → OfValue IsByte (index b i)
index-OfValue b i h bytes = rw (index_in b i h) (get_or-IsByte b i bytes)
