-- ===== src/Prelude/ByteOrder.antt =====
-- Bytes, and big-endian numbers on byte slices. The code joins shifted bytes by `|`; the bytes
-- stand in disjoint positions, so `|` is `+` here.
use Prim.Native.Nat.{ℕ, ◌+◌, ◌*◌, ◌/◌, ◌%◌, ◌^◌, ◌<◌}
use mathlib.Core.Path.{◌≡◌}
use Prim.Native.Char.{code}
use Prim.Native.String.{String}
use mathlib.Core.Bool.{Bool, true, false, ◌&&◌}
use mathlib.Core.List.{[], ◌∷◌}
use native.Mathlib.Omega.{arith}
use linksocks.Prelude.Go.{Bytes}
use linksocks.Prelude.Tests.{◌==◌}

abbrev pub IsByte : ℕ → Type 0
IsByte b = b < 256

-- `byte(n >> k)` for k = 8 * i.
abbrev pub byte_at : ℕ → ℕ → ℕ
byte_at n k = n / 2 ^ k % 256

abbrev pub u16_bytes : ℕ → Bytes → Bytes
u16_bytes n rest = byte_at n 8 ∷ (n % 256) ∷ rest

abbrev pub u32_bytes : ℕ → Bytes → Bytes
u32_bytes n rest = byte_at n 24 ∷ byte_at n 16 ∷ byte_at n 8 ∷ (n % 256) ∷ rest

abbrev pub u64_bytes : ℕ → Bytes → Bytes
u64_bytes n rest =
    byte_at n 56
    ∷ byte_at n 48
    ∷ byte_at n 40
    ∷ byte_at n 32
    ∷ byte_at n 24
    ∷ byte_at n 16
    ∷ byte_at n 8
    ∷ (n % 256)
    ∷ rest

abbrev pub u16_of : ℕ → ℕ → ℕ
u16_of a b = a * 2 ^ 8 + b

abbrev pub u32_of : ℕ → ℕ → ℕ → ℕ → ℕ
u32_of a b c d = a * 2 ^ 24 + b * 2 ^ 16 + c * 2 ^ 8 + d

pub u16_of-u16_bytes : (n : ℕ) → n < 2 ^ 16 → u16_of (byte_at n 8) (n % 256) ≡ n
u16_of-u16_bytes n h = omega arith

pub u32_of-u32_bytes :
    (n : ℕ) → n < 2 ^ 32 → u32_of (byte_at n 24) (byte_at n 16) (byte_at n 8) (n % 256) ≡ n
u32_of-u32_bytes n h = omega arith

-- The bytes of an ASCII literal. `String` has its own `[]` and `∷`.
abbrev pub codes : String → Bytes
codes String.[] = []
codes (String.◌∷◌ c s) = code c ∷ codes s

-- `==` on Go strings and byte slices.
abbrev pub bytes_eq : Bytes → Bytes → Bool
bytes_eq [] [] = true
bytes_eq [] (b ∷ bs) = false
bytes_eq (a ∷ as') [] = false
bytes_eq (a ∷ as') (b ∷ bs) = a == b && bytes_eq as' bs

pub bytes_eq_refl : (a : Bytes) → bytes_eq a a ≡ true
bytes_eq_refl [] = ground arith
bytes_eq_refl (x ∷ a) = ground (arith, bytes_eq_refl a)

pub bytes_eq→eq : (a b : Bytes) → bytes_eq a b ≡ true → a ≡ b
bytes_eq→eq [] [] h = ground arith
bytes_eq→eq [] (b ∷ bs) h = cc
bytes_eq→eq (a ∷ as') [] h = cc
bytes_eq→eq (a ∷ as') (b ∷ bs) h = ground (arith, bytes_eq→eq as' bs)
