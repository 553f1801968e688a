-- ===== src/Prelude/Readers.antt =====
-- A connection that is read: the bytes that are still to come. Reading more of them is an error.
use Prim.Native.Nat.{ℕ}
use mathlib.Core.Path.{◌≡◌, refl}
use mathlib.Core.Bool.{false}
use mathlib.Core.List.{◌++◌}
use native.Mathlib.Omega.{arith}
use linksocks.Prelude.Tests.{ltb, if◌then◌else◌}
use linksocks.Prelude.Lists.{length, take, drop, length-append, take-append-drop, length-take}
use linksocks.Prelude.Go.{Bytes, Result, ok, err, plain, take-append, drop-append}

-- `io.ReadFull` of a buffer of `n` bytes: what is read, and what is still to come.
unfoldable pub read_full : ℕ → Bytes → Result (Bytes × Bytes)
read_full n r = if ltb (length r) n then err (plain "unexpected EOF") else ok (take n r, drop n r)

pub read_full-in : (n : ℕ) (x y : Bytes) → length x ≡ n → read_full n (x ++ y) ≡ ok (x, y)
unfolding read_full
read_full-in n x y e =
    let enough : ltb (length (x ++ y)) n ≡ false = ground (arith, length-append x y) in
    rw (enough, ← e, take-append x y, drop-append x y) refl

pub read_full-parts :
    (n : ℕ) (r x y : Bytes) → read_full n r ≡ ok (x, y) → (r ≡ x ++ y) × (length x ≡ n)
unfolding read_full
read_full-parts n r x y e = ground (arith, e, take-append-drop n r, length-take n r)
