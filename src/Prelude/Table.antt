-- ===== src/Prelude/Table.antt =====
-- A `sync.Map`, or a Go map, whose keys are compared as byte strings.
use mathlib.Core.Bool.{Bool, true, false}
use mathlib.Core.Option.{Option, none, some}
use mathlib.Core.Path.{◌≡◌, refl}
use linksocks.Prelude.Go.{Bytes}
use linksocks.Prelude.Tests.{if◌then◌else◌}
use linksocks.Prelude.ByteOrder.{bytes_eq, bytes_eq_refl}

abbrev pub Table {ℓ} : Type ℓ → Type ℓ
Table A = Bytes → Option A

abbrev pub empty_table {ℓ} : {A : Type ℓ} → Table A
empty_table k = none

abbrev pub store {ℓ} : {A : Type ℓ} → Bytes → A → Table A → Table A
store k a t k' = if bytes_eq k k' then some a else t k'

abbrev pub erase {ℓ} : {A : Type ℓ} → Bytes → Table A → Table A
erase k t k' = if bytes_eq k k' then none else t k'

abbrev pub is_some {ℓ} : {A : Type ℓ} → Option A → Bool
is_some none = false
is_some (some a) = true

pub load-store {ℓ} : {A : Type ℓ} (k : Bytes) (a : A) (t : Table A) → store k a t k ≡ some a
load-store k a t = rw (bytes_eq_refl k) refl

pub load-erase {ℓ} : {A : Type ℓ} (k : Bytes) (t : Table A) → erase k t k ≡ none
load-erase k t = rw (bytes_eq_refl k) refl
