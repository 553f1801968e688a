-- ===== src/Server/Registered.antt =====
-- What holds of the tokens of linksocks/server.go over any run of additions and removals.
use linksocks.Prelude.{
  ℕ, ◌≡◌, ◌⊎◌, inl, inr, refl, sym, ap, ◌∙◌, subst, true, false, Option, none, some, List, [], ◌∷◌,
  Bytes, if◌then◌else◌, arith, Bool-cases,
}
use linksocks.Prelude.ByteOrder.{bytes_eq, bytes_eq→eq}
use linksocks.Prelude.Table.{Table, store, is_some}
use linksocks.PortPool.Pool.{PortPool, in_use}
use linksocks.Server.Tokens.{Tokens, entry, without_key}

-- No token is of two kinds, and no two reverse tokens have one port, which is in use in the pool.
abbrev pub InOrder : Table (Unit {0}) → Table (Option ℕ) → List (Bytes × Bytes) → PortPool → Type 0
InOrder forward tokens connectors pool =
    ((k : Bytes) → is_some (tokens k) ≡ true → (forward k ≡ none) × (entry connectors k ≡ none))
    × ((k : Bytes) → is_some (forward k) ≡ true → entry connectors k ≡ none)
    × ((k l : Bytes) (p : ℕ)
        → tokens k ≡ some (some p)
        → (in_use pool.used_ports p ≡ true) × (tokens l ≡ some (some p) → k ≡ l))

abbrev pub Ordered : Tokens → Type 0
Ordered s = InOrder s.forward_tokens s.tokens s.connector_tokens s.pool

pub entry-without_key :
    (key k : Bytes) (m : List (Bytes × Bytes))
    → entry (without_key key m) k ≡ (if bytes_eq key k then none else entry m k)
unfolding entry without_key
entry-without_key key k [] = ground arith
entry-without_key key k ((j, v) ∷ m) = elim (Bool-cases (bytes_eq j key)) [
  | inl e ↦
      let same : bytes_eq j k ≡ bytes_eq key k =
        ap (λ (x : Bytes). bytes_eq x k) (bytes_eq→eq j key e) in
      ground (arith, same, entry-without_key key k m)
  | inr e ↦ elim (Bool-cases (bytes_eq key k)) [
    | inl f ↦
        let other : bytes_eq j k ≡ false =
          subst (λ (x : Bytes). bytes_eq j x ≡ false) (bytes_eq→eq key k f) e in
        ground (arith, other, entry-without_key key k m)
    | inr f ↦ ground (arith, entry-without_key key k m)
  ]
]

-- A value that a reverse token may get: its port, if it has one, is in use and no other token's.
abbrev pub Unshared : Table (Option ℕ) → PortPool → Option ℕ → Type 0
Unshared t pool v =
    (p : ℕ)
    → v ≡ some p
    → (in_use pool.used_ports p ≡ true) × ((l : Bytes) → ¬ (t l ≡ some (some p)))

pub store-InOrder :
    (f : Table (Unit {0})) (t : Table (Option ℕ)) (c : List (Bytes × Bytes)) (pool : PortPool)
    (k : Bytes) (v : Option ℕ)
    → f k ≡ none
    → entry c k ≡ none
    → Unshared t pool v
    → InOrder f t c pool
    → InOrder f (store k v t) c pool
store-InOrder f t c pool k v e g u (a, b, d) = (kinds, b, ports)
  where
    kinds : (l : Bytes) → is_some (store k v t l) ≡ true → (f l ≡ none) × (entry c l ≡ none)
    kinds l h = elim (Bool-cases (bytes_eq k l)) [
      | inl same ↦
          let q : k ≡ l = bytes_eq→eq k l same in
          (subst (λ (x : Bytes). f x ≡ none) q e, subst (λ (x : Bytes). entry c x ≡ none) q g)
      | inr other ↦ a l (rw other at h)
    ]

    ports :
        (l m : Bytes) (p : ℕ)
        → store k v t l ≡ some (some p)
        → (in_use pool.used_ports p ≡ true) × (store k v t m ≡ some (some p) → l ≡ m)
    ports l m p h = elim (Bool-cases (bytes_eq k l)) [
      | inl same ↦
          let held : v ≡ some p = ground arith in
          let (used, free) = u p held in
          (
            used,
            λ h'. elim (Bool-cases (bytes_eq k m)) [
              | inl same' ↦ sym (bytes_eq→eq k l same) ∙ bytes_eq→eq k m same'
              | inr other' ↦ absurd (free m (rw other' at h'))
            ],
          )
      | inr other ↦
          let (used, one) = d l m p (rw other at h) in
          (
            used,
            λ h'. elim (Bool-cases (bytes_eq k m)) [
              | inl same' ↦
                  let held : v ≡ some p = ground arith in absurd ((u p held).1 l (rw other at h))
              | inr other' ↦ one (rw other' at h')
            ],
          )
    ]

-- Fewer tokens, fewer connector tokens and more ports in use keep the order.
pub shrink-InOrder :
    (f f' : Table (Unit {0})) (t t' : Table (Option ℕ)) (c c' : List (Bytes × Bytes))
    (pool pool' : PortPool)
    → ((k : Bytes) → (f' k ≡ f k) ⊎ (f' k ≡ none))
    → ((k : Bytes) → (t' k ≡ t k) ⊎ (t' k ≡ none))
    → ((k : Bytes) → (entry c' k ≡ entry c k) ⊎ (entry c' k ≡ none))
    → ((k : Bytes) (p : ℕ)
        → t' k ≡ some (some p)
        → in_use pool.used_ports p ≡ true
        → in_use pool'.used_ports p ≡ true)
    → InOrder f t c pool
    → InOrder f' t' c' pool'
shrink-InOrder f f' t t' c c' pool pool' lf lt lc lp (a, b, d) = (
  λ k h. ground (arith, lf k, lt k, lc k, a k),
  λ k h. ground (arith, lf k, lc k, b k),
  λ k l p h. (ground (arith, lt k, lp k p, d k l p), λ h'. ground (arith, lt k, lt l, d k l p)),
)

-- Another pool in which at least the same ports are in use.
pub grow-Ordered :
    (s : Tokens) (pool : PortPool)
    → ((p : ℕ) → in_use s.pool.used_ports p ≡ true → in_use pool.used_ports p ≡ true)
    → Ordered s
    → Ordered (record s { pool = pool })
grow-Ordered s pool more w =
    shrink-InOrder s.forward_tokens s.forward_tokens s.tokens s.tokens s.connector_tokens
      s.connector_tokens s.pool pool (λ k. inl refl) (λ k. inl refl) (λ k. inl refl)
      (λ k p e. more p) w
