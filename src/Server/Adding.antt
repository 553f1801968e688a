-- ===== src/Server/Adding.antt =====
-- The additions of tokens in linksocks/server.go keep them in order.
use linksocks.Prelude.{
  ℕ, ◌==◌, ◌<◌, ◌≡◌, ◌⊎◌, inl, inr, sym, subst, true, false, ◌||◌, Option, none, some, [], ◌∷◌,
  Bytes, arith, Bool-cases, Option-cases, length, Result, ok, if_ind,
}
use linksocks.Prelude.ByteOrder.{bytes_eq, bytes_eq→eq}
use linksocks.Prelude.Table.{store, is_some}
use linksocks.PortPool.Pool.{PortPool, in_use, take_port, get}
use linksocks.PortPool.Allocation.{Offer, get-Answer}
use linksocks.Server.Tokens.{
  Tokens, ReverseTokenOptions, entry, token_exists, not_new, note_hash, with_port, store_reverse,
  add_reverse_token, add_forward_token, store_connector, add_connector_token, admit_internal,
  or_generated, reserved,
}
use linksocks.Server.Registered.{Ordered, Unshared, store-InOrder, grow-Ordered}

-- A token of no kind.
abbrev pub Fresh : Tokens → Bytes → Type 0
Fresh s k = (s.forward_tokens k ≡ none) × (s.tokens k ≡ none) × (entry s.connector_tokens k ≡ none)

token_exists-Fresh : (s : Tokens) (k : Bytes) → token_exists s k ≡ false → Fresh s k
unfolding token_exists
token_exists-Fresh s k h = (ground arith, ground arith, ground arith)

-- The token that an addition uses is fresh: a given one was looked up, a generated one is random.
new-Fresh :
    (s : Tokens) (token generated : Bytes)
    → not_new s token ≡ false
    → Fresh s generated
    → Fresh s (or_generated token generated)
unfolding not_new
new-Fresh s token generated h random = elim (Bool-cases (bytes_eq token [])) [
  | inl e ↦ rw e random
  | inr e ↦ rw e (token_exists-Fresh s token (rw e at h))
]

take_port-Ordered :
    (s : Tokens) (port : ℕ) → Ordered s → Ordered (record s { pool = take_port s.pool port })
unfolding take_port in_use
take_port-Ordered s port w = grow-Ordered s (take_port s.pool port) (λ p h. ground arith) w

taken-Unshared :
    (s : Tokens) (port : ℕ)
    → in_use s.pool.used_ports port ≡ false
    → Ordered s
    → Unshared s.tokens (take_port s.pool port) (some port)
unfolding take_port in_use
taken-Unshared s port free (a, b, d) p e =
    let same : port ≡ p = ground arith in
    let found : (port == p) ≡ true = ground arith in
    let free_p : in_use s.pool.used_ports p ≡ false =
      subst (λ (x : ℕ). in_use s.pool.used_ports x ≡ false) same free in
    (ground (arith, found), λ l h. let (used, _) = d l l p h in ground (arith, used, free_p))

with_port-Ordered :
    (s : Tokens) (opts : ReverseTokenOptions) (token : Bytes) (start : ℕ)
    → (0 < length s.pool.ports → start < length s.pool.ports)
    → Fresh s token
    → Ordered s
    → Ordered (with_port s opts token (get s.pool opts.port start)).0
unfolding with_port
with_port-Ordered s opts token start h (e, f, g) w =
    let (r, (is, answer)) = get-Answer s.pool opts.port start h in
    subst (λ (x : Result (PortPool × ℕ)). Ordered (with_port s opts token x).0) (sym is)
      (by (Offer s.pool opts.port) r.0 r.1 answer)
  where
    by :
        {X : Type 0} (Y : ℕ → Type 0) (pool : PortPool) (port : ℕ)
        → ((in_use s.pool.used_ports port ≡ false) × ((pool ≡ take_port s.pool port) × Y port))
          ⊎ ((port ≡ 0) × ((pool ≡ s.pool) × X))
        → Ordered (with_port s opts token (ok (pool, port))).0
    by Y pool port (inl (free, (taken, _))) =
        subst (λ (x : PortPool). Ordered (with_port s opts token (ok (x, port))).0) (sym taken)
          (if_ind (λ (x : Tokens × Result (Bytes × Option ℕ)). Ordered x.0) (port == 0)
            (take_port-Ordered s port w)
            (store-InOrder s.forward_tokens s.tokens s.connector_tokens (take_port s.pool port)
              token (some port) e g (taken-Unshared s port free w) (take_port-Ordered s port w)))
    by Y pool port (inr (zero_port, (same, x))) =
        subst (λ (y : ℕ). Ordered (with_port s opts token (ok (pool, y))).0) (sym zero_port)
          (subst (λ (y : PortPool). Ordered (record s { pool = y })) (sym same) w)

note_hash-Ordered :
    (sha : Bytes → Bytes) (s : Tokens) (token : Bytes) → Ordered s → Ordered (note_hash sha s token)
unfolding note_hash
note_hash-Ordered sha s token w = w

no_port-Unshared : (s : Tokens) → Unshared s.tokens s.pool none
no_port-Unshared s p e = ground arith

store_reverse-Ordered :
    (s : Tokens) (opts : ReverseTokenOptions) (token : Bytes) (start : ℕ)
    → (0 < length s.pool.ports → start < length s.pool.ports)
    → Fresh s token
    → Ordered s
    → Ordered (store_reverse s opts token start).0
unfolding store_reverse
store_reverse-Ordered s opts token start h (e, f, g) w =
    if_ind (λ (x : Tokens × Result (Bytes × Option ℕ)). Ordered x.0) opts.allow_manage_connector
      (store-InOrder s.forward_tokens s.tokens s.connector_tokens s.pool token none e g
        (no_port-Unshared s) w)
      (rw f (with_port-Ordered s opts token start h (e, f, g) w))

-- A given token that was new when `tokenExists` looked is still new when it is added.
abbrev pub Undisturbed : Tokens → Tokens → Bytes → Type 0
Undisturbed checked s token = not_new checked token ≡ false → not_new s token ≡ false

pub add_reverse_token-Ordered :
    (sha : Bytes → Bytes) (checked s : Tokens) (opts : ReverseTokenOptions) (generated : Bytes)
    (start : ℕ)
    → Undisturbed checked s opts.token
    → (0 < length s.pool.ports → start < length s.pool.ports)
    → Fresh s generated
    → Ordered s
    → Ordered (add_reverse_token sha checked s opts generated start).0
unfolding add_reverse_token note_hash
add_reverse_token-Ordered sha checked s opts generated start still h random w =
    if_ind (λ (x : Tokens × Result (Bytes × Option ℕ)). Ordered x.0) (reserved opts.token) w
      (elim (Bool-cases (not_new checked opts.token)) [
        | inl e ↦ rw e w
        | inr e ↦ rw e (
            store_reverse-Ordered (note_hash sha s (or_generated opts.token generated)) opts
              (or_generated opts.token generated) start h
              (new-Fresh s opts.token generated (still e) random) w)
      ])

forward-Ordered :
    (s : Tokens) (k : Bytes)
    → Fresh s k
    → Ordered s
    → Ordered (record s { forward_tokens = store k tt s.forward_tokens })
forward-Ordered s k (e, f, g) (a, b, d) = (
  λ l h. elim (Bool-cases (bytes_eq k l)) [
    | inl same ↦
        let gone : s.tokens l ≡ none =
          subst (λ (x : Bytes). s.tokens x ≡ none) (bytes_eq→eq k l same) f in
        ground (arith, gone, h)
    | inr other ↦ rw other (a l h)
  ],
  λ l h. elim (Bool-cases (bytes_eq k l)) [
    | inl same ↦ subst (λ (x : Bytes). entry s.connector_tokens x ≡ none) (bytes_eq→eq k l same) g
    | inr other ↦ b l (rw other at h)
  ],
  d,
)

connector-Ordered :
    (s : Tokens) (k rt : Bytes)
    → Fresh s k
    → Ordered s
    → Ordered (record s { connector_tokens = (k, rt) ∷ s.connector_tokens })
unfolding entry
connector-Ordered s k rt (e, f, g) (a, b, d) = (
  λ l h. elim (Bool-cases (bytes_eq k l)) [
    | inl same ↦
        let gone : s.tokens l ≡ none =
          subst (λ (x : Bytes). s.tokens x ≡ none) (bytes_eq→eq k l same) f in
        ground (arith, gone, h)
    | inr other ↦ rw other (a l h)
  ],
  λ l h. elim (Bool-cases (bytes_eq k l)) [
    | inl same ↦
        let gone : s.forward_tokens l ≡ none =
          subst (λ (x : Bytes). s.forward_tokens x ≡ none) (bytes_eq→eq k l same) e in
        ground (arith, gone, h)
    | inr other ↦ rw other (b l h)
  ],
  d,
)

pub add_forward_token-Ordered :
    (sha : Bytes → Bytes) (checked s : Tokens) (token generated : Bytes)
    → Undisturbed checked s token
    → Fresh s generated
    → Ordered s
    → Ordered (add_forward_token sha checked s token generated).0
unfolding add_forward_token note_hash
add_forward_token-Ordered sha checked s token generated still random w =
    if_ind (λ (x : Tokens × Result Bytes). Ordered x.0) (reserved token) w
      (elim (Bool-cases (not_new checked token)) [
        | inl e ↦ rw e w
        | inr e ↦ rw e (
            forward-Ordered (note_hash sha s (or_generated token generated))
              (or_generated token generated) (new-Fresh s token generated (still e) random) w)
      ])

store_connector-Ordered :
    (sha : Bytes → Bytes) (s : Tokens) (token rt : Bytes)
    → Ordered s
    → Ordered (store_connector sha s token rt).0
unfolding store_connector note_hash
store_connector-Ordered sha s token rt w = elim (Option-cases (entry s.connector_tokens token)) [
  | inr (r, e) ↦
      rw (e, store_connector)
        (if_ind (λ (x : Tokens × Result Bytes). Ordered x.0) (bytes_eq r rt) w w)
  | inl e ↦
      rw (e, store_connector)
        (elim (Bool-cases (is_some (s.forward_tokens token) || is_some (s.tokens token))) [
          | inl known ↦ rw known w
          | inr new ↦
              rw new (
                connector-Ordered (note_hash sha s token) token rt (ground arith, ground arith, e)
                  w)
        ])
]

pub add_connector_token-Ordered :
    (sha : Bytes → Bytes) (s : Tokens) (token rt generated : Bytes)
    → Ordered s
    → Ordered (add_connector_token sha s token rt generated).0
unfolding add_connector_token
add_connector_token-Ordered sha s token rt generated w =
    let P : Tokens × Result Bytes → Type 0 = λ x. Ordered x.0 in
    if_ind P (reserved token) w (
      if_ind P (is_some (s.tokens rt))
        (store_connector-Ordered sha s (or_generated token generated) rt w) w)

pub admit_internal-Ordered :
    (s : Tokens) (token internal : Bytes) (opts : ReverseTokenOptions)
    → s.forward_tokens internal ≡ none
    → entry s.connector_tokens internal ≡ none
    → Ordered s
    → Ordered (admit_internal s token internal opts)
unfolding admit_internal
admit_internal-Ordered s token internal opts e f w =
    store-InOrder s.forward_tokens s.tokens s.connector_tokens s.pool internal none e f
      (no_port-Unshared s) w
