-- ===== src/Server/Removal.antt =====
-- The removal of a token in linksocks/server.go keeps the tokens in order, and removes it.
use linksocks.Prelude.{
  ℕ, ◌==◌, ◌≡◌, ◌⊎◌, inl, inr, refl, sym, ap, ◌∙◌, subst, true, Option, none, some, List, [], ◌∷◌,
  Bytes, arith, Bool-cases, Option-cases, if_ind,
}
use linksocks.Prelude.ByteOrder.{bytes_eq, bytes_eq_refl}
use linksocks.Prelude.Table.{Table, load-erase, erase}
use linksocks.PortPool.Pool.{in_use, put_port}
use linksocks.PortPool.Allocation.{delete-in_use}
use linksocks.Server.Tokens.{Tokens, entry, without_key, names}
use linksocks.Server.Clients.{
  close_clients, erase_reverse, drop_internals, drop_connector, drop_connectors_of, release_port,
  drop_reverse, drop_forward, remove_by_kind, remove_token,
}
use linksocks.Server.Registered.{Ordered, shrink-InOrder}
use linksocks.Server.Adding.{Fresh}
use linksocks.Server.Registered.{entry-without_key}

erase-cases :
    {A : Type 0} (key k : Bytes) (t : Table A) → (erase key t k ≡ t k) ⊎ (erase key t k ≡ none)
erase-cases key k t = elim (Bool-cases (bytes_eq key k)) [
  | inl e ↦ inr (rw e refl)
  | inr e ↦ inl (rw e refl)
]

without_key-cases :
    (key k : Bytes) (m : List (Bytes × Bytes))
    → (entry (without_key key m) k ≡ entry m k) ⊎ (entry (without_key key m) k ≡ none)
without_key-cases key k m = elim (Bool-cases (bytes_eq key k)) [
  | inl e ↦ inr (rw e at (entry-without_key key k m))
  | inr e ↦ inl (rw e at (entry-without_key key k m))
]

erase_reverse-Ordered : (s : Tokens) (token : Bytes) → Ordered s → Ordered (erase_reverse s token)
unfolding erase_reverse
erase_reverse-Ordered s token w =
    shrink-InOrder s.forward_tokens s.forward_tokens s.tokens (erase token s.tokens)
      s.connector_tokens s.connector_tokens s.pool s.pool (λ k. inl refl)
      (λ k. erase-cases token k s.tokens) (λ k. inl refl) (λ k p e used. used) w

drop_internals-Ordered : (s : Tokens) (l : List Bytes) → Ordered s → Ordered (drop_internals s l)
unfolding drop_internals close_clients
drop_internals-Ordered s [] w = w
drop_internals-Ordered s (internal ∷ l) w =
    drop_internals-Ordered (erase_reverse (close_clients s internal) internal) l
      (erase_reverse-Ordered (close_clients s internal) internal w)

drop_connector-Ordered : (s : Tokens) (token : Bytes) → Ordered s → Ordered (drop_connector s token)
unfolding drop_connector close_clients
drop_connector-Ordered s token w =
    shrink-InOrder s.forward_tokens s.forward_tokens s.tokens s.tokens s.connector_tokens
      (without_key token s.connector_tokens) s.pool s.pool (λ k. inl refl) (λ k. inl refl)
      (λ k. without_key-cases token k s.connector_tokens) (λ k p e used. used) w

-- The connector tokens of a reverse token are dropped, and nothing else that the kinds depend on.
abbrev Keeps : Tokens → Tokens → Type 0
Keeps s s' =
    (s'.forward_tokens ≡ s.forward_tokens)
    × (s'.tokens ≡ s.tokens)
    × (s'.pool ≡ s.pool)
    × ((k : Bytes) → entry s.connector_tokens k ≡ none → entry s'.connector_tokens k ≡ none)

drop_connectors_of-Keeps :
    (s : Tokens) (token : Bytes) (m : List (Bytes × Bytes)) → Keeps s (drop_connectors_of s token m)
unfolding drop_connectors_of drop_connector close_clients
drop_connectors_of-Keeps s token [] = (refl, refl, refl, λ k e. e)
drop_connectors_of-Keeps s token ((k, rt) ∷ m) =
    let (a, b, c, d) = drop_connectors_of-Keeps (drop_connector s k) token m in
    if_ind (Keeps s) (bytes_eq rt token)
      (a, b, c, λ l e. d l (ground (arith, without_key-cases k l s.connector_tokens)))
      (drop_connectors_of-Keeps s token m)

drop_connectors_of-Ordered :
    (s : Tokens) (token : Bytes) (m : List (Bytes × Bytes))
    → Ordered s
    → Ordered (drop_connectors_of s token m)
unfolding drop_connectors_of
drop_connectors_of-Ordered s token [] w = w
drop_connectors_of-Ordered s token ((k, rt) ∷ m) w =
    if_ind Ordered (bytes_eq rt token)
      (drop_connectors_of-Ordered (drop_connector s k) token m (drop_connector-Ordered s k w))
      (drop_connectors_of-Ordered s token m w)

release_port-Ordered :
    (s : Tokens) (token : Bytes) (port : Option ℕ)
    → s.tokens token ≡ some port
    → Ordered s
    → Ordered (release_port (erase_reverse s token) port)
unfolding release_port erase_reverse put_port
release_port-Ordered s token none e w = erase_reverse-Ordered s token w
release_port-Ordered s token (some port) e (a, b, d) =
    shrink-InOrder s.forward_tokens s.forward_tokens s.tokens (erase token s.tokens)
      s.connector_tokens s.connector_tokens s.pool (put_port s.pool port) (λ k. inl refl)
      (λ k. erase-cases token k s.tokens) (λ k. inl refl) still (a, b, d)
  where
    still :
        (k : Bytes) (p : ℕ)
        → erase token s.tokens k ≡ some (some p)
        → in_use s.pool.used_ports p ≡ true
        → in_use (put_port s.pool port).used_ports p ≡ true
    still k p h used = elim (Bool-cases (bytes_eq token k)) [
      | inl same ↦ let gone : none ≡ some (some p) = rw same at h in ground (arith, gone)
      | inr other ↦
          let held : s.tokens k ≡ some (some p) = rw other at h in
          elim (Bool-cases (port == p)) [
            | inl equal ↦
                let q : port ≡ p = ground arith in
                let one : token ≡ k =
                  (d token k port e).1
                    (subst (λ (x : ℕ). s.tokens k ≡ some (some x)) (sym q) held) in
                let twice : bytes_eq token k ≡ true =
                  subst (λ (x : Bytes). bytes_eq token x ≡ true) one (bytes_eq_refl token) in
                ground (arith, twice, other)
            | inr apart ↦ rw (delete-in_use s.pool.used_ports port p, apart) used
          ]
    ]

drop_reverse-Ordered :
    (s : Tokens) (token : Bytes) (port : Option ℕ)
    → s.tokens token ≡ some port
    → Ordered s
    → Ordered (drop_reverse s token port)
unfolding drop_reverse close_clients
drop_reverse-Ordered s token port e w =
    let bare = drop_connectors_of s token s.connector_tokens in
    let (f, t, p, c) = drop_connectors_of-Keeps s token s.connector_tokens in
    release_port-Ordered (close_clients bare token) token port (rw t e)
      (drop_connectors_of-Ordered s token s.connector_tokens w)

drop_forward-Ordered : (s : Tokens) (token : Bytes) → Ordered s → Ordered (drop_forward s token)
unfolding drop_forward close_clients
drop_forward-Ordered s token w =
    shrink-InOrder s.forward_tokens (erase token s.forward_tokens) s.tokens s.tokens
      s.connector_tokens s.connector_tokens s.pool s.pool
      (λ k. erase-cases token k s.forward_tokens) (λ k. inl refl) (λ k. inl refl)
      (λ k p e used. used) w

release_port-Fresh :
    (s : Tokens) (token : Bytes) (port : Option ℕ)
    → Fresh s token
    → Fresh (release_port s port) token
unfolding release_port
release_port-Fresh s token none f = f
release_port-Fresh s token (some port) f = f

drop_reverse-Fresh :
    (s : Tokens) (token : Bytes) (port : Option ℕ)
    → s.tokens token ≡ some port
    → Ordered s
    → Fresh (drop_reverse s token port) token
unfolding drop_reverse close_clients erase_reverse
drop_reverse-Fresh s token port e (a, b, d) =
    let bare = drop_connectors_of s token s.connector_tokens in
    let (f, t, p, c) = drop_connectors_of-Keeps s token s.connector_tokens in
    let (no_forward, no_connector) = a token (rw e refl) in
    release_port-Fresh (erase_reverse (close_clients bare token) token) token port (
      ap (λ (x : Table (Unit {0})). x token) f ∙ no_forward,
      load-erase token bare.tokens,
      c token no_connector,
    )

-- The token is of no kind any more, and the tokens are in order.
abbrev pub Removed : Bytes → Tokens → Type 0
Removed token s = Ordered s × Fresh s token

drop_connector-Removed :
    (s : Tokens) (token rt : Bytes)
    → entry s.connector_tokens token ≡ some rt
    → Ordered s
    → Removed token (drop_connector s token)
unfolding drop_connector close_clients
drop_connector-Removed s token rt e w =
    let (a, b, d) = w in
    (
      drop_connector-Ordered s token w,
      (
        ground (arith, e, b token),
        ground (arith, e, a token),
        entry-without_key token token s.connector_tokens ∙ rw (bytes_eq_refl token) refl,
      ),
    )

drop_forward-Removed :
    (s : Tokens) (token : Bytes)
    → s.tokens token ≡ none
    → entry s.connector_tokens token ≡ none
    → Ordered s
    → Removed token (drop_forward s token)
unfolding drop_forward close_clients
drop_forward-Removed s token e f w =
    (drop_forward-Ordered s token w, (load-erase token s.forward_tokens, e, f))

remove_by_kind-Removed :
    (s : Tokens) (token : Bytes) → Ordered s → Removed token (remove_by_kind s token)
unfolding remove_by_kind
remove_by_kind-Removed s token w = elim (Option-cases (entry s.connector_tokens token)) [
  | inr (rt, e) ↦ rw (e, remove_by_kind) (drop_connector-Removed s token rt e w)
  | inl e ↦ elim (Option-cases (s.tokens token)) [
    | inr (port, f) ↦
        rw (e, remove_by_kind)
          (rw (f, remove_by_kind)
            (drop_reverse-Ordered s token port f w, drop_reverse-Fresh s token port f w))
    | inl f ↦ elim (Option-cases (s.forward_tokens token)) [
      | inr (u, g) ↦
          rw (e, remove_by_kind)
            (rw (f, remove_by_kind) (rw g (drop_forward-Removed s token f e w)))
      | inl g ↦ rw (e, remove_by_kind) (rw (f, remove_by_kind) (rw g (w, (g, f, e))))
    ]
  ]
]

pub remove_token-Removed :
    (s : Tokens) (token : Bytes) → Ordered s → Removed token (remove_token s token).0
unfolding remove_token
remove_token-Removed s token w =
    let bare = drop_internals s (names (s.internal_tokens token)) in
    remove_by_kind-Removed (record bare { internal_tokens = erase token bare.internal_tokens })
      token (drop_internals-Ordered s (names (s.internal_tokens token)) w)
