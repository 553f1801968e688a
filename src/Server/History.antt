-- ===== src/Server/History.antt =====
-- The tokens of linksocks/server.go over any history of calls.
use linksocks.Prelude.{
  refl, ℕ, ◌<◌, ◌≡◌, inl, inr, false, ◌&&◌, Option, none, List, [], ◌∷◌, Bytes, arith, Option-cases,
  ok, true, length, if_ind,
}
use linksocks.Prelude.Table.{load-store, Table, store, is_some, erase}
use linksocks.Prelude.ByteOrder.{bytes_eq, bytes_eq_refl}
use linksocks.Channel.State.{uuid_nil}
use linksocks.Message.Types.{Uuid}
use linksocks.PortPool.Pool.{PortPool}
use linksocks.Server.Tokens.{
  reserved, not_new, store_reverse, note_hash, Tokens, ReverseTokenOptions, new_tokens, entry,
  add_reverse_token, add_forward_token, add_connector_token, admit_internal,
}
use linksocks.Server.Clients.{
  remove_token, register_client, cleanup_connection, leave_clients, without_client, Roles,
}
use linksocks.Server.Registered.{Ordered, InOrder}
use linksocks.Server.Adding.{
  Fresh, Undisturbed, add_reverse_token-Ordered, add_forward_token-Ordered,
  add_connector_token-Ordered, admit_internal-Ordered,
}
use linksocks.Server.Removal.{Removed, remove_token-Removed}

-- What can happen to the tokens of a server. A generated token is not one that exists, and the
-- internal token of a client is no forward or connector token. Between the look at a given token and
-- the lock under which it is added anything may happen, but that the same token comes to exist.
pub data Reached (sha256_hex : Bytes → Bytes) (pool : PortPool) : Tokens → Type 0 where
  begins : Reached sha256_hex pool (new_tokens pool)
  adds_reverse :
      (checked s : Tokens) (opts : ReverseTokenOptions) (generated : Bytes) (start : ℕ)
      → Reached sha256_hex pool s
      → Undisturbed checked s opts.token
      → (0 < length s.pool.ports → start < length s.pool.ports)
      → Fresh s generated
      → Reached sha256_hex pool (add_reverse_token sha256_hex checked s opts generated start).0
  adds_forward :
      (checked s : Tokens) (token generated : Bytes)
      → Reached sha256_hex pool s
      → Undisturbed checked s token
      → Fresh s generated
      → Reached sha256_hex pool (add_forward_token sha256_hex checked s token generated).0
  adds_connector :
      (s : Tokens) (token reverse_token generated : Bytes)
      → Reached sha256_hex pool s
      → Reached sha256_hex pool (add_connector_token sha256_hex s token reverse_token generated).0
  admits :
      (s : Tokens) (token internal : Bytes) (opts : ReverseTokenOptions)
      → Reached sha256_hex pool s
      → s.forward_tokens internal ≡ none
      → entry s.connector_tokens internal ≡ none
      → Reached sha256_hex pool (admit_internal s token internal opts)
  removes :
      (s : Tokens) (token : Bytes)
      → Reached sha256_hex pool s
      → Reached sha256_hex pool (remove_token s token).0
  registers :
      (s : Tokens) (internal : Bytes) (id : Uuid) (ws : ℕ)
      → Reached sha256_hex pool s
      → Reached sha256_hex pool (register_client s internal id ws)
  leaves :
      (s : Tokens) (id : Uuid) (token : Bytes)
      → Reached sha256_hex pool s
      → Reached sha256_hex pool (cleanup_connection s id token)

leave_clients-Ordered :
    (s : Tokens) (token : Bytes) (l : List (Uuid × ℕ))
    → Ordered s
    → Ordered (leave_clients s token l)
unfolding leave_clients
leave_clients-Ordered s token [] w = w
leave_clients-Ordered s token (c ∷ l) w = w

cleanup_connection-Ordered :
    (s : Tokens) (id : Uuid) (token : Bytes) → Ordered s → Ordered (cleanup_connection s id token)
unfolding cleanup_connection
cleanup_connection-Ordered s id token w = if_ind Ordered (bytes_eq id uuid_nil) w (
    if_ind Ordered (bytes_eq token []) w (elim (Option-cases (s.token_clients token)) [
      | inl e ↦ rw e w
      | inr (l, e) ↦ rw e (
          leave_clients-Ordered (record s { clients = erase id s.clients }) token
            (without_client id l) w)
    ]))

Reached-Ordered :
    (sha : Bytes → Bytes) (pool : PortPool) (s : Tokens) → Reached sha pool s → Ordered s
unfolding new_tokens register_client entry
Reached-Ordered sha pool s begins =
    (λ k h. ground arith, λ k h. ground arith, λ k l p h. ground arith)
Reached-Ordered sha pool s (adds_reverse checked s' opts generated start r u h f) =
    add_reverse_token-Ordered sha checked s' opts generated start u h f
      (Reached-Ordered sha pool s' r)
Reached-Ordered sha pool s (adds_forward checked s' token generated r u f) =
    add_forward_token-Ordered sha checked s' token generated u f (Reached-Ordered sha pool s' r)
Reached-Ordered sha pool s (adds_connector s' token rt generated r) =
    add_connector_token-Ordered sha s' token rt generated (Reached-Ordered sha pool s' r)
Reached-Ordered sha pool s (admits s' token internal opts r e f) =
    admit_internal-Ordered s' token internal opts e f (Reached-Ordered sha pool s' r)
Reached-Ordered sha pool s (removes s' token r) =
    (remove_token-Removed s' token (Reached-Ordered sha pool s' r)).0
Reached-Ordered sha pool s (registers s' internal id ws r) = Reached-Ordered sha pool s' r
Reached-Ordered sha pool s (leaves s' id token r) =
    cleanup_connection-Ordered s' id token (Reached-Ordered sha pool s' r)

-- Over any history of additions, removals and clients in which no token that an addition was given
-- comes to exist between its look at the token and its lock: no token is of two kinds, no two reverse
-- tokens have one port, every port of one is in use, and whatever token is then removed is of no
-- kind any more, with all this still true of the others.
pub tokens-Removed :
    (sha : Bytes → Bytes) (pool : PortPool) (s : Tokens)
    → Reached sha pool s
    → Ordered s × ((token : Bytes) → Removed token (remove_token s token).0)
tokens-Removed sha pool s r =
    let w = Reached-Ordered sha pool s r in (w, λ token. remove_token-Removed s token w)

-- The options of a provider that may manage connectors, which has no port.
abbrev pub autonomy : Bytes → ReverseTokenOptions
autonomy token = record { token = token; port = 0; allow_manage_connector = true }

-- Two additions of one new token that both look at it before one of them takes the lock succeed
-- both, and the token is a reverse and a forward token, so the tokens are not in order.
pub add_forward_token-add_reverse_token :
    (sha : Bytes → Bytes) (s : Tokens) (token random random' : Bytes) (start : ℕ)
    → reserved token ≡ false
    → bytes_eq token [] ≡ false
    → not_new s token ≡ false
    → let reverse = add_reverse_token sha s s (autonomy token) random start in
      let forward = add_forward_token sha s reverse.0 token random' in
      (reverse.1 ≡ ok (token, none)) × ((forward.1 ≡ ok token) × (¬ (Ordered forward.0)))
unfolding add_reverse_token add_forward_token store_reverse note_hash
add_forward_token-add_reverse_token sha s token random random' start named given new = (
  rw (named, new, given) refl,
  (
    rw (named, new, given) refl,
    rw (named, new, given) (λ w. both token s.forward_tokens s.tokens s.connector_tokens s.pool w),
  ),
)
  where
    both :
        (k : Bytes) (f : Table (Unit {0})) (t : Table (Option ℕ)) (c : List (Bytes × Bytes))
        (pool : PortPool)
        → InOrder (store k tt f) (store k none t) c pool
        → ⊥
    both k f t c pool (a, _, _) =
        let reverse : is_some (store k none t k) ≡ true = rw (bytes_eq_refl k) refl in
        ground (arith, (a k reverse).0, load-store k tt f)

-- A client's roles exclude each other.
abbrev pub Exclusive : Roles → Type 0
Exclusive r =
    ((r.is_valid_reverse && r.is_valid_forward) ≡ false)
    × ((r.is_valid_reverse && r.is_valid_connector) ≡ false)
    × ((r.is_valid_forward && r.is_valid_connector) ≡ false)
