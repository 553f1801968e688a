-- ===== src/Server/Clients.antt =====
-- The clients of a token in linksocks/server.go, how a client's token is checked, and how a token is
-- removed with its clients.
use linksocks.Prelude.{
  ℕ, Bool, true, false, not, ◌&&◌, ◌||◌, Option, none, some, List, [], ◌∷◌, ◌++◌, Bytes,
  if◌then◌else◌, map,
}
use linksocks.Prelude.ByteOrder.{bytes_eq}
use linksocks.Prelude.Table.{Table, store, erase, is_some}
use linksocks.Message.Types.{Uuid}
use linksocks.Channel.State.{uuid_nil}
use linksocks.PortPool.Pool.{put_port, delete}
use linksocks.Server.Cache.{Cache, ids_of}
use linksocks.Server.Tokens.{Tokens, entry, without_key, names}

unfoldable pub clients_at : Option (List (Uuid × ℕ)) → List (Uuid × ℕ)
clients_at none = []
clients_at (some l) = l

unfoldable pub erase_clients : List (Uuid × ℕ) → Table ℕ → Table ℕ
erase_clients [] t = t
erase_clients ((id, ws) ∷ l) t = erase_clients l (erase id t)

-- `client.Conn.Close()` and the two deletions, for each client of a token.
unfoldable pub close_clients : Tokens → Bytes → Tokens
close_clients s token =
    let l = clients_at (s.token_clients token) in
    record s {
      closed = s.closed ++ map (λ (c : Uuid × ℕ). c.1) l;
      clients = erase_clients l s.clients;
      token_clients = erase token s.token_clients;
    }

unfoldable pub erase_ids : {A : Type 0} → List Uuid → Table A → Table A
erase_ids [] t = t
erase_ids (id ∷ ids) t = erase_ids ids (erase id t)

-- The channels that the cache keeps under a token.
unfoldable pub forget_channels : Cache → Bytes → Cache
forget_channels c token =
    let ids = ids_of (c.token_cache token) in
    record c {
      channel_to_client = erase_ids ids c.channel_to_client;
      channel_to_connector = erase_ids ids c.channel_to_connector;
      orphan_queues = erase_ids ids c.orphan_queues;
      token_cache = erase token c.token_cache;
    }

-- The entries of a reverse token, without its port.
unfoldable pub erase_reverse : Tokens → Bytes → Tokens
erase_reverse s token = record s {
  tokens = erase token s.tokens;
  token_indexes = erase token s.token_indexes;
  token_options = erase token s.token_options;
}

unfoldable pub drop_internals : Tokens → List Bytes → Tokens
drop_internals s [] = s
drop_internals s (internal ∷ rest) =
    drop_internals (erase_reverse (close_clients s internal) internal) rest

unfoldable pub drop_connector : Tokens → Bytes → Tokens
drop_connector s token =
    let forgotten : Tokens = record s { cache = forget_channels s.cache token } in
    let quiet : Tokens = close_clients forgotten token in
    record quiet { connector_tokens = without_key token quiet.connector_tokens }

-- The walk over the connector tokens, of which those of the reverse token are dropped.
unfoldable pub drop_connectors_of : Tokens → Bytes → List (Bytes × Bytes) → Tokens
drop_connectors_of s token [] = s
drop_connectors_of s token ((k, rt) ∷ m) =
    let dropped = drop_connectors_of (drop_connector s k) token m in
    let kept = drop_connectors_of s token m in if bytes_eq rt token then dropped else kept

unfoldable pub release_port : Tokens → Option ℕ → Tokens
release_port s none = s
release_port s (some port) = record s {
  socks_tasks = delete s.socks_tasks port;
  pool = put_port s.pool port;
}

unfoldable pub drop_reverse : Tokens → Bytes → Option ℕ → Tokens
drop_reverse s token port =
    let bare = drop_connectors_of s token s.connector_tokens in
    release_port (erase_reverse (close_clients bare token) token) port

unfoldable pub drop_forward : Tokens → Bytes → Tokens
drop_forward s token =
    let quiet : Tokens = close_clients s token in
    record quiet { forward_tokens = erase token quiet.forward_tokens }

unfoldable pub remove_by_kind : Tokens → Bytes → Tokens
remove_by_kind s token =
    if is_some (entry s.connector_tokens token)
    then drop_connector s token
    else elim (s.tokens token) [
      | some port ↦ drop_reverse s token port
      | none ↦ if is_some (s.forward_tokens token) then drop_forward s token else s
    ]

-- `RemoveToken`, which answers true in every case.
unfoldable pub remove_token : Tokens → Bytes → Tokens × Bool
remove_token s token =
    let bare = drop_internals s (names (s.internal_tokens token)) in
    (
      remove_by_kind (record bare { internal_tokens = erase token bare.internal_tokens }) token,
      true,
    )

-- What a token is good for, from `authenticateWebSocketClient`.
pub record Roles : Type 0 where
  pub is_valid_reverse : Bool
  pub is_valid_forward : Bool
  pub is_valid_connector : Bool

unfoldable pub connects : Tokens → Bytes → Bool
connects s token = elim (entry s.connector_tokens token) [
  | none ↦ false
  | some rt ↦ is_some (s.tokens rt)
]

-- The roles of a client that sent an `AuthMessage`. Stored ports are not 0.
unfoldable pub message_roles : Tokens → Bytes → Bool → Roles
message_roles s token reverse = record {
  is_valid_reverse = reverse && is_some (s.tokens token);
  is_valid_forward = not reverse && is_some (s.forward_tokens token);
  is_valid_connector = connects s token && not reverse;
}

-- The roles of a client that gave the hash of its token, and perhaps the `reverse` parameter.
unfoldable pub query_roles : Tokens → Bytes → Option Bool → Roles
query_roles s token reverse =
    let valid_reverse = is_some (s.tokens token) in
    let valid_forward = is_some (s.forward_tokens token) in
    let valid_connector = connects s token in
    let refused = elim reverse as (λ _. Bool) [
      | none ↦ false
      | some r ↦ if r then not valid_reverse else not valid_forward && not valid_connector
    ] in
    record {
      is_valid_reverse = valid_reverse && not refused;
      is_valid_forward = valid_forward && not refused;
      is_valid_connector = valid_connector && not refused;
    }

unfoldable pub admitted : Roles → Bool
admitted r = r.is_valid_reverse || (r.is_valid_forward || r.is_valid_connector)

-- The entries that `registerWebSocketClient` makes for a client.
unfoldable pub register_client : Tokens → Bytes → Uuid → ℕ → Tokens
register_client s internal_token id ws = record s {
  token_clients =
      store internal_token (clients_at (s.token_clients internal_token) ++ ((id, ws) ∷ []))
        s.token_clients;
  clients = store id ws s.clients;
}

unfoldable pub without_client : Uuid → List (Uuid × ℕ) → List (Uuid × ℕ)
without_client id [] = []
without_client id ((k, ws) ∷ l) =
    let rest = without_client id l in if bytes_eq k id then rest else (k, ws) ∷ rest

-- The clients of a token that are left.
unfoldable pub leave_clients : Tokens → Bytes → List (Uuid × ℕ) → Tokens
leave_clients s token [] = record s {
  token_clients = erase token s.token_clients;
  token_indexes = erase token s.token_indexes;
}
leave_clients s token (c ∷ l) = record s { token_clients = store token (c ∷ l) s.token_clients }

-- What `cleanupConnection` does to the entries of a client of a token.
unfoldable pub cleanup_connection : Tokens → Uuid → Bytes → Tokens
cleanup_connection s id token =
    let gone : Tokens = record s { clients = erase id s.clients } in
    if bytes_eq id uuid_nil
    then s
    else if bytes_eq token []
    then gone
    else elim (s.token_clients token) [
      | none ↦ gone
      | some l ↦ leave_clients gone token (without_client id l)
    ]
