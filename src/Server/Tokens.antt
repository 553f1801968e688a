-- ===== src/Server/Tokens.antt =====
-- The tokens of linksocks/server.go: how they are added. Forward tokens are a set, reverse tokens
-- have a port, connector tokens have the reverse token that they forward to.
use linksocks.Prelude.{
  ℕ, ◌==◌, Bool, false, ◌||◌, Option, none, some, List, [], ◌∷◌, ◌++◌, Bytes, if◌then◌else◌, Result,
  ok, err, panic, plain,
}
use linksocks.Prelude.ByteOrder.{bytes_eq, codes}
use linksocks.Prelude.Table.{Table, store, is_some, empty_table}
use linksocks.Message.Types.{Uuid}
use linksocks.PortPool.Pool.{PortPool, get}
use linksocks.Server.Cache.{Cache, new_connector_cache}

-- `port` is 0 when the pool is to choose.
pub record ReverseTokenOptions : Type 0 where
  pub token : Bytes
  pub port : ℕ
  pub allow_manage_connector : Bool

-- A reverse token without a port, which the code writes as port -1, has `none`. `clients` and
-- `token_clients` name links by numbers, and `closed` lists the links that were closed.
pub record Tokens : Type 0 where
  pub forward_tokens : Table (Unit {0})
  pub tokens : Table (Option ℕ)
  pub connector_tokens : List (Bytes × Bytes)
  pub token_options : Table ReverseTokenOptions
  pub sha256_token_map : Table Bytes
  pub internal_tokens : Table (List Bytes)
  pub token_indexes : Table ℕ
  pub clients : Table ℕ
  pub token_clients : Table (List (Uuid × ℕ))
  pub socks_tasks : List ℕ
  pub pool : PortPool
  pub cache : Cache
  pub closed : List ℕ

unfoldable pub new_tokens : PortPool → Tokens
new_tokens pool = record {
  forward_tokens = empty_table;
  tokens = empty_table;
  connector_tokens = [];
  token_options = empty_table;
  sha256_token_map = empty_table;
  internal_tokens = empty_table;
  token_indexes = empty_table;
  clients = empty_table;
  token_clients = empty_table;
  socks_tasks = [];
  pool = pool;
  cache = new_connector_cache;
  closed = [];
}

-- `m[key]` of a map that is walked: its entries, each key once.
unfoldable pub entry : List (Bytes × Bytes) → Bytes → Option Bytes
entry [] key = none
entry ((k, v) ∷ m) key = let rest = entry m key in if bytes_eq k key then some v else rest

unfoldable pub without_key : Bytes → List (Bytes × Bytes) → List (Bytes × Bytes)
without_key key [] = []
without_key key ((k, v) ∷ m) =
    let rest = without_key key m in if bytes_eq k key then rest else (k, v) ∷ rest

unfoldable pub token_exists : Tokens → Bytes → Bool
token_exists s token =
    is_some (s.forward_tokens token)
    || (is_some (s.tokens token) || is_some (entry s.connector_tokens token))

abbrev pub reserved : Bytes → Bool
reserved token = bytes_eq token (codes "anonymous")

-- A given token that exists already.
unfoldable pub not_new : Tokens → Bytes → Bool
not_new s token = if bytes_eq token [] then false else token_exists s token

unfoldable pub names : Option (List Bytes) → List Bytes
names none = []
names (some l) = l

-- The given token, or a generated one.
abbrev pub or_generated : Bytes → Bytes → Bytes
or_generated token generated = if bytes_eq token [] then generated else token

-- The port from the pool, and the token stored with it.
unfoldable pub with_port :
    Tokens
    → ReverseTokenOptions
    → Bytes
    → Result (PortPool × ℕ)
    → Tokens × Result (Bytes × Option ℕ)
with_port s opts token (ok (pool, port)) =
    if port == 0 then (record s { pool = pool }, err (plain "cannot allocate port")) else (
      record s {
        pool = pool;
        tokens = store token (some port) s.tokens;
        token_options = store token opts s.token_options;
      },
      ok (token, some port),
    )
with_port s opts token (err e) = (s, err e)
with_port s opts token panic = (s, panic)

unfoldable pub store_reverse :
    Tokens → ReverseTokenOptions → Bytes → ℕ → Tokens × Result (Bytes × Option ℕ)
store_reverse s opts token start =
    if opts.allow_manage_connector
    then (
      record s {
        tokens = store token none s.tokens;
        token_options = store token opts s.token_options;
      },
      ok (token, none),
    )
    else elim (s.tokens token) [
      | some existing_port ↦ (s, ok (token, existing_port))
      | none ↦ with_port s opts token (get s.pool opts.port start)
    ]

-- The packages outside: `generateRandomToken`, from what the random source gives, and the hex form
-- of SHA-256.
module _ (sha256_hex : Bytes → Bytes) where
  unfoldable pub note_hash : Tokens → Bytes → Tokens
  note_hash s token = record s {
    sha256_token_map = store (sha256_hex token) token s.sha256_token_map;
  }

  -- `AddReverseToken`; `start` is the random start of the pool's search. The SOCKS server that it
  -- may start is not part of the state. `tokenExists` looks at the server under its own lock, which
  -- it gives back: it sees `checked`, and the rest is done on `s`, what the server has become when the
  -- lock is taken again.
  unfoldable pub add_reverse_token :
      Tokens → Tokens → ReverseTokenOptions → Bytes → ℕ → Tokens × Result (Bytes × Option ℕ)
  add_reverse_token checked s opts generated start =
      if reserved opts.token
      then (s, err (plain "'anonymous' is reserved and cannot be used as a token"))
      else if not_new checked opts.token
      then (s, err (plain "token already exists"))
      else let token = or_generated opts.token generated in
        store_reverse (note_hash s token) opts token start

  -- `AddForwardToken`, with the same two looks at the server.
  unfoldable pub add_forward_token : Tokens → Tokens → Bytes → Bytes → Tokens × Result Bytes
  add_forward_token checked s given_token generated =
      if reserved given_token
      then (s, err (plain "'anonymous' is reserved and cannot be used as a token"))
      else if not_new checked given_token
      then (s, err (plain "token already exists"))
      else let token = or_generated given_token generated in
        let noted : Tokens = note_hash s token in
        (record noted { forward_tokens = store token tt noted.forward_tokens }, ok token)

  unfoldable pub store_connector : Tokens → Bytes → Bytes → Tokens × Result Bytes
  store_connector s token reverse_token = elim (entry s.connector_tokens token) [
    | some rt ↦
        if bytes_eq rt reverse_token
        then (s, ok token)
        else (s, err (plain "connector token already exists"))
    | none ↦
        if is_some (s.forward_tokens token) || is_some (s.tokens token)
        then (s, err (plain "connector token already exists"))
        else let noted : Tokens = note_hash s token in
          (
            record noted { connector_tokens = (token, reverse_token) ∷ noted.connector_tokens },
            ok token,
          )
  ]

  unfoldable pub add_connector_token : Tokens → Bytes → Bytes → Bytes → Tokens × Result Bytes
  add_connector_token s given_token reverse_token generated =
      if reserved given_token
      then (s, err (plain "'anonymous' is reserved and cannot be used as a connector token"))
      else if is_some (s.tokens reverse_token)
      then store_connector s (or_generated given_token generated) reverse_token
      else (s, err (plain "reverse token does not exist"))

-- The internal token of an autonomy client, from `authenticateWebSocketClient`.
unfoldable pub admit_internal : Tokens → Bytes → Bytes → ReverseTokenOptions → Tokens
admit_internal s token internal opts = record s {
  token_indexes = store internal 0 s.token_indexes;
  token_options = store internal opts s.token_options;
  tokens = store internal none s.tokens;
  internal_tokens =
      store token (names (s.internal_tokens token) ++ (internal ∷ [])) s.internal_tokens;
}
