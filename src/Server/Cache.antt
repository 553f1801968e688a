-- ===== src/Server/Cache.antt =====
-- `connectorCache` of linksocks/server.go: which links a channel is bound to, and the messages that
-- wait for a link. A link is named by a number. Each function is what the code does under the
-- cache's lock; a queue that is deleted is closed.
use linksocks.Prelude.{
  ℕ, suc, ◌==◌, Bool, true, false, ◌||◌, Option, none, some, List, [], ◌∷◌, ◌++◌, Bytes,
  if◌then◌else◌, ltb, length,
}
use linksocks.Prelude.ByteOrder.{bytes_eq, codes}
use linksocks.Prelude.Table.{Table, store, erase, is_some, empty_table}
use linksocks.Relay.Orphans.{orphan_data_queue_size}
use linksocks.Message.Types.{Uuid, Message, disconnect}

pub record Cache : Type 0 where
  pub channel_to_client : Table ℕ
  pub channel_to_connector : Table ℕ
  pub orphan_queues : Table (List Message)
  pub return_queues : Table (List Message)
  pub token_cache : Table (List Uuid)
  pub pump_active : Table (Unit {0})

unfoldable pub new_connector_cache : Cache
new_connector_cache = record {
  channel_to_client = empty_table;
  channel_to_connector = empty_table;
  orphan_queues = empty_table;
  return_queues = empty_table;
  token_cache = empty_table;
  pump_active = empty_table;
}

-- The non-blocking send: a full queue drops the message.
unfoldable pub try_send : List Message → Message → List Message
try_send q m = if ltb (length q) orphan_data_queue_size then q ++ (m ∷ []) else q

unfoldable pub try_send_all : List Message → List Message → List Message
try_send_all q [] = q
try_send_all q (m ∷ ms) = try_send_all (try_send q m) ms

-- A queue that is made when it is missing.
unfoldable pub queue_of : Option (List Message) → List Message
queue_of none = []
queue_of (some q) = q

unfoldable pub reserve_orphan_queue : Cache → Uuid → Cache
reserve_orphan_queue c id = record c {
  orphan_queues = store id (queue_of (c.orphan_queues id)) c.orphan_queues;
}

unfoldable pub buffer_orphan_payload : Cache → Uuid → Message → Cache
buffer_orphan_payload c id m = record c {
  orphan_queues = store id (try_send (queue_of (c.orphan_queues id)) m) c.orphan_queues;
}

-- The timer of an orphan queue.
unfoldable pub expire_orphan_data : Cache → Uuid → Cache
expire_orphan_data c id =
    if is_some (c.channel_to_client id)
    then c
    else record c { orphan_queues = erase id c.orphan_queues }

unfoldable pub buffer_connector_return : Cache → Uuid → Message → Cache
buffer_connector_return c id m = record c {
  return_queues = store id (try_send (queue_of (c.return_queues id)) m) c.return_queues;
}

unfoldable pub expire_connector_return : Cache → Uuid → Cache
expire_connector_return c id =
    if is_some (c.channel_to_connector id)
    then c
    else record c { return_queues = erase id c.return_queues }

unfoldable pub cleanup_connector_channel : Cache → Uuid → Cache
cleanup_connector_channel c id = record c {
  channel_to_client = erase id c.channel_to_client;
  channel_to_connector = erase id c.channel_to_connector;
  orphan_queues = erase id c.orphan_queues;
  return_queues = erase id c.return_queues;
}

unfoldable pub pump_queue_alive : Cache → Uuid → Bool
pump_queue_alive c id = is_some (c.orphan_queues id)

-- `routeConnectorPayload`, for data and for sealed frames, with what it writes to a link.
unfoldable pub route_connector_payload : Cache → Uuid → Message → Cache × List (ℕ × Message)
route_connector_payload c id m = elim (c.orphan_queues id) [
  | some q ↦ (record c { orphan_queues = store id (try_send q m) c.orphan_queues }, [])
  | none ↦ elim (c.channel_to_client id) [
    | some target ↦ (c, (target, m) ∷ [])
    | none ↦ (buffer_orphan_payload c id m, [])
  ]
]

-- The first part of `drainConnectorReturn`: the messages that wait, taken out of their queue.
unfoldable pub take_returns : Cache → Uuid → Cache × List Message
take_returns c id = elim (c.return_queues id) [
  | none ↦ (c, [])
  | some q ↦ (record c { return_queues = store id [] c.return_queues }, q)
]

-- Its writes, up to the first one that fails: what was written, and what was not. Whether the
-- `i`-th write succeeds is the choice of the environment.
unfoldable pub write_returns : (ℕ → Bool) → ℕ → List Message → List Message × List Message
write_returns up i [] = ([], [])
write_returns up i (m ∷ ms) =
    let (sent, left) = write_returns up (suc i) ms in
    if up i then (m ∷ sent, left) else ([], m ∷ ms)

-- Its end after a failed write: what was not written goes ahead of what arrived meanwhile.
unfoldable pub put_back : Cache → Uuid → List Message → Cache
put_back c id [] = c
put_back c id (m ∷ ms) = elim (c.return_queues id) [
  | none ↦ c
  | some q ↦ record c { return_queues = store id (try_send_all [] ((m ∷ ms) ++ q)) c.return_queues }
]

-- `drainConnectorReturn`; `meanwhile` is what others do to the cache during its writes.
unfoldable pub drain_connector_return :
    Cache → Uuid → (ℕ → Bool) → (Cache → Cache) → Cache × List Message
drain_connector_return c id up meanwhile =
    let (taken, pending) = take_returns c id in
    let (sent, left) = write_returns up 0 pending in (put_back (meanwhile taken) id left, sent)

unfoldable pub contains_channel_id : List Uuid → Uuid → Bool
contains_channel_id [] id = false
contains_channel_id (x ∷ ids) id =
    let rest = contains_channel_id ids id in if bytes_eq x id then true else rest

unfoldable pub ids_of : Option (List Uuid) → List Uuid
ids_of none = []
ids_of (some ids) = ids

unfoldable pub remember : Cache → Bytes → Uuid → Cache
remember c token id =
    if contains_channel_id (ids_of (c.token_cache token)) id then c else record c {
      token_cache = store token (ids_of (c.token_cache token) ++ (id ∷ [])) c.token_cache;
    }

unfoldable pub owns : Option ℕ → ℕ → Bool
owns none ws = true
owns (some cur) ws = cur == ws

-- The pump publishes its mapping: the connector side only when no other link claimed it.
unfoldable pub publish_binding : Cache → Uuid → Bytes → ℕ → ℕ → Cache
publish_binding c id reverse_token ws reverse_ws =
    let c1 : Cache =
      if owns (c.channel_to_connector id) ws
      then record c { channel_to_connector = store id ws c.channel_to_connector }
      else c in
    let c2 : Cache = record c1 { channel_to_client = store id reverse_ws c1.channel_to_client } in
    reserve_orphan_queue (remember c2 reverse_token id) id

-- The start of a pump: whether it runs, or only rebinds a channel that already has one.
unfoldable pub start_pump : Cache → Uuid → Bool → ℕ → Cache × Bool
start_pump c id resume ws =
    if is_some (c.pump_active id)
    then (
      if resume then record c { channel_to_connector = store id ws c.channel_to_connector } else c,
      false,
    )
    else (record c { pump_active = store id tt c.pump_active }, true)

-- The end of a pump: its deferred calls.
unfoldable pub end_pump : Cache → Uuid → Cache
end_pump c id = cleanup_connector_channel (record c { pump_active = erase id c.pump_active }) id

-- `forwardChannelControl`: the link that a control message of a channel is forwarded to.
unfoldable pub points_at : Option ℕ → ℕ → Bool
points_at none ws = false
points_at (some cur) ws = cur == ws

unfoldable pub control_target : Cache → Uuid → ℕ → Option ℕ
control_target c id source =
    let connector = c.channel_to_connector id in
    let client = c.channel_to_client id in
    let target : Option ℕ =
      if points_at connector source
      then client
      else if points_at client source
      then connector
      else if is_some connector
      then connector
      else client in
    if points_at target source then none else target

-- `rebindConnectorChannels` at one channel of the token: `dead cur` is a link that is not online
-- or is stale. It answers whether the channel moved, and then its returns are drained.
unfoldable pub rebind_channel : Cache → (ℕ → Bool) → ℕ → Uuid → Cache × Bool
rebind_channel c dead ws id = elim (c.channel_to_connector id) [
  | none ↦ (c, false)
  | some cur ↦
      if dead cur
      then (record c { channel_to_connector = store id ws c.channel_to_connector }, true)
      else (c, false)
]

-- `stillDead` of the timer of `scheduleChannelGraceCleanup`, and its `peer`.
unfoldable pub still_dead : Cache → ℕ → Uuid → Bool
still_dead c ws id =
    points_at (c.channel_to_connector id) ws || points_at (c.channel_to_client id) ws

unfoldable pub expiry_peer : Cache → Uuid → Option ℕ
expiry_peer c id = elim (c.channel_to_connector id) [
  | some p ↦ some p
  | none ↦ c.channel_to_client id
]

unfoldable pub expiry_notices : Option ℕ → Uuid → List (ℕ × Message)
expiry_notices none id = []
expiry_notices (some p) id =
    (p, disconnect (record { channel_id = id; error = codes "peer link expired" })) ∷ []

-- The timer for one channel of the departed link `ws`, with what it writes. It looks at the cache,
-- writes without the lock and cleans up under it again; `meanwhile` is what others do in between.
unfoldable pub expire_channel : Cache → ℕ → Uuid → (Cache → Cache) → Cache × List (ℕ × Message)
expire_channel c ws id meanwhile =
    if still_dead c ws id
    then (cleanup_connector_channel (meanwhile c) id, expiry_notices (expiry_peer c id) id)
    else (c, [])
