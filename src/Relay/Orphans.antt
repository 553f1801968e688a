-- ===== src/Relay/Orphans.antt =====
-- The buffers of linksocks/relay.go for data whose channel is not bound yet. A call holds the
-- relay's lock and is one step; the firing of a timer is a call of `expire_orphan_data`.
use linksocks.Prelude.{ℕ, Option, none, some, List, [], ◌∷◌, ◌++◌, length, ltb, if◌then◌else◌}
use linksocks.Prelude.Table.{Table, store, erase, empty_table}
use linksocks.Message.Types.{DataMessage, Uuid}

abbrev pub orphan_data_queue_size : ℕ
orphan_data_queue_size = 1000

-- The relay's `orphanData`: the queue of each channel that has one.
abbrev pub Buffers : Type 0
Buffers = Table (List DataMessage)

abbrev pub no_buffers : Buffers
no_buffers = empty_table

-- A non-blocking send to a channel of this capacity: what is queued behind it.
unfoldable pub offer : ℕ → List DataMessage → DataMessage → List DataMessage
offer capacity q m = if ltb (length q) capacity then q ++ (m ∷ []) else q

-- The queue of a channel, which is made when there is none.
abbrev pub queue_or_new : Option (List DataMessage) → List DataMessage
queue_or_new none = []
queue_or_new (some q) = q

unfoldable pub buffer_orphan_data : Buffers → DataMessage → Buffers
buffer_orphan_data t m =
    store m.channel_id (offer orphan_data_queue_size (queue_or_new (t m.channel_id)) m) t

-- The loop of `flushOrphanData`: it stops at the first message that finds the queue full.
unfoldable pub move_queued : ℕ → List DataMessage → List DataMessage → List DataMessage
move_queued capacity messages [] = messages
move_queued capacity messages (m ∷ q) =
    let rest = move_queued capacity (messages ++ (m ∷ [])) q in
    if ltb (length messages) capacity then rest else messages

-- The buffers, and the message queue of the channel, of this capacity.
unfoldable pub flush_orphan_data :
    Buffers → Uuid → ℕ → List DataMessage → Buffers × List DataMessage
flush_orphan_data t id capacity messages = elim (t id) [
  | none ↦ (t, messages)
  | some q ↦ (erase id t, move_queued capacity messages q)
]

unfoldable pub expire_orphan_data : Buffers → Uuid → Buffers
expire_orphan_data t id = elim (t id) [ none ↦ t | some q ↦ erase id t ]
