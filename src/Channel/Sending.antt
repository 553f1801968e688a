-- ===== src/Channel/Sending.antt =====
-- The writing side of `logicalChannel` in linksocks/channel.go.
use linksocks.Prelude.{
  ℕ, ◌+◌, ◌%◌, ◌^◌, Bool, true, false, not, ◌&&◌, Option, none, some, List, [], ◌∷◌, String, Error,
  plain, wrapped, leb, ◌==◌, if◌then◌else◌,
}
use linksocks.Prelude.ByteOrder.{codes, bytes_eq}
use linksocks.Channel.State.{
  Channel, ChannelPath, relay, direct, Network, Writer, net_write, uuid_nil,
}
use linksocks.Message.Types.{Message, DataMessage, data_message, channel_migrate, channel_data_ack}

-- The channel and the network afterwards, and the returned error.
abbrev pub Outcome : Type 0
Outcome = Channel × Network × Option Error

-- `c.pending[seq] = msg`; `delete(c.pending, seq)`. The order of the entries is not used.
unfoldable pub put : List (ℕ × DataMessage) → ℕ → DataMessage → List (ℕ × DataMessage)
put [] k m = (k, m) ∷ []
put ((j, x) ∷ rest) k m = if j == k then (k, m) ∷ rest else (j, x) ∷ put rest k m

unfoldable pub remove : List (ℕ × DataMessage) → ℕ → List (ℕ × DataMessage)
remove [] k = []
remove ((j, x) ∷ l) k = let rest = remove l k in if j == k then rest else (j, x) ∷ rest

-- `sort.Slice(result, …)` by the sequence number.
unfoldable pub insert_sorted : DataMessage → List DataMessage → List DataMessage
insert_sorted m [] = m ∷ []
insert_sorted m (x ∷ rest) =
    if leb m.sequence x.sequence then m ∷ x ∷ rest else x ∷ insert_sorted m rest

unfoldable pub sort_messages : List (ℕ × DataMessage) → List DataMessage
sort_messages [] = []
sort_messages ((k, m) ∷ rest) = insert_sorted m (sort_messages rest)

unfoldable pub pending_messages : Channel → List DataMessage
pending_messages c = sort_messages c.pending

-- The number that the next data message gets; `c.sequence` is a `uint64`.
abbrev pub next_sequence : ℕ → ℕ
next_sequence n = (n + 1) % 2 ^ 64

abbrev pub stamped : Channel → DataMessage → DataMessage
stamped c m = record m {
  channel_id = if bytes_eq m.channel_id uuid_nil then c.id else m.channel_id;
  sequence = next_sequence c.sequence;
}

-- The part of `WriteMessage` under `c.mu`: a data message of a migrating channel is numbered and
-- kept until it is acknowledged.
unfoldable pub prepare : Channel → Message → Channel × Message
prepare c (data_message m) =
    if c.migration
    then (
      record c {
        sequence = next_sequence c.sequence;
        pending = put c.pending (next_sequence c.sequence) (stamped c m);
      },
      data_message (stamped c m),
    )
    else (c, data_message m)
prepare c m = (c, m)

unfoldable pub is_data : Message → Bool
is_data (data_message m) = true
is_data _ = false

unfoldable pub is_migrate : Message → Bool
is_migrate (channel_migrate m) = true
is_migrate _ = false

-- `return &transportDownError{cause: err}`
abbrev pub transport_down : Option Error → Option Error
transport_down none = none
transport_down (some e) = some (wrapped "transport down" e)

module _ (up : ℕ → Writer → Bool) where
  -- The loop of `replayPending`: it stops at the first error.
  unfoldable pub replay : Network → Writer → List DataMessage → Network × Option Error
  replay n w [] = (n, none)
  replay n w (m ∷ rest) =
      let (n', e) = net_write up n w (data_message m) in
      elim e [ some x ↦ (n', some x) | none ↦ replay n' w rest ]

  unfoldable pub replay_pending : Channel → Network → Network × Option Error
  replay_pending c n = elim c.writer [
    | none ↦ (n, some (plain "logical channel: no active writer"))
    | some w ↦ replay n w (pending_messages c)
  ]

  -- `switchToFallback` once the fallback is known.
  unfoldable pub use_fallback : Channel → Network → Writer → String → Outcome
  use_fallback c n w reason =
      let c' = record c { writer = some w; path = relay } in
      if not c.migration
      then (c', n, none)
      else (let notice = channel_migrate (record { channel_id = c.id; reason = codes reason }) in
          let (n', e) = net_write up n w notice in
          elim e [
            | some x ↦ (c', n', some x)
            | none ↦ let (n2, e2) = replay_pending c' n' in (c', n2, e2)
          ])

  unfoldable pub switch_to_fallback : Channel → Network → String → Outcome
  switch_to_fallback c n reason =
      if c.closed then (c, n, some (plain "logical channel: closed")) else elim c.fallback [
        | none ↦ (c, n, some (plain "logical channel: no relay fallback"))
        | some w ↦ use_fallback c n w reason
      ]

  -- After the fallback took over: a numbered message was replayed with the pending ones.
  unfoldable pub after_fallback : Bool → Message → Outcome → Outcome
  after_fallback migration m (c, n, some e) = (c, n, transport_down (some e))
  after_fallback migration m (c, n, none) =
      if is_data m && migration then (c, n, none) else elim c.writer [
        | none ↦ (c, n, some (plain "nil writer"))
        | some w ↦ let (n', e) = net_write up n w m in (c, n', transport_down e)
      ]

  unfoldable pub after_write : Bool → Channel → Message → Network × Option Error → Outcome
  after_write migration c m (n, none) = (c, n, none)
  after_write migration c m (n, some e) =
      if is_migrate m
      then (c, n, some e)
      else after_fallback migration m (switch_to_fallback c n "write failure")

  unfoldable pub write_prepared : Bool → Channel × Message → Network → Outcome
  write_prepared migration (c, m) n = elim c.writer [
    | none ↦ (c, n, some (plain "logical channel: no active writer"))
    | some w ↦ after_write migration c m (net_write up n w m)
  ]

  -- `WriteMessage`; `none` is the nil message.
  unfoldable pub write_message : Channel → Network → Option Message → Outcome
  write_message c n none = (c, n, some (plain "logical channel: nil message"))
  write_message c n (some m) =
      if c.closed
      then (c, n, some (plain "logical channel: closed"))
      else write_prepared c.migration (prepare c m) n

  -- `Switch`; `none` is the nil writer.
  unfoldable pub switch : Channel → Option Writer → ChannelPath → Channel × Option Error
  switch c none path = (c, some (plain "logical channel: nil writer"))
  switch c (some w) path =
      if c.closed
      then (c, some (plain "logical channel: closed"))
      else (record c { writer = some w; path = path }, none)

  unfoldable pub switch_to_direct : Channel → Option Writer → Channel × Option Error
  switch_to_direct c w = switch c w direct

  -- `switchToRelay` once the channel was switched.
  unfoldable pub after_switch : Bool → Network → Channel × Option Error → Outcome
  after_switch migration n (c, some e) = (c, n, some e)
  after_switch migration n (c, none) =
      if not migration then (c, n, none) else let (n', e) = replay_pending c n in (c, n', e)

  unfoldable pub switch_to_relay : Channel → Network → Outcome
  switch_to_relay c n = elim c.fallback [
    | none ↦ (c, n, some (plain "logical channel: no relay fallback"))
    | some w ↦ after_switch c.migration n (switch c (some w) relay)
  ]

  unfoldable pub acknowledge_message : Channel → Network → ℕ → Outcome
  acknowledge_message c n sequence =
      if not c.migration
      then (c, n, none)
      else write_message c n
          (some (channel_data_ack (record { channel_id = c.id; sequence = sequence })))

-- `Close`
unfoldable pub close : Channel → Channel
close c = record c { closed = true; writer = none }
