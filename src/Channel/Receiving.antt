-- ===== src/Channel/Receiving.antt =====
-- The receiving side of `logicalChannel` in linksocks/channel.go, its flags and its grace window.
use linksocks.Prelude.{
  ℕ, ◌+◌, ◌-◌, ◌%◌, ◌^◌, Bool, true, false, not, ◌&&◌, none, some, leb, ◌==◌, if◌then◌else◌,
}
use linksocks.Prelude.ByteOrder.{bytes_eq}
use linksocks.Channel.State.{Channel, uuid_nil}
use linksocks.Channel.Sending.{remove}
use linksocks.Message.Types.{DataMessage, ConnectMessage}

unfoldable pub accept_data : Channel → DataMessage → Channel × Bool
accept_data c m =
    if m.sequence == 0
    then (c, true)
    else if leb m.sequence c.received
    then (c, false)
    else if not (m.sequence == ((c.received + 1) % 2 ^ 64))
    then (c, false)
    else (record c { received = m.sequence }, true)

unfoldable pub reject_data : Channel → ℕ → Channel
reject_data c sequence =
    if sequence == 0
    then c
    else if c.received == sequence
    then record c { received = sequence - 1 }
    else c

unfoldable pub is_duplicate : Channel → ℕ → Bool
is_duplicate c sequence = if sequence == 0 then false else leb sequence c.received

unfoldable pub acknowledge : Channel → ℕ → Channel
acknowledge c sequence = record c { pending = remove c.pending sequence }

unfoldable pub set_request : Channel → ConnectMessage → Channel
set_request c request = record c { request = request }

unfoldable pub mark_resume_owner : Channel → Channel
mark_resume_owner c = record c { resume_owner = true }

unfoldable pub enable_migration : Channel → Bool → Channel
enable_migration c enabled = record c { migration = enabled }

unfoldable pub can_resume : Channel → Bool
can_resume c = c.resume_owner && (not (bytes_eq c.request.channel_id uuid_nil) && not c.closed)

-- `now.Sub(c.suspendSince) <= grace`
within : ℕ → ℕ → ℕ → Bool
within since now grace = leb now (since + grace)

-- `suspend` at time `now`.
unfoldable pub suspend : Channel → ℕ → ℕ → Channel × Bool
unfolding within
suspend c now grace = elim c.suspend_since [
  | none ↦ (record c { suspend_since = some now }, within now now grace)
  | some since ↦ (c, within since now grace)
]

unfoldable pub resume : Channel → Channel
resume c = record c { suspend_since = none }

unfoldable pub suspended : Channel → Bool
suspended c = elim c.suspend_since [ none ↦ false | some t ↦ true ]
