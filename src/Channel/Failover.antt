-- ===== src/Channel/Failover.antt =====
-- What happens to a written message when the active link of a channel fails.
use linksocks.Prelude.{
  ℕ, ◌+◌, ◌≡◌, refl, ◌∙◌, Bool, true, false, ◌++◌, none, some, List, [], ◌∷◌, arith, String,
  append_assoc, plain,
}
use linksocks.Prelude.ByteOrder.{codes}
use linksocks.Channel.State.{Channel, Network, Writer, net_write, relay}
use linksocks.Channel.Sending.{
  Outcome, pending_messages, prepare, stamped, next_sequence, put, replay_pending, use_fallback,
  switch_to_fallback, after_fallback, after_write, write_prepared, write_message, is_data,
  is_migrate,
}
use linksocks.Message.Types.{DataMessage, Message, data_message, channel_migrate}
use linksocks.Channel.Replay.{sent_as, net_write-works, replay_pending-works}

-- The notice that the fallback carries before the replayed messages.
abbrev pub migrate_notice : Channel → String → Message
migrate_notice c reason = channel_migrate (record { channel_id = c.id; reason = codes reason })

-- A channel `c` that fell back to `w`, the network it wrote to and no error.
abbrev pub FellBack : Channel → Network → Writer → List (Writer × Message) → Outcome → Type 0
FellBack c n w messages (c', n', e) =
    (c' ≡ record c { writer = some w; path = relay })
    × ((n'.sent ≡ n.sent ++ messages) × (e ≡ none))

module _ (up : ℕ → Writer → Bool) (w : Writer) (works : (i : ℕ) → up i w ≡ true) where
  use_fallback-replays :
      (c : Channel) (n : Network) (reason : String) (n' : Network)
      → c.migration ≡ true
      → net_write up n w (migrate_notice c reason) ≡ (n', none)
      → use_fallback up c n w reason ≡ (
        record c { writer = some w; path = relay },
        (replay_pending up (record c { writer = some w; path = relay }) n').0,
        (replay_pending up (record c { writer = some w; path = relay }) n').1,
      )
  unfolding use_fallback
  use_fallback-replays c n reason n' migrating written =
      rw (written, use_fallback) (ground (arith, migrating))

  use_fallback-works :
      (c : Channel) (n : Network) (reason : String)
      → c.migration ≡ true
      → FellBack c n w
          ((w, migrate_notice c reason) ∷ sent_as w (pending_messages c))
          (use_fallback up c n w reason)
  unfolding pending_messages
  use_fallback-works c n reason migrating =
      let c' : Channel = record c { writer = some w; path = relay } in
      let n' : Network = record {
        sent = n.sent ++ ((w, migrate_notice c reason) ∷ []);
        attempts = n.attempts + 1;
      } in
      let r = replay_pending-works up w works c' n' refl in
      rw
        (use_fallback-replays c n reason n' migrating
          (net_write-works up w works n (migrate_notice c reason)))
        (
          refl,
          (
            r.1
                ∙ append_assoc n.sent ((w, migrate_notice c reason) ∷ [])
                    (sent_as w (pending_messages c)),
            r.0,
          ),
        )

  after_fallback-replayed :
      (m : DataMessage) (p : Channel) (n : Network) (messages : List (Writer × Message))
      (o : Outcome)
      → FellBack p n w messages o
      → FellBack p n w messages (after_fallback up true (data_message m) o)
  unfolding after_fallback is_data
  after_fallback-replayed m p n messages (c', n', none) h = h
  after_fallback-replayed m p n messages (c', n', some e) h = ground arith

  switch_to_fallback-works :
      (c : Channel) (n : Network) (reason : String)
      → c.closed ≡ false
      → c.migration ≡ true
      → c.fallback ≡ some w
      → FellBack c n w
          ((w, migrate_notice c reason) ∷ sent_as w (pending_messages c))
          (switch_to_fallback up c n reason)
  unfolding switch_to_fallback
  switch_to_fallback-works c n reason open_ migrating fallback =
      ground (arith, use_fallback-works c n reason migrating)

  net_write-fails :
      (n : Network) (a : Writer) (m : Message)
      → up n.attempts a ≡ false
      → net_write up n a m ≡ (record n { attempts = n.attempts + 1 }, some (plain "transport down"))
  unfolding net_write
  net_write-fails n a m down = rw (down) refl

  write_prepared-fails_over :
      (p : Channel) (n : Network) (m : DataMessage) (a : Writer)
      → p.closed ≡ false
      → p.migration ≡ true
      → p.writer ≡ some a
      → p.fallback ≡ some w
      → up n.attempts a ≡ false
      → FellBack p n w
          ((w, migrate_notice p "write failure") ∷ sent_as w (pending_messages p))
          (write_prepared up true (p, data_message m) n)
  unfolding write_prepared after_write is_migrate
  write_prepared-fails_over p n m a open_ migrating active fallback down =
      let n' : Network = record n { attempts = n.attempts + 1 } in
      let messages = (w, migrate_notice p "write failure") ∷ sent_as w (pending_messages p) in
      let o = switch_to_fallback up p n' "write failure" in
      simp active (
        rw (net_write-fails n a (data_message m) down) (
          after_fallback-replayed m p n' messages o
            (switch_to_fallback-works p n' "write failure" open_ migrating fallback)))

-- The channel after it numbered and kept a data message.
abbrev pub keeping : Channel → DataMessage → Channel
keeping c m = record c {
  sequence = next_sequence c.sequence;
  pending = put c.pending (next_sequence c.sequence) (stamped c m);
}

prepare-keeping :
    (c : Channel) (m : DataMessage)
    → c.migration ≡ true
    → prepare c (data_message m) ≡ (keeping c m, data_message (stamped c m))
unfolding prepare
prepare-keeping c m migrating = ground (arith, migrating)

-- A data message written to an open migrating channel whose active link fails, while the relay
-- link works, is not lost: the channel moves to the relay link, tells the peer, and sends it
-- every unacknowledged message, this one included, in the order of their numbers; the caller
-- sees no error.
pub write_message-fails_over :
    (up : ℕ → Writer → Bool) (w : Writer)
    → ((i : ℕ) → up i w ≡ true)
    → (c : Channel) (n : Network) (m : DataMessage) (a : Writer) → c.closed ≡ false
    → c.migration ≡ true
    → c.writer ≡ some a
    → c.fallback ≡ some w
    → up n.attempts a ≡ false
    → FellBack
        (keeping c m)
        n
        w
        ((w, migrate_notice c "write failure") ∷ sent_as w (pending_messages (keeping c m)))
        (write_message up c n (some (data_message m)))
unfolding write_message
write_message-fails_over up w works c n m a open_ migrating active fallback down = ground (
  arith,
  prepare-keeping c m migrating,
  write_prepared-fails_over up w works (keeping c m) n (stamped c m) a open_ migrating active
      fallback down,
)
