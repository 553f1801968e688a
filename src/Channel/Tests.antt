-- ===== src/Channel/Tests.antt =====
-- Channels and links on which the theorems on linksocks/channel.go are run.
use linksocks.Prelude.{
  ℕ, ◌+◌, ◌≡◌, Bool, true, false, none, some, List, [], ◌∷◌, refl, ◌==◌, not, arith, drop, length,
}
use linksocks.Channel.State.{Channel, direct, Network, Writer}
use linksocks.Channel.Sending.{
  write_message, switch_to_fallback, switch_to_relay, pending_messages, close,
}
use linksocks.Channel.Receiving.{accept_data, can_resume}
use linksocks.Channel.Order.{accept_all, Consecutive, accept_all-Consecutive, accept_all-replay}
use linksocks.Channel.Pending.{find, find-write_message}
use linksocks.Channel.Failover.{FellBack, keeping, migrate_notice, write_message-fails_over}
use linksocks.Channel.Replay.{sent_as, IsOrdered, values, pending_messages-sorts}
use mathlib.Core.List.{Perm}
use linksocks.Channel.Closed.{Refused, close-Refused}
use linksocks.Message.Types.{DataMessage, data_message}

abbrev piece_of : ℕ → ℕ → DataMessage
piece_of sequence byte = record {
  protocol = "tcp";
  channel_id = 7 ∷ [];
  payload = byte ∷ [];
  compression = 0;
  address = [];
  port = 0;
  target_addr = [];
  target_port = 0;
  sequence = sequence;
}

-- A channel on the direct link 1 with the relay link 0 behind it.
abbrev tunnel : Channel
tunnel = record {
  id = 7 ∷ [];
  protocol = "tcp";
  path = direct;
  writer = some 1;
  fallback = some 0;
  request = record {
    protocol = "tcp";
    address = [];
    port = 0;
    channel_id = 7 ∷ [];
    resume = false;
  };
  resume_owner = true;
  migration = true;
  sequence = 1;
  received = 2;
  pending = (1, piece_of 1 65) ∷ [];
  closed = false;
  suspend_since = none;
}

-- Link 1 is dead and every other works.
abbrev only_relay : ℕ → Writer → Bool
only_relay i w = not (w == 1)

abbrev quiet : Network
quiet = record { sent = []; attempts = 0 }

-- Numbers 3, 3 again, 9 and 4 arrive after 2.
abbrev arrivals : List DataMessage
arrivals = piece_of 3 1 ∷ piece_of 3 1 ∷ piece_of 9 2 ∷ piece_of 4 3 ∷ []

accepts_two : (accept_all tunnel arrivals).1 ≡ piece_of 3 1 ∷ piece_of 4 3 ∷ []
unfolding accept_all accept_data
accepts_two = refl

accept_all-Consecutive_example :
    Consecutive 2 (accept_all tunnel arrivals).1
    × ((accept_all tunnel arrivals).0.received ≡ 2 + length (accept_all tunnel arrivals).1)
accept_all-Consecutive_example =
    accept_all-Consecutive tunnel arrivals
      (
        (omega arith, omega arith),
        (
          (omega arith, omega arith),
          ((omega arith, omega arith), ((omega arith, omega arith), tt)),
        ),
      )
      (omega arith)

accept_all-replay_example :
    (accept_all tunnel (piece_of 1 1 ∷ piece_of 2 2 ∷ piece_of 3 3 ∷ [])).1
    ≡ drop 2 (piece_of 1 1 ∷ piece_of 2 2 ∷ piece_of 3 3 ∷ [])
accept_all-replay_example =
    accept_all-replay tunnel 0 (piece_of 1 1 ∷ piece_of 2 2 ∷ piece_of 3 3 ∷ [])
      (refl, (refl, (refl, tt))) (omega arith) (omega arith)

accepts_next : (accept_data tunnel (piece_of 3 1)).1 ≡ true
unfolding accept_data
accepts_next = refl

find-write_message_example :
    find (write_message only_relay tunnel quiet (some (data_message (piece_of 0 66)))).0.pending 2
    ≡ some (piece_of 2 66)
find-write_message_example = find-write_message only_relay tunnel quiet (piece_of 0 66) 2 refl refl

relay_works : (i : ℕ) → only_relay i 0 ≡ true
relay_works i = refl

write_message-fails_over_example :
    FellBack
      (keeping tunnel (piece_of 0 66))
      quiet
      0
      ((0, migrate_notice tunnel "write failure")
        ∷ sent_as 0 (pending_messages (keeping tunnel (piece_of 0 66))))
      (write_message only_relay tunnel quiet (some (data_message (piece_of 0 66))))
write_message-fails_over_example =
    write_message-fails_over only_relay 0 relay_works tunnel quiet (piece_of 0 66) 1 refl refl refl
      refl refl

close-Refused_example :
    Refused (close tunnel) quiet (write_message only_relay (close tunnel) quiet none)
    × (Refused (close tunnel) quiet (switch_to_fallback only_relay (close tunnel) quiet "timeout")
        × (Refused (close tunnel) quiet (switch_to_relay only_relay (close tunnel) quiet)
            × (can_resume (close tunnel) ≡ false)))
close-Refused_example = close-Refused only_relay tunnel quiet none "timeout"

pending_messages-sorts_example :
    IsOrdered (pending_messages tunnel) × Perm (pending_messages tunnel) (values tunnel.pending)
pending_messages-sorts_example = pending_messages-sorts tunnel
