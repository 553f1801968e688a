-- ===== src/Channel/Closed.antt =====
-- What a closed channel of linksocks/channel.go still does.
use linksocks.Prelude.{ℕ, Bool, false, Option, none, ◌≡◌, arith, String}
use linksocks.Channel.State.{Channel, Network, Writer}
use linksocks.Channel.Sending.{
  Outcome, write_message, switch, switch_to_relay, after_switch, switch_to_fallback, close,
}
use linksocks.Channel.Receiving.{can_resume}
use linksocks.Message.Types.{Message}

-- The call did nothing and says so.
abbrev pub Refused : Channel → Network → Outcome → Type 0
Refused c n (c', n', e) = (c' ≡ c) × ((n' ≡ n) × ¬ (e ≡ none))

-- A closed channel refuses to write, to fall back and to switch to the relay, sends nothing on
-- any link, and cannot be resumed.
pub close-Refused :
    (up : ℕ → Writer → Bool) (c : Channel) (n : Network) (m : Option Message) (reason : String)
    → Refused (close c) n (write_message up (close c) n m)
      × (Refused (close c) n (switch_to_fallback up (close c) n reason)
          × (Refused (close c) n (switch_to_relay up (close c) n) × (can_resume (close c) ≡ false)))
unfolding write_message switch_to_fallback switch_to_relay after_switch switch can_resume close
close-Refused up c n m reason = ground arith
