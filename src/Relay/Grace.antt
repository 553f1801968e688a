-- ===== src/Relay/Grace.antt =====
-- `writeWithTransportGrace` of linksocks/relay.go: a write on a channel is tried again while its
-- link is down and the grace window of the channel lasts. Times are milliseconds.
use linksocks.Prelude.{
  ℕ, zero, suc, ◌+◌, ◌/◌, ◌<◌, ◌≤◌, ◌≡◌, ◌⊎◌, Bool, true, false, not, ◌||◌, none, some, ◌==◌,
  if◌then◌else◌, Error, plain, wrapped, str_eq,
}
use linksocks.Channel.State.{Channel, Network, Writer}
use linksocks.Channel.Sending.{Outcome, write_message}
use linksocks.Channel.Receiving.{suspend, resume, suspended}
use linksocks.Message.Types.{Message}
use linksocks.Secure.Grace.{Written, written, write_failed, out_of_fuel, crashed}

-- What the loop does not decide: whether a link takes a message, how long a try takes that starts
-- at a time, what other goroutines do to the channel up to a time, and whether the context has ended
-- by then.
pub record Surroundings : Type 0 where
  pub up : ℕ → Writer → Bool
  pub took : ℕ → ℕ
  pub others : ℕ → Channel → Channel
  pub ended : ℕ → Bool
  pub grace : ℕ

-- The channel and the network afterwards, when the call ends, and how.
abbrev pub GraceOutcome : Type 0
GraceOutcome = Channel × Network × ℕ × Written

abbrev pub context_ended : Error
context_ended = plain "context canceled"

-- `isTransportDown`: one of the wrapped errors is a `transportDownError`.
unfoldable pub is_transport_down : Error → Bool
is_transport_down (plain text) = false
is_transport_down (wrapped prefix e) =
    let rest = is_transport_down e in if str_eq prefix "transport down" then true else rest

-- A round behind its write, at the time `after`: `again` is the rounds that follow.
unfoldable pub transport_round :
    Surroundings → ℕ → Outcome → (Channel → GraceOutcome) → GraceOutcome
transport_round env after (c1, n, none) again = (resume (env.others after c1), n, after, written)
transport_round env after (c1, n, some e) again =
    let c2 = env.others after c1 in
    let (held, lasts) = suspend c2 after env.grace in
    let later = again (env.others (after + 200) held) in
    if not (is_transport_down e) || (env.grace == 0)
    then (c2, n, after, write_failed e)
    else if not lasts
    then (held, n, after, write_failed e)
    else if env.ended after
    then (resume held, n, after, write_failed context_ended)
    else later

-- The loop from time `now` on.
unfoldable pub transport_loop : Surroundings → Message → ℕ → Channel → Network → ℕ → GraceOutcome
transport_loop env m zero c n now = (c, n, now, out_of_fuel)
transport_loop env m (suc fuel) c n now =
    let after = now + env.took now in
    let o = write_message env.up c n (some m) in
    transport_round env after o (λ c'. transport_loop env m fuel c' o.1 (after + 200))

-- The rounds that are enough when other goroutines leave the suspension alone from the time `calm`
-- on: one for each 200 milliseconds up to it, one for each 200 milliseconds of the window, and four
-- for the ends.
abbrev pub transport_fuel : ℕ → ℕ → ℕ
transport_fuel calm grace = suc (calm / 200) + suc (suc (grace / 200 + 1))

unfoldable pub write_with_transport_grace :
    Surroundings → ℕ → Message → Channel → Network → ℕ → GraceOutcome
write_with_transport_grace env calm m c n now =
    transport_loop env m (transport_fuel calm env.grace) c n now

-- How a write may end: it landed and the channel is not suspended; or it failed, since the context
-- ended, with an error that no link is the reason of, without a window, or after the window.
abbrev pub Settles : Surroundings → GraceOutcome → Type 0
Settles env (c, n, t, out_of_fuel) = ⊥
Settles env (c, n, t, crashed) = ⊥
Settles env (c, n, t, written) = suspended c ≡ false
Settles env (c, n, t, write_failed e) =
    ((e ≡ context_ended) × (suspended c ≡ false))
    ⊎ ((is_transport_down e ≡ false)
        ⊎ ((env.grace ≡ 0)
            ⊎ ((since : ℕ) × ((c.suspend_since ≡ some since) × (since + env.grace < t)))))

-- A suspension lies in the past.
abbrev pub IsPast : ℕ → Channel → Type 0
IsPast t c = (since : ℕ) → c.suspend_since ≡ some since → since ≤ t

-- Other goroutines suspend a channel at the current time, as `suspend` does, or earlier.
abbrev pub IsSane : Surroundings → Type 0
IsSane env = (t : ℕ) (c : Channel) → IsPast t c → IsPast t (env.others t c)

-- From a time on, other goroutines neither suspend nor resume the channel.
abbrev pub IsCalm : Surroundings → ℕ → Type 0
IsCalm env calm =
    (t : ℕ) (c : Channel) → calm ≤ t → (env.others t c).suspend_since ≡ c.suspend_since
