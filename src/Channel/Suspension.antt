-- ===== src/Channel/Suspension.antt =====
-- What the calls of linksocks/channel.go do to the suspension of a channel.
use linksocks.Prelude.{
  ℕ, ◌+◌, ◌<◌, ◌≡◌, inl, inr, refl, ◌∙◌, Bool, false, Option, none, some, arith, Option-cases,
  if_ind, Error, String,
}
use linksocks.Channel.State.{Channel, Network, Writer, net_write}
use linksocks.Message.Types.{Message, data_message}
use linksocks.Channel.Sending.{
  Outcome, prepare, is_migrate, use_fallback, switch_to_fallback, after_fallback, after_write,
  write_prepared, write_message,
}
use linksocks.Channel.Receiving.{suspend}
use linksocks.Channel.Grace.{suspend-again, suspend-first}

-- The suspension is what it was.
abbrev pub HoldsSince : Option ℕ → Outcome → Type 0
HoldsSince since o = o.0.suspend_since ≡ since

prepare-suspend_since :
    (c : Channel) (m : Message) → (prepare c m).0.suspend_since ≡ c.suspend_since
unfolding prepare
prepare-suspend_since c (data_message m) = ground arith
prepare-suspend_since c m = refl

use_fallback-HoldsSince :
    (up : ℕ → Writer → Bool) (c : Channel) (n : Network) (w : Writer) (reason : String)
    → HoldsSince c.suspend_since (use_fallback up c n w reason)
unfolding use_fallback net_write
use_fallback-HoldsSince up c n w reason = ground arith

switch_to_fallback-HoldsSince :
    (up : ℕ → Writer → Bool) (c : Channel) (n : Network) (reason : String)
    → HoldsSince c.suspend_since (switch_to_fallback up c n reason)
unfolding switch_to_fallback
switch_to_fallback-HoldsSince up c n reason =
    if_ind (HoldsSince c.suspend_since) c.closed refl (elim (Option-cases c.fallback) [
      | inl e ↦ rw e refl
      | inr (w, e) ↦ rw e (use_fallback-HoldsSince up c n w reason)
    ])

after_fallback-HoldsSince :
    (up : ℕ → Writer → Bool) (since : Option ℕ) (migration : Bool) (m : Message) (o : Outcome)
    → HoldsSince since o
    → HoldsSince since (after_fallback up migration m o)
unfolding after_fallback
after_fallback-HoldsSince up since migration m (c, n, some e) h = h
after_fallback-HoldsSince up since migration m (c, n, none) h = ground (arith, h)

after_write-HoldsSince :
    (up : ℕ → Writer → Bool) (migration : Bool) (c : Channel) (m : Message)
    (r : Network × Option Error)
    → HoldsSince c.suspend_since (after_write up migration c m r)
unfolding after_write
after_write-HoldsSince up migration c m (n, none) = refl
after_write-HoldsSince up migration c m (n, some e) =
    if_ind (HoldsSince c.suspend_since) (is_migrate m) refl (
      after_fallback-HoldsSince up c.suspend_since migration m
        (switch_to_fallback up c n "write failure")
        (switch_to_fallback-HoldsSince up c n "write failure"))

write_prepared-HoldsSince :
    (up : ℕ → Writer → Bool) (migration : Bool) (p : Channel × Message) (n : Network)
    → HoldsSince p.0.suspend_since (write_prepared up migration p n)
unfolding write_prepared
write_prepared-HoldsSince up migration (c, m) n = elim (Option-cases c.writer) [
  | inl e ↦ ground (arith, e)
  | inr (w, e) ↦ ground (arith, e, after_write-HoldsSince up migration c m (net_write up n w m))
]

-- Writing a message neither suspends the channel nor resumes it.
pub write_message-HoldsSince :
    (up : ℕ → Writer → Bool) (c : Channel) (n : Network) (m : Message)
    → HoldsSince c.suspend_since (write_message up c n (some m))
unfolding write_message
write_message-HoldsSince up c n m =
    if_ind (HoldsSince c.suspend_since) c.closed refl
      (write_prepared-HoldsSince up c.migration (prepare c m) n ∙ prepare-suspend_since c m)

-- A suspension that does not last any more began too long ago.
pub suspend-late :
    (c : Channel) (now grace : ℕ)
    → (suspend c now grace).1 ≡ false
    → (since : ℕ) × (((suspend c now grace).0.suspend_since ≡ some since) × (since + grace < now))
suspend-late c now grace late = elim (Option-cases c.suspend_since) [
  | inl e ↦ absurd (ground (arith, late, suspend-first c now grace e))
  | inr (since, e) ↦
      let again = suspend-again c since now grace e in
      (since, (rw again e, ground (arith, late, again)))
]
