-- ===== src/Secure/Grace.antt =====
-- `writeWithGrace` of linksocks/secure_channel.go: a write is tried again while its link is down
-- and the grace window lasts. Times are milliseconds. What the link does with a try, how long the
-- try takes, and whether the session or the relay ended by the end of a wait is the choice of the
-- environment.
use linksocks.Prelude.{
  ℕ, zero, suc, ◌+◌, ◌*◌, ◌/◌, ◌<◌, Bool, ◌||◌, ltb, ◌==◌, if◌then◌else◌, Error, plain, wrapped,
  arith,
}

-- `down e` is an error for which `isTransportDown` holds.
pub data Attempt : Type 0 where
  landed : Attempt
  down broken : Error → Attempt

pub record Environment : Type 0 where
  pub attempt : ℕ → Attempt
  pub took : ℕ → ℕ
  pub ended : ℕ → Bool
  pub grace : ℕ

-- How a write ended; `crashed` is a panic.
pub data Written : Type 0 where
  written out_of_fuel crashed : Written
  write_failed : Error → Written

abbrev pub session_closed : Error
session_closed = plain "secure channel: session closed"

-- The loop from time `now` on: when it ends and how.
unfoldable pub grace_loop : Environment → ℕ → ℕ → ℕ → ℕ × Written
grace_loop env zero deadline now = (now, out_of_fuel)
grace_loop env (suc fuel) deadline now =
    let after = now + env.took now in
    let again = grace_loop env fuel deadline (after + 100) in
    elim (env.attempt now) [
      | landed ↦ (after, written)
      | broken e ↦ (after, write_failed e)
      | down e ↦
          if env.grace == 0 || ltb deadline after
          then (after, write_failed (wrapped "transport down" e))
          else if env.ended after
          then (after, write_failed session_closed)
          else again
    ]

-- One round for each 100 milliseconds of the window, and two for its ends.
abbrev pub grace_fuel : ℕ → ℕ
grace_fuel grace = suc (grace / 100 + 1)

unfoldable pub write_with_grace : Environment → ℕ → ℕ × Written
write_with_grace env now = grace_loop env (grace_fuel env.grace) (now + env.grace) now

-- A write that ended, well or with an error.
abbrev pub Ends : Written → Type 0
Ends written = Unit
Ends (write_failed e) = Unit
Ends w = ⊥

grace_loop-Ends :
    (env : Environment) (left deadline now : ℕ)
    → deadline < now + 100 * left
    → Ends (grace_loop env (suc left) deadline now).1
unfolding grace_loop
grace_loop-Ends env zero deadline now h = ground arith
grace_loop-Ends env (suc left) deadline now h =
    ground (arith, grace_loop-Ends env left deadline (now + env.took now + 100))

pub write_with_grace-Ends : (env : Environment) (now : ℕ) → Ends (write_with_grace env now).1
unfolding write_with_grace
write_with_grace-Ends env now =
    grace_loop-Ends env (env.grace / 100 + 1) (now + env.grace) now (omega arith)
