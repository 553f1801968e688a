-- ===== src/Channel/Grace.antt =====
-- The grace window of a suspended channel in linksocks/channel.go.
use linksocks.Prelude.{ℕ, ◌+◌, true, false, none, some, ◌≡◌, List, [], ◌∷◌, refl, leb, arith}
use linksocks.Channel.State.{Channel}
use linksocks.Channel.Receiving.{suspend, resume, suspended}

-- `suspend` called at each of the times.
unfoldable pub suspend_all : Channel → List ℕ → ℕ → Channel
suspend_all c [] grace = c
suspend_all c (now ∷ rest) grace = suspend_all (suspend c now grace).0 rest grace

suspend_all-since :
    (c : Channel) (since grace : ℕ) (times : List ℕ)
    → c.suspend_since ≡ some since
    → (suspend_all c times grace).suspend_since ≡ some since
unfolding suspend_all suspend
suspend_all-since c since grace [] e = e
suspend_all-since c since grace (now ∷ rest) e =
    ground (arith, suspend_all-since c since grace rest e)

-- However often the failing link suspends the channel, the window is counted from the first
-- time: a later suspension at `now` still tolerates the link exactly when no more than `grace`
-- passed since then, and one `resume` ends the suspension.
pub suspend-since_first :
    (c : Channel) (first grace now : ℕ) (times : List ℕ)
    → c.suspend_since ≡ none
    → ((suspend (suspend_all c (first ∷ times) grace) now grace).1 ≡ leb now (first + grace))
      × ((suspended (suspend_all c (first ∷ times) grace) ≡ true)
          × (suspended (resume (suspend_all c (first ∷ times) grace)) ≡ false))
unfolding suspend_all suspend suspended resume
suspend-since_first c first grace now times e =
    ground
      (arith, suspend_all-since (record c { suspend_since = some first }) first grace times refl)

pub suspend-again :
    (c : Channel) (since now grace : ℕ)
    → c.suspend_since ≡ some since
    → suspend c now grace ≡ (c, leb now (since + grace))
unfolding suspend
suspend-again c since now grace e = rw e refl

pub suspend-first :
    (c : Channel) (now grace : ℕ)
    → c.suspend_since ≡ none
    → suspend c now grace ≡ (record c { suspend_since = some now }, leb now (now + grace))
unfolding suspend
suspend-first c now grace e = rw e refl
