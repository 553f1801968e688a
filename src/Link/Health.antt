-- ===== src/Link/Health.antt =====
-- The clocks of `WSConn` in linksocks/conn.go: `isStale`, `Ping` and the pong handler.
use linksocks.Prelude.{
  ℕ, ◌+◌, ◌-◌, ◌*◌, ◌^◌, ◌<◌, ◌≤◌, ◌≡◌, Bool, true, false, not, ◌&&◌, ltb, ◌==◌, if◌then◌else◌,
  arith,
}
use linksocks.Prelude.Int.{ℤ, pos, negsuc}
use Prim.Native.Nat.{min}

pub record Link : Type 0 where
  pub ping_sent_millis : ℕ
  pub last_pong_millis : ℕ
  pub rtt_ns : ℕ

-- A new link has never pinged and never got a pong.
abbrev pub new_link : Link
new_link = record { ping_sent_millis = 0; last_pong_millis = 0; rtt_ns = 0 }

-- `time.UnixMilli(n).IsZero()`: the zero time is January 1 of the year 1.
unfoldable pub same_time : ℤ → ℤ → Bool
same_time (pos a) (pos b) = a == b
same_time (pos a) (negsuc b) = false
same_time (negsuc a) (pos b) = false
same_time (negsuc a) (negsuc b) = a == b

abbrev pub zero_time_millis : ℤ
zero_time_millis = negsuc 62135596799999

unfoldable pub is_zero : ℕ → Bool
is_zero millis = same_time (pos millis) zero_time_millis

-- `now.Sub(t)` in nanoseconds, for a `t` that is not after `now`: a duration is an `int64`, and a
-- longer one is cut to the longest.
unfoldable pub sub_ns : ℕ → ℕ → ℕ
sub_ns now t = min ((now - t) * 1000000) (2 ^ 63 - 1)

-- `3 * defaultPingInterval`, 90 seconds.
abbrev pub conn_stale_after_ns : ℕ
conn_stale_after_ns = 3 * 30000000000

unfoldable pub is_stale : Link → ℕ → Bool
is_stale c now =
    not (is_zero c.last_pong_millis) && ltb conn_stale_after_ns (sub_ns now c.last_pong_millis)

-- The time that `Ping` stores.
unfoldable pub ping : Link → ℕ → Link
ping c now = record c { ping_sent_millis = now }

-- The handler of a pong.
unfoldable pub handle_pong : Link → ℕ → Link
handle_pong c now =
    let c' = record c { last_pong_millis = now } in
    if not (is_zero c'.ping_sent_millis)
    then record c' { rtt_ns = sub_ns now c'.ping_sent_millis }
    else c'

-- A link is stale exactly when the last pong is more than 90 seconds ago, and a link that never
-- got one counts as if it had got it in 1970: from 90 seconds after 1970 on, a new link is
-- stale until its first pong.
pub is_stale-exact :
    (c : Link) (now : ℕ)
    → (is_stale c now ≡ ltb (c.last_pong_millis + 90000) now)
      × (90000 < now → is_stale new_link now ≡ true)
unfolding is_stale is_zero same_time sub_ns
is_stale-exact c now = (ground arith, λ h. ground (arith, h))

-- A pong makes a link live for the next 90 seconds, whatever its state was, and measures the time
-- since the ping, up to the longest duration.
pub handle_pong-live :
    (c : Link) (sent now later : ℕ)
    → sent ≤ now
    → now ≤ later
    → (is_stale (handle_pong (ping c sent) now) later ≡ ltb (now + 90000) later)
      × ((handle_pong (ping c sent) now).rtt_ns ≡ min ((now - sent) * 1000000) 9223372036854775807)
unfolding handle_pong ping is_stale is_zero same_time sub_ns
handle_pong-live c sent now later h k = (ground arith, ground arith)
