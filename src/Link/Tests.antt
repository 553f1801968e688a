-- ===== src/Link/Tests.antt =====
-- Links at times in 2026 on which the theorems on linksocks/conn.go are run.
use linksocks.Prelude.{◌+◌, ◌<◌, ◌≡◌, true, ltb}
use linksocks.Link.Health.{new_link, is_stale, is_stale-exact}

is_stale-exact_example :
    (is_stale new_link 1780000000000 ≡ ltb (0 + 90000) 1780000000000)
    × (90000 < 1780000000000 → is_stale new_link 1780000000000 ≡ true)
is_stale-exact_example = is_stale-exact new_link 1780000000000
