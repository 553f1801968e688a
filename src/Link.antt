-- ===== src/Link.antt =====
-- linksocks/conn.go: when a WebSocket link counts as dead, and the round trips it measures. Times
-- are milliseconds since 1970.
pub mod Health
mod Tests
