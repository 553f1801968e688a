-- ===== src/Zone/Socks.antt =====
-- zone/socks.go: what the SOCKS server of a zone reads and writes.
pub mod Requests
pub mod RoundTrip
pub mod Safety
mod Tests
