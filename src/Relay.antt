-- ===== src/Relay.antt =====
-- linksocks/relay.go: the data that arrives before its channel, and the SOCKS5 and HTTP CONNECT
-- messages of the relay.
pub mod Orphans
pub mod Arrivals
pub mod Grace
pub mod Settling
pub mod Base64
pub mod Decoding
pub mod Entry
pub mod Upstream
pub mod Credentials
pub mod Reading
pub mod Dialogue
mod Tests
