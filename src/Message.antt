-- ===== src/Message.antt =====
-- linksocks/message.go: the binary protocol.
pub mod Types
pub mod Uuid
pub mod Pack
pub mod Packages
pub mod Codes
pub mod Parse
pub mod Body
pub mod Safety
pub mod Reads
pub mod RoundTrip
pub mod Sample
mod Tests
pub mod Version
