-- ===== src/Zone/Cipher.antt =====
-- zone/crypto.go: sealed messages between the members of a zone.
pub mod State
pub mod Window
pub mod Streams
pub mod Frames
pub mod Exchange
pub mod Numbering
pub mod Sealing
mod Tests
