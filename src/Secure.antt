-- ===== src/Secure.antt =====
-- linksocks/secure_channel.go: the end-to-end encrypted channels of protocol V2.
pub mod Noise
pub mod Grace
pub mod Session
pub mod Handshake
pub mod Agreement
pub mod Delivery
pub mod Dispatch
pub mod Hub
pub mod Transport
mod Tests
pub mod Registry
