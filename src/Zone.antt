-- ===== src/Zone.antt =====
-- zone/: the layer-2 overlay between the members of a zone.
pub mod Addresses
pub mod Rules
pub mod Cipher
pub mod Streams
pub mod Socks
