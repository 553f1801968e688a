-- ===== src/Server.antt =====
-- linksocks/server.go: the relay's tables of channels, of clients and of tokens.
pub mod Cache
pub mod Returns
pub mod Selection
pub mod Expiry
pub mod Tokens
pub mod Clients
pub mod Registered
pub mod Adding
pub mod Removal
pub mod History
mod Tests
