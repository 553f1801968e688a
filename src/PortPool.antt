-- ===== src/PortPool.antt =====
-- linksocks/portpool.go: the pool of ports that relays and reverse connections listen on. Each
-- call is one step: the mutex of the code makes it atomic. Port numbers are not negative.
pub mod Pool
pub mod Allocation
mod Tests
