-- ===== src/Access.antt =====
-- linksocks/access.go: which destinations a proxy may connect to.
pub mod Specs
pub mod Control
pub mod Decision
mod Tests
