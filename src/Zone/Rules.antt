-- ===== src/Zone/Rules.antt =====
-- zone/rules.go: the firewall of a zone.
pub mod Ports
pub mod Ruleset
pub mod Matching
pub mod Compilation
pub mod Frames
pub mod Classification
mod Tests
