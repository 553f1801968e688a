-- ===== src/Channel.antt =====
-- linksocks/channel.go: the logical channel that survives a change of its transport. Each call is
-- one step: the locks of the code make it atomic.
pub mod State
pub mod Sending
pub mod Receiving
pub mod Order
pub mod Pending
pub mod Replay
pub mod Failover
pub mod Closed
pub mod Grace
pub mod Suspension
mod Tests
