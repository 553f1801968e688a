-- ===== src/Zone/Streams.antt =====
-- zone/streams.go: the queue in front of a local connection and the life of a stream.
pub mod Queue
pub mod Delivery
pub mod Stream
pub mod Life
mod Tests
