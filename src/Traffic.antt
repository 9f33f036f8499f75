-- ===== src/Traffic.antt =====
-- crates/node-agent/src/traffic.rs and traffic/stream.rs: traffic counters and their delivery.
pub mod Time
pub mod Aggregator
pub mod Queue
mod Tests
