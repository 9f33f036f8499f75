-- ===== src/Topology.antt =====
-- crates/node-agent/src/topology: the published topology and the transactions that change it.
pub mod Adapter
pub mod Manager
pub mod Users
mod Tests
