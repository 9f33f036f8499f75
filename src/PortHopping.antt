-- ===== src/PortHopping.antt =====
-- crates/node-agent/src/porthopping: port ranges, the machine-wide plan and its lifecycle.
pub mod Ranges
pub mod Plan
pub mod Manager
mod Tests
