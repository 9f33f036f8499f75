-- ===== src/Control.antt =====
-- crates/node-agent/src/control: the commands of the panel and their acknowledgements.
pub mod Acks
mod Tests
