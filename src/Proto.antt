-- ===== src/Proto.antt =====
-- crates/acp-proto: what the wire protocol needs beside its generated messages.
pub mod Hex
mod Tests
