-- ===== src/Engine.antt =====
-- crates/shoes-engine: the users of an inbound, their credentials, and how an inbound authenticates.
pub mod Kinds
pub mod Shoes
pub mod Credentials
pub mod Indexes
pub mod Users
pub mod Protocol
pub mod Tests
