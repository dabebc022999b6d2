-- ===== src/Sdk.antt =====
-- crates/sdk: the state of a system contract, its calls on the host, and typed storage.
pub mod State
pub mod Result
pub mod System
pub mod Host
pub mod Storage
pub mod Shared
pub mod Leb128
pub mod Constructor
