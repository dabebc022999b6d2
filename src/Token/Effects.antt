-- ===== src/Token/Effects.antt =====
-- The effect of each method of contracts/universal-token/src/lib.rs on the storage.
pub mod Transfer
pub mod Deploy
pub mod Success
pub mod Exits
pub mod Permit
pub mod Wrapped
pub mod Pause
pub mod Supply
