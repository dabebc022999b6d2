-- ===== src/Types.antt =====
-- crates/types: exit codes, results and the storage journal of a system contract.
pub mod ExitCode
pub mod Journal
pub mod Genesis
mod Tests
