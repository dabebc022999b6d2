-- ===== src/Revm.antt =====
-- crates/revm: the host of the frames of the chain. It serves their system calls, and it loads and
-- commits the storage of system contracts.
pub mod Engine
pub mod Interruption
pub mod Preload
pub mod Outcome
pub mod Keeps
pub mod Metadata
pub mod Syscall
pub mod Static
pub mod Metering
pub mod Segment
mod Tests
