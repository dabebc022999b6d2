-- ===== src/Token.antt =====
-- The universal token: contracts/universal-token and crates/sdk/src/universal_token.
pub mod Consts
pub mod Command
pub mod Guards
pub mod Erc20
pub mod Supply
pub mod Pause
pub mod Permit
pub mod Views
pub mod Settings
pub mod Entry
pub mod Keys
pub mod Backing
pub mod Ledger
pub mod Effects
pub mod Invariant
pub mod Access
mod Tests
