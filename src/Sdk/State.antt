-- ===== src/Sdk/State.antt =====
-- The state of a system contract's frame: `RecoverableState` of crates/sdk/src/system/state.rs and
-- the fields of `SystemContextImpl` of crates/sdk/src/system.rs.
use fluentbase.Prelude.{ℕ, Bool, Option, none, List, []}
use fluentbase.Types.Journal.{JournalStorage, Map, new}

-- The part of the block, transaction and contract context that the contracts read. Addresses are
-- numbers below 2 ^ 160, words numbers below 2 ^ 256.
pub record Context : Type 0 where
  pub caller : ℕ
  pub address : ℕ
  pub value : ℕ
  pub is_static : Bool
  pub timestamp : ℕ
  pub number : ℕ
  pub chain_id : ℕ

-- `fuel` is what the runtime has left (`NativeAPI::fuel`), `metadata` what
-- `write_contract_metadata` was given.
pub record System : Type 0 where
  pub journal : JournalStorage
  pub contract_metadata : List ℕ
  pub input : List ℕ
  pub context : Context
  pub output : List ℕ
  pub transfers : Option (List (ℕ × ℕ))
  pub fuel : ℕ
  pub metadata : Option (List ℕ)

-- `RecoverableState::new`: the frame of a call with preloaded storage.
abbrev pub new_frame : Map → List ℕ → List ℕ → Context → ℕ → System
new_frame preloaded contract_metadata input context fuel = record {
  journal = new preloaded;
  contract_metadata = contract_metadata;
  input = input;
  context = context;
  output = [];
  transfers = none;
  fuel = fuel;
  metadata = none;
}
