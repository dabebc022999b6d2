-- ===== src/Revm/Engine.antt =====
-- The parts of revm and of the crates below it that crates/revm calls: gas meters, gas prices, the
-- journal with its access to the database, and account code. They are not code of the repository.
use fluentbase.Prelude.{ℕ, Bool, Option, List}
use fluentbase.Prelude.Int.{ℤ}

-- What a load of the journal answers: a value with `is_cold`, `JournalLoadError::ColdLoadSkipped` or
-- `JournalLoadError::DBError`.
pub data Load (A : Type 0) : Type 0 where
  loaded : A → Bool → Load A
  cold_load_skipped : Load A
  db_error : Load A

-- revm's `AccountInfo`, with its `is_empty`.
pub record AccountInfo (C : Type 0) : Type 0 where
  pub balance : ℕ
  pub nonce : ℕ
  pub code_hash : ℕ
  pub code : Option C
  pub is_empty : Bool

-- revm's `SelfDestructResult`.
pub record SelfDestruct : Type 0 where
  pub had_value : Bool
  pub target_exists : Bool

-- revm's `TransferError`.
pub data TransferError : Type 0 where
  out_of_funds : TransferError
  overflow_payment : TransferError
  create_collision : TransferError

-- `G` is a gas meter, `W` the journal, `C` a `Bytecode` and `S` an `SStoreResult`. An operation that
-- can fail with a database error alone returns an option.
pub record Engine (G W C S : Type 0) : Type 0 where
  -- revm's `Gas`
  pub remaining : G → ℕ
  pub reservoir : G → ℕ
  pub total_gas_spent : G → ℕ
  pub record_regular_cost : ℕ → G → Bool × G
  pub record_state_cost : ℕ → G → Bool × G
  pub record_refund : ℤ → G → G
  pub erase_cost : ℕ → G → G
  pub spend_all : G → G
  -- revm's `GasParams`
  pub cold_storage_cost : ℕ
  pub warm_storage_read_cost : ℕ
  pub cold_account_additional_cost : ℕ
  pub transfer_value_cost : ℕ
  pub call_stipend : ℕ
  pub call_stipend_reduction : ℕ → ℕ
  pub initcode_cost : ℕ → ℕ
  pub create_cost : ℕ
  pub create2_cost : ℕ → ℕ
  pub extcodecopy : ℕ → ℕ
  pub log_cost : ℕ → ℕ → ℕ
  pub selfdestruct_cost : Bool → Bool → ℕ
  pub new_account_cost : Bool → Bool → ℕ
  pub new_account_state_gas : ℕ
  pub sstore_static_gas : ℕ
  pub sstore_dynamic_gas : Bool → S → Bool → ℕ
  pub sstore_refund : Bool → S → ℤ
  -- the constants of `revm::interpreter::gas` and of `revm::primitives`
  pub gas_warm_storage_read : ℕ
  pub gas_cold_account_access : ℕ
  pub gas_low : ℕ
  pub gas_blockhash : ℕ
  pub gas_log : ℕ
  pub max_initcode_size : ℕ
  pub wasm_max_code_size : ℕ
  pub wasm_max_code_size_of : List ℕ → Option ℕ
  -- the hardfork, the block and the set of precompiled contracts
  pub is_berlin : Bool
  pub is_spurious_dragon : Bool
  pub is_amsterdam_eip8037 : Bool
  pub block_number : ℕ
  pub is_precompile : ℕ → Bool
  -- the journal
  pub sload : ℕ → ℕ → Bool → W → Load ℕ × W
  pub sstore : ℕ → ℕ → ℕ → Bool → W → Load S × W
  pub load_account_info : ℕ → Bool → Bool → W → Load (AccountInfo C) × W
  pub load_account : ℕ → W → Option (AccountInfo C × Bool) × W
  pub load_account_with_code : ℕ → W → Option (AccountInfo C × Bool) × W
  pub selfdestruct : ℕ → ℕ → Bool → W → Load SelfDestruct × W
  pub transfer : ℕ → ℕ → ℕ → W → Option (Option TransferError) × W
  pub log : ℕ → List ℕ → List ℕ → W → W
  pub set_code : ℕ → C → W → W
  pub touch_account : ℕ → W → W
  pub tload : ℕ → ℕ → W → ℕ
  pub tstore : ℕ → ℕ → ℕ → W → W
  pub block_hash : ℕ → W → Option ℕ × W
  -- `Bytecode`
  pub ownable_account : C → Option (ℕ × List ℕ)
  pub new_ownable_account : ℕ → List ℕ → C
  pub new_rwasm : List ℕ → Option C
  pub code_len : C → ℕ
  pub original_bytes : C → List ℕ
  pub eip7702_address : C → Option ℕ
  pub no_code : C
  -- keccak256, the analysis of EVM code by revm, and bincode on the metadata of EVM accounts
  pub keccak : List ℕ → ℕ
  pub analyzed_metadata : List ℕ → List ℕ
  pub deserialize : List ℕ → Option (List ℕ × ℕ × ℕ)
