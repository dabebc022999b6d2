-- ===== src/Types/Genesis.antt =====
-- crates/types/src/genesis.rs: the addresses of system contracts and their classes.
use fluentbase.Prelude.{ℕ, Bool, false, ◌||◌, ◌==◌, List, [], ◌∷◌}

abbrev pub precompile_evm_runtime : ℕ
precompile_evm_runtime = 0x520001

abbrev pub precompile_svm_runtime : ℕ
precompile_svm_runtime = 0x520003

abbrev pub precompile_universal_token_runtime : ℕ
precompile_universal_token_runtime = 0x520008

abbrev pub precompile_wasm_runtime : ℕ
precompile_wasm_runtime = 0x520009

abbrev pub precompile_runtime_upgrade : ℕ
precompile_runtime_upgrade = 0x520010

abbrev pub precompile_eip2935 : ℕ
precompile_eip2935 = 0xf90827f1c53a10cb7a02335b175320002935

-- `EXECUTE_USING_SYSTEM_RUNTIME_ADDRESSES`
unfoldable pub execute_using_system_runtime_addresses : List ℕ
execute_using_system_runtime_addresses =
    0x5 ∷ 0x9 ∷ 0xb ∷ 0xc ∷ 0xd ∷ 0xe ∷ 0x10 ∷ 0x11 ∷ 0xf ∷ 0x6 ∷ 0x7 ∷ 0x8 ∷ 0x100 ∷ 0x520008
    ∷ 0x520001 ∷ 0x4 ∷ 0xa ∷ 0x520007 ∷ 0x520006 ∷ 0x3 ∷ 0x1 ∷ 0x2 ∷ 0x520009 ∷ 0x520005 ∷ []

unfoldable pub contains : List ℕ → ℕ → Bool
contains [] a = false
contains (x ∷ xs) a = x == a || contains xs a

unfoldable pub is_execute_using_system_runtime : ℕ → Bool
unfolding contains execute_using_system_runtime_addresses
is_execute_using_system_runtime = contains execute_using_system_runtime_addresses

unfoldable pub is_delegated_runtime_address : ℕ → Bool
is_delegated_runtime_address a =
    a == precompile_evm_runtime
    || a == precompile_svm_runtime
    || a == precompile_universal_token_runtime
    || a == precompile_wasm_runtime
