-- ===== src/Upgrade/Tests.antt =====
-- contracts/runtime-upgrade/src/lib.rs at a concrete host, a plan of one pair and its upgrade.
use fluentbase.Prelude.{
  ℕ, ◌+◌, ◌*◌, ◌%◌, ◌^◌, ◌≡◌, ◌≢◌, refl, true, false, some, none, List, [], ◌∷◌, arith,
}
use fluentbase.Prelude.Bytes.{be_bytes, from_be_bytes}
use fluentbase.Sdk.Host.{Host}
use fluentbase.Sdk.State.{Context}
use fluentbase.Sdk.Result.{ok}
use fluentbase.Sdk.Storage.{pad_word}
use fluentbase.Sdk.Shared.{Bytecode, sload, sstore, emit}
use fluentbase.Sdk.Shared.Vector.{element_slot}
use fluentbase.Sdk.Shared.Bytes.{data_slot, metadata_of}
use fluentbase.Upgrade.{Frame, Toolchain, default_update_genesis_auth, precompile_runtime_upgrade}
use fluentbase.Upgrade.Plan.{target_slot, hash_slot}
use fluentbase.Upgrade.Plan.View.{IsLaidOut, IsState}
use fluentbase.Upgrade.Handlers.{upgrade_to_planned, plan_upgrade, is_malformed}
use fluentbase.Upgrade.Effects.{owner_of}
use fluentbase.Upgrade.Approval.{approval}
use fluentbase.Upgrade.Router.{Request, handle}
use fluentbase.Upgrade.Machine.{Spec, install}
use fluentbase.Upgrade.Machine.Reachable.{IsValid}
use fluentbase.Upgrade.Plan.Find.{listed}
use fluentbase.Upgrade.Effects.{IsLeft, plan_upgrade-IsLeft}
use fluentbase.Upgrade.Refinement.{IsTyped, IsRepr, IsStep, handle-Step, Calls, idle, call}
use fluentbase.Upgrade.Safety.{
  fresh, upgrade_to_planned-approved, upgrade_to_planned-once, Calls-IsValid,
}

-- A hash that keeps the slots apart.
abbrev test_host : Host
test_host = record {
  keccak = λ bytes. from_be_bytes bytes * 2 ^ 80 + 2 ^ 79;
  valid_utf8 = λ bytes. true;
  ecrecover = λ signature id digest. none;
}

abbrev test_tools : Toolchain
test_tools = record {
  compile = λ target wasm. some (1 ∷ 2 ∷ []);
  is_rwasm = λ bytes. true;
  analyzed = λ bytes. bytes;
  code_size = λ target code. 0;
  code_copy = λ target code size. none;
  utf8_lossy = λ bytes. bytes;
}

targets_at : (i : ℕ) → target_slot test_host i ≡ (4 * 2 ^ 80 + 2 ^ 79 + i) % 2 ^ 256
unfolding target_slot element_slot be_bytes from_be_bytes
targets_at i = refl

hashes_at : (i : ℕ) → hash_slot test_host i ≡ (5 * 2 ^ 80 + 2 ^ 79 + i) % 2 ^ 256
unfolding hash_slot element_slot be_bytes from_be_bytes
hashes_at i = refl

version_at : (i : ℕ) → data_slot test_host 2 i ≡ (2 * 2 ^ 80 + 2 ^ 79 + i) % 2 ^ 256
unfolding data_slot be_bytes from_be_bytes
version_at i = refl

test_host-IsLaidOut : IsLaidOut test_host
test_host-IsLaidOut = record {
  targets = λ i h. omega (arith, targets_at i);
  hashes = λ i h. omega (arith, hashes_at i);
  version = λ i h. omega (arith, version_at i);
  targets_hashes = λ i j h k e. omega (arith, targets_at i, hashes_at j, e);
  version_targets = λ i j h k e. omega (arith, version_at i, targets_at j, e);
  version_hashes = λ i j h k e. omega (arith, version_at i, hashes_at j, e);
}

abbrev context_of : ℕ → Context
context_of caller = record {
  caller = caller;
  address = precompile_runtime_upgrade;
  value = 0;
  is_static = false;
  timestamp = 0;
  number = 1;
  chain_id = 1;
}

-- No slot is set, and no account has code.
abbrev test_frame : Frame
test_frame = record {
  storage = λ k. 0;
  logs = [];
  codes = λ a. Bytecode.rwasm [];
  balances = λ a. 0;
  context = context_of 1;
  input = [];
  output = [];
  fuel = 0;
}

test_frame-IsState : IsState test_host test_frame.storage 0 0 []
unfolding metadata_of
test_frame-IsState = record {
  owner_lem = refl;
  updater_lem = refl;
  readable = ((0, false), refl);
  plan = record { targets = refl; hashes = refl; entries = tt };
}

test_frame-IsRepr : IsRepr test_host test_frame (fresh test_frame.codes)
test_frame-IsRepr = record { state = test_frame-IsState; codes = refl; room = omega arith }

abbrev wasm : List ℕ
wasm = 0x00 ∷ 0x61 ∷ 0x73 ∷ 0x6d ∷ 9 ∷ []

-- The owner plans one pair for the updater 7.
abbrev planning : Request
planning = Request.plan_upgrade 3 (118 ∷ []) (6 ∷ []) (test_host.keccak wasm ∷ []) 7

abbrev planned_frame : Frame
planned_frame =
    (handle test_host test_tools planning
      (record test_frame { context = context_of default_update_genesis_auth })).1

planned :
    (handle test_host test_tools planning
      (record test_frame { context = context_of default_update_genesis_auth })).0
    ≡ ok tt
unfolding handle plan_upgrade sload sstore emit from_be_bytes
planned = refl

typed : IsTyped planning
typed = (omega arith, omega arith, omega arith, (omega arith, tt))

handle-Step_example :
    IsStep test_host test_tools test_host-IsLaidOut
      (record test_frame { context = context_of default_update_genesis_auth })
      planned_frame
      (fresh test_frame.codes)
handle-Step_example =
    handle-Step test_host test_tools test_host-IsLaidOut planning
      (record test_frame { context = context_of default_update_genesis_auth })
      (fresh test_frame.codes) typed refl
      (record { state = test_frame-IsState; codes = refl; room = omega arith }) planned

one_call : Calls test_host test_tools test_host-IsLaidOut test_frame planned_frame
one_call = call planning (context_of default_update_genesis_auth) idle refl typed planned

installs :
    (upgrade_to_planned test_host test_tools 6 wasm
      (record planned_frame { context = context_of 7 })).0
    ≡ ok tt
unfolding handle upgrade_to_planned sload sstore emit from_be_bytes element_slot target_slot
    hash_slot pad_word
installs = refl

upgrade_to_planned-approved_example :
    (default_update_genesis_auth ≡ owner_of planned_frame.storage)
    × (7 ≡ (context_of 7).caller)
    × (listed 6 (test_host.keccak wasm) ((6, test_host.keccak wasm) ∷ []) ≡ true)
    × ((rwasm : List ℕ) × (test_tools.compile 6 wasm ≡ some rwasm)
        × ((upgrade_to_planned test_host test_tools 6 wasm
              (record planned_frame { context = context_of 7 })).1.codes
            ≡ install 6 (Bytecode.rwasm rwasm) planned_frame.codes))
unfolding approval one_call from_be_bytes
upgrade_to_planned-approved_example =
    upgrade_to_planned-approved test_host test_tools test_frame planned_frame (context_of 7) 6 wasm
      test_host-IsLaidOut test_frame-IsRepr one_call refl installs

Calls-IsValid_example :
    (y : Spec) × IsState test_host planned_frame.storage y.owner y.updater y.pairs
    × IsValid test_host test_tools y
Calls-IsValid_example =
    Calls-IsValid test_host test_tools test_frame planned_frame test_host-IsLaidOut
      test_frame-IsRepr one_call

-- A storage that holds the pair.
abbrev pairs : List (ℕ × ℕ)
pairs = (6, test_host.keccak wasm) ∷ []

planned-IsState : IsState test_host planned_frame.storage 0 7 pairs
unfolding handle plan_upgrade sload sstore emit from_be_bytes target_slot hash_slot metadata_of
    pad_word
planned-IsState = record {
  owner_lem = refl;
  updater_lem = refl;
  readable = ((1, false), refl);
  plan = record { targets = refl; hashes = refl; entries = (refl, refl, tt) };
}

upgrade_to_planned-once_example :
    (upgrade_to_planned test_host test_tools 6
      (0 ∷ [])
      (record (upgrade_to_planned test_host test_tools 6 wasm
        (record planned_frame { context = context_of 7 })).1 { context = context_of 7 })).0
    ≢ ok tt
upgrade_to_planned-once_example =
    upgrade_to_planned-once test_host test_tools (record planned_frame { context = context_of 7 })
      (context_of 7) 6 wasm (0 ∷ []) 0 7 pairs test_host-IsLaidOut refl (omega arith)
      (λ e. omega (arith, e), λ e. omega (arith, e), tt, tt) planned-IsState refl installs

well_formed : is_malformed [] (6 ∷ []) (5 ∷ []) ≡ false
unfolding is_malformed
well_formed = refl

plan_upgrade-IsLeft_example :
    (t : Frame) × (plan_upgrade test_host 3
        (118 ∷ [])
        (6 ∷ [])
        (5 ∷ [])
        7
        (record test_frame { context = context_of default_update_genesis_auth })
      ≡ (ok tt, t))
    × IsLeft test_host
        (record test_frame { context = context_of default_update_genesis_auth })
        t
        0
        7
        ((6, 5) ∷ [])
plan_upgrade-IsLeft_example =
    plan_upgrade-IsLeft test_host 3 7 (118 ∷ []) (6 ∷ []) (5 ∷ [])
      (record test_frame { context = context_of default_update_genesis_auth }) 0 0 []
      test_host-IsLaidOut refl refl (omega arith) refl (λ e. omega (arith, e)) well_formed
      (omega arith) (omega arith) (omega arith, tt) (omega arith) test_frame-IsState
