-- ===== src/Lib.antt =====
-- Fluentbase: the universal token, two system contracts beside it, and the parts of the system that
-- they run on.
--
-- The universal token (contracts/universal-token) is one system contract that stands for every
-- ERC-20 token of the chain. A call of it runs in a frame: before the call the host computes from
-- the calldata which storage slots the call may read (crates/sdk/src/universal_token/storage.rs),
-- loads them into a journal (crates/types/src/system/journal_storage.rs), runs `main_entry`, and
-- commits the journal's diff only if the call succeeds. A read of a slot that was not loaded is an
-- error.
--
-- The block hash contract (contracts/eip2935) and the runtime upgrade contract
-- (contracts/runtime-upgrade) run as ordinary contracts: they read and write their own slots by
-- system calls. The first keeps the hashes of the last 8191 blocks in a ring of slots. The second
-- replaces the code of system accounts, for its owner or for a delegate of the owner, who may
-- install what a stored plan of target and hash pairs allows.
--
-- Prelude: shared names, Boolean tests on numbers, lists, big-endian bytes, integers.
-- Types: crates/types. Types/ExitCode is `ExitCode` with its numbers; Types/Journal is
-- `JournalStorage`, with Types/Journal/Overlay its refinement to a plain map.
-- Codec: the Solidity mode of crates/codec for the static values that calldata holds.
-- Sdk: crates/sdk. Sdk/State and Sdk/System are the frame of a system contract
-- (`SystemContextImpl`, `RecoverableState`) and the calls on it; Sdk/Result is `Result<T,
-- ExitCode>` with early returns and panics as a monad over the frame; Sdk/Storage is typed storage;
-- Sdk/Host holds what is not code of the repository: keccak256, UTF-8 validation and signature
-- recovery. Sdk/Shared is the frame of an ordinary contract (`SharedContextImpl`) with the system
-- calls that crates/revm/src/syscall.rs answers, Sdk/Shared/Vector `StorageVec` and packed
-- addresses, and Sdk/Shared/Bytes `StorageBytes` of crates/sdk/src/storage.
-- Token: contracts/universal-token and crates/sdk/src/universal_token. A handler
-- `erc20_<name>_handler` is the definition `<name>`: Token/Erc20 (transfer, transferFrom, approve),
-- Token/Supply (mint, burn, deposit, withdraw), Token/Pause, Token/Permit (with erc2612.rs),
-- Token/Views (methods that only read), Token/Entry (constructor, deploy_entry, main_entry).
-- Token/Consts, Token/Command, Token/Settings and Token/Keys are consts.rs, command.rs and
-- storage.rs of crates/sdk/src/universal_token. The macros `when_...!` and the events are in
-- Token/Guards.
-- Proofs: Token/Ledger is what the phases of a handler do to the slots, Token/Effects what each
-- handler does, Token/Backing the sums of balances, Token/Invariant the supply invariant,
-- Token/Access static calls and frozen tokens, Token/Keys/Cover the slots that a call reads.
-- Token/Tests and Types/Tests run the code on concrete input.
--
-- Eip2935: contracts/eip2935/src/lib.rs and the keys of crates/revm/src/eip2935.rs. Eip2935/History
-- is what it serves after a run of blocks.
-- Upgrade: contracts/runtime-upgrade/src/lib.rs. Upgrade/Plan is the stored plan, Upgrade/Install
-- what puts code into an account, with the two system calls for it as the contract sees them
-- (Revm/Syscall/Owned has them with their reads of memory and of the journal), Upgrade/Handlers the
-- methods of `RuntimeUpgradeTr`, Upgrade/Router their dispatch on decoded arguments.
-- Upgrade/Machine is a machine of owner, updater, planned pairs and codes with its step relation,
-- Upgrade/Refinement takes calls on the slots to its steps, Upgrade/Approval reads off a run of
-- calls what they approve, and Upgrade/Safety says what holds over runs of calls. Upgrade/Plan/View
-- is the relation of slots and list, Upgrade/Plan/Push, Find, Remove and Cancel the operations of
-- the plan.
--
-- Fuel: the surcharge on calldata of crates/types/src/block_fuel.rs, which
-- crates/revm/src/handler.rs adds to the gas that revm computes for a transaction.
-- Sdk/Leb128 and Sdk/Constructor: crates/sdk/src/leb128.rs and constructor.rs, the custom section
-- that carries constructor parameters at the end of a wasm module.
--
-- Revm: crates/revm, the host of all frames. A frame's system call ends its run; the host answers
-- it in `execute_rwasm_interruption` of crates/revm/src/syscall.rs, charging the frame's gas,
-- reading and writing the journal of the chain, or opening a new frame. Revm/Interruption is the
-- frame in which a call runs, its ways to end and the macros of that function, as a monad over gas
-- and journal; Revm/Syscall is the match on the number of the call, with an operation for each of
-- its arms in Revm/Syscall/Storage (storage, transient storage and logs; sstore_gas of gas.rs),
-- Calls (calls and creations; load_account_delegated of types.rs), Account (balances, code and
-- block hashes; the metadata of EVM accounts of crates/evm/src/metadata.rs is Revm/Metadata) and
-- Owned (accounts owned by a runtime, and upgrades). Revm/Preload and Revm/Outcome are the two ends
-- of a system contract's frame in crates/revm/src/executor.rs: the load of its storage slots with
-- its charge, and `process_runtime_execution_outcome`, which gives back the cost of untouched slots
-- and commits storage, logs, metadata and transfers. Revm/Segment is what follows each run of a
-- frame: the charge for its fuel, and `process_exec_result`, which ends the frame or answers its
-- system call. Revm/Engine lists what is revm's own: the gas meter, prices, the journal and account
-- code. Types/Genesis has the addresses of system contracts and their classes. Revm/Keeps has rules
-- on what a chain of such operations keeps, with which each arm is gone through once for any
-- property that its steps keep; Revm/Static and Revm/Metering are two uses of it, and
-- Revm/Segment/Bounds and Fatal are about whole runs. Revm/Preload/Sound joins the load of the
-- slots with the token's run on them, and Revm/Outcome/Commit the token's journal with the storage
-- of the chain. Revm/Tests has a concrete engine.
--
-- Numbers: addresses, words and integers are native numbers, with each check against 2 ^ 256 or 2 ^
-- 64 of the source written out, and lengths of vectors and byte strings wrap at 2 ^ 64 and at 2 ^
-- 32 as in the source; a byte string is a list of numbers, and where a bound on bytes is needed it
-- is a hypothesis. All functions are structurally recursive, the loops over a vector on the number
-- of entries left. The one fuel is the ten rounds of `write::unsigned`, enough for the ten groups
-- of seven bits of a 64-bit value. The constants of consts.rs, hashes at compile time, are their
-- values.
--
-- The frame of an ordinary contract (Sdk/Shared) does not pay for its system calls: what is said of
-- fuel for Eip2935 and Upgrade is about the charges that the contracts make themselves. The price
-- of the system calls is in Revm.
--
-- The hash is a parameter. What the storage layout relies on, that it keeps the slots of balances
-- apart from one another and from the other slots, is the hypothesis `IsSeparated`, which a
-- concrete function in Token/Tests satisfies. The upgrade contract relies on the same for its two
-- vectors and its version text: the hypothesis `IsLaidOut`, which a function in Upgrade/Tests
-- satisfies. The compiler to rWasm, the analysis of EVM code and the host's answers about an
-- account's code are parameters too (`Toolchain`).
--
-- What is revm's is the record `Engine`, a parameter of Revm. The theorems ask of it only what they
-- need: `IsView` (loads leave the state of the chain alone), `IsMeter` (a recorded cost is taken
-- from what remains), `IsErasing` (an erased cost is given back) and `IsSlots` (a store writes its
-- slot); the engine of Revm/Tests satisfies all of them. Answers that revm gives as an error of the
-- database end a call with `db`, and a panic of the host with `abort`.
--
-- Not modelled: the run loop of the host, the encoding of a frame's context and of the payload that
-- resumes a frame, what the runtime keeps of a run, inspectors (they only trace), the encoding of
-- derived events and the decoding of derived routers, signed LEB128 numbers, the compact mode of
-- the codec, the other system contracts, and code that wraps third-party libraries (cryptography,
-- wasm execution, the EVM interpreter).
pub mod Prelude
pub mod Types
pub mod Codec
pub mod Sdk
pub mod Token
pub mod Eip2935
pub mod Fuel
pub mod Revm
pub mod Upgrade
