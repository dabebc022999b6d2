-- ===== src/Token/Consts.antt =====
-- crates/sdk/src/universal_token/consts.rs. The source computes each constant from its text by a
-- macro; the numbers are the macros' values: the first four bytes of the Keccak-256 hash for an
-- error or a selector, the whole hash for a type hash, and the ERC-7201 slot
-- `keccak256(keccak256(id) - 1) & ~0xff` for a storage slot.
use fluentbase.Prelude.{ℕ}

-- USTUnknownMethod(bytes4)
abbrev pub err_ust_unknown_method : ℕ
err_ust_unknown_method = 0xb0d8e5d7

-- USTNotPausable()
abbrev pub err_ust_not_pausable : ℕ
err_ust_not_pausable = 0x507e61c

-- USTPauserMismatch(address)
abbrev pub err_ust_pauser_mismatch : ℕ
err_ust_pauser_mismatch = 0xbb8db808

-- USTNotMintable()
abbrev pub err_ust_not_mintable : ℕ
err_ust_not_mintable = 0x9f1090b2

-- USTMinterMismatch(address)
abbrev pub err_ust_minter_mismatch : ℕ
err_ust_minter_mismatch = 0xf5143e51

-- USTNotWrapped()
abbrev pub err_ust_not_wrapped : ℕ
err_ust_not_wrapped = 0x9e6d5c02

-- USTExpiredDeadline()
abbrev pub err_ust_expired_deadline : ℕ
err_ust_expired_deadline = 0x16db56d2

-- USTInvalidSignature()
abbrev pub err_ust_invalid_signature : ℕ
err_ust_invalid_signature = 0xf7c8ca29

-- ERC20InsufficientBalance(address,uint256,uint256)
abbrev pub err_erc20_insufficient_balance : ℕ
err_erc20_insufficient_balance = 0xe450d38c

-- ERC20InvalidSender(address)
abbrev pub err_erc20_invalid_sender : ℕ
err_erc20_invalid_sender = 0x96c6fd1e

-- ERC20InvalidReceiver(address)
abbrev pub err_erc20_invalid_receiver : ℕ
err_erc20_invalid_receiver = 0xec442f05

-- ERC20InsufficientAllowance(address,uint256,uint256)
abbrev pub err_erc20_insufficient_allowance : ℕ
err_erc20_insufficient_allowance = 0xfb8f41b2

-- ERC20InvalidApprover(address)
abbrev pub err_erc20_invalid_approver : ℕ
err_erc20_invalid_approver = 0xe602df05

-- ERC20InvalidSpender(address)
abbrev pub err_erc20_invalid_spender : ℕ
err_erc20_invalid_spender = 0x94280d62

-- EnforcedPause()
abbrev pub err_pausable_enforced_pause : ℕ
err_pausable_enforced_pause = 0xd93c0665

-- ExpectedPause()
abbrev pub err_pausable_expected_pause : ℕ
err_pausable_expected_pause = 0x8dfc202b

-- symbol()
abbrev pub sig_erc20_symbol : ℕ
sig_erc20_symbol = 0x95d89b41

-- name()
abbrev pub sig_erc20_name : ℕ
sig_erc20_name = 0x6fdde03

-- decimals()
abbrev pub sig_erc20_decimals : ℕ
sig_erc20_decimals = 0x313ce567

-- totalSupply()
abbrev pub sig_erc20_total_supply : ℕ
sig_erc20_total_supply = 0x18160ddd

-- balance()
abbrev pub sig_erc20_balance : ℕ
sig_erc20_balance = 0xb69ef8a8

-- balanceOf(address)
abbrev pub sig_erc20_balance_of : ℕ
sig_erc20_balance_of = 0x70a08231

-- transfer(address,uint256)
abbrev pub sig_erc20_transfer : ℕ
sig_erc20_transfer = 0xa9059cbb

-- transferFrom(address,address,uint256)
abbrev pub sig_erc20_transfer_from : ℕ
sig_erc20_transfer_from = 0x23b872dd

-- allowance(address,address)
abbrev pub sig_erc20_allowance : ℕ
sig_erc20_allowance = 0xdd62ed3e

-- approve(address,uint256)
abbrev pub sig_erc20_approve : ℕ
sig_erc20_approve = 0x95ea7b3

-- mint(address,uint256)
abbrev pub sig_erc20_mint : ℕ
sig_erc20_mint = 0x40c10f19

-- burn(address,uint256)
abbrev pub sig_erc20_burn : ℕ
sig_erc20_burn = 0x9dc29fac

-- pause()
abbrev pub sig_erc20_pause : ℕ
sig_erc20_pause = 0x8456cb59

-- unpause()
abbrev pub sig_erc20_unpause : ℕ
sig_erc20_unpause = 0x3f4ba83a

-- deposit()
abbrev pub sig_erc20_deposit : ℕ
sig_erc20_deposit = 0xd0e30db0

-- withdraw(uint256)
abbrev pub sig_erc20_withdraw : ℕ
sig_erc20_withdraw = 0x2e1a7d4d

-- permit(address,address,uint256,uint256,uint8,bytes32,bytes32)
abbrev pub sig_erc20_permit : ℕ
sig_erc20_permit = 0xd505accf

-- nonces(address)
abbrev pub sig_erc20_nonces : ℕ
sig_erc20_nonces = 0x7ecebe00

-- DOMAIN_SEPARATOR()
abbrev pub sig_erc20_domain_separator : ℕ
sig_erc20_domain_separator = 0x3644e515

-- token2022()
abbrev pub sig_token2022 : ℕ
sig_token2022 = 0xf9733472

-- EIP712Domain(string name,string version,uint256 chainId,address verifyingContract)
abbrev pub eip712_domain_typehash : ℕ
eip712_domain_typehash = 0x8b73c3c69bb8fe3d512ecc4cf759cc79239f7b179b0ffacaa9a75d522b39400f

-- Permit(address owner,address spender,uint256 value,uint256 nonce,uint256 deadline)
abbrev pub eip2612_permit_typehash : ℕ
eip2612_permit_typehash = 0x6e71edae12b1b97f4d1f60370fef10105fa2faae0126114a169c64845d6126c9

-- 1
abbrev pub eip2612_version_hash : ℕ
eip2612_version_hash = 0xc89efdaa54c0f20c7adf612882df0950f5a951637e0307cdcb4c672f298b8bc6

-- universal-token.total-supply
abbrev pub total_supply_storage_slot : ℕ
total_supply_storage_slot = 0x6bde277f190e7804fe37ccdadb60badd656e93edeaaa88beac9c782346d86900

-- universal-token.minter
abbrev pub minter_storage_slot : ℕ
minter_storage_slot = 0x4e8d8e98d29ca93d7783a0f1ab44f7708ac11cb4cfeef5ae35e36f315ef1fd00

-- universal-token.pauser
abbrev pub pauser_storage_slot : ℕ
pauser_storage_slot = 0xea3842d68741c42b88f017187299e1419a3adab8b5e3e15f97e1c44f480e1300

-- universal-token.contract-frozen
abbrev pub contract_frozen_storage_slot : ℕ
contract_frozen_storage_slot = 0x474748fde97f8cf2b98f0d5d4b6cf474f7ebfe9a1c30b2f52aab4f9882ffba00

-- universal-token.symbol
abbrev pub symbol_storage_slot : ℕ
symbol_storage_slot = 0x6f35cf0fdc5172410248157a5c9761f4de9615c64d808481ad84fe799953ea00

-- universal-token.name
abbrev pub name_storage_slot : ℕ
name_storage_slot = 0xc088bc7ac1d7bf810142f321832509aa837f2507209a60e761de6c1f8becfc00

-- universal-token.decimals
abbrev pub decimals_storage_slot : ℕ
decimals_storage_slot = 0x9bbd224cc0a1ad9871762cf807acdb457085586c1baf654de7c1c5980c022d00

-- universal-token.allowance
abbrev pub allowance_storage_slot : ℕ
allowance_storage_slot = 0x62955c5c333f9f4073e6b303dc779c6c9d3202f40c8b07e9e2cc961ad7938a00

-- universal-token.nonces
abbrev pub nonces_storage_slot : ℕ
nonces_storage_slot = 0x826e3d3e7e1038f84d352625cf14974931c92b2fd098c49760192ce85d57e200

-- universal-token.balance
abbrev pub balance_storage_slot : ℕ
balance_storage_slot = 0xc88b75671e92b1d7e2aaebebc4753363b7cb86241a269f329376678c094d1000

-- universal-token.wrapped
abbrev pub wrapped_storage_slot : ℕ
wrapped_storage_slot = 0x27363f342d208d61633eea889657814388831fc115d48427b2ac49f40125b400

-- The signature hashes that `derive(Event)` puts in front of the topics of the contract's events.
-- Transfer(address,address,uint256)
abbrev pub transfer_selector : ℕ
transfer_selector = 0xddf252ad1be2c89b69c2b068fc378daa952ba7f163c4a11628f55a4df523b3ef

-- Approval(address,address,uint256)
abbrev pub approval_selector : ℕ
approval_selector = 0x8c5be1e5ebec7d5bd14f71427d1e84f3dd0314c0f7b2291e5b200ac8c7c3b925

-- Paused(address)
abbrev pub paused_selector : ℕ
paused_selector = 0x62e78cea01bee320cd4e420270b5ea74000d11b0c9f74754ebdbfc544b05a258

-- Unpaused(address)
abbrev pub unpaused_selector : ℕ
unpaused_selector = 0x5db9ee0a495bf2e6ff9c91a7834c1ba4fdd244a5e8aa4e537bd38aeae4b073aa

-- Deposit(address,uint256)
abbrev pub deposit_selector : ℕ
deposit_selector = 0xe1fffcc4923d04b559f4d29a8bfc6cda04eb5b0d3c460751c2402c5c5cc9109c

-- Withdrawal(address,uint256)
abbrev pub withdrawal_selector : ℕ
withdrawal_selector = 0x7fcf532c15f0a6db0bd6d0e038bea71d30d808c7d98cb3bf7268a95bf5081b65
