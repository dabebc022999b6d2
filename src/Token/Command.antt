-- ===== src/Token/Command.antt =====
-- crates/sdk/src/universal_token/command.rs: the arguments of the methods. `derive(Codec)` reads
-- the fields of a static struct one word after the other.
use fluentbase.Prelude.{ℕ, Option, some, List}
use fluentbase.Codec.{◌>>=◌, decode_uint, decode_address, decode_u8}

pub record TransferCommand : Type 0 where
  pub to : ℕ
  pub amount : ℕ

pub record TransferFromCommand : Type 0 where
  pub from : ℕ
  pub to : ℕ
  pub amount : ℕ

pub record ApproveCommand : Type 0 where
  pub spender : ℕ
  pub amount : ℕ

pub record AllowanceCommand : Type 0 where
  pub owner : ℕ
  pub spender : ℕ

pub record BalanceOfCommand : Type 0 where
  pub owner : ℕ

pub record NoncesCommand : Type 0 where
  pub owner : ℕ

pub record MintCommand : Type 0 where
  pub to : ℕ
  pub amount : ℕ

pub record BurnCommand : Type 0 where
  pub from : ℕ
  pub amount : ℕ

pub record PermitCommand : Type 0 where
  pub owner : ℕ
  pub spender : ℕ
  pub value : ℕ
  pub deadline : ℕ
  pub v : ℕ
  pub r : ℕ
  pub s : ℕ

pub record WithdrawCommand : Type 0 where
  pub amount : ℕ

-- `TransferCommand::try_decode`, and so on; `none` is `ExitCode::MalformedBuiltinParams`.
unfoldable pub decode_transfer : List ℕ → Option TransferCommand
decode_transfer buf = do
  to ← decode_address buf 0
  amount ← decode_uint buf 32
  some (record { to = to; amount = amount })

unfoldable pub decode_transfer_from : List ℕ → Option TransferFromCommand
decode_transfer_from buf = do
  from ← decode_address buf 0
  to ← decode_address buf 32
  amount ← decode_uint buf 64
  some (record { from = from; to = to; amount = amount })

unfoldable pub decode_approve : List ℕ → Option ApproveCommand
decode_approve buf = do
  spender ← decode_address buf 0
  amount ← decode_uint buf 32
  some (record { spender = spender; amount = amount })

unfoldable pub decode_allowance : List ℕ → Option AllowanceCommand
decode_allowance buf = do
  owner ← decode_address buf 0
  spender ← decode_address buf 32
  some (record { owner = owner; spender = spender })

unfoldable pub decode_balance_of : List ℕ → Option BalanceOfCommand
decode_balance_of buf = do owner ← decode_address buf 0; some (record { owner = owner })

unfoldable pub decode_nonces : List ℕ → Option NoncesCommand
decode_nonces buf = do owner ← decode_address buf 0; some (record { owner = owner })

unfoldable pub decode_mint : List ℕ → Option MintCommand
decode_mint buf = do
  to ← decode_address buf 0
  amount ← decode_uint buf 32
  some (record { to = to; amount = amount })

unfoldable pub decode_burn : List ℕ → Option BurnCommand
decode_burn buf = do
  from ← decode_address buf 0
  amount ← decode_uint buf 32
  some (record { from = from; amount = amount })

unfoldable pub decode_permit : List ℕ → Option PermitCommand
decode_permit buf = do
  owner ← decode_address buf 0
  spender ← decode_address buf 32
  value ← decode_uint buf 64
  deadline ← decode_uint buf 96
  v ← decode_u8 buf 128
  r ← decode_uint buf 160
  s ← decode_uint buf 192
  some (record {
    owner = owner;
    spender = spender;
    value = value;
    deadline = deadline;
    v = v;
    r = r;
    s = s;
  })

unfoldable pub decode_withdraw : List ℕ → Option WithdrawCommand
decode_withdraw buf = do amount ← decode_uint buf 0; some (record { amount = amount })
