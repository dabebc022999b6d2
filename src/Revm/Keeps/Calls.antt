-- ===== src/Revm/Keeps/Calls.antt =====
-- crates/revm/src/syscall.rs: what the calls and the creations keep, and what they grant.
use fluentbase.Prelude.{
  ℕ, ◌+◌, ◌-◌, ◌/◌, ◌≤◌, ◌≡◌, refl, Bool, true, false, not, ◌&&◌, ◌==◌, Option, none, some, List,
  arith, if◌then◌else◌, take, drop,
}
use fluentbase.Prelude.Bytes.{from_be_bytes}
use fluentbase.Types.ExitCode.{ExitCode}
use fluentbase.Revm.Engine.{Engine, AccountInfo}
use fluentbase.Revm.Interruption.{
  Interruption, Frame, Exit, CallValue, transfer, apparent, CallScheme, charge_regular_gas,
  input_at_least, input_from, gets, from_le_bytes, pure, exit, ◌>>=◌, ◌>>◌, Call,
}
use fluentbase.Revm.Keeps.{
  Keeps, IsKept, keeps_rules, Keeps-writable, Keeps-input_at_least, Keeps-input_from, Keeps-gets,
  Keeps-pure,
}
use fluentbase.Revm.Keeps.Grants.{
  Does, Does-Keeps, Keeps-Does, Does-bind, Does-after, Does-guarded, moved, IsGranting,
}
use fluentbase.Revm.Syscall.Calls.{
  saturating_add, Delegated, load_delegate, created, load_account_delegated, charge_call,
  refuse_static_transfer, charge_transfer, with_stipend, launch, call, static_call, call_code,
  delegate_call, create,
}

module _ {G W C S : Type 0} (rt : Engine G W C S) (i : Interruption) (P : Frame G W → Type 0)
    (Q : Exit C → Frame G W → Type 0) (kept : IsKept rt i P Q) where
  load_delegate-Keeps :
      (a r c : ℕ) (account : AccountInfo C) (delegate : Option ℕ)
      → Keeps P Q (load_delegate rt a r c account delegate)
  unfolding load_delegate
  load_delegate-Keeps a r c account none = search keeps_rules
  load_delegate-Keeps a r c account (some delegate) =
      search (keeps_rules, kept.settles, kept.infos) depth 20

  created-Keeps :
      (a c : ℕ) (b : Bool) (account : AccountInfo C) → Keeps P Q (created rt a c b account)
  unfolding created
  created-Keeps a c b account = search keeps_rules

  load_account_delegated-Keeps : (a : ℕ) (b c : Bool) → Keeps P Q (load_account_delegated rt a b c)
  unfolding load_account_delegated
  load_account_delegated-Keeps a b c =
      search (keeps_rules, kept.infos, load_delegate-Keeps, created-Keeps) depth 20

module _ {G W C S : Type 0} (rt : Engine G W C S) (i : Interruption) (P : ℕ → Frame G W → Type 0)
    (Q : Exit C → Frame G W → Type 0) (granting : IsGranting rt i P Q) where
  -- What a transfer of value adds to the callee's gas.
  stipend_of : ℕ → ℕ
  stipend_of value = if value == 0 then 0 else rt.call_stipend

  charge_transfer-Does : (v : ℕ) → Does (P 0) (λ _. P (stipend_of v)) Q (charge_transfer rt i v)
  unfolding charge_transfer stipend_of
  charge_transfer-Does v = go (v == 0)
    where
      go :
          (b : Bool)
          → Does
              (P 0)
              (λ _. P (if b then 0 else rt.call_stipend))
              Q
              (if b then pure tt else charge_regular_gas rt rt.transfer_value_cost)
      go true = Does-Keeps (pure tt) (Keeps-pure tt)
      go false = granting.pays

  charge_call-Does :
      (r n : ℕ) (account : Delegated C) → Does (P r) (λ g. P (r + g)) Q (charge_call rt n account)
  unfolding charge_call pure
  charge_call-Does r n account =
      let kept = granting.kept r in
      Does-after _ _ (kept.charges _) λ _. Does-after _ _ (kept.state_charges _) λ _.
        Does-after (gets _) _ (Keeps-gets _)
          λ reduced. Does-bind _ _ (granting.grants r _) λ _. record { at = λ f h. h }

  launch-Does :
      (r n g t c : ℕ) (v : CallValue) (s : CallScheme) (b : Bool) (account : Delegated C)
      → g ≤ r
      → (i.is_static ≡ true → (b ≡ true) × (moved v ≡ 0))
      → Does (P r) (λ _. P 0) Q (launch rt i n g t c v s b account)
  unfolding launch exit
  launch-Does r n g t c v s b account fits allowed =
      let kept = granting.kept r in
      Does-after (input_from i n) _ (Keeps-input_from i n kept.settles) λ input.
        Does-after (gets _) _ (Keeps-gets _)
          λ reservoir. record { at = λ f h. granting.opens_call r _ fits allowed f h }

  -- A value that passes the test is zero in a static call.
  static_value : (v : ℕ) → not (i.is_static && not (v == 0)) ≡ true → i.is_static ≡ true → v ≡ 0
  static_value v h static = ground arith

  with_stipend-le : (v g : ℕ) → with_stipend rt i v g ≤ stipend_of v + g
  unfolding with_stipend stipend_of saturating_add
  with_stipend-le v g = ground arith

  -- The steps of all four calls behind the tests of their operands.
  call_tail :
      (b c d : Bool) (size target called caller n v : ℕ) (sent : CallValue) (s : CallScheme)
      → Call G W C (Unit {0})
  call_tail b c d size target called caller n v sent s = do
    account ← load_account_delegated rt called b c
    gas_limit ← charge_call rt n account
    launch rt i size (with_stipend rt i v gas_limit) target caller sent s d account

  call_tail-Does :
      (b c d : Bool) (size target called caller n v : ℕ) (sent : CallValue) (s : CallScheme)
      → (i.is_static ≡ true → (d ≡ true) × (moved sent ≡ 0))
      → Does (P (stipend_of v)) (λ _. P 0) Q (call_tail b c d size target called caller n v sent s)
  unfolding call_tail
  call_tail-Does b c d size target called caller n v sent s allowed =
      let kept = granting.kept (stipend_of v) in
      Does-after (load_account_delegated rt called b c) _
        (load_account_delegated-Keeps rt i (P (stipend_of v)) Q kept called b c)
        λ account.
          Does-bind (charge_call rt n account) _ (charge_call-Does (stipend_of v) n account)
            λ gas_limit.
              launch-Does (stipend_of v + gas_limit) size (with_stipend rt i v gas_limit) target
                caller sent s d account (with_stipend-le v gas_limit) allowed

  -- A call that may move value, behind its operands.
  valued-Does :
      (b : Bool) (target called v : ℕ) (s : CallScheme)
      → Does
          (P 0)
          (λ _. P 0)
          Q
          (do
            refuse_static_transfer rt i v
            charge_regular_gas rt rt.gas_warm_storage_read
            charge_transfer rt i v
            call_tail
                (not (v == 0))
                b
                i.is_static
                52
                target
                called
                i.target_address
                i.fuel_limit
                v
                (transfer v)
                s)
  unfolding refuse_static_transfer
  valued-Does b target called v s =
      let kept = granting.kept 0 in
      Does-guarded (not (i.is_static && not (v == 0))) ExitCode.state_change_during_static_call _
        kept.settles
        λ h. Does-after (charge_regular_gas rt rt.gas_warm_storage_read) _ (kept.charges _) λ _.
          Does-bind (charge_transfer rt i v) _ (charge_transfer-Does v) λ _.
            call_tail-Does (not (v == 0)) b i.is_static 52 target called i.target_address
              i.fuel_limit v (transfer v) s λ static. (static, static_value v h static)

  -- A call that moves none.
  plain-Does :
      (d : Bool) (target called caller : ℕ) (sent : CallValue) (s : CallScheme)
      → (i.is_static ≡ true → (d ≡ true) × (moved sent ≡ 0))
      → Does
          (P 0)
          (λ _. P 0)
          Q
          (do
            charge_regular_gas rt rt.gas_warm_storage_read
            call_tail false false d 20 target called caller i.fuel_limit 0 sent s)
  unfolding stipend_of
  plain-Does d target called caller sent s allowed =
      let kept = granting.kept 0 in
      Does-after (charge_regular_gas rt rt.gas_warm_storage_read) _ (kept.charges _)
        λ _. call_tail-Does false false d 20 target called caller i.fuel_limit 0 sent s allowed

  pub call-Keeps : Keeps (P 0) Q (call rt i)
  unfolding call call_tail
  call-Keeps = Keeps-Does (call rt i) (
      Does-after (input_at_least i 52) _ (Keeps-input_at_least i 52 (granting.kept 0).settles)
        λ input.
          let target = from_be_bytes (take 20 input) in
          valued-Does true target target (from_le_bytes (take 32 (drop 20 input))) CallScheme.call)

  pub call_code-Keeps : Keeps (P 0) Q (call_code rt i)
  unfolding call_code call_tail
  call_code-Keeps = Keeps-Does (call_code rt i) (
      Does-after (input_at_least i 52) _ (Keeps-input_at_least i 52 (granting.kept 0).settles)
        λ input.
          valued-Does false i.target_address (from_be_bytes (take 20 input))
            (from_le_bytes (take 32 (drop 20 input))) CallScheme.call_code)

  pub static_call-Keeps : Keeps (P 0) Q (static_call rt i)
  unfolding static_call call_tail with_stipend
  static_call-Keeps = Keeps-Does (static_call rt i) (
      Does-after (input_at_least i 20) _ (Keeps-input_at_least i 20 (granting.kept 0).settles)
        λ input.
          let target = from_be_bytes (take 20 input) in
          plain-Does true target target i.target_address (transfer 0) CallScheme.static_call
            λ static. (refl, refl))

  pub delegate_call-Keeps : Keeps (P 0) Q (delegate_call rt i)
  unfolding delegate_call call_tail with_stipend
  delegate_call-Keeps = Keeps-Does (delegate_call rt i) (
      Does-after (input_at_least i 20) _ (Keeps-input_at_least i 20 (granting.kept 0).settles)
        λ input.
          plain-Does i.is_static i.target_address (from_be_bytes (take 20 input)) i.caller_address
            (apparent i.call_value) CallScheme.delegate_call λ static. (static, refl))

  -- The end of a creation: all but a 64th of the gas goes to the new frame.
  create_tail : Bool → List ℕ → List ℕ → Call G W C (Unit {0})
  create_tail is_create2 input init_code = do
    remaining ← gets λ f. rt.remaining f.gas
    let gas_limit = remaining - remaining / 64
    charge_regular_gas rt gas_limit
    reservoir ← gets λ f. rt.reservoir f.gas
    exit (
        Exit.new_create (record {
          caller = i.target_address;
          salt = if is_create2 then some (from_le_bytes (drop 32 input)) else none;
          value = from_le_bytes (take 32 input);
          init_code = init_code;
          gas_limit = gas_limit;
          reservoir = reservoir;
        }))

  create_tail-Does :
      (b : Bool) (input init_code : List ℕ)
      → i.is_static ≡ false
      → Does (P 0) (λ _. P 0) Q (create_tail b input init_code)
  unfolding create_tail exit
  create_tail-Does b input init_code h = Does-after (gets _) _ (Keeps-gets _) λ remaining.
      Does-bind _ _ (granting.grants 0 (remaining - remaining / 64)) λ _.
        Does-after (gets _) _ (Keeps-gets _) λ reservoir. record {
          at =
              λ f p. granting.opens_create (0 + (remaining - remaining / 64)) _ (omega arith) h f p;
        }

  pub create-Keeps : (b : Bool) → Keeps (P 0) Q (create rt i b)
  unfolding create create_tail
  create-Keeps b =
      let kept = granting.kept 0 in
      Keeps-writable i _ kept.settles λ h.
        search
          (
            keeps_rules,
            kept.settles,
            kept.charges,
            λ (input init_code : List ℕ).
                Keeps-Does (create_tail b input init_code) (create_tail-Does b input init_code h),
          )
          depth 40
