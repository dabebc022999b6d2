-- ===== src/Upgrade/Router.antt =====
-- contracts/runtime-upgrade/src/lib.rs: the calls that `router(mode = "solidity")` hands to the methods
-- of `RuntimeUpgradeTr`, with their arguments decoded.
use fluentbase.Prelude.{ℕ, List}
use fluentbase.Sdk.Host.{Host}
use fluentbase.Upgrade.{Action, Toolchain}
use fluentbase.Upgrade.Handlers as App

-- The calls of the contract that change its state; `owner()` is a read.
pub data Request : Type 0 where
  upgrade_to : ℕ → ℕ → List ℕ → List ℕ → Request
  upgrade_evm_to : ℕ → ℕ → List ℕ → List ℕ → Request
  recompile : ℕ → Request
  plan_upgrade : ℕ → List ℕ → List ℕ → List ℕ → ℕ → Request
  upgrade_to_planned : ℕ → List ℕ → Request
  change_owner : ℕ → Request
  renounce_ownership : Request

unfoldable pub handle : Host → Toolchain → Request → Action (Unit {0})
unfolding App.upgrade_to App.upgrade_evm_to App.recompile App.plan_upgrade App.upgrade_to_planned
    App.change_owner App.renounce_ownership
handle host tools (Request.upgrade_to t h v code) = App.upgrade_to host tools t h v code
handle host tools (Request.upgrade_evm_to t h v code) = App.upgrade_evm_to host tools t h v code
handle host tools (Request.recompile t) = App.recompile host tools t
handle host tools (Request.plan_upgrade h v ts hs updater) = App.plan_upgrade host h v ts hs updater
handle host tools (Request.upgrade_to_planned t code) = App.upgrade_to_planned host tools t code
handle host tools (Request.change_owner owner) = App.change_owner host owner
handle host tools Request.renounce_ownership = App.renounce_ownership host
