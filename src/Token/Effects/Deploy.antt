-- ===== src/Token/Effects/Deploy.antt =====
-- What the constructor of contracts/universal-token/src/lib.rs leaves in the storage.
use fluentbase.Prelude.{
  ℕ, ◌≡◌, ◌≢◌, refl, Bool, false, not, ◌&&◌, Option, none, some, List, ◌==◌, arith, if◌then◌else◌,
  ◌∙◌, ap, fun_ext,
}
use fluentbase.Prelude.Bytes.{from_be_bytes}
use fluentbase.Types.Journal.Overlay.{peek_laws}
use fluentbase.Sdk.Host.{Host}
use fluentbase.Sdk.State.{System}
use fluentbase.Sdk.System as Sys
use fluentbase.Sdk.Result.{ok, ret}
use fluentbase.Sdk.Storage.{
  set_checked, write_storage_address, write_storage_short_string, pad_word,
}
use fluentbase.Token.Consts.{
  name_storage_slot, symbol_storage_slot, decimals_storage_slot, total_supply_storage_slot,
  minter_storage_slot, pauser_storage_slot, wrapped_storage_slot,
}
use fluentbase.Token.Settings.{InitialSettings, as_str, decode_with_prefix}
use fluentbase.Token.Guards.{when_non_payable, when_non_static, balance_slot}
use fluentbase.Token.Entry.{emit_initial, write_wrapped, is_wrapped, constructor}
use fluentbase.Token.Ledger.{slot_value, set_lem, write_lem}
use fluentbase.Token.Ledger.Emits.{emit_laws}

text_lem :
    (i : ℕ) (text : List ℕ) (s : System)
    → (write_storage_short_string i text s).0 ≡ ok tt
    → ((write_storage_short_string i text s).1.context ≡ s.context)
      × ((k : ℕ)
          → slot_value (write_storage_short_string i text s).1 k
            ≡ (if i == k then from_be_bytes (pad_word text) else slot_value s k))
unfolding slot_value write_storage_short_string
text_lem i text s h = (grind (arith, peek_laws), λ k. grind (arith, peek_laws))

text_exit : (i : ℕ) (text : List ℕ) (s : System) → (write_storage_short_string i text s).0 ≢ ret 0
unfolding write_storage_short_string
text_exit i text s h = grind arith

address_write_lem :
    (i a : ℕ) (s : System)
    → ((write_storage_address i a s).0 ≡ ok tt)
      × ((write_storage_address i a s).1.context ≡ s.context)
      × ((k : ℕ)
          → slot_value (write_storage_address i a s).1 k ≡ (if i == k then a else slot_value s k))
unfolding write_storage_address
address_write_lem i a s = write_lem i a s

initial_lem :
    (a v : ℕ) (s : System)
    → ((emit_initial a v s).0 ≡ ok tt)
      × ((k : ℕ) → slot_value (emit_initial a v s).1 k ≡ slot_value s k)
unfolding emit_initial
initial_lem a v s = (grind (arith, emit_laws), λ k. grind (arith, emit_laws))

-- The slot of the wrapper's flag, which is written if the settings name it.
abbrev pub wrapped_slots : Option Bool → (ℕ → ℕ) → ℕ → ℕ
wrapped_slots none b k = b k
wrapped_slots (some w) b k = if wrapped_storage_slot == k then (if w then 1 else 0) else b k

-- The slots of a new token, the last write first.
abbrev pub deployed_slots : Host → ℕ → InitialSettings → List ℕ → List ℕ → (ℕ → ℕ) → ℕ → ℕ
deployed_slots host caller c name symbol b k =
    if pauser_storage_slot == k
    then c.pauser
    else if minter_storage_slot == k
    then c.minter
    else if total_supply_storage_slot == k
    then c.initial_supply
    else if balance_slot host caller == k
    then c.initial_supply
    else if decimals_storage_slot == k
    then c.decimals
    else if symbol_storage_slot == k
    then from_be_bytes (pad_word symbol)
    else if name_storage_slot == k
    then from_be_bytes (pad_word name)
    else b k

wrapped_write_lem :
    (w : Option Bool) (minter : ℕ) (s : System)
    → (write_wrapped w minter s).0 ≡ ok tt
    → (k : ℕ) → slot_value (write_wrapped w minter s).1 k ≡ wrapped_slots w (slot_value s) k
unfolding write_wrapped
wrapped_write_lem w minter s h k = grind (arith, write_lem)

wrapped_write_exit :
    (w : Option Bool) (minter : ℕ) (s : System) → (write_wrapped w minter s).0 ≢ ret 0
unfolding write_wrapped
wrapped_write_exit w minter s h = grind (arith, write_lem)

-- The fuel and the metadata are no slots.
charge_lem : (n : ℕ) (s : System) (k : ℕ) → slot_value (Sys.charge_fuel n s).1 k ≡ slot_value s k
unfolding slot_value Sys.charge_fuel
charge_lem n s k = grind (arith, peek_laws)

charge_exit : (n : ℕ) (s : System) → (Sys.charge_fuel n s).0 ≢ ret 0
unfolding Sys.charge_fuel
charge_exit n s h = grind arith

metadata_lem :
    (bytes : List ℕ) (s : System)
    → ((Sys.write_contract_metadata bytes s).0 ≡ ok tt)
      × ((k : ℕ) → slot_value (Sys.write_contract_metadata bytes s).1 k ≡ slot_value s k)
unfolding slot_value Sys.write_contract_metadata
metadata_lem bytes s = (refl, λ k. refl)

ruleset exits = (text_exit, wrapped_write_exit, charge_exit)

module _ (host : Host) (input : List ℕ) (c : InitialSettings) (name symbol : List ℕ) (s : System)
    (decoded : decode_with_prefix input ≡ some c) (named : as_str host c.token_name ≡ some name)
    (marked : as_str host c.token_symbol ≡ some symbol)
    (built : (constructor host input s).0 ≡ ok 0) where
  abbrev after_name : System
  after_name = (write_storage_short_string name_storage_slot name s).1

  abbrev after_symbol : System
  after_symbol = (write_storage_short_string symbol_storage_slot symbol after_name).1

  abbrev after_supply : System
  after_supply =
      (Sys.write_storage total_supply_storage_slot c.initial_supply
        (set_checked (balance_slot host s.context.caller) c.initial_supply
          (Sys.write_storage decimals_storage_slot c.decimals after_symbol).1).1).1

  abbrev after_owners : System
  after_owners =
      (write_storage_address pauser_storage_slot c.pauser
        (write_storage_address minter_storage_slot c.minter
          (emit_initial s.context.caller c.initial_supply after_supply).1).1).1

  constructor_texts :
      (s.context.value ≡ 0)
      × (s.context.is_static ≡ false)
      × ((write_storage_short_string name_storage_slot name s).0 ≡ ok tt)
      × ((write_storage_short_string symbol_storage_slot symbol after_name).0 ≡ ok tt)
  unfolding constructor when_non_payable when_non_static
  constructor_texts =
      (grind (arith, exits), grind (arith, exits), grind (arith, exits), grind (arith, exits))

  constructor_caller :
      (Sys.write_storage decimals_storage_slot c.decimals after_symbol).1.context.caller
      ≡ s.context.caller
  constructor_caller =
      let (_, _, n, m) = constructor_texts in
      let (e, _) = text_lem name_storage_slot name s n in
      let (f, _) = text_lem symbol_storage_slot symbol after_name m in grind (arith, write_lem)

  constructor_steps :
      (is_wrapped c.wrapped && not (c.initial_supply == 0) ≡ false)
      × ((write_wrapped c.wrapped c.minter after_owners).0 ≡ ok tt)
      × ((k : ℕ)
          → slot_value (constructor host input s).1 k
            ≡ slot_value (write_wrapped c.wrapped c.minter after_owners).1 k)
  unfolding constructor when_non_payable when_non_static
  constructor_steps =
      let (_, _, n, m) = constructor_texts in
      let caller = constructor_caller in
      (
        grind (arith, exits, write_lem, set_lem),
        grind (arith, exits, write_lem, set_lem, initial_lem, address_write_lem),
        λ k. grind (
          arith, exits, write_lem, set_lem, initial_lem, address_write_lem, charge_lem,
          metadata_lem,
        ),
      )

  owners-slot_value :
      (k : ℕ)
      → slot_value after_owners k
        ≡ deployed_slots host s.context.caller c name symbol (slot_value s) k
  owners-slot_value k =
      let (_, _, n, m) = constructor_texts in
      let (_, e) = text_lem name_storage_slot name s n in
      let (_, f) = text_lem symbol_storage_slot symbol after_name m in
      grind (arith, e k, f k, write_lem, set_lem, initial_lem, address_write_lem)

  -- A constructor that succeeds, on a payload that decodes to settings with a readable name and
  -- symbol, was not payable and not static; a wrapping token starts with no supply. The name, the
  -- symbol and the decimals are stored; the caller's balance and the total supply are both the
  -- initial supply; minter and pauser, and the wrapper's flag if the settings name it, are stored;
  -- no other slot changes.
  pub constructor-slot_value :
      (s.context.value ≡ 0)
      × (s.context.is_static ≡ false)
      × (is_wrapped c.wrapped && not (c.initial_supply == 0) ≡ false)
      × ((k : ℕ)
          → slot_value (constructor host input s).1 k
            ≡ wrapped_slots c.wrapped
                (deployed_slots host s.context.caller c name symbol (slot_value s))
                k)
  constructor-slot_value =
      let (payable, static, _, _) = constructor_texts in
      let (wrapper, flagged, final) = constructor_steps in
      (
        payable,
        static,
        wrapper,
        λ k.
            final k
            ∙ wrapped_write_lem c.wrapped c.minter after_owners flagged k
            ∙ ap (λ b. wrapped_slots c.wrapped b k) (fun_ext owners-slot_value),
      )
