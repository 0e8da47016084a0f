-- ===== src/Chainbridge/Types.antt =====
-- The errors, the events, the storage and the `Config`.
use setheum.Common.{ℕ, Bool, Option, List, Result, Action}
use setheum.Primitives.Currency.{CurrencyId}

pub data Error : Type 0 where
  invalid_dest_chain_id resource_id_already_registered resource_id_not_registered : Error
  resource_id_currency_id_not_match bad_origin : Error
  other : ℕ → Error

pub data Event : Type 0 where
  register_resource_id : ℕ → CurrencyId → Event
  unregister_resource_id : ℕ → CurrencyId → Event

-- What the pallet calls outside it. `O` is the type of origins, `W` the storage of the rest of the
-- runtime.
pub record Config (O W : Type 0) : Type 0 where
  pub ensure_signed : O → Option ℕ
  pub registor_origin : O → Bool
  pub bridge_origin : O → Option ℕ
  pub native_currency_id : CurrencyId
  -- `T::Currency`: currency, accounts, amount
  pub transfer : CurrencyId → ℕ → ℕ → ℕ → W → Result ℕ W
  pub deposit : CurrencyId → ℕ → ℕ → W → Result ℕ W
  pub withdraw : CurrencyId → ℕ → ℕ → W → Result ℕ W
  -- `chainbridge::Module`, with `ChainId::get()`
  pub chain_id : ℕ
  pub account_id : ℕ
  pub chain_whitelisted : ℕ → W → Bool
  pub transfer_fungible : ℕ → ℕ → List ℕ → ℕ → W → Result ℕ W

pub record Chainbridge (W : Type 0) : Type 0 where
  pub resource_ids : CurrencyId → Option ℕ
  pub currency_ids : ℕ → Option CurrencyId
  pub events : List Event
  pub world : W

abbrev pub Call : Type 0 → Type 0
Call W = Action (Chainbridge W) Error (Unit {0})
