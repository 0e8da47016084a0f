-- ===== src/Dex/Types.antt =====
-- The data of lib-serml/dex/dex/src/lib.rs: provision parameters, statuses, errors, events, the
-- storage of the pallet, and the `Config` of the runtime around it.
use setheum.Common.{
  ℕ, zero, suc, Bool, true, false, Option, List, [], ◌∷◌, ◌++◌, Result, ok, err, Action,
}
use setheum.Primitives.Currency.{CurrencyId, TradingPair}
use setheum.Runtime.Numbers.{FixedPoint, U256}

-- `(Balance, Balance)`, for the left and the right currency of a pair
abbrev pub Balances : Type 0
Balances = ℕ × ℕ

pub record TradingPairProvisionParameters : Type 0 where
  pub min_contribution : Balances
  pub target_provision : Balances
  pub accumulated_provision : Balances
  pub not_before : ℕ

pub data TradingPairStatus : Type 0 where
  not_enabled : TradingPairStatus
  provisioning : TradingPairProvisionParameters → TradingPairStatus
  enabled : TradingPairStatus

-- The pallet's errors; `other` is an error of another pallet, by its code, `bad_origin` that of
-- an origin check, and `panic` an `expect`, an assertion or an index out of range.
pub data Error : Type 0 where
  not_enabled_trading_pair must_be_enabled must_be_provisioning must_be_not_enabled : Error
  not_allowed_list invalid_contribution_increment invalid_liquidity_increment : Error
  invalid_currency_id invalid_trading_path_length insufficient_target_amount : Error
  excessive_supply_amount exceed_price_impact_limit insufficient_liquidity : Error
  zero_supply_amount zero_target_amount unacceptable_share_increment : Error
  unacceptable_liquidity_withdrawn bad_origin panic : Error
  other : ℕ → Error

pub data Event : Type 0 where
  add_provision : ℕ → CurrencyId → ℕ → CurrencyId → ℕ → Event
  add_liquidity : ℕ → CurrencyId → ℕ → CurrencyId → ℕ → ℕ → Event
  remove_liquidity : ℕ → CurrencyId → ℕ → CurrencyId → ℕ → ℕ → Event
  swap : ℕ → List CurrencyId → ℕ → ℕ → Event
  enable_trading_pair : TradingPair → Event
  list_trading_pair : TradingPair → Event
  disable_trading_pair : TradingPair → Event
  provisioning_to_enabled : TradingPair → ℕ → ℕ → ℕ → Event

-- What the pallet calls in the other pallets. `O` is the type of origins and `W` the storage of
-- the rest of the runtime: balances, incentives, ERC20 mappings, account references.
-- A call that fails leaves that storage as it was.
pub record Config (O W : Type 0) : Type 0 where
  pub fixed : FixedPoint
  pub u256 : U256
  -- `ensure_signed`, `ListingOrigin` and `UpdateOrigin`
  pub ensure_signed : O → Option ℕ
  pub listing_origin : O → Bool
  -- `TradingPathLimit` and the account of `PalletId`
  pub trading_path_limit : ℕ
  pub account_id : ℕ
  -- `T::Currency`: currency, accounts, amount
  pub transfer : CurrencyId → ℕ → ℕ → ℕ → W → Result ℕ W
  pub deposit : CurrencyId → ℕ → ℕ → W → Result ℕ W
  pub withdraw : CurrencyId → ℕ → ℕ → W → Result ℕ W
  pub total_issuance : CurrencyId → W → ℕ
  -- `T::DEXIncentives`
  pub do_deposit_dex_share : ℕ → CurrencyId → ℕ → W → Result ℕ W
  pub do_withdraw_dex_share : ℕ → CurrencyId → ℕ → W → Result ℕ W
  -- `T::CurrencyIdMapping`
  pub set_erc20_mapping : ℕ → W → Result ℕ W
  pub encode_evm_address : CurrencyId → W → Option ℕ
  -- `frame_system`
  pub block_number : W → ℕ
  pub inc_consumers : ℕ → W → Result ℕ W
  pub dec_consumers : ℕ → W → W

-- The storage items of the pallet, the events deposited so far, and the rest of the runtime.
-- The provisions of a pair are listed in the order in which its prefix is drained.
pub record Dex (W : Type 0) : Type 0 where
  pub liquidity_pool : TradingPair → Balances
  pub trading_pair_statuses : TradingPair → TradingPairStatus
  pub provisioning_pool : TradingPair → List (ℕ × Balances)
  -- what `Self::get_exchange_fee()` reads: the numerator and the denominator of the fee
  pub get_exchange_fee : ℕ × ℕ
  pub events : List Event
  pub world : W

abbrev pub Call : Type 0 → Type 0 → Type 0
Call W A = Action (Dex W) Error A

abbrev pub is_enabled : TradingPairStatus → Bool
is_enabled TradingPairStatus.enabled = true
is_enabled _ = false

abbrev pub is_not_enabled : TradingPairStatus → Bool
is_not_enabled TradingPairStatus.not_enabled = true
is_not_enabled _ = false

module _ {W : Type 0} where
  -- a call of another pallet, under `?`
  abbrev pub returned : Dex W → Result ℕ W → Result Error (Unit {0} × Dex W)
  returned s (ok w) = ok (tt, record s { world = w })
  returned s (err e) = err (Error.other e)

  abbrev pub outside : (W → Result ℕ W) → Call W (Unit {0})
  outside f s = returned s (f s.world)

  abbrev pub deposit_event : Event → Call W (Unit {0})
  deposit_event e s = ok (tt, record s { events = s.events ++ (e ∷ []) })

-- `if let` and `if` over actions
abbrev pub when : {W : Type 0} → Bool → Call W (Unit {0}) → Call W (Unit {0})
when true m s = m s
when false m s = ok (tt, s)

-- `xs[i]`, which panics out of range
abbrev pub index : {A W : Type 0} → List A → ℕ → Call W A
index [] i s = err Error.panic
index (x ∷ xs) zero s = ok (x, s)
index (x ∷ xs) (suc i) s = index xs i s
