-- ===== src/Currencies/Types.antt =====
-- lib-serml/tokens/currencies/src/lib.rs: the interface of one currency, the errors, the events, the
-- storage and the `Config`.
use setheum.Common.{ℕ, Bool, Option, List, [], ◌∷◌, ◌++◌, Result, ok, err, ℤ}
use setheum.Primitives.Currency.{CurrencyId}

-- The pallet's errors; `other` is an error of another pallet.
pub data Error : Type 0 where
  amount_into_balance_failed balance_too_low erc20_invalid_operation evm_account_not_found : Error
  bad_origin : Error
  other : ℕ → Error

pub data Event : Type 0 where
  transferred : CurrencyId → ℕ → ℕ → ℕ → Event
  balance_updated : CurrencyId → ℕ → ℤ → Event
  deposited : CurrencyId → ℕ → ℕ → Event
  withdrawn : CurrencyId → ℕ → ℕ → Event

-- `BalanceStatus`
pub data BalanceStatus : Type 0 where
  free reserved : BalanceStatus

-- One currency over the storage `S`: `BasicCurrencyExtended`, `BasicLockableCurrency` and
-- `BasicReservableCurrency`. A call that may fail gives the new storage or an error; the number
-- that `slash`, `slash_reserved`, `unreserve` and `repatriate_reserved` give is what was not done.
pub record Basic (S : Type 0) : Type 0 where
  pub minimum_balance : S → ℕ
  pub total_issuance : S → ℕ
  pub total_balance : ℕ → S → ℕ
  pub free_balance : ℕ → S → ℕ
  pub ensure_can_withdraw : ℕ → ℕ → S → Result Error (Unit {0})
  pub transfer : ℕ → ℕ → ℕ → S → Result Error S
  pub deposit : ℕ → ℕ → S → Result Error S
  pub withdraw : ℕ → ℕ → S → Result Error S
  pub can_slash : ℕ → ℕ → S → Bool
  pub slash : ℕ → ℕ → S → ℕ × S
  pub update_balance : ℕ → ℤ → S → Result Error S
  -- the identifier of the lock first
  pub set_lock : ℕ → ℕ → ℕ → S → Result Error S
  pub extend_lock : ℕ → ℕ → ℕ → S → Result Error S
  pub remove_lock : ℕ → ℕ → S → Result Error S
  pub can_reserve : ℕ → ℕ → S → Bool
  pub slash_reserved : ℕ → ℕ → S → ℕ × S
  pub reserved_balance : ℕ → S → ℕ
  pub reserve : ℕ → ℕ → S → Result Error S
  pub unreserve : ℕ → ℕ → S → ℕ × S
  pub repatriate_reserved : ℕ → ℕ → ℕ → BalanceStatus → S → Result Error (ℕ × S)

-- The context of a call of a contract.
pub record InvokeContext : Type 0 where
  pub contract : ℕ
  pub sender : ℕ
  pub origin : ℕ

-- What the pallet calls outside it. `O` is the type of origins and `W` the storage of the rest of
-- the runtime.
pub record Config (O W : Type 0) : Type 0 where
  pub ensure_signed : O → Option ℕ
  pub is_root : O → Bool
  -- `T::Lookup::lookup`
  pub lookup_account : ℕ → Result Error ℕ
  pub native : Basic W
  -- `T::MultiCurrency`, at each currency, and its `transfer_all`
  pub multi : CurrencyId → Basic W
  pub transfer_all_tokens : ℕ → ℕ → W → Result Error W
  pub native_currency_id : CurrencyId
  -- `T::AddressMapping`
  pub get_evm_address : ℕ → W → Option ℕ
  pub get_or_create_evm_address : ℕ → W → ℕ × W
  -- `T::EVMBridge`
  pub get_origin : W → Option ℕ
  pub total_supply : InvokeContext → W → Result Error ℕ
  pub balance_of : InvokeContext → ℕ → W → Result Error ℕ
  pub bridge_transfer : InvokeContext → ℕ → ℕ → W → Result Error W
  -- on the bytes of the input as one number
  pub blake2_256 : ℕ → ℕ

pub record Currencies (W : Type 0) : Type 0 where
  pub events : List Event
  pub world : W

module _ {W : Type 0} where
  -- the rest of the runtime after a call of it, under `?`
  abbrev pub returned : Currencies W → Result Error W → Result Error (Currencies W)
  returned s (ok w) = ok (record s { world = w })
  returned s (err e) = err e

  abbrev pub deposit_event : Event → Result Error (Currencies W) → Result Error (Currencies W)
  deposit_event e (ok s) = ok (record s { events = s.events ++ (e ∷ []) })
  deposit_event e (err x) = err x

  -- a number that a call of the rest of the runtime gives
  abbrev pub counted : Currencies W → ℕ × W → ℕ × Currencies W
  counted s (n, w) = (n, record s { world = w })

  abbrev pub returned_number : Currencies W → Result Error (ℕ × W) → Result Error (ℕ × Currencies W)
  returned_number s (ok (n, w)) = ok (n, record s { world = w })
  returned_number s (err e) = err e
