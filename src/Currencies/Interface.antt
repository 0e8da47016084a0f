-- ===== src/Currencies/Interface.antt =====
-- The pallet as one currency (`Currency`), other pallets' currencies as one (`BasicCurrencyAdapter`),
-- and the calls.
use setheum.Common.{
  ℕ, Bool, true, false, Option, none, some, Result, ok, err, if◌then◌else◌, checked_sub, ℤ,
  is_positive, try_into_u128, suc, ◌==◌, i128_max,
}
use setheum.Primitives.Currency.{CurrencyId}
use setheum.Currencies.Types.{
  Error, Event, BalanceStatus, Basic, Config, Currencies, returned, deposit_event,
}
use setheum.Currencies.Pallet.{
  minimum_balance, total_issuance, total_balance, free_balance, ensure_can_withdraw, transfer,
  deposit, withdraw, can_slash, slash, update_balance, set_lock, extend_lock, remove_lock,
}
use setheum.Currencies.Reserves.{
  can_reserve, slash_reserved, reserved_balance, reserve, unreserve, repatriate_reserved,
}

module _ {O W : Type 0} (T : Config O W) where
  -- `Currency<T, GetCurrencyId>`
  abbrev pub currency : CurrencyId → Basic (Currencies W)
  currency c = record {
    minimum_balance = λ s. minimum_balance T c s.world;
    total_issuance = λ s. total_issuance T c s.world;
    total_balance = λ who s. total_balance T c who s.world;
    free_balance = λ who s. free_balance T c who s.world;
    ensure_can_withdraw = λ who amount s. ensure_can_withdraw T c who amount s.world;
    transfer = transfer T c;
    deposit = deposit T c;
    withdraw = withdraw T c;
    can_slash = λ who amount s. can_slash T c who amount s.world;
    slash = slash T c;
    update_balance = update_balance T c;
    set_lock = λ lock_id who amount. set_lock T lock_id c who amount;
    extend_lock = λ lock_id who amount. extend_lock T lock_id c who amount;
    remove_lock = λ lock_id who. remove_lock T lock_id c who;
    can_reserve = λ who value s. can_reserve T c who value s.world;
    slash_reserved = slash_reserved T c;
    reserved_balance = λ who s. reserved_balance T c who s.world;
    reserve = reserve T c;
    unreserve = unreserve T c;
    repatriate_reserved = repatriate_reserved T c;
  }

  abbrev pub or_bad_origin : Option ℕ → Result Error ℕ
  or_bad_origin (some who) = ok who
  or_bad_origin none = err Error.bad_origin

  -- two results under `?`, and what follows
  abbrev pub both :
      {A B S : Type 0} → Result Error A → Result Error B → (A → B → Result Error S) → Result Error S
  both (err e) _ k = err e
  both (ok a) (err e) k = err e
  both (ok a) (ok b) k = k a b

  -- the calls of the pallet
  unfoldable pub call_transfer : O → ℕ → CurrencyId → ℕ → Currencies W → Result Error (Currencies W)
  call_transfer origin dest c amount s =
      both (or_bad_origin (T.ensure_signed origin)) (T.lookup_account dest)
        λ from to. transfer T c from to amount s

  unfoldable pub transfer_native_currency : O → ℕ → ℕ → Currencies W → Result Error (Currencies W)
  transfer_native_currency origin dest amount s =
      both (or_bad_origin (T.ensure_signed origin)) (T.lookup_account dest) λ from to.
        deposit_event (Event.transferred T.native_currency_id from to amount)
          (returned s (T.native.transfer from to amount s.world))

  abbrev pub or_not_root : Bool → Result Error (Unit {0})
  or_not_root true = ok tt
  or_not_root false = err Error.bad_origin

  unfoldable pub call_update_balance :
      O → ℕ → CurrencyId → ℤ → Currencies W → Result Error (Currencies W)
  call_update_balance origin who c amount s =
      both (or_not_root (T.is_root origin)) (T.lookup_account who)
        λ _ dest. update_balance T c dest amount s

-- A currency of `frame_support`: `Currency`, `LockableCurrency` and `ReservableCurrency`.
pub record PalletCurrency (S : Type 0) : Type 0 where
  pub minimum_balance : S → ℕ
  pub total_issuance : S → ℕ
  pub total_balance : ℕ → S → ℕ
  pub free_balance : ℕ → S → ℕ
  -- account, amount, new balance
  pub ensure_can_withdraw : ℕ → ℕ → ℕ → S → Result Error (Unit {0})
  pub transfer : ℕ → ℕ → ℕ → S → Result Error S
  -- the amount that was deposited, which the adapter drops
  pub deposit_creating : ℕ → ℕ → S → ℕ × S
  pub withdraw : ℕ → ℕ → S → Result Error S
  pub can_slash : ℕ → ℕ → S → Bool
  -- what was slashed and what was not
  pub slash : ℕ → ℕ → S → (ℕ × ℕ) × S
  pub set_lock : ℕ → ℕ → ℕ → S → S
  pub extend_lock : ℕ → ℕ → ℕ → S → S
  pub remove_lock : ℕ → ℕ → S → S
  pub can_reserve : ℕ → ℕ → S → Bool
  pub slash_reserved : ℕ → ℕ → S → (ℕ × ℕ) × S
  pub reserved_balance : ℕ → S → ℕ
  pub reserve : ℕ → ℕ → S → Result Error S
  pub unreserve : ℕ → ℕ → S → ℕ × S
  pub repatriate_reserved : ℕ → ℕ → ℕ → BalanceStatus → S → Result Error (ℕ × S)

-- `by_amount.abs().try_into()`: `abs` of the least `i128` wraps to itself, which is no balance
abbrev pub abs_try_into : ℤ → Option ℕ
abs_try_into (ℤ.pos n) = try_into_u128 n
abs_try_into (ℤ.negsuc n) = if n == i128_max then none else try_into_u128 (suc n)

module _ {S : Type 0} (P : PalletCurrency S) where
  -- `.checked_sub(&amount).ok_or(BalanceTooLow)?`
  abbrev pub adapter_can_withdraw : Option ℕ → ℕ → ℕ → S → Result Error (Unit {0})
  adapter_can_withdraw none who amount s = err Error.balance_too_low
  adapter_can_withdraw (some new_balance) who amount s =
      P.ensure_can_withdraw who amount new_balance s

  -- `let (_, gap) = …; gap`
  abbrev pub gap : (ℕ × ℕ) × S → ℕ × S
  gap ((_, left), s) = (left, s)

  abbrev pub adapter_deposit : ℕ → ℕ → S → Result Error S
  adapter_deposit who amount s = ok ((P.deposit_creating who amount s).1)

  abbrev pub adapter_update : Option ℕ → ℕ → ℤ → S → Result Error S
  adapter_update none who by_amount s = err Error.amount_into_balance_failed
  adapter_update (some by_balance) who by_amount s =
      if is_positive by_amount
      then adapter_deposit who by_balance s
      else P.withdraw who by_balance s

  -- `BasicCurrencyAdapter`
  abbrev pub adapter : Basic S
  adapter = record {
    minimum_balance = P.minimum_balance;
    total_issuance = P.total_issuance;
    total_balance = P.total_balance;
    free_balance = P.free_balance;
    ensure_can_withdraw = λ who amount s.
        adapter_can_withdraw (checked_sub (P.free_balance who s) amount) who amount s;
    transfer = P.transfer;
    deposit = adapter_deposit;
    withdraw = P.withdraw;
    can_slash = P.can_slash;
    slash = λ who amount s. gap (P.slash who amount s);
    update_balance = λ who by_amount s. adapter_update (abs_try_into by_amount) who by_amount s;
    set_lock = λ lock_id who amount s. ok (P.set_lock lock_id who amount s);
    extend_lock = λ lock_id who amount s. ok (P.extend_lock lock_id who amount s);
    remove_lock = λ lock_id who s. ok (P.remove_lock lock_id who s);
    can_reserve = P.can_reserve;
    slash_reserved = λ who value s. gap (P.slash_reserved who value s);
    reserved_balance = P.reserved_balance;
    reserve = P.reserve;
    unreserve = P.unreserve;
    repatriate_reserved = P.repatriate_reserved;
  }
