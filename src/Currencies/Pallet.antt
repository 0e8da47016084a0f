-- ===== src/Currencies/Pallet.antt =====
-- The currencies' balances, transfers, deposits, withdrawals and locks, by the kind of currency.
use setheum.Common.{
  ℕ, ◌+◌, ◌*◌, ◌/◌, ◌^◌, Bool, false, ◌||◌, Option, none, some, Result, ok, err, ◌==◌, leb, is_zero,
  if◌then◌else◌, ℤ,
}
use setheum.Primitives.Currency.{CurrencyId, currency_beq}
use setheum.Runtime.Numbers.{unwrap_or_default}
use setheum.Currencies.Types.{
  Error, Event, Basic, InvokeContext, Config, Currencies, returned, counted, deposit_event,
}

-- the first arm of each `match`: the contract of an ERC20 currency
abbrev pub erc20_contract : CurrencyId → Option ℕ
erc20_contract (CurrencyId.erc20 contract) = some contract
erc20_contract _ = none

-- `Result::unwrap_or_default()`
abbrev pub ok_or_zero : Result Error ℕ → ℕ
ok_or_zero (ok n) = n
ok_or_zero (err _) = 0

-- a context without a sender
abbrev pub no_sender : ℕ → InvokeContext
no_sender contract = record { contract = contract; sender = 0; origin = 0 }

-- `b"erc20:"`, as a number
abbrev pub reserve_prefix : ℕ
reserve_prefix = 111541964910650

module _ {O W : Type 0} (T : Config O W) where
  -- the other two arms of each `match`
  abbrev pub token : CurrencyId → Basic W
  token c = if currency_beq c T.native_currency_id then T.native else T.multi c

  -- the balance of an address in a contract, or zero
  abbrev pub contract_balance : ℕ → ℕ → W → ℕ
  contract_balance contract address w = ok_or_zero (T.balance_of (no_sender contract) address w)

  -- `reserve_address`: the first 20 bytes of the hash of the prefix and the address
  abbrev pub reserve_address : ℕ → ℕ
  reserve_address address = T.blake2_256 (reserve_prefix * 2 ^ 160 + address) / 2 ^ 96

  abbrev pub minimum_by : Option ℕ → CurrencyId → W → ℕ
  minimum_by (some _) c w = 0
  minimum_by none c w = (token c).minimum_balance w

  unfoldable pub minimum_balance : CurrencyId → W → ℕ
  minimum_balance c w = minimum_by (erc20_contract c) c w

  abbrev pub issuance_by : Option ℕ → CurrencyId → W → ℕ
  issuance_by (some contract) c w = ok_or_zero (T.total_supply (no_sender contract) w)
  issuance_by none c w = (token c).total_issuance w

  unfoldable pub total_issuance : CurrencyId → W → ℕ
  total_issuance c w = issuance_by (erc20_contract c) c w

  -- the balance of an account that may have no EVM address
  abbrev pub balance_at : ℕ → Option ℕ → W → ℕ
  balance_at contract none w = 0
  balance_at contract (some address) w = contract_balance contract address w

  abbrev pub total_by : Option ℕ → CurrencyId → ℕ → W → ℕ
  total_by (some contract) c who w = balance_at contract (T.get_evm_address who w) w
  total_by none c who w = (token c).total_balance who w

  unfoldable pub total_balance : CurrencyId → ℕ → W → ℕ
  total_balance c who w = total_by (erc20_contract c) c who w

  abbrev pub free_by : Option ℕ → CurrencyId → ℕ → W → ℕ
  free_by (some contract) c who w = balance_at contract (T.get_evm_address who w) w
  free_by none c who w = (token c).free_balance who w

  unfoldable pub free_balance : CurrencyId → ℕ → W → ℕ
  free_balance c who w = free_by (erc20_contract c) c who w

  abbrev pub can_withdraw_at : ℕ → Option ℕ → ℕ → W → Result Error (Unit {0})
  can_withdraw_at contract none amount w = err Error.evm_account_not_found
  can_withdraw_at contract (some address) amount w =
      if leb amount (contract_balance contract address w) then ok tt else err Error.balance_too_low

  abbrev pub can_withdraw_by : Option ℕ → CurrencyId → ℕ → ℕ → W → Result Error (Unit {0})
  can_withdraw_by (some contract) c who amount w =
      can_withdraw_at contract (T.get_evm_address who w) amount w
  can_withdraw_by none c who amount w = (token c).ensure_can_withdraw who amount w

  unfoldable pub ensure_can_withdraw : CurrencyId → ℕ → ℕ → W → Result Error (Unit {0})
  ensure_can_withdraw c who amount w = can_withdraw_by (erc20_contract c) c who amount w

  -- a transfer from an address that is known: the addresses of the origin and of the receiver are
  -- made where they are missing
  abbrev pub bridge_from : ℕ → Option ℕ → ℕ → ℕ → W → Result Error W
  bridge_from contract none to amount w = err Error.evm_account_not_found
  bridge_from contract (some sender) to amount w =
      let (origin, w₁) = T.get_or_create_evm_address (unwrap_or_default (T.get_origin w)) w in
      let (address, w₂) = T.get_or_create_evm_address to w₁ in
      T.bridge_transfer (record { contract = contract; sender = sender; origin = origin }) address
        amount w₂

  abbrev pub transfer_by : Option ℕ → CurrencyId → ℕ → ℕ → ℕ → W → Result Error W
  transfer_by (some contract) c from to amount w =
      bridge_from contract (T.get_evm_address from w) to amount w
  transfer_by none c from to amount w = (token c).transfer from to amount w

  unfoldable pub transfer : CurrencyId → ℕ → ℕ → ℕ → Currencies W → Result Error (Currencies W)
  transfer c from to amount s =
      if is_zero amount || from == to
      then ok s
      else deposit_event (Event.transferred c from to amount)
          (returned s (transfer_by (erc20_contract c) c from to amount s.world))

  -- a change of an amount, which an ERC20 currency does not have
  abbrev pub token_only : Option ℕ → (W → Result Error W) → W → Result Error W
  token_only (some _) f w = err Error.erc20_invalid_operation
  token_only none f w = f w

  unfoldable pub deposit : CurrencyId → ℕ → ℕ → Currencies W → Result Error (Currencies W)
  deposit c who amount s =
      if is_zero amount
      then ok s
      else deposit_event (Event.deposited c who amount)
          (returned s (token_only (erc20_contract c) ((token c).deposit who amount) s.world))

  unfoldable pub withdraw : CurrencyId → ℕ → ℕ → Currencies W → Result Error (Currencies W)
  withdraw c who amount s =
      if is_zero amount
      then ok s
      else deposit_event (Event.withdrawn c who amount)
          (returned s (token_only (erc20_contract c) ((token c).withdraw who amount) s.world))

  unfoldable pub can_slash : CurrencyId → ℕ → ℕ → W → Bool
  can_slash c who amount w = elim (erc20_contract c) [
    | some _ ↦ false
    | none ↦ (token c).can_slash who amount w
  ]

  unfoldable pub slash : CurrencyId → ℕ → ℕ → Currencies W → ℕ × Currencies W
  slash c who amount s = elim (erc20_contract c) [
    | some _ ↦ (0, s)
    | none ↦ counted s ((token c).slash who amount s.world)
  ]

  unfoldable pub update_balance : CurrencyId → ℕ → ℤ → Currencies W → Result Error (Currencies W)
  update_balance c who by_amount s =
      deposit_event (Event.balance_updated c who by_amount) (
        returned s (token_only (erc20_contract c) ((token c).update_balance who by_amount) s.world))

  unfoldable pub set_lock : ℕ → CurrencyId → ℕ → ℕ → Currencies W → Result Error (Currencies W)
  set_lock lock_id c who amount s =
      returned s (token_only (erc20_contract c) ((token c).set_lock lock_id who amount) s.world)

  unfoldable pub extend_lock : ℕ → CurrencyId → ℕ → ℕ → Currencies W → Result Error (Currencies W)
  extend_lock lock_id c who amount s =
      returned s (token_only (erc20_contract c) ((token c).extend_lock lock_id who amount) s.world)

  unfoldable pub remove_lock : ℕ → CurrencyId → ℕ → Currencies W → Result Error (Currencies W)
  remove_lock lock_id c who s =
      returned s (token_only (erc20_contract c) ((token c).remove_lock lock_id who) s.world)

  -- `TransferAll`: the tokens, then all of the native currency that is free
  unfoldable pub transfer_all : ℕ → ℕ → W → Result Error W
  transfer_all source dest w = elim (T.transfer_all_tokens source dest w) [
    | err e ↦ err e
    | ok w₁ ↦ T.native.transfer source dest (T.native.free_balance source w₁) w₁
  ]
