-- ===== src/Currencies/Reserves.antt =====
-- The reserves of the currencies: an ERC20 balance is reserved by a transfer to an address that is
-- derived from the owner's.
pub mod Contracts
pub mod Moves
pub mod RoundTrip
pub mod Repatriation
use setheum.Common.{
  ℕ, ◌-◌, min, Bool, true, false, Option, none, some, Result, ok, err, ◌==◌, is_zero, if◌then◌else◌,
  saturating_sub,
}
use setheum.Primitives.Currency.{CurrencyId}
use setheum.Currencies.Types.{
  Error, BalanceStatus, Basic, InvokeContext, Config, Currencies, returned, counted,
  returned_number,
}
use setheum.Currencies.Pallet.{
  erc20_contract, token, contract_balance, reserve_address, balance_at, ensure_can_withdraw,
}

-- `Result::is_ok()`
abbrev pub is_ok : {E A : Type 0} → Result E A → Bool
is_ok (ok _) = true
is_ok (err _) = false

-- what is left when the transfer of `actual` was made, or was not
abbrev pub left_after : {W : Type 0} → ℕ → ℕ → W → Result Error W → ℕ × W
left_after value actual w (ok w') = (value - actual, w')
left_after value actual w (err _) = (value, w)

-- `.map(|_| value - actual)`
abbrev pub with_left : {W : Type 0} → ℕ → Result Error W → Result Error (ℕ × W)
with_left left (ok w) = ok (left, w)
with_left left (err e) = err e

module _ {O W : Type 0} (T : Config O W) where
  abbrev pub can_reserve_by : Option ℕ → CurrencyId → ℕ → ℕ → W → Bool
  can_reserve_by (some _) c who value w = is_ok (ensure_can_withdraw T c who value w)
  can_reserve_by none c who value w = (token T c).can_reserve who value w

  unfoldable pub can_reserve : CurrencyId → ℕ → ℕ → W → Bool
  can_reserve c who value w = can_reserve_by (erc20_contract c) c who value w

  abbrev pub slash_reserved_by : Option ℕ → CurrencyId → ℕ → ℕ → Currencies W → ℕ × Currencies W
  slash_reserved_by (some _) c who value s = (value, s)
  slash_reserved_by none c who value s = counted s ((token T c).slash_reserved who value s.world)

  unfoldable pub slash_reserved : CurrencyId → ℕ → ℕ → Currencies W → ℕ × Currencies W
  slash_reserved c who value s = slash_reserved_by (erc20_contract c) c who value s

  abbrev pub reserved_at : ℕ → Option ℕ → W → ℕ
  reserved_at contract none w = 0
  reserved_at contract (some address) w = contract_balance T contract (reserve_address T address) w

  abbrev pub reserved_by : Option ℕ → CurrencyId → ℕ → W → ℕ
  reserved_by (some contract) c who w = reserved_at contract (T.get_evm_address who w) w
  reserved_by none c who w = (token T c).reserved_balance who w

  unfoldable pub reserved_balance : CurrencyId → ℕ → W → ℕ
  reserved_balance c who w = reserved_by (erc20_contract c) c who w

  abbrev pub reserve_at : ℕ → Option ℕ → ℕ → W → Result Error W
  reserve_at contract none value w = err Error.evm_account_not_found
  reserve_at contract (some address) value w =
      T.bridge_transfer (record { contract = contract; sender = address; origin = address })
        (reserve_address T address) value w

  abbrev pub reserve_by : Option ℕ → CurrencyId → ℕ → ℕ → W → Result Error W
  reserve_by (some contract) c who value w =
      if is_zero value then ok w else reserve_at contract (T.get_evm_address who w) value w
  reserve_by none c who value w = (token T c).reserve who value w

  unfoldable pub reserve : CurrencyId → ℕ → ℕ → Currencies W → Result Error (Currencies W)
  reserve c who value s = returned s (reserve_by (erc20_contract c) c who value s.world)

  abbrev pub unreserve_at : ℕ → Option ℕ → ℕ → W → ℕ × W
  unreserve_at contract none value w = (value, w)
  unreserve_at contract (some address) value w =
      let sender = reserve_address T address in
      let actual = min (contract_balance T contract sender w) value in
      left_after value actual w (
        T.bridge_transfer (record { contract = contract; sender = sender; origin = address })
          address actual w)

  abbrev pub unreserve_by : Option ℕ → CurrencyId → ℕ → ℕ → W → ℕ × W
  unreserve_by (some contract) c who value w =
      if is_zero value then (value, w) else unreserve_at contract (T.get_evm_address who w) value w
  unreserve_by none c who value w = (token T c).unreserve who value w

  unfoldable pub unreserve : CurrencyId → ℕ → ℕ → Currencies W → ℕ × Currencies W
  unreserve c who value s = counted s (unreserve_by (erc20_contract c) c who value s.world)

  -- `slashed == beneficiary`
  abbrev pub repatriate_to_self : CurrencyId → ℕ → ℕ → BalanceStatus → W → ℕ × W
  repatriate_to_self c who value BalanceStatus.free w =
      unreserve_by (erc20_contract c) c who value w
  repatriate_to_self c who value BalanceStatus.reserved w =
      (saturating_sub value (reserved_by (erc20_contract c) c who w), w)

  -- the address that receives
  abbrev pub receiver : BalanceStatus → ℕ → ℕ
  receiver BalanceStatus.free address = address
  receiver BalanceStatus.reserved address = reserve_address T address

  abbrev pub repatriate_at : ℕ → Option ℕ → ℕ → ℕ → BalanceStatus → W → Result Error (ℕ × W)
  repatriate_at contract none beneficiary value status w = err Error.evm_account_not_found
  repatriate_at contract (some slashed_address) beneficiary value status w =
      let (beneficiary_address, w₁) = T.get_or_create_evm_address beneficiary w in
      let sender = reserve_address T slashed_address in
      let actual = min (contract_balance T contract sender w₁) value in
      with_left (value - actual) (
        T.bridge_transfer
          (record { contract = contract; sender = sender; origin = slashed_address })
          (receiver status beneficiary_address) actual w₁)

  abbrev pub repatriate_by :
      Option ℕ → CurrencyId → ℕ → ℕ → ℕ → BalanceStatus → W → Result Error (ℕ × W)
  repatriate_by (some contract) c slashed beneficiary value status w =
      if is_zero value
      then ok (value, w)
      else (if slashed == beneficiary
          then ok (repatriate_to_self c slashed value status w)
          else repatriate_at contract (T.get_evm_address slashed w) beneficiary value status w)
  repatriate_by none c slashed beneficiary value status w =
      (token T c).repatriate_reserved slashed beneficiary value status w

  unfoldable pub repatriate_reserved :
      CurrencyId → ℕ → ℕ → ℕ → BalanceStatus → Currencies W → Result Error (ℕ × Currencies W)
  repatriate_reserved c slashed beneficiary value status s =
      returned_number s
        (repatriate_by (erc20_contract c) c slashed beneficiary value status s.world)
