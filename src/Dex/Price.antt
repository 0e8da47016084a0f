-- ===== src/Dex/Price.antt =====
-- The pricing functions of the dex: constant product with a fee, and the liquidity of a pair seen
-- from either side (`get_liquidity`, `get_target_amount`, `get_supply_amount`).
pub mod Product
pub mod Supply
use setheum.Common.{
  ℕ, ◌+◌, ◌-◌, ◌*◌, Bool, true, false, ◌||◌, Option, none, some, is_zero, if◌then◌else◌,
  saturating_mul, saturating_sub, try_into_u128, ◌==◌, leb, u128_max,
}
use setheum.Primitives.Currency.{CurrencyId, TradingPair, currency_beq, new_pair}
use setheum.Runtime.Numbers.{U256, unwrap_or_default}
use setheum.Dex.Types.{Balances, Dex}

-- `if currency_id_a == trading_pair.0 { (a, b) } else { (b, a) }`
abbrev pub in_order : CurrencyId → TradingPair → Balances → Balances
in_order a p (x, y) = if currency_beq a p.left then (x, y) else (y, x)

unfoldable pub get_liquidity : {W : Type 0} → CurrencyId → CurrencyId → Dex W → Balances
get_liquidity a b s = let p = new_pair a b in in_order a p (s.liquidity_pool p)

-- `.and_then(|n| TryInto::<Balance>::try_into(n).ok()).unwrap_or_else(Zero::zero)`
abbrev pub to_balance : Option ℕ → ℕ
to_balance none = 0
to_balance (some n) = unwrap_or_default (try_into_u128 n)

-- `.and_then(|r| r.checked_add(U256::one()))`
abbrev pub add_one : U256 → Option ℕ → Option ℕ
add_one u none = none
add_one u (some r) = u.checked_add r 1

-- The fee is (numerator, denominator).
unfoldable pub supply_with_fee : ℕ × ℕ → ℕ → ℕ
supply_with_fee fee amount = saturating_mul amount (saturating_sub fee.1 fee.0)

module _ (u : U256) (fee : ℕ × ℕ) where
  unfoldable pub get_target_amount : ℕ → ℕ → ℕ → ℕ
  unfolding supply_with_fee
  get_target_amount supply_pool target_pool supply_amount =
      if is_zero supply_amount || (is_zero supply_pool || is_zero target_pool)
      then 0
      else (let with_fee = supply_with_fee fee supply_amount in
          let numerator = u.saturating_mul with_fee target_pool in
          let denominator = u.saturating_add (u.saturating_mul supply_pool fee.1) with_fee in
          to_balance (u.checked_div numerator denominator))

  unfoldable pub get_supply_amount : ℕ → ℕ → ℕ → ℕ
  get_supply_amount supply_pool target_pool target_amount =
      if is_zero target_amount || (is_zero supply_pool || is_zero target_pool)
      then 0
      else (let numerator = u.saturating_mul (u.saturating_mul supply_pool target_amount) fee.1 in
          let denominator =
            u.saturating_mul (u.saturating_sub target_pool target_amount)
              (saturating_sub fee.1 fee.0) in
          to_balance (add_one u (u.checked_div numerator denominator)))
