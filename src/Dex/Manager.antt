-- ===== src/Dex/Manager.antt =====
-- The functions by which other pallets call the dex (`impl DEXManager`).
use setheum.Common.{ℕ, ◌-◌, Bool, Option, none, some, List, ok, err, length, get_elem?}
use setheum.Primitives.Currency.{CurrencyId, from_token_currency_ids, get_dex_share_currency_id}
use setheum.Dex.Types.{Balances, Config, Dex, Call}
use setheum.Dex.Price.{get_liquidity}
use setheum.Dex.Route.{
  get_target_amounts, get_supply_amounts, do_swap_with_exact_supply, do_swap_with_exact_target,
}
use setheum.Dex.Liquidity.{do_add_liquidity, do_remove_liquidity}

unfoldable pub get_liquidity_pool : {W : Type 0} → CurrencyId → CurrencyId → Dex W → Balances
get_liquidity_pool a b s = get_liquidity a b s

module _ {O W : Type 0} (T : Config O W) where
  unfoldable pub get_liquidity_token_address : CurrencyId → CurrencyId → Dex W → Option ℕ
  get_liquidity_token_address a b s = elim (from_token_currency_ids a b) [
    | none ↦ none
    | some p ↦ elim (get_dex_share_currency_id p) [
      | none ↦ none
      | some lp ↦ T.encode_evm_address lp s.world
    ]
  ]

  unfoldable pub get_swap_target_amount : List CurrencyId → ℕ → Option ℕ → Dex W → Option ℕ
  get_swap_target_amount path supply_amount limit s =
      elim (get_target_amounts T path supply_amount limit s) [
        | ok amounts ↦ get_elem? amounts (length amounts - 1)
        | err _ ↦ none
      ]

  unfoldable pub get_swap_supply_amount : List CurrencyId → ℕ → Option ℕ → Dex W → Option ℕ
  get_swap_supply_amount path target_amount limit s =
      elim (get_supply_amounts T path target_amount limit s) [
        | ok amounts ↦ get_elem? amounts 0
        | err _ ↦ none
      ]

  unfoldable pub swap_with_exact_supply : ℕ → List CurrencyId → ℕ → ℕ → Option ℕ → Call W ℕ
  swap_with_exact_supply who path supply_amount min_target_amount limit =
      do_swap_with_exact_supply T who path supply_amount min_target_amount limit

  unfoldable pub swap_with_exact_target : ℕ → List CurrencyId → ℕ → ℕ → Option ℕ → Call W ℕ
  swap_with_exact_target who path target_amount max_supply_amount limit =
      do_swap_with_exact_target T who path target_amount max_supply_amount limit

  unfoldable pub add_liquidity : ℕ → CurrencyId → CurrencyId → ℕ → ℕ → ℕ → Bool → Call W (Unit {0})
  add_liquidity who a b max_amount_a max_amount_b min_share_increment deposit_share =
      do_add_liquidity T who a b max_amount_a max_amount_b min_share_increment deposit_share

  unfoldable pub remove_liquidity :
      ℕ → CurrencyId → CurrencyId → ℕ → ℕ → ℕ → Bool → Call W (Unit {0})
  remove_liquidity who a b remove_share min_withdrawn_a min_withdrawn_b by_withdraw =
      do_remove_liquidity T who a b remove_share min_withdrawn_a min_withdrawn_b by_withdraw
