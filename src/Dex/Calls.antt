-- ===== src/Dex/Calls.antt =====
-- The dispatchable calls of the dex pallet. Each is `#[transactional]`: an error leaves the state
-- as it was, which is what an `err` says here.
pub mod Changes
pub mod Switches
pub mod Machine
pub mod Accounts
pub mod Refunds
use setheum.Common.{
  ℕ, Bool, true, false, not, ◌&&◌, Option, none, some, List, [], ◌∷◌, Result, ok, err, Action,
  ◌>>=◌, ◌>>◌, pure, fail, ensure, ok_or, gets, modify, is_zero, if◌then◌else◌,
}
use setheum.Primitives.Currency.{
  CurrencyId, TradingPair, currency_beq, from_token_currency_ids, get_dex_share_currency_id,
}
use setheum.Dex.Types.{
  Balances, TradingPairProvisionParameters, TradingPairStatus, Error, Event, Config, Dex, Call,
  is_not_enabled, outside, deposit_event,
}
use setheum.Dex.Price.{in_order}
use setheum.Dex.Route.{do_swap_with_exact_supply, do_swap_with_exact_target}
use setheum.Dex.Liquidity.{do_add_liquidity, do_remove_liquidity}
use setheum.Dex.Provision.{
  set_status, set_provisions, do_add_provision, convert_to_enabled_if_possible,
}

module _ {O W : Type 0} (T : Config O W) where
  unfoldable pub swap_with_exact_supply : O → List CurrencyId → ℕ → ℕ → Call W (Unit {0})
  swap_with_exact_supply origin path supply_amount min_target_amount = do
    who ← ok_or (T.ensure_signed origin) Error.bad_origin
    do_swap_with_exact_supply T who path supply_amount min_target_amount none
    pure tt

  unfoldable pub swap_with_exact_target : O → List CurrencyId → ℕ → ℕ → Call W (Unit {0})
  swap_with_exact_target origin path target_amount max_supply_amount = do
    who ← ok_or (T.ensure_signed origin) Error.bad_origin
    do_swap_with_exact_target T who path target_amount max_supply_amount none
    pure tt

  -- the `match` on the status in `add_liquidity`
  unfoldable pub add_by_status :
      TradingPair
      → TradingPairStatus
      → ℕ
      → CurrencyId
      → CurrencyId
      → ℕ
      → ℕ
      → ℕ
      → Bool
      → Call W (Unit {0})
  add_by_status p TradingPairStatus.enabled who a b max_a max_b min_share deposit_share =
      do_add_liquidity T who a b max_a max_b min_share deposit_share
  add_by_status p (TradingPairStatus.provisioning _) who a b max_a max_b min_share deposit_share =
      do do_add_provision T who a b max_a max_b; convert_to_enabled_if_possible T p
  add_by_status p TradingPairStatus.not_enabled who a b max_a max_b min_share deposit_share =
      fail Error.not_enabled_trading_pair

  unfoldable pub add_liquidity : O → CurrencyId → CurrencyId → ℕ → ℕ → ℕ → Bool → Call W (Unit {0})
  unfolding add_by_status
  add_liquidity origin a b max_amount_a max_amount_b min_share_increment deposit_share = do
    who ← ok_or (T.ensure_signed origin) Error.bad_origin
    p ← ok_or (from_token_currency_ids a b) Error.invalid_currency_id
    status ← gets (λ s. s.trading_pair_statuses p)
    add_by_status p status who a b max_amount_a max_amount_b min_share_increment deposit_share

  unfoldable pub remove_liquidity :
      O → CurrencyId → CurrencyId → ℕ → ℕ → ℕ → Bool → Call W (Unit {0})
  remove_liquidity origin a b remove_share min_withdrawn_a min_withdrawn_b by_withdraw = do
    who ← ok_or (T.ensure_signed origin) Error.bad_origin
    do_remove_liquidity T who a b remove_share min_withdrawn_a min_withdrawn_b by_withdraw

  -- `if let CurrencyId::Erc20(address) = c { set_erc20_mapping(address)? }`
  abbrev pub map_erc20 : CurrencyId → Call W (Unit {0})
  map_erc20 (CurrencyId.erc20 address) = outside (T.set_erc20_mapping address)
  map_erc20 _ = pure tt

  unfoldable pub list_trading_pair :
      O → CurrencyId → CurrencyId → Balances → Balances → ℕ → Call W (Unit {0})
  list_trading_pair origin a b min_contribution target_provision not_before = do
    ensure (T.listing_origin origin) Error.bad_origin
    ensure (not (currency_beq a b)) Error.not_allowed_list
    p ← ok_or (from_token_currency_ids a b) Error.invalid_currency_id
    lp ← ok_or (get_dex_share_currency_id p) Error.invalid_currency_id
    status ← gets (λ s. s.trading_pair_statuses p)
    ensure (is_not_enabled status) Error.must_be_not_enabled
    issuance ← gets (λ s. T.total_issuance lp s.world)
    ensure (is_zero issuance) Error.not_allowed_list
    map_erc20 a
    map_erc20 b
    modify (
        set_status p (
          TradingPairStatus.provisioning (record {
            min_contribution = in_order a p min_contribution;
            target_provision = in_order a p target_provision;
            accumulated_provision = (0, 0);
            not_before = not_before;
          })))
    deposit_event (Event.list_trading_pair p)

  unfoldable pub enable_trading_pair : O → CurrencyId → CurrencyId → Call W (Unit {0})
  enable_trading_pair origin a b = do
    ensure (T.listing_origin origin) Error.bad_origin
    p ← ok_or (from_token_currency_ids a b) Error.invalid_currency_id
    status ← gets (λ s. s.trading_pair_statuses p)
    ensure (is_not_enabled status) Error.must_be_not_enabled
    modify (set_status p TradingPairStatus.enabled)
    deposit_event (Event.enable_trading_pair p)

  -- the loop of `disable_trading_pair` over the drained provisions
  unfoldable pub refund_all : TradingPair → List (ℕ × Balances) → Call W (Unit {0})
  refund_all p [] = pure tt
  refund_all p ((who, contribution) ∷ rest) = do
    outside (T.transfer p.left T.account_id who contribution.0)
    outside (T.transfer p.right T.account_id who contribution.1)
    modify (λ s. record s { world = T.dec_consumers who s.world })
    refund_all p rest

  -- the `match` on the status in `disable_trading_pair`
  unfoldable pub disable_by_status : TradingPair → TradingPairStatus → Call W (Unit {0})
  unfolding refund_all
  disable_by_status p TradingPairStatus.enabled = do
    modify (set_status p TradingPairStatus.not_enabled)
    deposit_event (Event.disable_trading_pair p)
  disable_by_status p (TradingPairStatus.provisioning _) = do
    provisions ← gets (λ s. s.provisioning_pool p)
    refund_all p provisions
    modify (set_provisions p [])
    modify (set_status p TradingPairStatus.not_enabled)
    deposit_event (Event.disable_trading_pair p)
  disable_by_status p TradingPairStatus.not_enabled = fail Error.not_enabled_trading_pair

  unfoldable pub disable_trading_pair : O → CurrencyId → CurrencyId → Call W (Unit {0})
  unfolding disable_by_status
  disable_trading_pair origin a b = do
    ensure (T.listing_origin origin) Error.bad_origin
    p ← ok_or (from_token_currency_ids a b) Error.invalid_currency_id
    status ← gets (λ s. s.trading_pair_statuses p)
    disable_by_status p status
