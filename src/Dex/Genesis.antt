-- ===== src/Dex/Genesis.antt =====
-- The genesis build of the dex pallet.
use setheum.Common.{ℕ, false, List, [], ◌∷◌, ok, err, ◌>>=◌, ◌>>◌, ensure, gets, modify}
use setheum.Primitives.Currency.{TradingPair, get_dex_share_currency_id}
use setheum.Dex.Types.{Balances, TradingPairStatus, Error, Config, Call, is_enabled}
use setheum.Dex.Liquidity.{do_add_liquidity}
use setheum.Dex.Provision.{set_status, is_some}

pub record Listing : Type 0 where
  pub pair : TradingPair
  pub min_contribution : Balances
  pub target_provision : Balances
  pub not_before : ℕ

pub record GenesisConfig : Type 0 where
  pub initial_listing_trading_pairs : List Listing
  pub initial_enabled_trading_pairs : List TradingPair
  pub initial_added_liquidity_pools : List (ℕ × List (TradingPair × Balances))

-- `iter().for_each(f)`
abbrev pub for_each : {W A : Type 0} → (A → Call W (Unit {0})) → List A → Call W (Unit {0})
for_each f [] s = ok (tt, s)
for_each f (x ∷ xs) s = (f x >> for_each f xs) s

module _ {W : Type 0} where
  -- `assert!(trading_pair.get_dex_share_currency_id().is_some())`
  abbrev pub assert_valid : TradingPair → Call W (Unit {0})
  assert_valid p = ensure (is_some (get_dex_share_currency_id p)) Error.panic

  abbrev pub list_initial : Listing → Call W (Unit {0})
  list_initial l = do
    assert_valid l.pair
    modify (
        set_status l.pair (
          TradingPairStatus.provisioning (record {
            min_contribution = l.min_contribution;
            target_provision = l.target_provision;
            accumulated_provision = (0, 0);
            not_before = l.not_before;
          })))

  abbrev pub enable_initial : TradingPair → Call W (Unit {0})
  enable_initial p = do assert_valid p; modify (set_status p TradingPairStatus.enabled)

-- `assert!(result.is_ok())`
abbrev pub assert_ok : {W : Type 0} → Call W (Unit {0}) → Call W (Unit {0})
assert_ok m s = elim (m s) [ ok r ↦ ok r | err _ ↦ err Error.panic ]

module _ {O W : Type 0} (T : Config O W) where
  abbrev pub add_initial : ℕ → TradingPair × Balances → Call W (Unit {0})
  add_initial who (p, amounts) = do
    assert_valid p
    status ← gets (λ s. s.trading_pair_statuses p)
    ensure (is_enabled status) Error.panic
    assert_ok (do_add_liquidity T who p.left p.right amounts.0 amounts.1 0 false)

  abbrev pub add_all_initial : ℕ × List (TradingPair × Balances) → Call W (Unit {0})
  add_all_initial (who, pools) = for_each (add_initial who) pools

  unfoldable pub build : GenesisConfig → Call W (Unit {0})
  build g = do
    for_each list_initial g.initial_listing_trading_pairs
    for_each enable_initial g.initial_enabled_trading_pairs
    for_each add_all_initial g.initial_added_liquidity_pools
