-- ===== src/Dex/Liquidity.antt =====
-- Adding and removing liquidity (`do_add_liquidity`, `do_remove_liquidity`).
pub mod Shares
pub mod Effects
pub mod Removal
pub mod Fairness
use setheum.Common.{
  ℕ, ◌+◌, Bool, true, false, not, ◌&&◌, ◌||◌, Option, none, some, Result, ok, err, Action, ◌>>=◌,
  ◌>>◌, pure, ensure, ok_or, gets, modify, is_zero, leb, ltb, if◌then◌else◌, saturating_add,
  saturating_sub,
}
use setheum.Primitives.Currency.{
  CurrencyId, TradingPair, currency_beq, new_pair, from_token_currency_ids,
  get_dex_share_currency_id,
}
use setheum.Runtime.Numbers.{FixedPoint, unwrap_or_default}
use setheum.Dex.Types.{
  Balances, Error, Event, Config, Dex, Call, is_enabled, outside, deposit_event, when,
}
use setheum.Dex.Price.{in_order}
use setheum.Dex.Route.{set_pool}

-- `Ratio::checked_from_rational(a, pool).and_then(|n| n.checked_mul_int(total)).unwrap_or_default()`
abbrev pub share_of : FixedPoint → ℕ → ℕ → ℕ → ℕ
share_of f amount pool total = elim (f.checked_from_rational amount pool) [
  | none ↦ 0
  | some n ↦ unwrap_or_default (f.checked_mul_int n total)
]

-- `Price::checked_from_rational(n, d).unwrap_or_default()`
abbrev pub price_of : FixedPoint → ℕ → ℕ → ℕ
price_of f n d = unwrap_or_default (f.checked_from_rational n d)

-- The shares of a first deposit: the larger amount, and the smaller one at their price.
unfoldable pub initial_shares : FixedPoint → Balances → Balances → ℕ
initial_shares f basis amounts =
    if ltb basis.1 basis.0
    then saturating_add (f.saturating_mul_int (price_of f basis.0 basis.1) amounts.1) amounts.0
    else saturating_add (f.saturating_mul_int (price_of f basis.1 basis.0) amounts.0) amounts.1

-- The increments of the two pools and of the shares, from the total of the shares, the pool and
-- the largest amounts allowed.
unfoldable pub liquidity_increments : FixedPoint → ℕ → Balances → Balances → ℕ × ℕ × ℕ
liquidity_increments f total pool largest =
    let price_0_1 = price_of f pool.1 pool.0 in
    let amount_0 = f.saturating_mul_int (price_of f pool.0 pool.1) largest.1 in
    let amount_1 = f.saturating_mul_int price_0_1 largest.0 in
    if is_zero total
    then (largest.0, largest.1, initial_shares f largest largest)
    else (if leb (price_of f largest.1 largest.0) price_0_1
        then (amount_0, largest.1, share_of f amount_0 pool.0 total)
        else (largest.0, amount_1, share_of f amount_1 pool.1 total))

-- The decrements of the two pools for a part of the shares.
unfoldable pub liquidity_decrements : FixedPoint → ℕ → Balances → ℕ → Balances
liquidity_decrements f total pool remove_share =
    let proportion = price_of f remove_share total in
    (f.saturating_mul_int proportion pool.0, f.saturating_mul_int proportion pool.1)

module _ {O W : Type 0} (T : Config O W) where
  unfoldable pub do_add_liquidity :
      ℕ → CurrencyId → CurrencyId → ℕ → ℕ → ℕ → Bool → Call W (Unit {0})
  do_add_liquidity who a b max_amount_a max_amount_b min_share_increment deposit_increment_share =
      let p = new_pair a b in
      do
        lp ← ok_or (get_dex_share_currency_id p) Error.invalid_currency_id
        status ← gets (λ s. s.trading_pair_statuses p)
        ensure (is_enabled status) Error.must_be_enabled
        pool ← gets (λ s. s.liquidity_pool p)
        total ← gets (λ s. T.total_issuance lp s.world)
        let inc =
            liquidity_increments T.fixed total pool (in_order a p (max_amount_a, max_amount_b))
        ensure (not (is_zero inc.2) && (not (is_zero inc.0) && not (is_zero inc.1)))
            Error.invalid_liquidity_increment
        ensure (leb min_share_increment inc.2) Error.unacceptable_share_increment
        outside (T.transfer p.left who T.account_id inc.0)
        outside (T.transfer p.right who T.account_id inc.1)
        outside (T.deposit lp who inc.2)
        modify (set_pool p (saturating_add pool.0 inc.0, saturating_add pool.1 inc.1))
        when deposit_increment_share (outside (T.do_deposit_dex_share who lp inc.2))
        deposit_event (Event.add_liquidity who p.left inc.0 p.right inc.1 inc.2)

  -- the part of `do_remove_liquidity` for a share that is not zero
  unfoldable pub remove_share_of :
      ℕ → CurrencyId → CurrencyId → ℕ → ℕ → ℕ → Bool → Call W (Unit {0})
  remove_share_of who a b remove_share min_withdrawn_a min_withdrawn_b by_withdraw = do
    p ← ok_or (from_token_currency_ids a b) Error.invalid_currency_id
    lp ← ok_or (get_dex_share_currency_id p) Error.invalid_currency_id
    pool ← gets (λ s. s.liquidity_pool p)
    total ← gets (λ s. T.total_issuance lp s.world)
    let least = in_order a p (min_withdrawn_a, min_withdrawn_b)
    let dec = liquidity_decrements T.fixed total pool remove_share
    ensure (leb least.0 dec.0 && leb least.1 dec.1) Error.unacceptable_liquidity_withdrawn
    when by_withdraw (outside (T.do_withdraw_dex_share who lp remove_share))
    outside (T.withdraw lp who remove_share)
    outside (T.transfer p.left T.account_id who dec.0)
    outside (T.transfer p.right T.account_id who dec.1)
    modify (set_pool p (saturating_sub pool.0 dec.0, saturating_sub pool.1 dec.1))
    deposit_event (Event.remove_liquidity who p.left dec.0 p.right dec.1 remove_share)

  unfoldable pub do_remove_liquidity :
      ℕ → CurrencyId → CurrencyId → ℕ → ℕ → ℕ → Bool → Call W (Unit {0})
  unfolding remove_share_of
  do_remove_liquidity who a b remove_share min_withdrawn_a min_withdrawn_b by_withdraw s =
      if is_zero remove_share
      then ok (tt, s)
      else remove_share_of who a b remove_share min_withdrawn_a min_withdrawn_b by_withdraw s
