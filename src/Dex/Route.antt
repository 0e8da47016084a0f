-- ===== src/Dex/Route.antt =====
-- The amounts along a trading path (`get_target_amounts`, `get_supply_amounts`) and the swaps
-- along it (`_swap`, `_swap_by_path`, `do_swap_with_exact_supply`, `do_swap_with_exact_target`).
pub mod Quotes
pub mod Pools
pub mod Invariant
pub mod Kept
pub mod Settled
pub mod Swaps
use setheum.Common.{
  ℕ, zero, suc, ◌+◌, ◌-◌, Bool, true, false, not, ◌&&◌, ◌||◌, Option, none, some, List, [], ◌∷◌,
  Result, ok, err, Action, ◌>>=◌, ◌>>◌, pure, ensure, lift, gets, modify, is_zero, leb,
  if◌then◌else◌, saturating_add, saturating_sub, length, update,
}
use setheum.Primitives.Currency.{
  CurrencyId, TradingPair, currency_beq, new_pair, from_token_currency_ids,
}
use setheum.Primitives.Order.{pair_eq}
use setheum.Runtime.Numbers.{FixedPoint, unwrap_or_default}
use setheum.Dex.Types.{
  Balances, Error, Event, Config, Dex, Call, is_enabled, outside, deposit_event, index,
}
use setheum.Dex.Price.{get_liquidity, get_target_amount, get_supply_amount}

-- `r?` for a result that reads the state and does not change it
abbrev pub and_then : {A B : Type 0} → Result Error A → (A → Result Error B) → Result Error B
and_then (ok a) f = f a
and_then (err e) f = err e

-- `ensure!(!t, e); …`
abbrev pub unless : {A : Type 0} → Bool → Error → Result Error A → Result Error A
unless true e r = err e
unless false e r = r

-- `price_impact > limit`, if there is a limit
abbrev pub exceeds : FixedPoint → Option ℕ → ℕ → ℕ → Bool
exceeds f none amount pool = false
exceeds f (some limit) amount pool =
    not (leb (unwrap_or_default (f.checked_from_rational amount pool)) limit)

-- `_swap`: the pool of the pair takes in the supply and gives out the target.
abbrev pub exchange : Bool → ℕ → ℕ → Balances → Balances
exchange true x y (pool_0, pool_1) = (saturating_add pool_0 x, saturating_sub pool_1 y)
exchange false x y (pool_0, pool_1) = (saturating_sub pool_0 y, saturating_add pool_1 x)

module _ {W : Type 0} where
  abbrev pub set_pool : TradingPair → Balances → Dex W → Dex W
  set_pool p v s = record s { liquidity_pool = update s.liquidity_pool p v }

  unfoldable pub swap_pools : CurrencyId → CurrencyId → ℕ → ℕ → Dex W → Dex W
  swap_pools supply target x y s = elim (from_token_currency_ids supply target) [
    | none ↦ s
    | some p ↦ set_pool p (exchange (currency_beq supply p.left) x y (s.liquidity_pool p)) s
  ]

  -- the loop of `_swap_by_path`, at the currency and the amount that it has reached
  unfoldable pub swap_hops : CurrencyId → List CurrencyId → ℕ → List ℕ → Dex W → Dex W
  swap_hops a [] x ys s = s
  swap_hops a (b ∷ path) x [] s = s
  swap_hops a (b ∷ path) x (y ∷ ys) s = swap_hops b path y ys (swap_pools a b x y s)

  unfoldable pub swap_by_path : List CurrencyId → List ℕ → Dex W → Dex W
  unfolding swap_hops
  swap_by_path [] amounts s = s
  swap_by_path (a ∷ path) [] s = s
  swap_by_path (a ∷ path) (x ∷ amounts) s = swap_hops a path x amounts s

module _ {O W : Type 0} (T : Config O W) where
  -- one round of the loop of `get_target_amounts`
  unfoldable pub target_step : Dex W → Option ℕ → CurrencyId → CurrencyId → ℕ → Result Error ℕ
  target_step s limit a b amount =
      let pools = get_liquidity a b s in
      let target = get_target_amount T.u256 s.get_exchange_fee pools.0 pools.1 amount in
      unless (not (is_enabled (s.trading_pair_statuses (new_pair a b)))) Error.must_be_enabled (
        unless (is_zero pools.0 || is_zero pools.1) Error.insufficient_liquidity (
          unless (is_zero target) Error.zero_target_amount (
            unless (exceeds T.fixed limit target pools.1) Error.exceed_price_impact_limit
              (ok target))))

  -- one round of the loop of `get_supply_amounts`
  unfoldable pub supply_step : Dex W → Option ℕ → CurrencyId → CurrencyId → ℕ → Result Error ℕ
  supply_step s limit a b amount =
      let pools = get_liquidity a b s in
      let supply = get_supply_amount T.u256 s.get_exchange_fee pools.0 pools.1 amount in
      unless (not (is_enabled (s.trading_pair_statuses (new_pair a b)))) Error.must_be_enabled (
        unless (is_zero pools.0 || is_zero pools.1) Error.insufficient_liquidity (
          unless (is_zero supply) Error.zero_supply_amount (
            unless (exceeds T.fixed limit amount pools.1) Error.exceed_price_impact_limit
              (ok supply))))

  -- the amounts from the currency reached to the end of the path
  unfoldable pub target_hops :
      Dex W → Option ℕ → CurrencyId → List CurrencyId → ℕ → Result Error (List ℕ)
  target_hops s limit a [] amount = ok (amount ∷ [])
  target_hops s limit a (b ∷ path) amount =
      and_then (target_step s limit a b amount)
        λ target. and_then (target_hops s limit b path target) λ rest. ok (amount ∷ rest)

  -- From the last hop to the first: the amounts of a path, its first one apart.
  unfoldable pub supply_hops :
      Dex W → Option ℕ → CurrencyId → List CurrencyId → ℕ → Result Error (ℕ × List ℕ)
  supply_hops s limit a [] target = ok (target, [])
  supply_hops s limit a (b ∷ path) target =
      and_then (supply_hops s limit b path target)
        λ later. and_then (supply_step s limit a b later.0) λ supply. ok (supply, later.0 ∷ later.1)

  abbrev pub bad_length : List CurrencyId → Bool
  bad_length path = not (leb 2 (length path) && leb (length path) T.trading_path_limit)

  unfoldable pub get_target_amounts : List CurrencyId → ℕ → Option ℕ → Dex W → Result Error (List ℕ)
  unfolding target_hops
  get_target_amounts [] amount limit s = err Error.invalid_trading_path_length
  get_target_amounts (a ∷ path) amount limit s =
      unless (bad_length (a ∷ path)) Error.invalid_trading_path_length
        (target_hops s limit a path amount)

  unfoldable pub get_supply_amounts : List CurrencyId → ℕ → Option ℕ → Dex W → Result Error (List ℕ)
  unfolding supply_hops
  get_supply_amounts [] target limit s = err Error.invalid_trading_path_length
  get_supply_amounts (a ∷ path) target limit s =
      unless (bad_length (a ∷ path)) Error.invalid_trading_path_length
        (and_then (supply_hops s limit a path target) λ all. ok (all.0 ∷ all.1))

  unfoldable pub do_swap_with_exact_supply : ℕ → List CurrencyId → ℕ → ℕ → Option ℕ → Call W ℕ
  do_swap_with_exact_supply who path supply_amount min_target_amount limit = do
    quoted ← gets (get_target_amounts path supply_amount limit)
    amounts ← lift quoted
    target ← index amounts (length amounts - 1)
    ensure (leb min_target_amount target) Error.insufficient_target_amount
    first ← index path 0
    outside (T.transfer first who T.account_id supply_amount)
    modify (swap_by_path path amounts)
    last ← index path (length path - 1)
    outside (T.transfer last T.account_id who target)
    deposit_event (Event.swap who path supply_amount target)
    pure target

  unfoldable pub do_swap_with_exact_target : ℕ → List CurrencyId → ℕ → ℕ → Option ℕ → Call W ℕ
  do_swap_with_exact_target who path target_amount max_supply_amount limit = do
    quoted ← gets (get_supply_amounts path target_amount limit)
    amounts ← lift quoted
    supply ← index amounts 0
    ensure (leb supply max_supply_amount) Error.excessive_supply_amount
    first ← index path 0
    outside (T.transfer first who T.account_id supply)
    modify (swap_by_path path amounts)
    last ← index path (length path - 1)
    outside (T.transfer last T.account_id who target_amount)
    deposit_event (Event.swap who path supply target_amount)
    pure supply
