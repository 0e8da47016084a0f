-- ===== src/Incentives.antt =====
-- The incentives pallet (lib-serml/dex/incentives/src/lib.rs): share deposits, and the rewards of
-- the pools. The pools and the shares in them are kept by the rewards pallet of ORML.
mod Tests
pub mod Rewards
pub mod Updates
pub mod Shares
use setheum.Common.{
  ℕ, ◌%◌, Bool, true, false, not, ◌&&◌, List, [], ◌∷◌, ◌++◌, Option, none, some, Result, ok, err,
  Action, ◌>>=◌, ◌>>◌, pure, ensure, ok_or, gets, modify, is_zero, leb, if◌then◌else◌,
  saturating_add, update,
}
use setheum.Primitives.Currency.{CurrencyId, is_dex_share_currency_id, contains}
use setheum.Primitives.Order.{currency_eq}

pub data PoolId : Type 0 where
  dex_incentive : CurrencyId → PoolId
  dex_premium : CurrencyId → PoolId

-- The pallet's errors; `other` is an error of another pallet, `panic` a remainder by zero.
pub data Error : Type 0 where
  not_enough invalid_currency_id bad_origin panic : Error
  other : ℕ → Error

pub data Event : Type 0 where
  deposited_dex_share : ℕ → CurrencyId → ℕ → Event
  withdrawn_dex_share : ℕ → CurrencyId → ℕ → Event
  claimed_rewards : ℕ → PoolId → Event

-- What the pallet calls outside it; `W` is the storage of the rest of the runtime.
pub record Config (O W : Type 0) : Type 0 where
  pub ensure_signed : O → Option ℕ
  pub update_origin : O → Bool
  pub dex_incentive_pool : ℕ
  pub dex_premium_pool : ℕ
  pub stable_currency_ids : List CurrencyId
  pub incentive_currency_id : CurrencyId
  pub premium_currency_id : CurrencyId
  pub account_id : ℕ
  -- `T::Currency`
  pub transfer : CurrencyId → ℕ → ℕ → ℕ → W → Result ℕ W
  pub deposit : CurrencyId → ℕ → ℕ → W → Result ℕ W
  -- `orml_rewards`: the pools with their total shares, and the share of an account in a pool
  pub pools : W → List (PoolId × ℕ)
  pub share : PoolId → ℕ → W → ℕ
  pub add_share : ℕ → PoolId → ℕ → W → W
  pub remove_share : ℕ → PoolId → ℕ → W → W
  pub claim_rewards : ℕ → PoolId → W → W

pub record Incentives (W : Type 0) : Type 0 where
  pub dex_incentive_rewards : CurrencyId → ℕ
  pub dex_premium_rewards : CurrencyId → ℕ
  -- what `Self::accumulate_period()` reads
  pub accumulate_period : ℕ
  pub events : List Event
  pub world : W

abbrev pub Call : Type 0 → Type 0 → Type 0
Call W A = Action (Incentives W) Error A

module _ {W : Type 0} where
  abbrev pub returned : Incentives W → Result ℕ W → Result Error (Unit {0} × Incentives W)
  returned s (ok w) = ok (tt, record s { world = w })
  returned s (err e) = err (Error.other e)

  -- a call of another pallet, under `?`
  abbrev pub outside : (W → Result ℕ W) → Call W (Unit {0})
  outside f s = returned s (f s.world)

  -- a call of another pallet that cannot fail
  abbrev pub change : (W → W) → Call W (Unit {0})
  change f s = ok (tt, record s { world = f s.world })

  abbrev pub deposit_event : Event → Call W (Unit {0})
  deposit_event e s = ok (tt, record s { events = s.events ++ (e ∷ []) })

module _ {O W : Type 0} (T : Config O W) where
  unfoldable pub do_deposit_dex_share : ℕ → CurrencyId → ℕ → Call W (Unit {0})
  do_deposit_dex_share who lp amount = do
    ensure (is_dex_share_currency_id lp) Error.invalid_currency_id
    outside (T.transfer lp who T.account_id amount)
    change (T.add_share who (PoolId.dex_incentive lp) amount)
    change (T.add_share who (PoolId.dex_premium lp) amount)
    deposit_event (Event.deposited_dex_share who lp amount)

  unfoldable pub do_withdraw_dex_share : ℕ → CurrencyId → ℕ → Call W (Unit {0})
  do_withdraw_dex_share who lp amount = do
    ensure (is_dex_share_currency_id lp) Error.invalid_currency_id
    incentive ← gets (λ s. T.share (PoolId.dex_incentive lp) who s.world)
    premium ← gets (λ s. T.share (PoolId.dex_premium lp) who s.world)
    ensure (leb amount incentive && leb amount premium) Error.not_enough
    outside (T.transfer lp T.account_id who amount)
    change (T.remove_share who (PoolId.dex_incentive lp) amount)
    change (T.remove_share who (PoolId.dex_premium lp) amount)
    deposit_event (Event.withdrawn_dex_share who lp amount)

  unfoldable pub deposit_dex_share : O → CurrencyId → ℕ → Call W (Unit {0})
  deposit_dex_share origin lp amount = do
    who ← ok_or (T.ensure_signed origin) Error.bad_origin
    do_deposit_dex_share who lp amount

  unfoldable pub withdraw_dex_share : O → CurrencyId → ℕ → Call W (Unit {0})
  withdraw_dex_share origin lp amount = do
    who ← ok_or (T.ensure_signed origin) Error.bad_origin
    do_withdraw_dex_share who lp amount

  unfoldable pub claim_rewards : O → PoolId → Call W (Unit {0})
  claim_rewards origin pool_id = do
    who ← ok_or (T.ensure_signed origin) Error.bad_origin
    change (T.claim_rewards who pool_id)
    deposit_event (Event.claimed_rewards who pool_id)

  -- the loop of `update_dex_incentive_rewards`
  unfoldable pub set_incentives : List (CurrencyId × ℕ) → Call W (Unit {0})
  set_incentives [] = pure tt
  set_incentives ((c, amount) ∷ updates) = do
    ensure (is_dex_share_currency_id c) Error.invalid_currency_id
    modify (λ s. record s { dex_incentive_rewards = update s.dex_incentive_rewards c amount })
    set_incentives updates

  unfoldable pub update_dex_incentive_rewards : O → List (CurrencyId × ℕ) → Call W (Unit {0})
  update_dex_incentive_rewards origin updates = do
    ensure (T.update_origin origin) Error.bad_origin
    set_incentives updates

  -- the loop of `update_dex_premium_rewards`
  unfoldable pub set_premiums : List (CurrencyId × ℕ) → Call W (Unit {0})
  set_premiums [] = pure tt
  set_premiums ((c, amount) ∷ updates) = do
    ensure (is_dex_share_currency_id c) Error.invalid_currency_id
    ensure (contains T.stable_currency_ids c) Error.invalid_currency_id
    modify (λ s. record s { dex_premium_rewards = update s.dex_premium_rewards c amount })
    set_premiums updates

  unfoldable pub update_dex_premium_rewards : O → List (CurrencyId × ℕ) → Call W (Unit {0})
  update_dex_premium_rewards origin updates = do
    ensure (T.update_origin origin) Error.bad_origin
    set_premiums updates

-- What the loop of `accumulate_reward` carries.
pub record Accumulated (W : Type 0) : Type 0 where
  pub incentive : ℕ
  pub premium : ℕ
  pub world : W

module _ {O W : Type 0} (T : Config O W) (callback : PoolId → ℕ → W → W) where
  -- The reward of one pool, if it has shares and a reward, and its issue succeeds.
  unfoldable pub accumulate_pool : Incentives W → PoolId × ℕ → Accumulated W → Accumulated W
  accumulate_pool s (PoolId.dex_incentive c, total_shares) acc =
      let reward = s.dex_incentive_rewards c in
      let issued = T.deposit T.incentive_currency_id T.dex_incentive_pool reward acc.world in
      if is_zero total_shares
      then acc
      else (if is_zero reward then acc else (elim issued [
        | err _ ↦ acc
        | ok w ↦ record acc {
          incentive = saturating_add acc.incentive reward;
          world = callback (PoolId.dex_incentive c) reward w;
        }
      ]))
  accumulate_pool s (PoolId.dex_premium c, total_shares) acc =
      let reward = s.dex_premium_rewards c in
      let issued = T.deposit T.premium_currency_id T.dex_premium_pool reward acc.world in
      if is_zero total_shares
      then acc
      else (if is_zero reward then acc else (elim issued [
        | err _ ↦ acc
        | ok w ↦ record acc {
          premium = saturating_add acc.premium reward;
          world = callback (PoolId.dex_premium c) reward w;
        }
      ]))

  unfoldable pub accumulate_pools : Incentives W → List (PoolId × ℕ) → Accumulated W → Accumulated W
  unfolding accumulate_pool
  accumulate_pools s [] acc = acc
  accumulate_pools s (pool ∷ pools) acc = accumulate_pools s pools (accumulate_pool s pool acc)

  -- `if !x.is_zero() { accumulated_rewards.push((currency, x)) }`
  abbrev pub push_reward : CurrencyId → ℕ → List (CurrencyId × ℕ) → List (CurrencyId × ℕ)
  push_reward c x rewards = if is_zero x then rewards else rewards ++ ((c, x) ∷ [])

  unfoldable pub accumulate_reward : ℕ → Call W (List (CurrencyId × ℕ))
  unfolding accumulate_pools
  accumulate_reward now s =
      if is_zero s.accumulate_period
      then err Error.panic
      else (if is_zero (now % s.accumulate_period)
          then (let all =
                accumulate_pools s (T.pools s.world)
                  (record { incentive = 0; premium = 0; world = s.world }) in
              ok (
                push_reward T.premium_currency_id all.premium
                    (push_reward T.incentive_currency_id all.incentive []),
                record s { world = all.world },
              ))
          else ok ([], s))

module _ {O W : Type 0} (T : Config O W) where
  -- The result of the transfer is ignored.
  unfoldable pub payout : ℕ → PoolId → ℕ → Incentives W → Incentives W
  payout who (PoolId.dex_incentive _) amount s =
      elim (T.transfer T.incentive_currency_id T.dex_incentive_pool who amount s.world) [
        | ok w ↦ record s { world = w }
        | err _ ↦ s
      ]
  payout who (PoolId.dex_premium _) amount s =
      elim (T.transfer T.premium_currency_id T.dex_premium_pool who amount s.world) [
        | ok w ↦ record s { world = w }
        | err _ ↦ s
      ]
