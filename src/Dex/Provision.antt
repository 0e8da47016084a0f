-- ===== src/Dex/Provision.antt =====
-- The provision of a new pair (`do_add_provision`) and its conversion to an enabled pair
-- (`convert_to_enabled_if_possible`).
pub mod Effects
pub mod Conversion
use setheum.Common.{
  lookup, insert, ℕ, ◌+◌, Bool, true, false, not, ◌&&◌, ◌||◌, Option, none, some, List, [], ◌∷◌,
  Result, ok, err, Action, ◌>>=◌, ◌>>◌, pure, fail, ensure, ok_or, gets, modify, is_zero, leb,
  if◌then◌else◌, saturating_add, saturating_sub, update, ◌++◌,
}
use setheum.Primitives.Currency.{CurrencyId, TradingPair, new_pair, get_dex_share_currency_id}
use setheum.Primitives.Order.{pair_eq}
use setheum.Dex.Types.{
  Balances, TradingPairProvisionParameters, TradingPairStatus, Error, Event, Config, Dex, Call,
  outside, deposit_event,
}
use setheum.Dex.Price.{in_order}
use setheum.Dex.Route.{set_pool}
use setheum.Dex.Liquidity.{initial_shares}

abbrev pub add_balances : Balances → Balances → Balances
add_balances (x, y) (c, d) = (saturating_add x c, saturating_add y d)

abbrev pub or_zero : Option Balances → Balances
or_zero none = (0, 0)
or_zero (some v) = v

abbrev pub is_some : {A : Type 0} → Option A → Bool
is_some none = false
is_some (some _) = true

module _ {W : Type 0} where
  abbrev pub set_status : TradingPair → TradingPairStatus → Dex W → Dex W
  set_status p v s = record s { trading_pair_statuses = update s.trading_pair_statuses p v }

  abbrev pub set_provisions : TradingPair → List (ℕ × Balances) → Dex W → Dex W
  set_provisions p v s = record s { provisioning_pool = update s.provisioning_pool p v }

-- the test of `convert_to_enabled_if_possible`
abbrev pub is_ready : TradingPairProvisionParameters → ℕ → Bool
is_ready q now =
    leb q.not_before now
    && (not (is_zero q.accumulated_provision.0)
        && (not (is_zero q.accumulated_provision.1)
            && (leb q.target_provision.0 q.accumulated_provision.0
                || leb q.target_provision.1 q.accumulated_provision.1)))

module _ {O W : Type 0} (T : Config O W) where
  -- `if inc_consumers(&who).is_err() { warn }`
  abbrev pub count_consumer : Bool → ℕ → Dex W → Dex W
  count_consumer true who s = s
  count_consumer false who s = elim (T.inc_consumers who s.world) [
    | ok w ↦ record s { world = w }
    | err _ ↦ s
  ]

  -- `do_add_provision` for a pair with provision parameters
  unfoldable pub provide :
      ℕ → TradingPair → TradingPairProvisionParameters → Balances → Call W (Unit {0})
  provide who p q contribution = do
    ensure (leb q.min_contribution.0 contribution.0 || leb q.min_contribution.1 contribution.1)
        Error.invalid_contribution_increment
    maybe_pool ← gets (λ s. lookup who (s.provisioning_pool p))
    outside (T.transfer p.left who T.account_id contribution.0)
    outside (T.transfer p.right who T.account_id contribution.1)
    modify (count_consumer (is_some maybe_pool) who)
    modify (
        set_status p (
          TradingPairStatus.provisioning (record q {
            accumulated_provision = add_balances q.accumulated_provision contribution;
          })))
    deposit_event (Event.add_provision who p.left contribution.0 p.right contribution.1)
    modify λ s.
        set_provisions p
          (insert who (add_balances (or_zero maybe_pool) contribution) (s.provisioning_pool p)) s

  unfoldable pub do_add_provision : ℕ → CurrencyId → CurrencyId → ℕ → ℕ → Call W (Unit {0})
  unfolding provide
  do_add_provision who a b contribution_a contribution_b s =
      let p = new_pair a b in
      elim (s.trading_pair_statuses p) [
        | TradingPairStatus.provisioning q ↦
            provide who p q (in_order a p (contribution_a, contribution_b)) s
        | _ ↦ err Error.must_be_provisioning
      ]

  -- A failed deposit is logged and skipped.
  abbrev pub issue_share : CurrencyId → ℕ → ℕ → ℕ × W → ℕ × W
  issue_share lp who share (total, w) = elim (T.deposit lp who share w) [
    | ok w' ↦ (saturating_add total share, T.dec_consumers who w')
    | err _ ↦ (total, T.dec_consumers who w)
  ]

  -- the loop over the drained provisions
  unfoldable pub issue_shares : CurrencyId → Balances → List (ℕ × Balances) → ℕ × W → ℕ × W
  issue_shares lp total_provision [] acc = acc
  issue_shares lp total_provision ((who, contribution) ∷ rest) acc =
      issue_shares lp total_provision rest
        (issue_share lp who (initial_shares T.fixed total_provision contribution) acc)

  -- The conversion of a pair that is ready, with its share currency. Into the pool go the
  -- provisions by `saturating_add` on the left and by `saturating_sub` on the right.
  unfoldable pub enable_with :
      TradingPair → TradingPairProvisionParameters → CurrencyId → Dex W → Dex W
  unfolding issue_shares
  enable_with p q lp s =
      let (x, y) = q.accumulated_provision in
      let (total, w) = issue_shares lp (x, y) (s.provisioning_pool p) (0, s.world) in
      let pool = s.liquidity_pool p in
      record s {
        liquidity_pool =
            update s.liquidity_pool p (saturating_add pool.0 x, saturating_sub pool.1 y);
        trading_pair_statuses = update s.trading_pair_statuses p TradingPairStatus.enabled;
        provisioning_pool = update s.provisioning_pool p [];
        events = s.events ++ (Event.provisioning_to_enabled p x y total ∷ []);
        world = w;
      }

  -- `get_dex_share_currency_id().expect("shouldn't be invalid!")`, then the conversion
  unfoldable pub enable_if_shared :
      TradingPair → TradingPairProvisionParameters → Option CurrencyId → Call W (Unit {0})
  unfolding enable_with
  enable_if_shared p q none s = err Error.panic
  enable_if_shared p q (some lp) s = ok (tt, enable_with p q lp s)

  -- the `if let` on the status, and the test
  unfoldable pub convert_by_status : TradingPair → TradingPairStatus → Call W (Unit {0})
  unfolding enable_if_shared
  convert_by_status p (TradingPairStatus.provisioning q) s =
      if is_ready q (T.block_number s.world)
      then enable_if_shared p q (get_dex_share_currency_id p) s
      else ok (tt, s)
  convert_by_status p TradingPairStatus.not_enabled s = ok (tt, s)
  convert_by_status p TradingPairStatus.enabled s = ok (tt, s)

  unfoldable pub convert_to_enabled_if_possible : TradingPair → Call W (Unit {0})
  unfolding convert_by_status
  convert_to_enabled_if_possible p s = convert_by_status p (s.trading_pair_statuses p) s
