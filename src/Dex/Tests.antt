-- ===== src/Dex/Tests.antt =====
-- The dex at concrete inputs: a world that is one total issuance, in which all transfers succeed,
-- and a dex whose pairs are all alike.
mod Lifecycle
mod Refunds
mod Targets
use setheum.Dex.Calls.{list_trading_pair, disable_trading_pair, add_liquidity}
use setheum.Common.{
  ℕ, ◌+◌, ◌-◌, ◌*◌, ◌/◌, ◌≤◌, ◌≡◌, ◌≢◌, refl, inl, true, false, none, some, List, [], ◌∷◌, Result,
  ok, err, arith, length, get_elem?, if◌then◌else◌, leb, is_zero, ◌==◌, ==_refl, inr, Bool-cases,
  Option, Bool, sym,
}
use setheum.Primitives.Token.{TokenSymbol}
use setheum.Primitives.Currency.{
  CurrencyId, DexShare, TradingPair, new_pair, from_token_currency_ids, get_dex_share_currency_id,
  join_dex_share_currency_id, currency_beq,
}
use setheum.Dex.Liquidity.Shares.{IncrementsFit}
use setheum.Runtime.Numbers.{accuracy, rounded, wide, rounded-IsRounded, wide-IsWide}
use setheum.Dex.Types.{TradingPairProvisionParameters, TradingPairStatus, Error, Config, Dex}
use setheum.Dex.Price.{in_order, get_liquidity, get_target_amount, get_supply_amount}
use setheum.Dex.Price.Product.{get_target_amount-product}
use setheum.Dex.Price.Supply.{get_supply_amount-covers, get_supply_amount-product}
use setheum.Dex.Route.{
  target_step, supply_step, get_target_amounts, get_supply_amounts, do_swap_with_exact_supply,
  do_swap_with_exact_target,
}
use setheum.Dex.Route.Quotes.{SamePair}
use setheum.Dex.Route.Pools.{InRange, product}
use setheum.Dex.Route.Invariant.{Room}
use setheum.Dex.Route.Settled.{
  SameFrame, Settled, do_swap_with_exact_supply-Settled, do_swap_with_exact_target-Settled,
}
use setheum.Dex.Route.Swaps.{do_swap_with_exact_supply-product}
use setheum.Dex.Liquidity.{
  do_add_liquidity, do_remove_liquidity, liquidity_increments, liquidity_decrements,
}
use setheum.Dex.Liquidity.Effects.{Added, do_add_liquidity-Added}
use setheum.Dex.Liquidity.Removal.{Removed, do_remove_liquidity-Removed}
use setheum.Dex.Liquidity.Fairness.{
  PerShare, do_add_liquidity-PerShare, do_remove_liquidity-PerShare,
}
use setheum.Dex.Provision.{convert_to_enabled_if_possible, do_add_provision}
use setheum.Dex.Provision.Conversion.{Ready}
use setheum.Primitives.Order.{currency_beq_iff}
use setheum.Dex.Calls.Changes.{ChangeAt}
use setheum.Dex.Calls.Machine.{DexCall, dispatch, dispatch-ChangeAt}
use setheum.Dex.Calls.Accounts.{IsRecorded, run_calls, run_calls-IsRecorded}

-- Origin 0 may list pairs; the dex has the account 99.
abbrev config : Config ℕ ℕ
config = record {
  fixed = rounded;
  u256 = wide;
  ensure_signed = λ o. some o;
  listing_origin = λ o. is_zero o;
  trading_path_limit = 3;
  account_id = 99;
  transfer = λ _ _ _ _ w. ok w;
  deposit = λ _ _ amount w. ok (w + amount);
  withdraw = λ _ _ amount w. if leb amount w then ok (w - amount) else err 1;
  total_issuance = λ _ w. w;
  do_deposit_dex_share = λ _ _ _ w. ok w;
  do_withdraw_dex_share = λ _ _ _ w. ok w;
  set_erc20_mapping = λ _ w. ok w;
  encode_evm_address = λ _ _. none;
  block_number = λ _. 20;
  inc_consumers = λ _ w. ok w;
  dec_consumers = λ _ w. w;
}

abbrev setter : CurrencyId
setter = CurrencyId.token TokenSymbol.sett

abbrev dinar : CurrencyId
dinar = CurrencyId.token TokenSymbol.dnar

abbrev share : CurrencyId
share = CurrencyId.dex_share (DexShare.token TokenSymbol.dnar) (DexShare.token TokenSymbol.sett)

abbrev pair : TradingPair
pair = record { left = dinar; right = setter }

abbrev trading : Dex ℕ
trading = record {
  liquidity_pool = λ _. (1000, 2000);
  trading_pair_statuses = λ _. TradingPairStatus.enabled;
  provisioning_pool = λ _. [];
  get_exchange_fee = (3, 1000);
  events = [];
  world = 500;
}

abbrev parameters : TradingPairProvisionParameters
parameters = record {
  min_contribution = (1, 1);
  target_provision = (10, 10);
  accumulated_provision = (12, 5);
  not_before = 15;
}

abbrev provided : Dex ℕ
provided = record trading {
  liquidity_pool = λ _. (0, 0);
  trading_pair_statuses = λ _. TradingPairStatus.provisioning parameters;
  provisioning_pool = λ _. (7, (12, 5)) ∷ [];
  world = 0;
}

abbrev after : {A : Type 0} → Result Error (A × Dex ℕ) → Dex ℕ
after (ok (_, t)) = t
after (err _) = trading

quote_test : get_target_amount wide (3, 1000) 1000 2000 100 ≡ 181
unfolding get_target_amount
quote_test = refl

swap_test : get_target_amounts config (dinar ∷ setter ∷ []) 100 none trading ≡ ok (100 ∷ 181 ∷ [])
unfolding get_target_amounts target_step get_liquidity new_pair get_target_amount
swap_test = refl

get_target_amount-product_example :
    let q = get_target_amount wide (3, 1000) 1000 2000 100 in
    (q ≤ 2000) × (1000 * 2000 ≤ (1000 + 100) * (2000 - q))
get_target_amount-product_example =
    get_target_amount-product wide wide-IsWide (3, 1000) 1000 2000 100
      (record { denominator_le = omega arith; supply_le = omega arith; target_le = omega arith })

get_supply_amount-covers_example :
    181
    ≤ get_target_amount wide (3, 1000) 1000 2000 (get_supply_amount wide (3, 1000) 1000 2000 181)
unfolding get_supply_amount
get_supply_amount-covers_example =
    get_supply_amount-covers wide wide-IsWide (3, 1000) 1000 2000 181
      (record { denominator_le = omega arith; supply_le = omega arith; target_le = omega arith })
      (omega arith) (omega arith) (omega arith) (omega arith)

trading-InRange : InRange trading
trading-InRange = record {
  fee_le = omega arith;
  left_le = λ _. omega arith;
  right_le = λ _. omega arith;
}

trading-Room : (ys : List ℕ) → Room trading dinar (setter ∷ []) 100 ys
unfolding get_liquidity new_pair
trading-Room [] = tt
trading-Room (y ∷ ys) = (omega arith, tt)

abbrev swapped : Dex ℕ
swapped = after (do_swap_with_exact_supply config 7 (dinar ∷ setter ∷ []) 100 150 none trading)

do_swap_with_exact_supply-product_example :
    ((p : TradingPair) → product (1000, 2000) ≤ product (swapped.liquidity_pool p))
    × SameFrame trading swapped
    × (150 ≤ 181)
unfolding do_swap_with_exact_supply get_target_amounts target_step get_liquidity new_pair
    get_target_amount
do_swap_with_exact_supply-product_example =
    do_swap_with_exact_supply-product config wide-IsWide 7 dinar (setter ∷ []) 100 150 none trading
      trading-InRange (tt, tt) (λ ys _. trading-Room ys) refl

abbrev bought : Dex ℕ
bought = after (do_swap_with_exact_target config 7 (dinar ∷ setter ∷ []) 181 150 none trading)

abbrev added : Dex ℕ
added = after (do_add_liquidity config 7 dinar setter 100 200 1 true trading)

trading-IncrementsFit : IncrementsFit rounded 500 (1000, 2000) (100, 200)
trading-IncrementsFit = record {
  left_fits = λ _. record {
    price_fits = omega arith;
    amount_fits = omega arith;
    part_fits = omega arith;
    share_fits = λ n e. let q : n ≡ 100 * accuracy / 1000 = cc in omega arith;
  };
  right_fits = λ e. absurd (cc);
}

do_add_liquidity-PerShare_example : PerShare 500 (1000, 2000) 550 (added.liquidity_pool pair)
unfolding do_add_liquidity get_dex_share_currency_id join_dex_share_currency_id new_pair
    liquidity_increments
do_add_liquidity-PerShare_example =
    do_add_liquidity-PerShare config rounded-IsRounded 7 dinar setter 100 200 1 true trading refl
      share refl (omega arith) trading-IncrementsFit (omega arith) (omega arith)

abbrev removed : Dex ℕ
removed = after (do_remove_liquidity config 7 dinar setter 50 1 1 false trading)

do_remove_liquidity-PerShare_example : PerShare 500 (1000, 2000) 450 (removed.liquidity_pool pair)
unfolding do_remove_liquidity from_token_currency_ids get_dex_share_currency_id
    join_dex_share_currency_id new_pair liquidity_decrements
do_remove_liquidity-PerShare_example =
    do_remove_liquidity-PerShare config rounded-IsRounded 7 dinar setter 50 1 1 false trading
      (omega arith) refl share refl (omega arith) (omega arith) (omega arith) (omega arith)
