-- ===== src/Dex/Tests/Lifecycle.antt =====
-- The life of a pair at concrete inputs: listing, provisions, conversion.
use setheum.Dex.Calls.{list_trading_pair, disable_trading_pair, add_liquidity}
use setheum.Common.{ℕ, ◌≡◌, refl, false, List, [], ◌∷◌}
use setheum.Primitives.Currency.{
  new_pair, from_token_currency_ids, get_dex_share_currency_id, join_dex_share_currency_id,
}
use setheum.Dex.Types.{TradingPairStatus, Dex}
use setheum.Dex.Provision.{convert_to_enabled_if_possible, do_add_provision}
use setheum.Dex.Calls.Changes.{ChangeAt}
use setheum.Dex.Calls.Machine.{DexCall, dispatch, dispatch-ChangeAt}
use setheum.Dex.Calls.Accounts.{IsRecorded, run_calls, run_calls-IsRecorded}
use setheum.Dex.Tests.{config, dinar, setter, pair, trading, provided, after}

abbrev converted : Dex ℕ
converted = after (convert_to_enabled_if_possible config pair provided)

abbrev closed : Dex ℕ
closed = record trading { trading_pair_statuses = λ _. TradingPairStatus.not_enabled; world = 0 }

abbrev listing : DexCall ℕ
listing = DexCall.list 0 dinar setter (5, 5) (100, 100) 15

abbrev listed : Dex ℕ
listed = after (dispatch config listing closed)

dispatch-ChangeAt_example : ChangeAt closed listed pair
unfolding list_trading_pair from_token_currency_ids get_dex_share_currency_id
    join_dex_share_currency_id new_pair
dispatch-ChangeAt_example = dispatch-ChangeAt config listing closed refl pair

closed-IsRecorded : IsRecorded closed
closed-IsRecorded p = refl

-- Listing, two contributions of one account, of which the second converts the pair.
abbrev calls : List (DexCall ℕ)
calls =
    listing
    ∷ DexCall.add 7 setter dinar 30 40 0 false
    ∷ DexCall.add 7 dinar setter 60 6 0 false
    ∷ DexCall.disable 1 dinar setter
    ∷ []

run_calls-IsRecorded_example : IsRecorded (run_calls config calls closed)
run_calls-IsRecorded_example = run_calls-IsRecorded config calls closed closed-IsRecorded

-- The two contributions have made a pool of the pair's left side only, and the account has the
-- shares; the last call is not by an origin that may disable pairs.
calls_test :
    let t = run_calls config calls closed in
    (t.trading_pair_statuses pair ≡ TradingPairStatus.enabled)
    × (t.provisioning_pool pair ≡ [])
    × (t.liquidity_pool pair ≡ (1100, 1964))
unfolding disable_trading_pair add_liquidity from_token_currency_ids list_trading_pair
    get_dex_share_currency_id join_dex_share_currency_id new_pair do_add_provision
    convert_to_enabled_if_possible
calls_test = (refl, refl, refl)
