-- ===== src/Dex/Tests/Targets.antt =====
-- A swap for an exact target.
use setheum.Common.{ℕ, ◌≤◌, ◌≡◌, refl, subst, List, [], ◌∷◌, none, Result, ok, arith}
use setheum.Primitives.Currency.{TradingPair, new_pair}
use setheum.Runtime.Numbers.{wide-IsWide}
use setheum.Dex.Types.{Error}
use setheum.Dex.Price.{get_liquidity, get_supply_amount}
use setheum.Dex.Route.{get_supply_amounts, supply_step, do_swap_with_exact_target}
use setheum.Dex.Route.Pools.{product}
use setheum.Dex.Route.Invariant.{Room}
use setheum.Dex.Route.Kept.{AllExact}
use setheum.Dex.Route.Settled.{SameFrame}
use setheum.Dex.Route.Swaps.{do_swap_with_exact_target-product}
use setheum.Dex.Tests.{config, dinar, setter, trading, bought, trading-InRange}

quoted-Room :
    (z : ℕ) (ys : List ℕ)
    → get_supply_amounts config (dinar ∷ setter ∷ []) 181 none trading ≡ ok (z ∷ ys)
    → Room trading dinar (setter ∷ []) z ys × AllExact trading dinar (setter ∷ []) ys
unfolding get_supply_amounts supply_step get_liquidity new_pair get_supply_amount
quoted-Room z ys e =
    let q : 100 ∷ 181 ∷ [] ≡ z ∷ ys = quote e in
    let first : 100 ≡ z = cc in
    let rest : 181 ∷ [] ≡ ys = cc in
    subst (λ z. Room trading dinar (setter ∷ []) z ys × AllExact trading dinar (setter ∷ []) ys)
      first
      (subst
        (λ ys. Room trading dinar (setter ∷ []) 100 ys × AllExact trading dinar (setter ∷ []) ys)
        rest ((omega arith, tt), (omega arith, tt)))
  where
    quote :
        ◌≡◌ {A = Result Error (List ℕ)} (ok (100 ∷ 181 ∷ [])) (ok (z ∷ ys))
        → 100 ∷ 181 ∷ [] ≡ z ∷ ys
    quote h = cc

do_swap_with_exact_target-product_example :
    ((p : TradingPair) → product (1000, 2000) ≤ product (bought.liquidity_pool p))
    × SameFrame trading bought
    × (100 ≤ 150)
unfolding do_swap_with_exact_target get_supply_amounts supply_step get_liquidity new_pair
    get_supply_amount
do_swap_with_exact_target-product_example =
    do_swap_with_exact_target-product config wide-IsWide 7 dinar (setter ∷ []) 181 150 none trading
      trading-InRange (tt, tt) quoted-Room refl
