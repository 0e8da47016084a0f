-- ===== src/Dex/Route/Swaps.antt =====
-- The guarantees of whole swaps along a path.
use setheum.Common.{ℕ, ◌≤◌, ◌≡◌, sym, ap, subst, ◌∙◌, Option, List, ◌∷◌, ok}
use setheum.Primitives.Currency.{CurrencyId, TradingPair}
use setheum.Runtime.Numbers.{IsWide}
use setheum.Dex.Types.{Balances, Error, Config, Dex}
use setheum.Dex.Route.{
  bad_length, swap_by_path, swap_hops, target_hops, get_target_amounts, do_swap_with_exact_supply,
  do_swap_with_exact_target, get_supply_amounts, supply_hops, and_then,
}
use setheum.Dex.Route.Quotes.{
  unless-eq_ok, and_then-eq_ok, Hops, target_hops-Hops, SupplyHops, supply_hops-SupplyHops,
}
use setheum.Dex.Route.Pools.{product, InRange}
use setheum.Dex.Route.Invariant.{Distinct, Room, swap_hops-product}
use setheum.Dex.Route.Kept.{
  AllExact, SupplyHops-ExactStep, target_step-KeepsProducts, supply_step-KeepsProducts,
}
use setheum.Dex.Route.Settled.{
  SameFrame, do_swap_with_exact_supply-Settled, do_swap_with_exact_target-Settled,
}

module _ {O W : Type 0} (T : Config O W) where
  -- A quote begins with the supply, and goes on hop by hop.
  pub get_target_amounts-Hops :
      (a : CurrencyId) (path : List CurrencyId) (x : ℕ) (limit : Option ℕ) (s : Dex W)
      {amounts : List ℕ}
      → get_target_amounts T (a ∷ path) x limit s ≡ ok amounts
      → (ys : List ℕ) × (amounts ≡ x ∷ ys) × Hops T limit s a path x ys
  unfolding get_target_amounts
  get_target_amounts-Hops a path x limit s e =
      let (_, h) =
        unless-eq_ok (bad_length T (a ∷ path)) Error.invalid_trading_path_length
          (target_hops T s limit a path x) e in
      target_hops-Hops T limit s a path x h

  -- A quote for a target begins with the supply, and goes on hop by hop.
  pub get_supply_amounts-SupplyHops :
      (a : CurrencyId) (path : List CurrencyId) (y : ℕ) (limit : Option ℕ) (s : Dex W)
      {amounts : List ℕ}
      → get_supply_amounts T (a ∷ path) y limit s ≡ ok amounts
      → (x : ℕ) × (ys : List ℕ) × (amounts ≡ x ∷ ys) × SupplyHops T limit s a path x ys
  unfolding get_supply_amounts
  get_supply_amounts-SupplyHops a path y limit s {amounts} e =
      let (_, h) =
        unless-eq_ok (bad_length T (a ∷ path)) Error.invalid_trading_path_length
          (and_then (supply_hops T s limit a path y) λ all. ok (all.0 ∷ all.1)) e in
      let (all, e₁, q) =
        and_then-eq_ok (supply_hops T s limit a path y) (λ all. ok (all.0 ∷ all.1)) h in
      (all.0, all.1, cc, supply_hops-SupplyHops T limit s a path y e₁)

  module _ (wide : IsWide T.u256) where
    -- A successful swap of an exact supply along a path that uses no pair twice lowers the
    -- product of no pool, changes no status, provision or fee, and pays out at least the minimum,
    -- if the stored numbers are in range and the pools have
    -- room for what the quote puts in.
    pub do_swap_with_exact_supply-product :
        (who : ℕ) (a : CurrencyId) (path : List CurrencyId) (x least : ℕ) (limit : Option ℕ)
        (s : Dex W) {y : ℕ} {t : Dex W}
        → InRange s
        → Distinct a path
        → ((ys : List ℕ)
            → get_target_amounts T (a ∷ path) x limit s ≡ ok (x ∷ ys)
            → Room s a path x ys)
        → do_swap_with_exact_supply T who (a ∷ path) x least limit s ≡ ok (y, t)
        → ((p : TradingPair) → product (s.liquidity_pool p) ≤ product (t.liquidity_pool p))
          × SameFrame s t
          × (least ≤ y)
    unfolding swap_by_path
    do_swap_with_exact_supply-product who a path x least limit s {y} {t} range dist room e =
        let (amounts, first, last, e₁, e₂, e₃, done) =
          do_swap_with_exact_supply-Settled T who (a ∷ path) x least limit s e in
        let (ys, q, hops) = get_target_amounts-Hops a path x limit s e₁ in
        let e' = e₁ ∙ ap ok q in
        let pools : t.liquidity_pool ≡ (swap_hops a path x ys s).liquidity_pool =
          done.pools ∙ ap (λ l. (swap_by_path (a ∷ path) l s).liquidity_pool) q in
        (
          λ p.
              subst (λ (m : TradingPair → Balances). product (s.liquidity_pool p) ≤ product (m p))
                (sym pools)
                (swap_hops-product (target_step-KeepsProducts T wide limit) s a path x ys p range
                  dist (room ys e') hops),
          done.frame,
          e₃,
        )

    -- A successful swap for an exact target along a path that uses no pair twice lowers the product
    -- of no pool, changes no status, provision or fee, and takes at most the maximum, if the stored
    -- numbers are in range, the pools have room for what the quote puts in and the numerators of the
    -- prices fit a `U256`.
    pub do_swap_with_exact_target-product :
        (who : ℕ) (a : CurrencyId) (path : List CurrencyId) (y most : ℕ) (limit : Option ℕ)
        (s : Dex W) {x : ℕ} {t : Dex W}
        → InRange s
        → Distinct a path
        → ((z : ℕ) (ys : List ℕ)
            → get_supply_amounts T (a ∷ path) y limit s ≡ ok (z ∷ ys)
            → Room s a path z ys × AllExact s a path ys)
        → do_swap_with_exact_target T who (a ∷ path) y most limit s ≡ ok (x, t)
        → ((p : TradingPair) → product (s.liquidity_pool p) ≤ product (t.liquidity_pool p))
          × SameFrame s t
          × (x ≤ most)
    unfolding swap_by_path
    do_swap_with_exact_target-product who a path y most limit s {x} {t} range dist fits e =
        let (amounts, first, last, e₁, e₂, e₃, done) =
          do_swap_with_exact_target-Settled T who (a ∷ path) y most limit s e in
        let (z, ys, q, hops) = get_supply_amounts-SupplyHops a path y limit s e₁ in
        let (room, exact) = fits z ys (e₁ ∙ ap ok q) in
        let pools : t.liquidity_pool ≡ (swap_hops a path z ys s).liquidity_pool =
          done.pools ∙ ap (λ l. (swap_by_path (a ∷ path) l s).liquidity_pool) q in
        (
          λ p.
              subst (λ (m : TradingPair → Balances). product (s.liquidity_pool p) ≤ product (m p))
                (sym pools)
                (swap_hops-product (supply_step-KeepsProducts T wide limit) s a path z ys p range
                  dist room (SupplyHops-ExactStep T limit s a path z ys exact hops)),
          done.frame,
          e₃,
        )
