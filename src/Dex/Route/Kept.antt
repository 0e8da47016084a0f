-- ===== src/Dex/Route/Kept.antt =====
-- The hops of both kinds of quotes lower no pool's product.
use setheum.Common.{List, [], ◌∷◌, ℕ, ◌*◌, ◌≤◌, ◌<◌, ◌≡◌, ◌≢◌, subst, ◌∙◌, Option, ok, arith}
use setheum.Primitives.Currency.{CurrencyId, currency_beq, new_pair}
use setheum.Primitives.Order.{pair_eq}
use setheum.Runtime.Numbers.{IsWide, u256_max}
use setheum.Dex.Route.Pools.{InRange, sides_fit}
use setheum.Dex.Route.Invariant.{KeepsProducts}
use setheum.Dex.Types.{Config, Dex}
use setheum.Dex.Price.{get_liquidity}
use setheum.Dex.Price.Product.{Fits, get_target_amount-product}
use setheum.Dex.Price.Supply.{get_supply_amount-product, get_supply_amount_lt}
use setheum.Dex.Route.{target_step, supply_step}
use setheum.Dex.Route.Quotes.{
  Steps, SupplyHops, target_step_congr, supply_step_congr, target_step-Hop, supply_step-SupplyHop,
}

le_of_lt : {m n : ℕ} → m < n → m ≤ n
le_of_lt h = omega arith

-- The sides of a pair's pool in a state that is in range.
sides-Fits :
    {W : Type 0} (a b : CurrencyId) (s : Dex W)
    → InRange s
    → Fits s.get_exchange_fee (get_liquidity a b s).0 (get_liquidity a b s).1
unfolding get_liquidity
sides-Fits a b s range =
    let q = new_pair a b in
    sides_fit (currency_beq a q.left) (s.liquidity_pool q) s.get_exchange_fee range.fee_le
      (range.left_le q) (range.right_le q)

-- The exact numerator of the price of a hop fits a `U256`.
abbrev pub IsExact : {W : Type 0} → Dex W → CurrencyId → CurrencyId → ℕ → Type 0
IsExact s a b y = (get_liquidity a b s).0 * y * (s.get_exchange_fee).1 ≤ u256_max

-- So it does for every hop of a path.
abbrev pub AllExact : {W : Type 0} → Dex W → CurrencyId → List CurrencyId → List ℕ → Type 0
AllExact s a [] ys = Unit
AllExact s a (b ∷ path) [] = Unit
AllExact s a (b ∷ path) (y ∷ ys) = IsExact s a b y × AllExact s b path ys

module _ {O W : Type 0} (T : Config O W) (limit : Option ℕ) where
  -- A hop at a quoted supply, with a numerator that fits.
  abbrev pub ExactStep : Dex W → CurrencyId → CurrencyId → ℕ → ℕ → Type 0
  ExactStep s a b x y = (supply_step T s limit a b y ≡ ok x) × IsExact s a b y

  pub SupplyHops-ExactStep :
      (s : Dex W) (a : CurrencyId) (path : List CurrencyId) (x : ℕ) (ys : List ℕ)
      → AllExact s a path ys
      → SupplyHops T limit s a path x ys
      → Steps ExactStep s a path x ys
  SupplyHops-ExactStep s a [] x ys exact h = h
  SupplyHops-ExactStep s a (b ∷ path) x [] exact h = h
  SupplyHops-ExactStep s a (b ∷ path) x (y ∷ ys) (exact, rest) (e, h) =
      ((e, exact), SupplyHops-ExactStep s b path y ys rest h)

module _ {O W : Type 0} (T : Config O W) (wide : IsWide T.u256) (limit : Option ℕ) where
  pub target_step-KeepsProducts :
      KeepsProducts (λ (s : Dex W) a b x y. target_step T s limit a b x ≡ ok y)
  target_step-KeepsProducts = record {
    step_congr = λ a b x y s t same e. target_step_congr T limit a b x t s same ∙ e;
    step_product = λ s a b x y range e.
        let hop = target_step-Hop T limit s a b x y e in
        let sides = get_liquidity a b s in
        rw hop.priced (
          (get_target_amount-product T.u256 wide s.get_exchange_fee sides.0 sides.1 x
            (sides-Fits a b s range)).1);
  }

  pub supply_step-KeepsProducts : KeepsProducts (ExactStep T limit)
  unfolding get_liquidity
  supply_step-KeepsProducts = record {
    step_congr = λ a b x y s t same (e, exact).
        (supply_step_congr T limit a b y t s same ∙ e, rw (same.same_pool, same.same_fee) exact);
    step_product = λ s a b x y range (e, exact).
        let hop = supply_step-SupplyHop T limit s a b x y e in
        let sides = get_liquidity a b s in
        let ne = subst (λ n. n ≢ 0) hop.priced hop.priced_ne in
        rw hop.priced (
          get_supply_amount-product T.u256 wide s.get_exchange_fee sides.0 sides.1 y
            (sides-Fits a b s range) exact
            (le_of_lt (get_supply_amount_lt T.u256 wide s.get_exchange_fee sides.0 sides.1 y ne))
            ne);
  }
