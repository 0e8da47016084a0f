-- ===== src/Dex/Route/Invariant.antt =====
-- Swaps along a path whose hops are pools of different pairs lower no pool's product, if no single
-- hop does.
use native.Mathlib.Nat.{le_refl, le_trans}
use setheum.Common.{ℕ, ◌+◌, ◌-◌, ◌*◌, ◌≤◌, ◌≢◌, inl, inr, List, [], ◌∷◌, u128_max}
use setheum.Primitives.Currency.{CurrencyId, TradingPair, currency_beq, new_pair}
use setheum.Primitives.Order.{pair_eq}
use setheum.Dex.Route.Pools.{product, InRange, exchange-product, update-product, swap_pools-InRange}
use setheum.Dex.Types.{Dex}
use setheum.Dex.Price.{get_liquidity}
use setheum.Dex.Route.{exchange, swap_pools, swap_hops}
use setheum.Dex.Route.Quotes.{swap_pools_cases, swap_pools-SamePair, Steps, SamePair}

-- No later hop uses the pair `p`; no two hops use one pair.
abbrev pub Avoids : TradingPair → CurrencyId → List CurrencyId → Type 0
Avoids p a [] = Unit
Avoids p a (b ∷ path) = (new_pair a b ≢ p) × Avoids p b path

abbrev pub Distinct : CurrencyId → List CurrencyId → Type 0
Distinct a [] = Unit
Distinct a (b ∷ path) = Avoids (new_pair a b) b path × Distinct b path

-- What each hop puts into its pool fits there, so that `saturating_add` does not cut it.
abbrev pub Room : {W : Type 0} → Dex W → CurrencyId → List CurrencyId → ℕ → List ℕ → Type 0
Room s a [] x ys = Unit
Room s a (b ∷ path) x [] = Unit
Room s a (b ∷ path) x (y ∷ ys) = ((get_liquidity a b s).0 + x ≤ u128_max) × Room s b path y ys

-- A kind of step that a swap in another pool does not change, and that lowers no product.
pub record KeepsProducts {W : Type 0} (Step : Dex W → CurrencyId → CurrencyId → ℕ → ℕ → Type 0)
    : Type 0 where
  pub step_congr :
      (a b : CurrencyId) (x y : ℕ) (s t : Dex W)
      → SamePair (new_pair a b) t s
      → Step s a b x y
      → Step t a b x y
  pub step_product :
      (s : Dex W) (a b : CurrencyId) (x y : ℕ)
      → InRange s
      → Step s a b x y
      → (let v = get_liquidity a b s in v.0 * v.1 ≤ (v.0 + x) * (v.1 - y))

module _ {W : Type 0} {Step : Dex W → CurrencyId → CurrencyId → ℕ → ℕ → Type 0}
    (keeps : KeepsProducts Step) where
  -- A step that is taken lowers no pool's product.
  Step-product :
      (s : Dex W) (a b : CurrencyId) (x y : ℕ) (p : TradingPair)
      → InRange s
      → (get_liquidity a b s).0 + x ≤ u128_max
      → Step s a b x y
      → product (s.liquidity_pool p) ≤ product ((swap_pools a b x y s).liquidity_pool p)
  unfolding get_liquidity
  Step-product s a b x y p range room hop =
      let q = new_pair a b in
      let v = s.liquidity_pool q in
      let flag = currency_beq a q.left in
      elim (swap_pools_cases a b x y s) [
        | inl e ↦ rw e (le_refl _)
        | inr e ↦ rw e (
            update-product s q p (exchange flag x y v)
              (exchange-product flag x y v room (keeps.step_product s a b x y range hop)))
      ]

  -- The later steps still hold after a swap in a pool that they avoid.
  Steps-after :
      (a b : CurrencyId) (x y : ℕ) (s : Dex W) (c : CurrencyId) (path : List CurrencyId) (z : ℕ)
      (zs : List ℕ)
      → Avoids (new_pair a b) c path
      → Steps Step s c path z zs
      → Steps Step (swap_pools a b x y s) c path z zs
  Steps-after a b x y s c [] z zs av h = h
  Steps-after a b x y s c (d ∷ path) z [] av h = h
  Steps-after a b x y s c (d ∷ path) z (w ∷ zs) (ne, av) (e, h) = (
    keeps.step_congr c d z w s (swap_pools a b x y s)
        (swap_pools-SamePair a b x y s (new_pair c d) ne) e,
    Steps-after a b x y s d path w zs av h,
  )

  Room-after :
      (a b : CurrencyId) (x y : ℕ) (s : Dex W) (c : CurrencyId) (path : List CurrencyId) (z : ℕ)
      (zs : List ℕ)
      → Avoids (new_pair a b) c path
      → Room s c path z zs
      → Room (swap_pools a b x y s) c path z zs
  unfolding get_liquidity
  Room-after a b x y s c [] z zs av h = h
  Room-after a b x y s c (d ∷ path) z [] av h = h
  Room-after a b x y s c (d ∷ path) z (w ∷ zs) (ne, av) (e, h) = (
    rw ((swap_pools-SamePair a b x y s (new_pair c d) ne).same_pool) e,
    Room-after a b x y s d path w zs av h,
  )

  pub swap_hops-product :
      (s : Dex W) (a : CurrencyId) (path : List CurrencyId) (x : ℕ) (ys : List ℕ) (p : TradingPair)
      → InRange s
      → Distinct a path
      → Room s a path x ys
      → Steps Step s a path x ys
      → product (s.liquidity_pool p) ≤ product ((swap_hops a path x ys s).liquidity_pool p)
  unfolding swap_hops
  swap_hops-product s a [] x ys p range dist room hops = le_refl _
  swap_hops-product s a (b ∷ path) x [] p range dist room hops = absurd hops
  swap_hops-product s a (b ∷ path) x (y ∷ ys) p range (av, dist) (room, rooms) (e, hops) =
      let t = swap_pools a b x y s in
      le_trans (Step-product s a b x y p range room e) (
        swap_hops-product t b path y ys p (swap_pools-InRange a b x y s range) dist
          (Room-after a b x y s b path y ys av rooms) (Steps-after a b x y s b path y ys av hops))
