-- ===== src/Dex/Route/Pools.antt =====
-- One swap in one pool: its product, and the ranges of the stored numbers.
use native.Mathlib.Nat.{le_refl}
use setheum.Common.{
  ℕ, ◌+◌, ◌-◌, ◌*◌, ◌≤◌, ◌≡◌, ◌≢◌, sym, subst, ◌∙◌, inl, inr, Bool, true, false, arith, u128_max,
  u32_max, Bool-cases, update_self, update_ne, if◌then◌else◌, saturating_add,
}
use setheum.Primitives.Currency.{CurrencyId, TradingPair, currency_beq, new_pair, pair_beq}
use setheum.Primitives.Order.{pair_eq, pair_beq_iff}
use setheum.Dex.Types.{Balances, Dex}
use setheum.Dex.Price.Product.{Fits}
use setheum.Dex.Route.{exchange, set_pool, swap_pools}
use setheum.Dex.Route.Quotes.{swap_pools_cases}

-- The product of the two sides of a pool.
abbrev pub product : Balances → ℕ
product v = v.0 * v.1

-- The ranges of the storage's number types: `u128` balances and a `u32` fee denominator.
pub record InRange {W : Type 0} (s : Dex W) : Type 0 where
  pub fee_le : (s.get_exchange_fee).1 ≤ u32_max
  pub left_le : (p : TradingPair) → (s.liquidity_pool p).0 ≤ u128_max
  pub right_le : (p : TradingPair) → (s.liquidity_pool p).1 ≤ u128_max

pub exchange-product :
    (flag : Bool) (x y : ℕ) (v : Balances)
    → let sides : Balances = if flag then (v.0, v.1) else (v.1, v.0) in
      sides.0 + x ≤ u128_max
      → sides.0 * sides.1 ≤ (sides.0 + x) * (sides.1 - y)
      → product v ≤ product (exchange flag x y v)
exchange-product true x y (m, n) room h = let e : saturating_add m x ≡ m + x = omega arith in rw e h
exchange-product false x y (m, n) room h =
    let e : saturating_add n x ≡ n + x = omega arith in rw e (omega arith)

pub update-product :
    {W : Type 0} (s : Dex W) (q p : TradingPair) (v : Balances)
    → product (s.liquidity_pool q) ≤ product v
    → product (s.liquidity_pool p) ≤ product ((set_pool q v s).liquidity_pool p)
update-product s q p v h = elim (Bool-cases (pair_beq p q)) [
  | inl e ↦ rw ((pair_beq_iff p q).0 e) (
      subst (λ (w : Balances). product (s.liquidity_pool q) ≤ product w)
        (sym (update_self s.liquidity_pool q v)) h)
  | inr e ↦
      let ne : p ≢ q = λ f. true_ne (sym ((pair_beq_iff p q).1 f) ∙ e) in
      subst (λ (w : Balances). product (s.liquidity_pool p) ≤ product w)
        (sym (update_ne s.liquidity_pool q p v ne)) (le_refl _)
]
  where
    true_ne : true ≡ false → ⊥
    true_ne f = cc

pub sides_fit :
    (flag : Bool) (v : Balances) (fee : ℕ × ℕ)
    → fee.1 ≤ u32_max
    → v.0 ≤ u128_max
    → v.1 ≤ u128_max
    → let sides : Balances = if flag then (v.0, v.1) else (v.1, v.0) in Fits fee sides.0 sides.1
sides_fit true v fee h l r = record { denominator_le = h; supply_le = l; target_le = r }
sides_fit false v fee h l r = record { denominator_le = h; supply_le = r; target_le = l }

exchange_le :
    (flag : Bool) (x y : ℕ) (v : Balances)
    → v.0 ≤ u128_max
    → v.1 ≤ u128_max
    → ((exchange flag x y v).0 ≤ u128_max) × ((exchange flag x y v).1 ≤ u128_max)
exchange_le true x y (m, n) l r = (omega arith, omega arith)
exchange_le false x y (m, n) l r = (omega arith, omega arith)

chosen_le :
    (t : Bool) (v w : Balances)
    → v.0 ≤ u128_max
    → v.1 ≤ u128_max
    → w.0 ≤ u128_max
    → w.1 ≤ u128_max
    → ((if t then v else w).0 ≤ u128_max) × ((if t then v else w).1 ≤ u128_max)
chosen_le true v w l r l' r' = (l, r)
chosen_le false v w l r l' r' = (l', r')

set_pool-InRange :
    {W : Type 0} (s : Dex W) (q : TradingPair) (v : Balances)
    → InRange s
    → v.0 ≤ u128_max
    → v.1 ≤ u128_max
    → InRange (set_pool q v s)
set_pool-InRange s q v range l r = record {
  fee_le = range.fee_le;
  left_le = λ p.
      (chosen_le (pair_beq p q) v (s.liquidity_pool p) l r (range.left_le p) (range.right_le p)).0;
  right_le = λ p.
      (chosen_le (pair_beq p q) v (s.liquidity_pool p) l r (range.left_le p) (range.right_le p)).1;
}

-- A swap keeps the pools in range.
pub swap_pools-InRange :
    {W : Type 0} (a b : CurrencyId) (x y : ℕ) (s : Dex W)
    → InRange s
    → InRange (swap_pools a b x y s)
swap_pools-InRange a b x y s range = elim (swap_pools_cases a b x y s) [
  | inl e ↦ rw e range
  | inr e ↦
      let q = new_pair a b in
      let flag = currency_beq a q.left in
      let (l, r) = exchange_le flag x y (s.liquidity_pool q) (range.left_le q) (range.right_le q) in
      rw e (set_pool-InRange s q (exchange flag x y (s.liquidity_pool q)) range l r)
]
