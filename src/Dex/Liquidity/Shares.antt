-- ===== src/Dex/Liquidity/Shares.antt =====
-- Adding and removing liquidity dilutes nobody: against either side of the pool, new shares cost
-- at least their part, and removed shares draw at most theirs, where the products of the fixed-point
-- numbers fit a `u128`.
use native.Mathlib.Nat.{mul-le-mul, le_of_mul-le-mul_right, le_refl}
use setheum.Common.{
  ℕ, zero, suc, ◌*◌, ◌≤◌, ◌<◌, ◌≡◌, ◌≢◌, true, false, some, u128_max, inl, inr, arith, is_zero, leb,
  Bool-cases, Option-cases,
}
use setheum.Runtime.Numbers.{FixedPoint, IsRounded, accuracy, unwrap_or_default}
use setheum.Dex.Types.{Balances}
use setheum.Dex.Liquidity.{share_of, price_of, liquidity_increments, liquidity_decrements}

-- Two roundings down, one after the other, in exact numbers.
two_steps :
    (n p q m total : ℕ) → n * p ≤ q * accuracy → m * accuracy ≤ n * total → m * p ≤ q * total
two_steps n p q m total h g =
    le_of_mul-le-mul_right {k = accuracy}
      (omega (arith, mul-le-mul h (le_refl total), mul-le-mul g (le_refl p))) (omega arith)

cross :
    (sh pool a total q m : ℕ)
    → 0 < pool
    → sh * pool ≤ a * total
    → a * q ≤ m * pool
    → sh * q ≤ m * total
cross sh pool a total q m p h g =
    le_of_mul-le-mul_right {k = pool}
      (omega (arith, mul-le-mul h (le_refl q), mul-le-mul g (le_refl total))) p

-- The products fit a `u128` where an amount at the price of `p` for `q` is added to the side `p` of
-- a pool for a part of `total`.
pub record SideFits (f : FixedPoint) (p q m total : ℕ) : Type 0 where
  pub price_fits : p * accuracy ≤ u128_max
  pub amount_fits : price_of f p q * m ≤ u128_max
  pub part_fits : f.saturating_mul_int (price_of f p q) m * accuracy ≤ u128_max
  pub share_fits :
      (n : ℕ)
      → f.checked_from_rational (f.saturating_mul_int (price_of f p q) m) p ≡ some n
      → n * total ≤ u128_max

-- The same on the side that `liquidity_increments` chooses.
pub record IncrementsFit (f : FixedPoint) (total : ℕ) (pool largest : Balances) : Type 0 where
  pub left_fits :
      leb (price_of f largest.1 largest.0) (price_of f pool.1 pool.0) ≡ true
      → SideFits f pool.0 pool.1 largest.1 total
  pub right_fits :
      leb (price_of f largest.1 largest.0) (price_of f pool.1 pool.0) ≡ false
      → SideFits f pool.1 pool.0 largest.0 total

module _ (f : FixedPoint) (r : IsRounded f) where
  open r use {from_rational_le, from_rational_zero, saturating_mul_le, checked_mul_le}

  price_le : (n d : ℕ) → n * accuracy ≤ u128_max → price_of f n d * d ≤ n * accuracy
  price_le n d fits = elim (Option-cases (f.checked_from_rational n d)) [
    | inl e ↦ rw (e, price_of) (omega arith)
    | inr (v, e) ↦ rw (e, price_of) (from_rational_le n d fits e)
  ]

  -- An amount at a price of `p` for `q`.
  at_price_le :
      (p q m : ℕ)
      → p * accuracy ≤ u128_max
      → price_of f p q * m ≤ u128_max
      → f.saturating_mul_int (price_of f p q) m * q ≤ p * m
  at_price_le p q m fits small =
      two_steps (price_of f p q) q p (f.saturating_mul_int (price_of f p q) m) m (price_le p q fits)
        (saturating_mul_le (price_of f p q) m small)

  share_le :
      (amount pool total : ℕ)
      → amount * accuracy ≤ u128_max
      → ((n : ℕ) → f.checked_from_rational amount pool ≡ some n → n * total ≤ u128_max)
      → share_of f amount pool total * pool ≤ amount * total
  share_le amount pool total fits small =
      elim (Option-cases (f.checked_from_rational amount pool)) [
        | inl e ↦ rw (e, share_of) (omega arith)
        | inr (n, e) ↦
            rw (e, share_of)
              (elim (Option-cases (f.checked_mul_int n total)) [
                | inl g ↦ rw (g, unwrap_or_default) (omega arith)
                | inr (m, g) ↦
                    rw (g, unwrap_or_default)
                      (two_steps n pool amount m total (from_rational_le amount pool fits e)
                        (checked_mul_le n total (small n e) g))
              ])
      ]

  share_of_zero : (amount total : ℕ) → share_of f amount 0 total ≡ 0
  share_of_zero amount total = rw (from_rational_zero amount, share_of)

  -- The shares for an amount on one side, which is the price of `m` on the other side.
  share_cross :
      (pool q m total : ℕ)
      → SideFits f pool q m total
      → let a = f.saturating_mul_int (price_of f pool q) m in
        share_of f a pool total * q ≤ m * total
  share_cross zero q m total fits =
      rw (share_of_zero (f.saturating_mul_int (price_of f 0 q) m) total) (omega arith)
  share_cross (suc k) q m total fits =
      let a = f.saturating_mul_int (price_of f (suc k) q) m in
      cross (share_of f a (suc k) total) (suc k) a total q m (omega arith)
        (share_le a (suc k) total fits.part_fits fits.share_fits)
        (omega (arith, at_price_le (suc k) q m fits.price_fits fits.amount_fits))

  -- Once there are shares, new shares cost at least their part of both sides of the pool.
  pub liquidity_increments-fair :
      (total : ℕ) (pool largest : Balances)
      → total ≢ 0
      → IncrementsFit f total pool largest
      → let inc = liquidity_increments f total pool largest in
        (inc.2 * pool.0 ≤ inc.0 * total) × (inc.2 * pool.1 ≤ inc.1 * total)
  unfolding liquidity_increments
  liquidity_increments-fair total pool largest ne fit =
      let nz : is_zero total ≡ false = ground arith in
      elim (Bool-cases (leb (price_of f largest.1 largest.0) (price_of f pool.1 pool.0))) [
        | inl e ↦
            let side = fit.left_fits e in
            rw (nz, e)
              (
                share_le (f.saturating_mul_int (price_of f pool.0 pool.1) largest.1) pool.0 total
                    side.part_fits side.share_fits,
                share_cross pool.0 pool.1 largest.1 total side,
              )
        | inr e ↦
            let side = fit.right_fits e in
            rw (nz, e)
              (
                share_cross pool.1 pool.0 largest.0 total side,
                share_le (f.saturating_mul_int (price_of f pool.1 pool.0) largest.0) pool.1 total
                    side.part_fits side.share_fits,
              )
      ]

  -- A part of the whole is at most one, so that its product with the pool fits.
  part_le :
      (removed total n : ℕ)
      → removed ≤ total
      → removed * accuracy ≤ u128_max
      → n * accuracy ≤ u128_max
      → price_of f removed total * n ≤ u128_max
  part_le removed zero n le fits small = rw (from_rational_zero removed, price_of) (omega arith)
  part_le removed (suc k) n le fits small =
      let one : price_of f removed (suc k) ≤ accuracy =
        le_of_mul-le-mul_right {k = suc k}
          (omega (arith, price_le removed (suc k) fits, mul-le-mul le (le_refl accuracy)))
          (omega arith) in
      omega (arith, mul-le-mul one (le_refl n))

  -- Removed shares draw at most their part of both sides of the pool.
  pub liquidity_decrements-fair :
      (total : ℕ) (pool : Balances) (removed : ℕ)
      → removed ≤ total
      → removed * accuracy ≤ u128_max
      → pool.0 * accuracy ≤ u128_max
      → pool.1 * accuracy ≤ u128_max
      → let dec = liquidity_decrements f total pool removed in
        (dec.0 * total ≤ removed * pool.0) × (dec.1 * total ≤ removed * pool.1)
  unfolding liquidity_decrements
  liquidity_decrements-fair total pool removed le fits fits₀ fits₁ = (
    at_price_le removed total pool.0 fits (part_le removed total pool.0 le fits fits₀),
    at_price_le removed total pool.1 fits (part_le removed total pool.1 le fits fits₁),
  )
