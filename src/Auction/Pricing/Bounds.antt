-- ===== src/Auction/Pricing/Bounds.antt =====
-- What the amounts for sale are bounded by, and a price that passes the check.
use native.Mathlib.Nat.{mul-le-mul_left, mul-le-mul_right, le_of_mul-le-mul_right}
use setheum.Common.{
  ℕ, ◌*◌, ◌≤◌, ◌≡◌, ◌≢◌, max, true, ◌&&◌, Option, none, some, arith, ltb, Bool-cases, u128_max,
  checked_sub, inl, inr,
}
use setheum.Runtime.Numbers.{FixedPoint, IsRounded, accuracy}
use setheum.Auction.Pricing.{
  unwrap_or, then_mul_int, priced_amount, both_reach, check_minimum_increment,
}

-- A ratio of at most one is at most the fixed-point one.
ratio_le : (r n d : ℕ) → d ≢ 0 → n ≤ d → r * d ≤ n * accuracy → r ≤ accuracy
ratio_le r n d ne le h =
    le_of_mul-le-mul_right {k = d} (omega (arith, mul-le-mul_left accuracy le)) (omega arith)

-- Two roundings down, one after the other.
rounded_twice :
    (m r n d amount : ℕ) → m * accuracy ≤ r * amount → r * d ≤ n * accuracy → m * d ≤ amount * n
rounded_twice m r n d amount h g =
    le_of_mul-le-mul_right {k = accuracy}
      (omega (arith, mul-le-mul_right d h, mul-le-mul_right amount g)) (omega arith)

factor_le : (m r amount : ℕ) → m * accuracy ≤ r * amount → r ≤ accuracy → m ≤ amount
factor_le m r amount h le =
    le_of_mul-le-mul_right {k = accuracy} (omega (arith, mul-le-mul_right amount le)) (omega arith)

module _ (f : FixedPoint) (rules : IsRounded f) where
  scaled_bound :
      (amount n d : ℕ)
      → amount * accuracy ≤ u128_max
      → n * accuracy ≤ u128_max
      → d ≢ 0
      → n ≤ d
      → (let m = unwrap_or amount (then_mul_int f amount (f.checked_from_rational n d)) in
          (m ≤ amount) × (m * d ≤ amount * n))
  scaled_bound amount n d fits in_range ne le =
      let (r, e) = rules.from_rational_some n d in_range ne in
      let ratio = rules.from_rational_le n d in_range e in
      let small = ratio_le r n d ne le ratio in
      let product : r * amount ≤ u128_max = omega (arith, mul-le-mul_right amount small) in
      let (m, g) = rules.checked_mul_some r amount product in
      let below = rules.checked_mul_le r amount product g in
      rw (e, g) (factor_le m r amount below small, rounded_twice m r n d amount below ratio)

  pub priced_amount-bound :
      (amount fix last new : ℕ)
      → amount * accuracy ≤ u128_max
      → max last fix * accuracy ≤ u128_max
      → max last fix ≤ new
      → (priced_amount f amount fix last new ≤ amount)
        × (priced_amount f amount fix last new * new ≤ amount * max last fix)
  priced_amount-bound amount fix last new fits in_range le =
      elim (Bool-cases (ltb last new && ltb fix new)) [
        | inl e ↦ rw e (scaled_bound amount (max last fix) new fits in_range (ground arith) le)
        | inr e ↦
            let same : new ≡ max last fix = ground arith in rw (e, same) (omega arith, omega arith)
      ]

-- A price that passes the check is at least the last one.
pub check_minimum_increment-at_least :
    (f : FixedPoint) (new last target increment : ℕ)
    → check_minimum_increment f new last target increment ≡ true
    → last ≤ new
check_minimum_increment-at_least f new last target increment e =
    reached (f.checked_mul_int increment (max target last)) e
  where
    reached : (o : Option ℕ) → both_reach o (checked_sub new last) ≡ true → last ≤ new
    reached none h = absurd (cc)
    reached (some m) h = ground arith
