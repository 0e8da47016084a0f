-- ===== src/Dex/Price/Supply.antt =====
-- Paying for an exact target: the supply that `get_supply_amount` asks for buys that target.
use native.Mathlib.Nat.{mul-le-mul, lt-mul-div-succ, le-div_iff_mul-le}
use setheum.Common.{
  ℕ, zero, suc, ◌+◌, ◌-◌, ◌*◌, ◌/◌, ◌≤◌, ◌<◌, ◌≡◌, ◌≢◌, refl, sym, subst, ◌⊎◌, inl, inr, false,
  ◌||◌, none, some, arith, is_zero, if◌then◌else◌, u128_max, min, Bool-cases,
}
use setheum.Runtime.Numbers.{U256, IsWide, u256_max}
use setheum.Dex.Price.{supply_with_fee, get_target_amount, get_supply_amount, to_balance, add_one}
use setheum.Dex.Price.Product.{Fits, quotient_le, quote_lem, with_fee_le}

-- Exact numbers: one more than the quotient covers the target.
covers : (s r a d m q : ℕ) → s * a * d < r * m * q → a * (s * d + q * m) ≤ q * m * (a + r)
covers s r a d m q h = omega arith

-- Exact numbers: one more than the quotient keeps the product.
keeps : (s r a d m q : ℕ) → m ≤ d → s * a * d < r * m * q → s * (a + r) ≤ (s + q) * r
keeps s r a d m q le h = elim (le_or_lt (s * a) (q * r)) [
  | inl g ↦ omega arith
  | inr g ↦ let small : q * r * m ≤ s * a * d = mul-le-mul (omega arith) le in absurd (omega arith)
]
  where
    le_or_lt : (x y : ℕ) → (x ≤ y) ⊎ (y < x)
    le_or_lt x y = ground arith

positive : (r m : ℕ) → 0 < r * m → 0 < m
positive r zero h = absurd (omega arith)
positive r (suc m) h = omega arith

module _ (u : U256) (wide : IsWide u) where
  open wide use {mul_lem, add_lem, sub_lem, div_lem, checked_add_lem}

  -- A supply that the fee leaves something of is paid by the exact quotient.
  get_target_amount-eq :
      (fee : ℕ × ℕ) (s t a : ℕ)
      → Fits fee s t
      → 0 < a
      → 0 < s
      → 0 < t
      → 0 < supply_with_fee fee a
      → get_target_amount u fee s t a
        ≡ supply_with_fee fee a * t / (s * fee.1 + supply_with_fee fee a)
  unfolding get_target_amount
  get_target_amount-eq fee s t a f ha hs ht hw =
      let w = supply_with_fee fee a in
      let small : w * t / (s * fee.1 + w) ≤ t = quotient_le w t s fee.1 (omega arith) in
      let open_ : (is_zero a || (is_zero s || is_zero t)) ≡ false = ground arith in
      let top = f.target_le in
      rw
        (
          open_,
          quote_lem u wide (supply_with_fee fee a) t s fee.1 ((with_fee_le fee a).1) f.target_le
              f.supply_le f.denominator_le,
        )
        (ground arith)

  ask_cases :
      (n d : ℕ)
      → let q = to_balance (add_one u (if is_zero d then none else some (n / d))) in
        (q ≡ 0) ⊎ ((0 < d) × (q ≡ n / d + 1))
  ask_cases n d = elim (Bool-cases (is_zero d)) [
    | inl z ↦ rw z (inl refl)
    | inr z ↦ rw (z, checked_add_lem (n / d) 1) (ground arith)
  ]

  -- What `get_supply_amount` asks for: nothing, or one more than a quotient.
  get_supply_amount-cases :
      (fee : ℕ × ℕ) (s t a : ℕ)
      → Fits fee s t
      → s * a * fee.1 ≤ u256_max
      → a ≤ t
      → let d = (t - a) * (fee.1 - fee.0) in
        (get_supply_amount u fee s t a ≡ 0)
        ⊎ ((0 < a) × (0 < s) × (0 < d) × (get_supply_amount u fee s t a ≡ s * a * fee.1 / d + 1))
  unfolding get_supply_amount
  get_supply_amount-cases fee s t a f exact le =
      let d = (t - a) * (fee.1 - fee.0) in
      elim (Bool-cases (is_zero a || (is_zero s || is_zero t))) [
        | inl z ↦ rw z (inl refl)
        | inr z ↦
            let sa : s * a ≤ u128_max * u128_max =
              mul-le-mul {m₂ = u128_max} f.supply_le (omega arith) in
            let dd : d ≤ u128_max * u128_max =
              mul-le-mul {n₂ = u128_max} {m₂ = u128_max} (omega arith) (omega arith) in
            let e₁ : min (s * a) u256_max ≡ s * a = omega arith in
            let e₂ : min (s * a * fee.1) u256_max ≡ s * a * fee.1 = omega arith in
            let e₃ : min d u256_max ≡ d = omega arith in
            let pa : 0 < a = ground arith in
            let ps : 0 < s = ground arith in
            rw
              (
                z,
                mul_lem s a,
                e₁,
                mul_lem (s * a) fee.1,
                e₂,
                sub_lem,
                mul_lem (t - a) (fee.1 - fee.0),
                e₃,
                div_lem,
              )
              (elim (ask_cases (s * a * fee.1) d) [
                | inl q ↦ inl q
                | inr (pd, q) ↦ inr (pa, ps, pd, q)
              ])
      ]

  -- The supply that `get_supply_amount` asks for, if it is not zero, buys at least the target under
  -- `get_target_amount`: for `u128` pools and a `u32` denominator of the fee, a target that the pool
  -- holds, an exact numerator that fits a `U256` and a supply after the fee that fits a balance.
  pub get_supply_amount-covers :
      (fee : ℕ × ℕ) (s t a : ℕ)
      → Fits fee s t
      → s * a * fee.1 ≤ u256_max
      → a ≤ t
      → get_supply_amount u fee s t a ≢ 0
      → get_supply_amount u fee s t a * (fee.1 - fee.0) ≤ u128_max
      → a ≤ get_target_amount u fee s t (get_supply_amount u fee s t a)
  unfolding supply_with_fee
  get_supply_amount-covers fee s t a f exact le ne fits =
      elim (get_supply_amount-cases fee s t a f exact le) [
        | inl z ↦ absurd (ne z)
        | inr (pa, ps, pd, e) ↦
            let q = get_supply_amount u fee s t a in
            let m = fee.1 - fee.0 in
            let above : s * a * fee.1 < (t - a) * m * q =
              rw e (lt-mul-div-succ (s * a * fee.1) pd) in
            let pm : 0 < m = positive (t - a) m pd in
            let pq : 0 < q = omega arith in
            let pw : 0 < q * m = mul-le-mul {n₁ = 1} {m₁ = 1} pq pm in
            let split : a + (t - a) ≡ t = omega arith in
            let w : supply_with_fee fee q ≡ q * m = omega arith in
            let pd' : 0 < s * fee.1 + q * m = omega arith in
            rw
              (
                get_target_amount-eq fee s t q f pq ps (omega arith)
                    (subst (λ x. 0 < x) (sym w) pw),
                w,
              )
              ((le-div_iff_mul-le pd').1 (rw split at (covers s (t - a) a fee.1 m q above)))
      ]

  -- A swap for an exact target never lowers the product of the two pools, whatever the fee is: for
  -- `u128` pools and a `u32` denominator of the fee, a target that the pool holds, an exact
  -- numerator that fits a `U256` and a quote that is not zero.
  pub get_supply_amount-product :
      (fee : ℕ × ℕ) (s t a : ℕ)
      → Fits fee s t
      → s * a * fee.1 ≤ u256_max
      → a ≤ t
      → get_supply_amount u fee s t a ≢ 0
      → s * t ≤ (s + get_supply_amount u fee s t a) * (t - a)
  get_supply_amount-product fee s t a f exact le ne =
      elim (get_supply_amount-cases fee s t a f exact le) [
        | inl z ↦ absurd (ne z)
        | inr (pa, ps, pd, e) ↦
            let q = get_supply_amount u fee s t a in
            let above : s * a * fee.1 < (t - a) * (fee.1 - fee.0) * q =
              rw e (lt-mul-div-succ (s * a * fee.1) pd) in
            let split : a + (t - a) ≡ t = omega arith in
            subst (λ n. s * n ≤ (s + q) * (t - a)) split
              (keeps s (t - a) a fee.1 (fee.1 - fee.0) q (omega arith) above)
      ]

  -- No supply is quoted for a target that the pool does not hold.
  get_supply_amount-none : (fee : ℕ × ℕ) (s t a : ℕ) → t ≤ a → get_supply_amount u fee s t a ≡ 0
  unfolding get_supply_amount
  get_supply_amount-none fee s t a le = elim (Bool-cases (is_zero a || (is_zero s || is_zero t))) [
    | inl z ↦ rw z refl
    | inr z ↦
        let e : t - a ≡ 0 = omega arith in
        let m = fee.1 - fee.0 in
        let f : min (0 * m) u256_max ≡ 0 = omega arith in
        rw (z, sub_lem t a, e, mul_lem 0 m, f, div_lem) refl
  ]

  -- A target that is quoted is less than what the pool holds.
  pub get_supply_amount_lt : (fee : ℕ × ℕ) (s t a : ℕ) → get_supply_amount u fee s t a ≢ 0 → a < t
  get_supply_amount_lt fee s t a ne = elim (lt_or_le a t) [
    | inl lt ↦ lt
    | inr le ↦ absurd (ne (get_supply_amount-none fee s t a le))
  ]
    where
      lt_or_le : (x y : ℕ) → (x < y) ⊎ (y ≤ x)
      lt_or_le x y = ground arith
