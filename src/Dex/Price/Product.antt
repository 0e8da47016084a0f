-- ===== src/Dex/Price/Product.antt =====
-- The constant-product guarantee of the pricing functions, over exact 256-bit arithmetic.
use native.Mathlib.Nat.{mul-le-mul, le_of_mul-le-mul_right, le_refl, sub-le, div-mul-le_self}
use native.Mathlib.Decide.{dec_le}
use setheum.Common.{
  ℕ, zero, suc, ◌+◌, ◌-◌, ◌*◌, ◌/◌, ◌≤◌, ◌<◌, ◌≡◌, refl, ap, ◌⊎◌, inl, inr, ◌||◌, none, some, arith,
  is_zero, if◌then◌else◌, u128_max, u32_max, min, Bool-cases,
}
use setheum.Runtime.Numbers.{U256, IsWide, u256_max}
use setheum.Dex.Price.{supply_with_fee, get_target_amount, to_balance}

-- What a pool of balances and a fee of two `u32` satisfy.
pub record Fits (fee : ℕ × ℕ) (supply_pool target_pool : ℕ) : Type 0 where
  pub denominator_le : fee.1 ≤ u32_max
  pub supply_le : supply_pool ≤ u128_max
  pub target_le : target_pool ≤ u128_max

pub with_fee_le :
    (fee : ℕ × ℕ) (amount : ℕ)
    → (supply_with_fee fee amount ≤ amount * fee.1) × (supply_with_fee fee amount ≤ u128_max)
unfolding supply_with_fee
with_fee_le fee amount =
    (omega (arith, mul-le-mul {n₁ = amount} (le_refl amount) (sub-le fee.1 fee.0)), omega arith)

-- In exact numbers: a quotient by `s * d + w` of `w * t` is at most `t`, and taking it out of `t`
-- for `a` put into `s` does not lower the product.
pub quotient_le : (w t s d : ℕ) → 0 < s * d + w → w * t / (s * d + w) ≤ t
quotient_le w t s d p = elim (dec_le (w * t / (s * d + w)) t) [
  | yes q ↦ q
  | no q ↦ absurd (
      omega (
        arith,
        div-mul-le_self (w * t) (s * d + w),
        mul-le-mul {n₁ = suc t} {n₂ = w * t / (s * d + w)} (omega arith) (le_refl (s * d + w)),
      ))
]

quotient_product :
    (w t s d a q r : ℕ)
    → w ≤ a * d
    → 0 < s * d + w
    → t ≡ q + r
    → q * (s * d + w) ≤ w * t
    → s * t ≤ (s + a) * r
quotient_product w t s zero a q r hw p e h = absurd (omega arith)
quotient_product w t s (suc d) a q r hw p e h =
    let drawn : q * s * suc d ≤ a * r * suc d =
      omega (arith, ap (λ (x : ℕ). w * x) e, mul-le-mul hw (le_refl r)) in
    omega (arith, le_of_mul-le-mul_right {k = suc d} drawn (omega arith), ap (λ (x : ℕ). s * x) e)

-- The value of `get_target_amount` at pools that fit: nothing, or a quotient.
abbrev IsQuotient : ℕ → ℕ → ℕ → Type 0
IsQuotient n d q = (q ≡ 0) ⊎ ((0 < d) × (q ≡ n / d))

to_balance-IsQuotient :
    (n d : ℕ) → IsQuotient n d (to_balance (if is_zero d then none else some (n / d)))
to_balance-IsQuotient n d = ground arith

-- A quotient of two products that fit is computed exactly, and capped at a balance.
module _ (u : U256) (wide : IsWide u) where
  open wide use {mul_lem, add_lem, sub_lem, div_lem, checked_add_lem}

  pub quote_lem :
      (w t s d : ℕ)
      → w ≤ u128_max
      → t ≤ u128_max
      → s ≤ u128_max
      → d ≤ u32_max
      → u.checked_div (u.saturating_mul w t) (u.saturating_add (u.saturating_mul s d) w)
        ≡ (if is_zero (s * d + w) then none else some (w * t / (s * d + w)))
  quote_lem w t s d hw ht hs hd =
      let wt : w * t ≤ u128_max * u128_max = mul-le-mul hw ht in
      let sd : s * d ≤ u128_max * u32_max = mul-le-mul hs hd in
      let e₁ : min (w * t) u256_max ≡ w * t = omega arith in
      let e₂ : min (s * d) u256_max ≡ s * d = omega arith in
      let e₃ : min (s * d + w) u256_max ≡ s * d + w = omega arith in
      rw (mul_lem w t, mul_lem s d, e₁, e₂, add_lem, e₃, div_lem)

  get_target_amount-IsQuotient :
      (fee : ℕ × ℕ) (s t a : ℕ)
      → Fits fee s t
      → IsQuotient
          (supply_with_fee fee a * t)
          (s * fee.1 + supply_with_fee fee a)
          (get_target_amount u fee s t a)
  unfolding get_target_amount
  get_target_amount-IsQuotient fee s t a f =
      elim (Bool-cases (is_zero a || (is_zero s || is_zero t))) [
        | inl z ↦ rw z (inl refl)
        | inr z ↦
            rw
              (
                z,
                quote_lem (supply_with_fee fee a) t s fee.1 ((with_fee_le fee a).1) f.target_le
                    f.supply_le f.denominator_le,
              )
              (to_balance-IsQuotient (supply_with_fee fee a * t)
                (s * fee.1 + supply_with_fee fee a))
      ]

  -- A swap of an exact supply never pays out more than the target pool holds, and never lowers
  -- the product of the two pools, whatever the fee is, if the pools are `u128` and the fee's
  -- denominator is a `u32`.
  pub get_target_amount-product :
      (fee : ℕ × ℕ) (s t a : ℕ)
      → Fits fee s t
      → let q = get_target_amount u fee s t a in (q ≤ t) × (s * t ≤ (s + a) * (t - q))
  get_target_amount-product fee s t a f =
      let w = supply_with_fee fee a in
      elim (get_target_amount-IsQuotient fee s t a f) [
        | inl e ↦ rw e (omega arith, mul-le-mul (omega arith) (omega arith))
        | inr (p, e) ↦
            let q_le = quotient_le w t s fee.1 p in
            rw e (
              q_le,
              quotient_product w t s fee.1 a (w * t / (s * fee.1 + w)) (t - w * t / (s * fee.1 + w))
                  ((with_fee_le fee a).0) p (omega arith) (div-mul-le_self (w * t) (s * fee.1 + w)),
            )
      ]
