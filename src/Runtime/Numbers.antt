-- ===== src/Runtime/Numbers.antt =====
-- `FixedU128` (`Price`, `Ratio`, `Rate` and `ExchangeRate` in lib-serml/support/src/lib.rs) and
-- `U256`. A fixed-point number is its inner value, 10 ^ 18 for one; a `U256` is its value.
use native.Mathlib.Nat.{div-le_of_le-mul}
use setheum.Common.{
  ℕ, zero, suc, ◌+◌, ◌-◌, ◌*◌, ◌/◌, ◌^◌, ◌≤◌, ◌≡◌, ◌≢◌, Bool, true, false, refl, min, Option, none,
  some, arith, leb, if◌then◌else◌, is_zero, u128_max,
}

-- `FixedPointNumber::DIV`
abbrev pub accuracy : ℕ
accuracy = 10 ^ 18

pub record FixedPoint : Type 0 where
  pub checked_from_rational : ℕ → ℕ → Option ℕ
  pub saturating_mul_int : ℕ → ℕ → ℕ
  pub checked_mul_int : ℕ → ℕ → Option ℕ
  -- of two fixed-point numbers, and of an integer
  pub saturating_mul : ℕ → ℕ → ℕ
  pub saturating_from_integer : ℕ → ℕ

-- Where the product that an operation forms fits a `u128`, the library multiplies and divides in
-- `u128`: the result is the exact one rounded down. (For larger products it goes through wider
-- numbers and rounds to the nearest, of which nothing is said here.) A division by zero gives
-- nothing.
pub record IsRounded (f : FixedPoint) : Type 0 where
  pub from_rational_le :
      (n d : ℕ) {r : ℕ}
      → n * accuracy ≤ u128_max
      → f.checked_from_rational n d ≡ some r
      → r * d ≤ n * accuracy
  pub from_rational_zero : (n : ℕ) → f.checked_from_rational n 0 ≡ none
  pub saturating_mul_le : (r n : ℕ) → r * n ≤ u128_max → f.saturating_mul_int r n * accuracy ≤ r * n
  pub checked_mul_le :
      (r n : ℕ) {m : ℕ} → r * n ≤ u128_max → f.checked_mul_int r n ≡ some m → m * accuracy ≤ r * n
  pub from_rational_some :
      (n d : ℕ) → n * accuracy ≤ u128_max → d ≢ 0 → (r : ℕ) × (f.checked_from_rational n d ≡ some r)
  pub checked_mul_some : (r n : ℕ) → r * n ≤ u128_max → (m : ℕ) × (f.checked_mul_int r n ≡ some m)

-- `unwrap_or_default()`
abbrev pub unwrap_or_default : Option ℕ → ℕ
unwrap_or_default none = 0
unwrap_or_default (some n) = n

-- `U256::MAX`
abbrev pub u256_max : ℕ
u256_max = 2 ^ 256 - 1

pub record U256 : Type 0 where
  pub saturating_mul : ℕ → ℕ → ℕ
  pub saturating_add : ℕ → ℕ → ℕ
  pub saturating_sub : ℕ → ℕ → ℕ
  pub checked_div : ℕ → ℕ → Option ℕ
  pub checked_add : ℕ → ℕ → Option ℕ

pub record IsWide (u : U256) : Type 0 where
  pub mul_lem : (a b : ℕ) → u.saturating_mul a b ≡ min (a * b) u256_max
  pub add_lem : (a b : ℕ) → u.saturating_add a b ≡ min (a + b) u256_max
  pub sub_lem : (a b : ℕ) → u.saturating_sub a b ≡ a - b
  pub div_lem : (a b : ℕ) → u.checked_div a b ≡ (if is_zero b then none else some (a / b))
  pub checked_add_lem :
      (a b : ℕ) → u.checked_add a b ≡ (if leb (a + b) u256_max then some (a + b) else none)

-- Values of the two interfaces that meet the laws.
abbrev pub rounded : FixedPoint
rounded = record {
  checked_from_rational = λ n d.
      if is_zero d
      then none
      else (if leb (n * accuracy / d) u128_max then some (n * accuracy / d) else none);
  saturating_mul_int = λ r n. min (r * n / accuracy) u128_max;
  checked_mul_int =
      λ r n. if leb (r * n / accuracy) u128_max then some (r * n / accuracy) else none;
  saturating_mul = λ r q. min (r * q / accuracy) u128_max;
  saturating_from_integer = λ n. min (n * accuracy) u128_max;
}

abbrev pub wide : U256
wide = record {
  saturating_mul = λ a b. min (a * b) u256_max;
  saturating_add = λ a b. min (a + b) u256_max;
  saturating_sub = λ a b. a - b;
  checked_div = λ a b. if is_zero b then none else some (a / b);
  checked_add = λ a b. if leb (a + b) u256_max then some (a + b) else none;
}

pub wide-IsWide : IsWide wide
wide-IsWide = record {
  mul_lem = λ a b. refl;
  add_lem = λ a b. refl;
  sub_lem = λ a b. refl;
  div_lem = λ a b. refl;
  checked_add_lem = λ a b. refl;
}

-- An operation that is checked and small enough has a result.
checked_some : (b : Bool) (q : ℕ) → b ≡ true → (r : ℕ) × ((if b then some q else none) ≡ some r)
checked_some true q e = (q, refl)
checked_some false q e = absurd (cc)

div_le : (n d : ℕ) → n / d ≤ n
div_le n zero = omega arith
div_le n (suc d) = div-le_of_le-mul (suc d) (omega arith)

div_mul_le : (n d r : ℕ) → n / d ≡ r → r * d ≤ n
div_mul_le n d r e = rw (← e) (grind arith)

pub rounded-IsRounded : IsRounded rounded
rounded-IsRounded = record {
  from_rational_le = λ n d {r} fits e. ground (arith, div_mul_le (n * accuracy) d r);
  from_rational_zero = λ n. refl;
  saturating_mul_le = λ r n fits. omega arith;
  checked_mul_le = λ r n {m} fits e. ground (arith, div_mul_le (r * n) accuracy m);
  from_rational_some = λ n d fits ne.
      let z : is_zero d ≡ false = ground arith in
      let small = div_le (n * accuracy) d in
      rw z (checked_some (leb (n * accuracy / d) u128_max) (n * accuracy / d) (ground arith));
  checked_mul_some = λ r n fits.
      let small = div_le (r * n) accuracy in
      checked_some (leb (r * n / accuracy) u128_max) (r * n / accuracy) (ground arith);
}
