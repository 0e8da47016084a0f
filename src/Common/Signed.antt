-- ===== src/Common/Signed.antt =====
-- Signed machine words: `i128` amounts, as the integers over the native numbers.
use Prim.Native.Nat.{ℕ, zero, suc}
use mathlib.Core.Bool.{Bool, true, false}
use mathlib.Core.Option.{Option, none, some}
use setheum.Common.Tests.{leb, if◌then◌else◌}
use setheum.Common.Words.{i128_max}

-- `negsuc n` is `-(n + 1)`.
pub data ℤ : Type 0 where
  pos : ℕ → ℤ
  negsuc : ℕ → ℤ

abbrev pub is_positive : ℤ → Bool
is_positive (ℤ.pos zero) = false
is_positive (ℤ.pos (suc n)) = true
is_positive (ℤ.negsuc n) = false

abbrev pub is_negative : ℤ → Bool
is_negative (ℤ.pos n) = false
is_negative (ℤ.negsuc n) = true

-- `i128::MIN` has no negation: both operations stop at `i128::MAX`.
abbrev pub saturating_abs : ℤ → ℕ
saturating_abs (ℤ.pos n) = n
saturating_abs (ℤ.negsuc n) = if leb i128_max n then i128_max else suc n

abbrev pub saturating_neg : ℤ → ℤ
saturating_neg (ℤ.pos zero) = ℤ.pos 0
saturating_neg (ℤ.pos (suc n)) = ℤ.negsuc n
saturating_neg (ℤ.negsuc n) = if leb i128_max n then ℤ.pos i128_max else ℤ.pos (suc n)

-- `TryInto::<i128>` of a `u128`
abbrev pub try_into_i128 : ℕ → Option ℤ
try_into_i128 n = if leb n i128_max then some (ℤ.pos n) else none
