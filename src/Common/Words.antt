-- ===== src/Common/Words.antt =====
-- Unsigned machine words as native numbers: `u128` balances with saturating and checked
-- arithmetic, as the standard library has them.
use Prim.Native.Nat.{ℕ, ◌+◌, ◌-◌, ◌*◌, ◌^◌, min}
use mathlib.Core.Option.{Option, none, some}
use setheum.Common.Tests.{leb, if◌then◌else◌}

-- `u128::MAX`, `u32::MAX`
abbrev pub u128_max : ℕ
u128_max = 2 ^ 128 - 1

abbrev pub u32_max : ℕ
u32_max = 2 ^ 32 - 1

-- `i128::MAX`
abbrev pub i128_max : ℕ
i128_max = 2 ^ 127 - 1

abbrev pub saturating_add : ℕ → ℕ → ℕ
saturating_add a b = min (a + b) u128_max

abbrev pub saturating_sub : ℕ → ℕ → ℕ
saturating_sub a b = a - b

abbrev pub saturating_mul : ℕ → ℕ → ℕ
saturating_mul a b = min (a * b) u128_max

abbrev pub checked_add : ℕ → ℕ → Option ℕ
checked_add a b = if leb (a + b) u128_max then some (a + b) else none

abbrev pub checked_sub : ℕ → ℕ → Option ℕ
checked_sub a b = if leb b a then some (a - b) else none

-- `TryInto::<u128>`
abbrev pub try_into_u128 : ℕ → Option ℕ
try_into_u128 a = if leb a u128_max then some a else none
