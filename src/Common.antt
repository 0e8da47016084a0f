-- ===== src/Common.antt =====
-- The names that the other modules share: the libraries', passed on, Boolean tests, machine
-- words, the result type of fallible code and maps.
mod Tests
mod Words
mod Outcome
mod Lists
mod Signed
mod Entries
mod Books
mod Inverse
pub use Tests.*
pub use Words.*
pub use Outcome.*
pub use Lists.*
pub use Signed.*
pub use Entries.*
pub use Books.*
pub use Inverse.*
pub use Prim.Native.Nat.{
  ℕ, zero, suc, ◌+◌, ◌-◌, ◌*◌, ◌/◌, ◌%◌, ◌^◌, ◌≤◌, ◌<◌, min, max, compare, Ordering,
}
pub use mathlib.Core.Path.{◌≡◌, refl, sym, ap, ◌∙◌, subst}
pub use mathlib.Core.Logic.{◌≢◌, ◌↔◌, ◌⊎◌, inl, inr}
pub use mathlib.Core.Bool.{Bool, true, false, not, ◌&&◌, ◌||◌}
pub use mathlib.Core.Option.{Option, none, some}
pub use mathlib.Core.List.{List, [], ◌∷◌, ◌++◌}
pub use native.Mathlib.Omega.{arith}
