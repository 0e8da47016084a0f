-- ===== src/Common/Lists.antt =====
-- Lists measured by the native numbers, and total maps with an update.
use Prim.Native.Nat.{ℕ, zero, suc}
use mathlib.Core.Path.{◌≡◌, refl, sym, ◌∙◌}
use mathlib.Core.Option.{Option, none, some}
use mathlib.Core.Bool.{Bool, true, false}
use mathlib.Core.List.{List, [], ◌∷◌}
use mathlib.Core.Logic.{◌≢◌, ◌⊎◌, inl, inr}
use setheum.Common.Tests.{Eq, if◌then◌else◌, ◌==◌}

module _ {ℓ} {A : Type ℓ} where
  abbrev pub length : List A → ℕ
  length [] = 0
  length (_ ∷ xs) = suc (length xs)

  abbrev pub get_elem? : List A → ℕ → Option A
  get_elem? [] i = none
  get_elem? (x ∷ xs) zero = some x
  get_elem? (x ∷ xs) (suc i) = get_elem? xs i

  abbrev pub All {κ} : (A → Type κ) → List A → Type κ
  All P [] = Unit
  All P (x ∷ xs) = P x × All P xs

-- A storage map with a default: a read of an absent key gives the default.
module _ {K V : Type 0} ⦃e : Eq K⦄ where
  abbrev pub update : (K → V) → K → V → K → V
  update m k v j = if e.beq j k then v else m j

  pub update_self : (m : K → V) (k : K) (v : V) → update m k v k ≡ v
  update_self m k v = rw ((e.beq_iff k k).1 refl)

  pub update_ne : (m : K → V) (k j : K) (v : V) → j ≢ k → update m k v j ≡ m j
  update_ne m k j v h = go (e.beq j k) refl
    where
      go : (b : Bool) → e.beq j k ≡ b → update m k v j ≡ m j
      go true p = absurd (h ((e.beq_iff j k).0 p))
      go false p = rw p

  -- an entry of a map with one changed entry
  pub update-cases :
      (m : K → V) (k : K) (v : V) (j : K) {w : V}
      → update m k v j ≡ w
      → ((j ≡ k) × (v ≡ w)) ⊎ ((j ≢ k) × (m j ≡ w))
  update-cases m k v j {w} h = split (e.beq j k) refl
    where
      different : false ≡ true → ⊥
      different f = cc

      split : (b : Bool) → e.beq j k ≡ b → ((j ≡ k) × (v ≡ w)) ⊎ ((j ≢ k) × (m j ≡ w))
      split true b = inl ((e.beq_iff j k).0 b, rw b at h)
      split false b = inr (λ q. different (sym b ∙ (e.beq_iff j k).1 q), rw b at h)

-- A double map under one first key, by the accounts that have an entry.
module _ {V : Type 0} where
  abbrev pub lookup : ℕ → List (ℕ × V) → Option V
  lookup k [] = none
  lookup k ((j, v) ∷ m) = if j == k then some v else lookup k m

  abbrev pub insert : ℕ → V → List (ℕ × V) → List (ℕ × V)
  insert k v [] = (k, v) ∷ []
  insert k v ((j, w) ∷ m) = if j == k then (k, v) ∷ m else (j, w) ∷ insert k v m

  abbrev pub remove : ℕ → List (ℕ × V) → List (ℕ × V)
  remove k [] = []
  remove k ((j, w) ∷ m) = if j == k then m else (j, w) ∷ remove k m
