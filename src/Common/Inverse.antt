-- ===== src/Common/Inverse.antt =====
-- Two partial maps that are inverse to each other, with the changes of both at once.
use mathlib.Core.Path.{◌≡◌, sym, ap, ◌∙◌}
use mathlib.Core.Logic.{inl, inr}
use mathlib.Core.Option.{Option, none, some}
use setheum.Common.Tests.{Eq}
use setheum.Common.Lists.{update, update_self, update_ne, update-cases}

pub some_eq : {A : Type 0} {x y : A} → some x ≡ some y → x ≡ y
some_eq e = cc

pub no_entry : {A : Type 0} {x : A} → ◌≡◌ {A = Option A} none (some x) → ⊥
no_entry e = cc

module _ {K L : Type 0} where
  pub record IsInverse (m : K → Option L) (n : L → Option K) : Type 0 where
    pub forward : (k : K) (l : L) → m k ≡ some l → n l ≡ some k
    pub backward : (l : L) (k : K) → n l ≡ some k → m k ≡ some l

module _ {K L : Type 0} ⦃e : Eq K⦄ ⦃f : Eq L⦄ {m : K → Option L} {n : L → Option K}
    (h : IsInverse m n) where
  -- a new pair of keys that have no entry
  pub insert-IsInverse :
      (k : K) (l : L)
      → m k ≡ none
      → n l ≡ none
      → IsInverse (update m k (some l)) (update n l (some k))
  insert-IsInverse k l free_k free_l = record {
    forward = λ i j e. elim (update-cases m k (some l) i e) [
      | inl (same, v) ↦ rw (same, ← some_eq v) (update_self n l (some k))
      | inr (_, v) ↦
          let back = h.forward i j v in
          update_ne n l j (some k) (λ same. no_entry (sym free_l ∙ ap n (sym same) ∙ back)) ∙ back
    ];
    backward = λ j i e. elim (update-cases n l (some k) j e) [
      | inl (same, v) ↦ rw (same, ← some_eq v) (update_self m k (some l))
      | inr (_, v) ↦
          let back = h.backward j i v in
          update_ne m k i (some l) (λ same. no_entry (sym free_k ∙ ap m (sym same) ∙ back)) ∙ back
    ];
  }

  -- a pair that is taken away
  pub remove-IsInverse :
      (k : K) (l : L) → m k ≡ some l → IsInverse (update m k none) (update n l none)
  remove-IsInverse k l entry = record {
    forward = λ i j e. elim (update-cases m k none i e) [
      | inl (_, v) ↦ absurd (no_entry v)
      | inr (ne, v) ↦
          let back = h.forward i j v in
          update_ne n l j none (λ same. ne (some_eq (sym back ∙ ap n same ∙ h.forward k l entry)))
          ∙ back
    ];
    backward = λ j i e. elim (update-cases n l none j e) [
      | inl (_, v) ↦ absurd (no_entry v)
      | inr (ne, v) ↦
          let back = h.backward j i v in
          update_ne m k i none (λ same. ne (some_eq (sym back ∙ ap m same ∙ entry))) ∙ back
    ];
  }
