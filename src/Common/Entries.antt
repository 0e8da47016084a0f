-- ===== src/Common/Entries.antt =====
-- Storage maps as lists of entries: reads after a write, sums over the values, and the well-formed
-- lists.
use Prim.Native.Nat.{ℕ, ◌+◌, ◌<◌, ◌≤◌}
use mathlib.Core.Path.{◌≡◌, refl, sym, ap, ◌∙◌}
use mathlib.Core.Bool.{true, false}
use mathlib.Core.Logic.{◌≢◌, inl, inr}
use mathlib.Core.Option.{Option, none, some}
use mathlib.Core.List.{List, [], ◌∷◌}
use native.Mathlib.Omega.{arith}
use setheum.Common.Tests.{◌==◌, ==_iff, ==_refl, Bool-cases, nat_eq}
use setheum.Common.Lists.{lookup, insert, remove}

-- two keys, as a test and as a path
pub other_key : (j k : ℕ) → j ≢ k → (k == j) ≡ false
other_key j k ne = elim (Bool-cases (k == j)) [
  | inl e ↦ absurd (ne (sym ((==_iff k j).0 e)))
  | inr e ↦ e
]

pub key_ne : (j k : ℕ) → (j == k) ≡ false → j ≢ k
key_ne j k e f = different (sym e ∙ (==_iff j k).1 f)
  where
    different : false ≡ true → ⊥
    different f = cc

module _ {V : Type 0} where
  -- Every key has one entry at most.
  abbrev pub IsMap : List (ℕ × V) → Type 0
  IsMap [] = Unit
  IsMap ((k, _) ∷ l) = (lookup k l ≡ none) × IsMap l

  -- The keys are below a bound.
  abbrev pub AreBelow : ℕ → List (ℕ × V) → Type 0
  AreBelow n [] = Unit
  AreBelow n ((k, _) ∷ l) = (k < n) × AreBelow n l

  -- The sum of a measure of the values, in exact numbers.
  abbrev pub sum_by : (V → ℕ) → List (ℕ × V) → ℕ
  sum_by f [] = 0
  sum_by f ((_, v) ∷ l) = f v + sum_by f l

  pub lookup-insert_other :
      (j k : ℕ) (v : V) (l : List (ℕ × V)) → j ≢ k → lookup j (insert k v l) ≡ lookup j l
  lookup-insert_other j k v [] ne = rw (other_key j k ne)
  lookup-insert_other j k v ((i, w) ∷ l) ne = elim (Bool-cases (i == k)) [
    | inl e ↦ rw ((==_iff i k).0 e, ==_refl k, other_key j k ne)
    | inr e ↦ rw (e, lookup-insert_other j k v l ne)
  ]

  pub lookup-remove_other :
      (j k : ℕ) (l : List (ℕ × V)) → j ≢ k → lookup j (remove k l) ≡ lookup j l
  lookup-remove_other j k [] ne = refl
  lookup-remove_other j k ((i, w) ∷ l) ne = elim (Bool-cases (i == k)) [
    | inl e ↦ rw ((==_iff i k).0 e, ==_refl k, other_key j k ne)
    | inr e ↦ rw (e, lookup-remove_other j k l ne)
  ]

  pub lookup-insert : (k : ℕ) (v : V) (l : List (ℕ × V)) → lookup k (insert k v l) ≡ some v
  lookup-insert k v [] = rw (==_refl k)
  lookup-insert k v ((i, w) ∷ l) = elim (Bool-cases (i == k)) [
    | inl e ↦ rw (e, ==_refl k)
    | inr e ↦ rw (e, e, lookup-insert k v l)
  ]

  pub lookup-remove : (k : ℕ) (l : List (ℕ × V)) → IsMap l → lookup k (remove k l) ≡ none
  lookup-remove k [] h = refl
  lookup-remove k ((i, w) ∷ l) (fresh, h) = elim (Bool-cases (i == k)) [
    | inl e ↦ rw e (rw ((==_iff i k).0 e) at fresh)
    | inr e ↦ rw (e, e, lookup-remove k l h)
  ]

  pub insert-IsMap : (k : ℕ) (v : V) (l : List (ℕ × V)) → IsMap l → IsMap (insert k v l)
  insert-IsMap k v [] h = (refl, h)
  insert-IsMap k v ((i, w) ∷ l) (fresh, h) = elim (Bool-cases (i == k)) [
    | inl e ↦ rw e (rw ((==_iff i k).0 e) at fresh, h)
    | inr e ↦ rw e (lookup-insert_other i k v l (key_ne i k e) ∙ fresh, insert-IsMap k v l h)
  ]

  pub remove-IsMap : (k : ℕ) (l : List (ℕ × V)) → IsMap l → IsMap (remove k l)
  remove-IsMap k [] h = tt
  remove-IsMap k ((i, w) ∷ l) (fresh, h) = elim (Bool-cases (i == k)) [
    | inl e ↦ rw e h
    | inr e ↦ rw e (lookup-remove_other i k l (key_ne i k e) ∙ fresh, remove-IsMap k l h)
  ]

  pub AreBelow-weaken : (m n : ℕ) (l : List (ℕ × V)) → m ≤ n → AreBelow m l → AreBelow n l
  AreBelow-weaken m n [] le h = tt
  AreBelow-weaken m n ((k, _) ∷ l) le (lt, h) = (omega arith, AreBelow-weaken m n l le h)

  pub insert-AreBelow :
      (n k : ℕ) (v : V) (l : List (ℕ × V)) → k < n → AreBelow n l → AreBelow n (insert k v l)
  insert-AreBelow n k v [] lt h = (lt, tt)
  insert-AreBelow n k v ((i, w) ∷ l) lt (first, h) = elim (Bool-cases (i == k)) [
    | inl e ↦ rw e (lt, h)
    | inr e ↦ rw e (first, insert-AreBelow n k v l lt h)
  ]

  pub remove-AreBelow : (n k : ℕ) (l : List (ℕ × V)) → AreBelow n l → AreBelow n (remove k l)
  remove-AreBelow n k [] h = tt
  remove-AreBelow n k ((i, w) ∷ l) (first, h) = elim (Bool-cases (i == k)) [
    | inl e ↦ rw e h
    | inr e ↦ rw e (first, remove-AreBelow n k l h)
  ]

  -- A key at or above the bound has no entry.
  pub AreBelow-fresh : (n k : ℕ) (l : List (ℕ × V)) → AreBelow n l → n ≤ k → lookup k l ≡ none
  AreBelow-fresh n k [] h le = refl
  AreBelow-fresh n k ((i, w) ∷ l) (lt, h) le =
      let e : (i == k) ≡ false = ground arith in rw (e, AreBelow-fresh n k l h le)

  module _ (f : V → ℕ) where
    pub sum_by-insert_new :
        (k : ℕ) (v : V) (l : List (ℕ × V))
        → lookup k l ≡ none
        → sum_by f (insert k v l) ≡ sum_by f l + f v
    sum_by-insert_new k v [] h = omega arith
    sum_by-insert_new k v ((i, w) ∷ l) h = elim (Bool-cases (i == k)) [
      | inl e ↦ absurd_some (rw e at h)
      | inr e ↦ let ih = sum_by-insert_new k v l (rw e at h) in rw e (omega arith)
    ]
      where
        absurd_some :
            ◌≡◌ {A = Option V} (some w) none
            → sum_by f (insert k v ((i, w) ∷ l)) ≡ f w + sum_by f l + f v
        absurd_some e = absurd (cc)

    pub sum_by-insert_old :
        (k : ℕ) (v u : V) (l : List (ℕ × V))
        → lookup k l ≡ some u
        → f v ≡ f u
        → sum_by f (insert k v l) ≡ sum_by f l
    sum_by-insert_old k v u [] h same = absurd (cc)
    sum_by-insert_old k v u ((i, w) ∷ l) h same = elim (Bool-cases (i == k)) [
      | inl e ↦ let q = ap f (value (rw e at h)) in rw e (omega arith)
      | inr e ↦ let ih = sum_by-insert_old k v u l (rw e at h) same in rw e (omega arith)
    ]
      where
        value : ◌≡◌ {A = Option V} (some w) (some u) → w ≡ u
        value e = cc

    pub sum_by-remove :
        (k : ℕ) (u : V) (l : List (ℕ × V))
        → lookup k l ≡ some u
        → sum_by f (remove k l) + f u ≡ sum_by f l
    sum_by-remove k u [] h = absurd (cc)
    sum_by-remove k u ((i, w) ∷ l) h = elim (Bool-cases (i == k)) [
      | inl e ↦ let q = ap f (value (rw e at h)) in rw e (omega arith)
      | inr e ↦ let ih = sum_by-remove k u l (rw e at h) in rw e (omega arith)
    ]
      where
        value : ◌≡◌ {A = Option V} (some w) (some u) → w ≡ u
        value e = cc
