-- ===== src/Common/Books.antt =====
-- Storage maps with totals: a map whose keys are below a bound, with a total for each index that
-- is the sum of a measure of its values and an excess, and maps that share no key.
use Prim.Native.Nat.{ℕ, ◌+◌, ◌-◌, ◌<◌, ◌≤◌}
use mathlib.Core.Path.{◌≡◌, ◌∙◌}
use mathlib.Core.Logic.{◌⊎◌, inl, inr}
use mathlib.Core.Option.{none, some}
use mathlib.Core.List.{List, [], ◌∷◌}
use native.Mathlib.Omega.{arith}
use setheum.Common.Tests.{◌==◌, ==_iff, Bool-cases}
use setheum.Common.Lists.{lookup, insert, remove}
use setheum.Common.Entries.{
  IsMap, AreBelow, sum_by, key_ne, lookup-insert_other, lookup-remove_other, insert-IsMap,
  remove-IsMap, AreBelow-weaken, insert-AreBelow, remove-AreBelow, AreBelow-fresh,
  sum_by-insert_new, sum_by-insert_old, sum_by-remove, lookup-remove,
}

pub record IsBook {C V : Type 0} (f : C → V → ℕ) (n : ℕ) (m : List (ℕ × V)) (excess total : C → ℕ)
    : Type 0 where
  pub entries : IsMap m
  pub below : AreBelow n m
  pub sums : (c : C) → sum_by (f c) m + excess c ≡ total c

-- No key has an entry in both maps.
pub record Apart {U V : Type 0} (m : List (ℕ × U)) (l : List (ℕ × V)) : Type 0 where
  pub keys : (k : ℕ) → (lookup k m ≡ none) ⊎ (lookup k l ≡ none)

module _ {V : Type 0} where
  AreBelow-lookup :
      (n k : ℕ) (v : V) (l : List (ℕ × V)) → AreBelow n l → lookup k l ≡ some v → k < n
  AreBelow-lookup n k v [] h e = absurd (cc)
  AreBelow-lookup n k v ((i, w) ∷ l) (lt, h) e = elim (Bool-cases (i == k)) [
    | inl b ↦ let same = (==_iff i k).0 b in omega arith
    | inr b ↦ AreBelow-lookup n k v l h (rw b at e)
  ]

module _ {C V : Type 0} {f : C → V → ℕ} {n : ℕ} {m : List (ℕ × V)} {excess total : C → ℕ}
    (book : IsBook f n m excess total) where
  pub IsBook-weaken : (n' : ℕ) → n ≤ n' → IsBook f n' m excess total
  IsBook-weaken n' le = record {
    entries = book.entries;
    below = AreBelow-weaken n n' m le book.below;
    sums = book.sums;
  }

  pub IsBook-create :
      (n' k : ℕ) (v : V) (total' : C → ℕ)
      → n ≤ k
      → k < n'
      → ((c : C) → total' c ≡ total c + f c v)
      → IsBook f n' (insert k v m) excess total'
  IsBook-create n' k v total' le lt e = record {
    entries = insert-IsMap k v m book.entries;
    below = insert-AreBelow n' k v m lt (AreBelow-weaken n n' m (omega arith) book.below);
    sums = λ c.
        let q = sum_by-insert_new (f c) k v m (AreBelow-fresh n k m book.below le) in
        let r = book.sums c in let p = e c in omega arith;
  }

  pub IsBook-replace :
      (n' k : ℕ) (v u : V)
      → n ≤ n'
      → lookup k m ≡ some u
      → ((c : C) → f c v ≡ f c u)
      → IsBook f n' (insert k v m) excess total
  IsBook-replace n' k v u le found e = record {
    entries = insert-IsMap k v m book.entries;
    below =
        AreBelow-weaken n n' (insert k v m) le
          (insert-AreBelow n k v m (AreBelow-lookup n k u m book.below found) book.below);
    sums = λ c.
        let q = sum_by-insert_old (f c) k v u m found (e c) in let r = book.sums c in omega arith;
  }

  pub IsBook-remove :
      (n' k : ℕ) (u : V) (total' : C → ℕ)
      → n ≤ n'
      → lookup k m ≡ some u
      → ((c : C) → total' c ≡ total c - f c u)
      → IsBook f n' (remove k m) excess total'
  IsBook-remove n' k u total' le found e = record {
    entries = remove-IsMap k m book.entries;
    below = AreBelow-weaken n n' (remove k m) le (remove-AreBelow n k m book.below);
    sums = λ c.
        let q = sum_by-remove (f c) k u m found in
        let r = book.sums c in let p = e c in omega arith;
  }

  -- a value that is taken out while the total stays
  pub IsBook-take :
      (k : ℕ) (u : V) → lookup k m ≡ some u → IsBook f n (remove k m) (λ c. excess c + f c u) total
  IsBook-take k u found = record {
    entries = remove-IsMap k m book.entries;
    below = remove-AreBelow n k m book.below;
    sums = λ c. let q = sum_by-remove (f c) k u m found in let r = book.sums c in omega arith;
  }

  -- a total that is raised while the map stays
  pub IsBook-raise :
      (more total' : C → ℕ)
      → ((c : C) → total' c ≡ total c + more c)
      → IsBook f n m (λ c. excess c + more c) total'
  IsBook-raise more total' e = record {
    entries = book.entries;
    below = book.below;
    sums = λ c. let r = book.sums c in let p = e c in omega arith;
  }

  pub IsBook-fresh : (k : ℕ) → n ≤ k → lookup k m ≡ none
  IsBook-fresh k le = AreBelow-fresh n k m book.below le

module _ {U V : Type 0} {m : List (ℕ × U)} {l : List (ℕ × V)} (apart : Apart m l) where
  pub Apart-sym : Apart l m
  Apart-sym = record { keys = λ k. elim (apart.keys k) [ inl e ↦ inr e | inr e ↦ inl e ] }

  -- a new or another value at a key that the other map does not have
  pub Apart-insert : (k : ℕ) (u : U) → lookup k l ≡ none → Apart (insert k u m) l
  Apart-insert k u fresh = record {
    keys = λ j. elim (Bool-cases (j == k)) [
      | inl b ↦ inr (rw ((==_iff j k).0 b) fresh)
      | inr b ↦ elim (apart.keys j) [
        | inl e ↦ inl (lookup-insert_other j k u m (key_ne j k b) ∙ e)
        | inr e ↦ inr e
      ]
    ];
  }

  pub Apart-remove : (k : ℕ) → IsMap m → Apart (remove k m) l
  Apart-remove k h = record {
    keys = λ j. elim (Bool-cases (j == k)) [
      | inl b ↦ inl (rw ((==_iff j k).0 b) (lookup-remove k m h))
      | inr b ↦ elim (apart.keys j) [
        | inl e ↦ inl (lookup-remove_other j k m (key_ne j k b) ∙ e)
        | inr e ↦ inr e
      ]
    ];
  }

  -- a key of the one map is none of the other
  pub Apart-found : (k : ℕ) (u : U) → lookup k m ≡ some u → lookup k l ≡ none
  Apart-found k u found = elim (apart.keys k) [ inl e ↦ absurd (cc) | inr e ↦ e ]
