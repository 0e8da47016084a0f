-- ===== src/Settmint/Manager/Positions.antt =====
-- The entries of `Positions`: reads after a store, the sums, and the well-formed lists.
use setheum.Common.{
  ℕ, ◌+◌, ◌≡◌, ◌≢◌, refl, sym, ap, ◌∙◌, inl, inr, true, false, none, List, [], ◌∷◌, arith, ◌==◌,
  ==_iff, Bool-cases, lookup, insert, remove, key_ne, lookup-insert_other, lookup-remove_other,
  lookup-insert, lookup-remove, IsMap,
}
use setheum.Settmint.Manager.{Position, position_or_default, is_empty, store}

-- Every account has one entry at most, and no entry is an empty position.
abbrev pub IsPositions : List (ℕ × Position) → Type 0
IsPositions [] = Unit
IsPositions ((k, p) ∷ l) = (lookup k l ≡ none) × (is_empty p ≡ false) × IsPositions l

-- The sums over the entries, in exact numbers.
abbrev pub sum_of : (Position → ℕ) → List (ℕ × Position) → ℕ
sum_of f [] = 0
sum_of f ((_, p) ∷ l) = f p + sum_of f l

pub lookup-store_other :
    (j k : ℕ) (p : Position) (l : List (ℕ × Position)) → j ≢ k → lookup j (store k p l) ≡ lookup j l
lookup-store_other j k p l ne = elim (Bool-cases (is_empty p)) [
  | inl e ↦ rw (e, lookup-remove_other j k l ne)
  | inr e ↦ rw (e, lookup-insert_other j k p l ne)
]

IsPositions-IsMap : (l : List (ℕ × Position)) → IsPositions l → IsMap l
IsPositions-IsMap [] h = tt
IsPositions-IsMap ((k, p) ∷ l) (fresh, _, h) = (fresh, IsPositions-IsMap l h)

empty_position : (p : Position) → is_empty p ≡ true → p ≡ record { reserve = 0; standard = 0 }
empty_position p e i = record { reserve = both.0 i; standard = both.1 i }
  where
    both : (p.reserve ≡ 0) × (p.standard ≡ 0)
    both = ground arith

-- A position is read as it was stored.
pub lookup-store :
    (k : ℕ) (p : Position) (l : List (ℕ × Position))
    → IsPositions l
    → position_or_default (lookup k (store k p l)) ≡ p
lookup-store k p l h = elim (Bool-cases (is_empty p)) [
  | inl e ↦ rw (e, lookup-remove k l (IsPositions-IsMap l h)) (sym (empty_position p e))
  | inr e ↦ rw (e, lookup-insert k p l)
]

insert-IsPositions :
    (k : ℕ) (p : Position) (l : List (ℕ × Position))
    → is_empty p ≡ false
    → IsPositions l
    → IsPositions (insert k p l)
insert-IsPositions k p [] e h = (refl, e, tt)
insert-IsPositions k p ((i, q) ∷ l) e (fresh, full, h) = elim (Bool-cases (i == k)) [
  | inl b ↦ rw b (rw ((==_iff i k).0 b) at fresh, e, h)
  | inr b ↦
      rw b (lookup-insert_other i k p l (key_ne i k b) ∙ fresh, full, insert-IsPositions k p l e h)
]

remove-IsPositions : (k : ℕ) (l : List (ℕ × Position)) → IsPositions l → IsPositions (remove k l)
remove-IsPositions k [] h = tt
remove-IsPositions k ((i, q) ∷ l) (fresh, full, h) = elim (Bool-cases (i == k)) [
  | inl b ↦ rw b h
  | inr b ↦ rw b (lookup-remove_other i k l (key_ne i k b) ∙ fresh, full, remove-IsPositions k l h)
]

pub store-IsPositions :
    (k : ℕ) (p : Position) (l : List (ℕ × Position)) → IsPositions l → IsPositions (store k p l)
store-IsPositions k p l h = elim (Bool-cases (is_empty p)) [
  | inl e ↦ rw e (remove-IsPositions k l h)
  | inr e ↦ rw e (insert-IsPositions k p l e h)
]

-- A sum changes by what the one position changes.
module _ (f : Position → ℕ) (zero_at : f (record { reserve = 0; standard = 0 }) ≡ 0) where
  sum_of-insert :
      (k : ℕ) (p : Position) (l : List (ℕ × Position))
      → sum_of f (insert k p l) + f (position_or_default (lookup k l)) ≡ sum_of f l + f p
  sum_of-insert k p [] = rw zero_at (omega arith)
  sum_of-insert k p ((i, q) ∷ l) = elim (Bool-cases (i == k)) [
    | inl e ↦ rw e (omega arith)
    | inr e ↦ let ih = sum_of-insert k p l in rw e (omega arith)
  ]

  sum_of-remove :
      (k : ℕ) (l : List (ℕ × Position))
      → sum_of f (remove k l) + f (position_or_default (lookup k l)) ≡ sum_of f l
  sum_of-remove k [] = rw zero_at refl
  sum_of-remove k ((i, q) ∷ l) = elim (Bool-cases (i == k)) [
    | inl e ↦ rw e (omega arith)
    | inr e ↦ let ih = sum_of-remove k l in rw e (omega arith)
  ]

  pub sum_of-store :
      (k : ℕ) (p : Position) (l : List (ℕ × Position))
      → sum_of f (store k p l) + f (position_or_default (lookup k l)) ≡ sum_of f l + f p
  sum_of-store k p l = elim (Bool-cases (is_empty p)) [
    | inl e ↦
        let none_left : f p ≡ 0 = ap f (empty_position p e) ∙ zero_at in
        let same = sum_of-remove k l in rw e (omega arith)
    | inr e ↦ rw e (sum_of-insert k p l)
  ]
