-- ===== src/Settmint/Manager/Accounting.antt =====
-- The totals of Settmint are the sums of the positions.
use setheum.Common.{
  ℕ, ◌+◌, ◌≡◌, ◌≢◌, refl, sym, ap, subst, ◌∙◌, inl, inr, true, false, ok, arith, Bool-cases,
  update_self, update_ne, ℤ,
}
use setheum.Primitives.Currency.{CurrencyId, currency_beq}
use setheum.Primitives.Order.{currency_eq, currency_beq_iff}
use setheum.Settmint.Manager.{
  Config, Settmint, position, position_or_default, store, update_reserve,
}
use setheum.Settmint.Manager.Positions.{
  IsPositions, sum_of, lookup-store, lookup-store_other, store-IsPositions, sum_of-store,
}
use setheum.Settmint.Manager.Updates.{IsAmount, Moves, Updated, update_reserve-Updated}

-- The account of a currency: well-formed entries, and totals that are their sums.
pub record IsAccounted {W : Type 0} (s : Settmint W) (c : CurrencyId) : Type 0 where
  pub entries : IsPositions (s.positions c)
  pub reserves : sum_of (λ p. p.reserve) (s.positions c) ≡ (s.total_positions c).reserve
  pub standards : sum_of (λ p. p.standard) (s.positions c) ≡ (s.total_positions c).standard

-- A sum and a total that were equal and have moved alike are equal.
moved_alike :
    (a : ℤ) (old new sum sum' total total' : ℕ)
    → sum' + old ≡ sum + new
    → sum ≡ total
    → Moves a old new
    → Moves a total total'
    → sum' ≡ total'
moved_alike (ℤ.pos n) old new sum sum' total total' e f g h = omega arith
moved_alike (ℤ.negsuc n) old new sum sum' total total' e f g h = omega arith

module _ {W : Type 0} {who : ℕ} {c : CurrencyId} {ra sa : ℤ} {s t : Settmint W}
    (done : Updated who c ra sa s t) where
  -- After an update all accounts are well-formed and all totals are still the sums.
  pub Updated-IsAccounted :
      ((d : CurrencyId) → IsAccounted s d) → (d : CurrencyId) → IsAccounted t d
  Updated-IsAccounted all d = elim (Bool-cases (currency_beq d c)) [
    | inl b ↦
        let same = (currency_beq_iff d c).0 b in
        subst (IsAccounted t) (sym same) (
          at_currency
            (ap (λ m. m c) done.stored
              ∙ update_self s.positions c (store who done.new (s.positions c)))
            (ap (λ m. m c) done.totalled ∙ update_self s.total_positions c done.total))
    | inr b ↦
        let ne : d ≢ c = λ f. different (sym b ∙ (currency_beq_iff d c).1 f) in
        elsewhere
          (ap (λ m. m d) done.stored
            ∙ update_ne s.positions c d (store who done.new (s.positions c)) ne)
          (ap (λ m. m d) done.totalled ∙ update_ne s.total_positions c d done.total ne)
  ]
    where
      different : false ≡ true → ⊥
      different f = cc

      elsewhere :
          t.positions d ≡ s.positions d
          → t.total_positions d ≡ s.total_positions d
          → IsAccounted t d
      elsewhere e f = record {
        entries = rw e ((all d).entries);
        reserves = rw (e, f) ((all d).reserves);
        standards = rw (e, f) ((all d).standards);
      }

      at_currency :
          t.positions c ≡ store who done.new (s.positions c)
          → t.total_positions c ≡ done.total
          → IsAccounted t c
      at_currency e f = record {
        entries = rw e (store-IsPositions who done.new (s.positions c) ((all c).entries));
        reserves =
            rw (e, f)
              (moved_alike ra _ _ _ _ _ _
                (sum_of-store (λ p. p.reserve) refl who done.new (s.positions c)) ((all c).reserves)
                done.reserve_moved done.total_reserve_moved);
        standards =
            rw (e, f)
              (moved_alike sa _ _ _ _ _ _
                (sum_of-store (λ p. p.standard) refl who done.new (s.positions c))
                ((all c).standards) done.standard_moved done.total_standard_moved);
      }

  -- The position of the account is the new one.
  pub Updated-position : IsPositions (s.positions c) → position t c who ≡ done.new
  Updated-position h =
      let e : t.positions c ≡ store who done.new (s.positions c) =
        ap (λ m. m c) done.stored
        ∙ update_self s.positions c (store who done.new (s.positions c)) in
      rw e (lookup-store who done.new (s.positions c) h)

  -- The positions of the other accounts in the currency are the old ones.
  pub Updated-other : (j : ℕ) → j ≢ who → position t c j ≡ position s c j
  Updated-other j ne =
      let e : t.positions c ≡ store who done.new (s.positions c) =
        ap (λ m. m c) done.stored
        ∙ update_self s.positions c (store who done.new (s.positions c)) in
      rw e (ap (λ o. position_or_default o) (lookup-store_other j who done.new (s.positions c) ne))

  pub Updated-total : t.total_positions c ≡ done.total
  Updated-total = ap (λ m. m c) done.totalled ∙ update_self s.total_positions c done.total

module _ {O W : Type 0} (T : Config O W) where
  -- An update of any account in any currency, by amounts other than the least `i128`, keeps the
  -- accounts: in every currency no account has two entries, no entry is an empty position, and
  -- the totals of reserves and standards are the sums over the positions.
  pub update_reserve-IsAccounted :
      (who : ℕ) (c : CurrencyId) (ra sa : ℤ) (s : Settmint W) {u : Unit {0}} {t : Settmint W}
      → IsAmount ra
      → IsAmount sa
      → ((d : CurrencyId) → IsAccounted s d)
      → update_reserve T who c ra sa s ≡ ok (u, t)
      → (d : CurrencyId) → IsAccounted t d
  update_reserve-IsAccounted who c ra sa s i j all e =
      Updated-IsAccounted (update_reserve-Updated T who c ra sa s i j e) all
