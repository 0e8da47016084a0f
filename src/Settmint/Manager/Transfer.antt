-- ===== src/Settmint/Manager/Transfer.antt =====
-- The transfer of a whole position, and the guards of an adjustment.
use setheum.Common.{
  ℕ, zero, suc, ◌+◌, ◌≤◌, ◌≡◌, ◌≢◌, refl, sym, ap, subst, ◌∙◌, inl, inr, some, Result, ok, err,
  arith, leb, Bool-cases, ℤ, saturating_neg, i128_max, checked_add, after_lift, after_ok_or, ◌>>◌,
  after_action,
}
use setheum.Primitives.Currency.{CurrencyId}
use setheum.Settmint.Manager.{
  Position, Error, Config, Settmint, Call, position, checked, amount_try_from_balance,
  update_reserve, transfer_reserve,
}
use setheum.Settmint.Manager.Updates.{IsAmount, Moves, Updated, update_reserve-Updated}
use setheum.Settmint.Manager.Accounting.{
  IsAccounted, Updated-IsAccounted, Updated-position, Updated-other, Updated-total,
}

position_eq :
    (p : Position) {r v : ℕ}
    → p.reserve ≡ r
    → p.standard ≡ v
    → p ≡ record { reserve = r; standard = v }
position_eq p e f i = record { reserve = e i; standard = f i }

-- An amount that is made of a balance is that balance, and its negation is an amount too.
amount_try_from_balance-eq_ok :
    (b : ℕ) {a : ℤ}
    → amount_try_from_balance b ≡ ok a
    → (a ≡ ℤ.pos b) × IsAmount (ℤ.pos b) × IsAmount (saturating_neg (ℤ.pos b))
amount_try_from_balance-eq_ok b {a} e = elim (Bool-cases (leb b i128_max)) [
  | inl h ↦ let fits : b ≤ i128_max = ground arith in (value (rw h at e), fits, neg b fits)
  | inr h ↦ absurd_err (rw h at e)
]
  where
    value : ◌≡◌ {A = Result Error ℤ} (ok (ℤ.pos b)) (ok a) → a ≡ ℤ.pos b
    value h = cc

    absurd_err :
        ◌≡◌ {A = Result Error ℤ} (err Error.amount_convert_failed) (ok a)
        → (a ≡ ℤ.pos b) × IsAmount (ℤ.pos b) × IsAmount (saturating_neg (ℤ.pos b))
    absurd_err h = cc

    neg : (b : ℕ) → b ≤ i128_max → IsAmount (saturating_neg (ℤ.pos b))
    neg zero h = omega arith
    neg (suc b) h = omega arith

Moves-neg : (b : ℕ) {new : ℕ} → Moves (saturating_neg (ℤ.pos b)) b new → new ≡ 0
Moves-neg zero h = omega arith
Moves-neg (suc b) h = omega arith

-- A total that moves down and up by the same amount is the old total.
Moves-back : (b x y z : ℕ) → Moves (saturating_neg (ℤ.pos b)) x y → Moves (ℤ.pos b) y z → z ≡ x
Moves-back zero x y z h g = omega arith
Moves-back (suc b) x y z h g = omega arith

-- From `s` to `t`, the whole position of `from` has gone to `to`.
pub record Transferred {W : Type 0} (from to : ℕ) (c : CurrencyId) (s t : Settmint W) : Type 0 where
  pub emptied : position t c from ≡ record { reserve = 0; standard = 0 }
  pub received : position t c to ≡ record {
    reserve = (position s c to).reserve + (position s c from).reserve;
    standard = (position s c to).standard + (position s c from).standard;
  }
  pub others : (j : ℕ) → j ≢ from → j ≢ to → position t c j ≡ position s c j
  pub totals : t.total_positions c ≡ s.total_positions c
  pub accounts : (d : CurrencyId) → IsAccounted t d

two_updates-Transferred :
    {W : Type 0} {from to : ℕ} {c : CurrencyId} {s m t : Settmint W}
    → from ≢ to
    → ((d : CurrencyId) → IsAccounted s d)
    → (let p = position s c from in
        Updated from c (saturating_neg (ℤ.pos p.reserve)) (saturating_neg (ℤ.pos p.standard)) s m
        × Updated to c (ℤ.pos p.reserve) (ℤ.pos p.standard) m t)
    → Transferred from to c s t
two_updates-Transferred {W} {from} {to} {c} {s} {m} {t} ne all (down, up) =
    let p = position s c from in
    let mid = Updated-IsAccounted down all in
    let back : to ≢ from = λ e. ne (sym e) in
    let to_m = Updated-other down to back in
    let from_t = Updated-other up from ne ∙ Updated-position down ((all c).entries) in
    let r₀ : (position m c to).reserve ≡ (position s c to).reserve = ap (λ p. p.reserve) to_m in
    let v₀ : (position m c to).standard ≡ (position s c to).standard = ap (λ p. p.standard) to_m in
    let total_m = Updated-total down in
    record {
      emptied =
          from_t
          ∙ position_eq down.new (Moves-neg p.reserve down.reserve_moved)
              (Moves-neg p.standard down.standard_moved);
      received =
          Updated-position up ((mid c).entries)
          ∙ position_eq up.new (up.reserve_moved ∙ ap (λ n. n + p.reserve) r₀)
              (up.standard_moved ∙ ap (λ n. n + p.standard) v₀);
      others = λ j nf nt. Updated-other up j nt ∙ Updated-other down j nf;
      totals =
          Updated-total up
          ∙ position_eq up.total
              (Moves-back p.reserve _ _ _ down.total_reserve_moved (
                subst (λ (q : Position). Moves (ℤ.pos p.reserve) q.reserve up.total.reserve) total_m
                  up.total_reserve_moved))
              (Moves-back p.standard _ _ _ down.total_standard_moved (
                subst (λ (q : Position). Moves (ℤ.pos p.standard) q.standard up.total.standard)
                  total_m up.total_standard_moved));
      accounts = Updated-IsAccounted up mid;
    }

module _ {W A : Type 0} {a : A} {t : Settmint W} {P : Type 0} where
  -- the check of another pallet, under `?`
  pub after_checked :
      (f : Settmint W → Result ℕ (Unit {0})) (k : Call W A) (s : Settmint W)
      → ((λ s. checked s (f s)) >> k) s ≡ ok (a, t)
      → (f s ≡ ok tt → k s ≡ ok (a, t) → P)
      → P
  after_checked f k s h next = split (f s) refl h
    where
      split :
          (r : Result ℕ (Unit {0}))
          → f s ≡ r
          → (elim (checked s r) [ ok (_, s') ↦ k s' | err e ↦ err e ]) ≡ ok (a, t)
          → P
      split (ok tt) p h = next p h
      split (err e) p h = absurd (cc)

checked_add_fits : (a b : ℕ) {c : ℕ} → checked_add a b ≡ some c → c ≡ a + b
checked_add_fits a b {c} h = ground arith

module _ {O W : Type 0} (T : Config O W) where
  -- A successful transfer to another account, where the accounts are in order, empties the
  -- position of `from`, adds it to that of `to`, which the validator has accepted, and changes
  -- no other position in the currency and no total; the accounts of all currencies stay in order.
  pub transfer_reserve-Transferred :
      (from to : ℕ) (c : CurrencyId) (s : Settmint W) {u : Unit {0}} {t : Settmint W}
      → from ≢ to
      → ((d : CurrencyId) → IsAccounted s d)
      → transfer_reserve T from to c s ≡ ok (u, t)
      → Transferred from to c s t
        × (T.check_position_valid c (position t c to).reserve (position t c to).standard s.world
            ≡ ok tt)
  unfolding transfer_reserve
  transfer_reserve-Transferred from to c s {u} {t} ne all e =
      let p = position s c from in
      let q = position s c to in
      after_ok_or (checked_add q.reserve p.reserve) Error.panic _ s e λ r er h₁.
        after_ok_or (checked_add q.standard p.standard) Error.panic _ s h₁ λ v ev h₂.
          after_checked (λ s. T.check_position_valid c r v s.world) _ s h₂
            λ valid h₃. after_lift (amount_try_from_balance p.reserve) _ s h₃ λ ra ea h₄.
              after_lift (amount_try_from_balance p.standard) _ s h₄ λ sa es h₅.
                after_action (update_reserve T from c (saturating_neg ra) (saturating_neg sa)) _ s
                  h₅
                  λ _ m down h₆. after_action (update_reserve T to c ra sa) _ m h₆ λ _ n up h₇.
                    done_at (cc)
                      (two_updates-Transferred ne all (
                        updates ra sa m n (amount_try_from_balance-eq_ok p.reserve ea)
                          (amount_try_from_balance-eq_ok p.standard es) down up))
                      (checked_add_fits q.reserve p.reserve er)
                      (checked_add_fits q.standard p.standard ev) valid
    where
      updates :
          (ra sa : ℤ) (m n : Settmint W) {v w : Unit {0}}
          → (let p = position s c from in
              ((ra ≡ ℤ.pos p.reserve)
                × IsAmount (ℤ.pos p.reserve)
                × IsAmount (saturating_neg (ℤ.pos p.reserve)))
              → ((sa ≡ ℤ.pos p.standard)
                  × IsAmount (ℤ.pos p.standard)
                  × IsAmount (saturating_neg (ℤ.pos p.standard)))
              → update_reserve T from c (saturating_neg ra) (saturating_neg sa) s ≡ ok (v, m)
              → update_reserve T to c ra sa m ≡ ok (w, n)
              → Updated from c
                  (saturating_neg (ℤ.pos p.reserve))
                  (saturating_neg (ℤ.pos p.standard))
                  s
                  m
                × Updated to c (ℤ.pos p.reserve) (ℤ.pos p.standard) m n)
      updates ra sa m n (er, fr, nr) (es, fs, ns) down up = (
        update_reserve-Updated T from c _ _ s nr ns (rw (← er, ← es) down),
        update_reserve-Updated T to c _ _ m fr fs (rw (← er, ← es) up),
      )

      done_at :
          {n : Settmint W} {r v : ℕ}
          → record n { events = t.events } ≡ t
          → Transferred from to c s n
          → r ≡ (position s c to).reserve + (position s c from).reserve
          → v ≡ (position s c to).standard + (position s c from).standard
          → T.check_position_valid c r v s.world ≡ ok tt
          → Transferred from to c s t
            × (T.check_position_valid c (position t c to).reserve (position t c to).standard s.world
                ≡ ok tt)
      done_at {n} {r} {v} same done er ev valid =
          subst
            (λ (t : Settmint W).
              Transferred from to c s t
              × (T.check_position_valid c (position t c to).reserve (position t c to).standard
                    s.world
                  ≡ ok tt))
            same
            (
              record {
                emptied = done.emptied;
                received = done.received;
                others = done.others;
                totals = done.totals;
                accounts = λ d. record {
                  entries = (done.accounts d).entries;
                  reserves = (done.accounts d).reserves;
                  standards = (done.accounts d).standards;
                };
              },
              rw (done.received, ← er, ← ev) valid,
            )
