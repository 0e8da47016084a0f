-- ===== src/Settmint/Manager/Adjustment.antt =====
-- What an adjustment of a position guarantees.
use setheum.Common.{
  ℕ, ◌≡◌, sym, ap, subst, ◌∙◌, Bool, true, false, Result, ok, err, if◌then◌else◌, ℤ, is_positive,
  is_negative, after_lift, after_ensure, after_action,
}
use setheum.Primitives.Currency.{CurrencyId, contains}
use setheum.Settmint.Manager.{
  Error, Config, Settmint, position, returned, outside, when, move_reserve, move_standard,
  balance_try_from_amount_abs, update_reserve, adjust_position,
}
use setheum.Settmint.Manager.Updates.{IsAmount, Moves, Updated, update_reserve-Updated}
use setheum.Settmint.Manager.Accounting.{IsAccounted, Updated-IsAccounted, Updated-position}
use setheum.Settmint.Manager.Transfer.{after_checked}

module _ {W : Type 0} where
  -- `t` is `s` but for the world outside.
  abbrev pub OnlyWorld : Settmint W → Settmint W → Type 0
  OnlyWorld s t = (w : W) × (record s { world = w } ≡ t)

  outside-OnlyWorld :
      (f : W → Result ℕ W) (s : Settmint W) {u : Unit {0}} {t : Settmint W}
      → outside f s ≡ ok (u, t)
      → OnlyWorld s t
  outside-OnlyWorld f s {u} {t} e = split (f s.world) e
    where
      split : (r : Result ℕ W) → returned s r ≡ ok (u, t) → OnlyWorld s t
      split (ok w) h = (w, cc)
      split (err x) h = absurd (cc)

  -- one of two outside calls, or none, by the sign of an amount
  by_sign-OnlyWorld :
      (b d : Bool) (f g : W → Result ℕ W) (s : Settmint W) {u : Unit {0}} {t : Settmint W}
      → (if b then outside f s else when d (outside g) s) ≡ ok (u, t)
      → OnlyWorld s t
  by_sign-OnlyWorld true d f g s e = outside-OnlyWorld f s e
  by_sign-OnlyWorld false true f g s e = outside-OnlyWorld g s e
  by_sign-OnlyWorld false false f g s e = (s.world, cc)

module _ {O W : Type 0} (T : Config O W) where
  move_reserve-OnlyWorld :
      (who : ℕ) (a : ℤ) (b : ℕ) (s : Settmint W) {u : Unit {0}} {t : Settmint W}
      → move_reserve T who a b s ≡ ok (u, t)
      → OnlyWorld s t
  move_reserve-OnlyWorld who a b s e =
      by_sign-OnlyWorld (is_positive a) (is_negative a)
        (T.transfer T.reserve_currency_id who T.account_id
          (T.convert T.reserve_currency_id b s.world))
        (T.transfer T.reserve_currency_id T.account_id who
          (T.convert T.reserve_currency_id b s.world))
        s e

  move_standard-OnlyWorld :
      (who : ℕ) (c : CurrencyId) (a : ℤ) (b : ℕ) (s : Settmint W) {u : Unit {0}} {t : Settmint W}
      → move_standard T who c a b s ≡ ok (u, t)
      → OnlyWorld s t
  move_standard-OnlyWorld who c a b s e =
      by_sign-OnlyWorld (is_positive a) (is_negative a)
        (T.issue_standard c who (T.convert c b s.world))
        (T.burn_standard who c (T.convert c b s.world)) s e

  -- From `s` to `t`, the position of `who` has moved by the two amounts, and is valid.
  pub record Adjusted (who : ℕ) (c : CurrencyId) (ra sa : ℤ) (s t : Settmint W) : Type 0 where
    pub listed : contains T.standard_currency_ids c ≡ true
    pub reserve_moved : Moves ra (position s c who).reserve (position t c who).reserve
    pub standard_moved : Moves sa (position s c who).standard (position t c who).standard
    pub valid :
        T.check_position_valid c (position t c who).reserve (position t c who).standard t.world
        ≡ ok tt
    pub accounts : (d : CurrencyId) → IsAccounted t d

  make-Adjusted :
      (who : ℕ) (c : CurrencyId) (ra sa : ℤ) (s : Settmint W) {m n k t : Settmint W}
      → contains T.standard_currency_ids c ≡ true
      → ((d : CurrencyId) → IsAccounted s d)
      → Updated who c ra sa s m
      → OnlyWorld m n
      → OnlyWorld n k
      → T.check_position_valid c (position k c who).reserve (position k c who).standard k.world
        ≡ ok tt
      → record k { events = t.events } ≡ t
      → Adjusted who c ra sa s t
  make-Adjusted who c ra sa s {m} {n} {k} {t} listed all done (w, e₁) (w', e₂) valid e₃ =
      let mid = Updated-IsAccounted done all in
      let e : record m { world = w'; events = t.events } ≡ t =
        ap (λ (n : Settmint W). record n { world = w'; events = t.events }) e₁
        ∙ ap (λ (k : Settmint W). record k { events = t.events }) e₂
        ∙ e₃ in
      let new : position t c who ≡ done.new =
        ap (λ (v : Settmint W). position v c who) (sym e)
        ∙ Updated-position done ((all c).entries) in
      record {
        listed = listed;
        reserve_moved = rw new (done.reserve_moved);
        standard_moved = rw new (done.standard_moved);
        valid =
            subst
              (λ (t : Settmint W).
                T.check_position_valid c (position t c who).reserve (position t c who).standard
                  t.world
                ≡ ok tt)
              e₃ valid;
        accounts = λ d.
            subst (λ (t : Settmint W). IsAccounted t d) e
              (record {
                entries = (mid d).entries;
                reserves = (mid d).reserves;
                standards = (mid d).standards;
              });
      }

  -- A successful adjustment by amounts other than the least `i128`, where the accounts are in
  -- order, is of a listed standard, moves the position by exactly these amounts, leaves a
  -- position that the validator accepts in the end, and keeps the accounts in order.
  pub adjust_position-Adjusted :
      (who : ℕ) (c : CurrencyId) (ra sa : ℤ) (s : Settmint W) {u : Unit {0}} {t : Settmint W}
      → IsAmount ra
      → IsAmount sa
      → ((d : CurrencyId) → IsAccounted s d)
      → adjust_position T who c ra sa s ≡ ok (u, t)
      → Adjusted who c ra sa s t
  unfolding adjust_position
  adjust_position-Adjusted who c ra sa s {u} {t} i j all e =
      after_action (update_reserve T who c ra sa) _ s e λ _ m done h₁.
        after_lift (balance_try_from_amount_abs ra) _ m h₁ λ rb er h₂.
          after_lift (balance_try_from_amount_abs sa) _ m h₂ λ sb es h₃.
            after_ensure (contains T.standard_currency_ids c) Error.invalid_standard_type _ m h₃
              λ listed h₄. after_action (move_reserve T who ra rb) _ m h₄ λ _ n moved h₅.
                after_action (move_standard T who c sa sb) _ n h₅ λ _ k issued h₆.
                  after_checked
                    (λ s.
                      T.check_position_valid c (position k c who).reserve
                        (position k c who).standard s.world)
                    _ k h₆
                    λ valid h₇.
                      make-Adjusted who c ra sa s listed all
                        (update_reserve-Updated T who c ra sa s i j done)
                        (move_reserve-OnlyWorld who ra rb m moved)
                        (move_standard-OnlyWorld who c sa sb n issued) valid (cc)
