-- ===== src/Settmint/Manager/Updates.antt =====
-- What a successful `update_reserve` has done: signed arithmetic on one position and one total.
use setheum.Common.{
  ℕ, zero, suc, ◌+◌, ◌≤◌, ◌<◌, ◌≡◌, ap, Option, none, some, Result, ok, err, arith, update, ℤ,
  is_positive, saturating_abs, i128_max, checked_add, checked_sub, try_into_u128, after_lift,
}
use setheum.Primitives.Currency.{CurrencyId}
use setheum.Primitives.Order.{currency_eq}
use setheum.Settmint.Manager.{
  Position, Error, Config, Settmint, position, store, or_err, balance_try_from_amount_abs, adjusted,
  change_position, reserve_first, standard_first, new_reserve, new_standard, update_reserve,
}

-- The amounts whose negation is an amount: all but the least `i128`.
abbrev pub IsAmount : ℤ → Type 0
IsAmount (ℤ.pos n) = n ≤ i128_max
IsAmount (ℤ.negsuc n) = n < i128_max

-- `new` is `old` plus the signed amount.
abbrev pub Moves : ℤ → ℕ → ℕ → Type 0
Moves (ℤ.pos n) old new = new ≡ old + n
Moves (ℤ.negsuc n) old new = new + suc n ≡ old

or_err-some : {A : Type 0} (o : Option A) (e : Error) {a : A} → or_err o e ≡ ok a → o ≡ some a
or_err-some none e h = absurd (cc)
or_err-some (some a) e h = cc

checked_add-some : (a b : ℕ) {c : ℕ} → checked_add a b ≡ some c → c ≡ a + b
checked_add-some a b {c} h = ground arith

checked_sub-some : (a b : ℕ) {c : ℕ} → checked_sub a b ≡ some c → c + b ≡ a
checked_sub-some a b {c} h = ground arith

abs_of_negsuc : (n : ℕ) → n < i128_max → saturating_abs (ℤ.negsuc n) ≡ suc n
abs_of_negsuc n h = ground arith

try_into_u128-some : (n : ℕ) {b : ℕ} → try_into_u128 n ≡ some b → b ≡ n
try_into_u128-some n {b} h = ground arith

-- A number is adjusted by the signed amount.
adjusted-Moves :
    (a : ℤ) (old : ℕ) (over low : Error) {b new : ℕ}
    → IsAmount a
    → balance_try_from_amount_abs a ≡ ok b
    → adjusted (is_positive a) old b over low ≡ ok new
    → Moves a old new
adjusted-Moves (ℤ.pos zero) old over low {b} {new} i e h =
    let e₁ = try_into_u128-some 0 (or_err-some (try_into_u128 0) Error.amount_convert_failed e) in
    let e₂ = checked_sub-some old b (or_err-some (checked_sub old b) low h) in omega arith
adjusted-Moves (ℤ.pos (suc n)) old over low {b} {new} i e h =
    let e₁ =
      try_into_u128-some (suc n)
        (or_err-some (try_into_u128 (suc n)) Error.amount_convert_failed e) in
    let e₂ = checked_add-some old b (or_err-some (checked_add old b) over h) in omega arith
adjusted-Moves (ℤ.negsuc n) old over low {b} {new} i e h =
    let abs = saturating_abs (ℤ.negsuc n) in
    let e₁ =
      try_into_u128-some abs (or_err-some (try_into_u128 abs) Error.amount_convert_failed e) in
    let e₂ = checked_sub-some old b (or_err-some (checked_sub old b) low h) in
    let e₃ = abs_of_negsuc n i in omega arith

-- From `s` to `t`, the position of `who` and the total of `c` have moved by the two amounts.
pub record Updated {W : Type 0} (who : ℕ) (c : CurrencyId) (ra sa : ℤ) (s t : Settmint W)
    : Type 0 where
  pub new : Position
  pub reserve_moved : Moves ra (position s c who).reserve new.reserve
  pub standard_moved : Moves sa (position s c who).standard new.standard
  pub stored : t.positions ≡ update s.positions c (store who new (s.positions c))
  pub total : Position
  pub total_reserve_moved : Moves ra (s.total_positions c).reserve total.reserve
  pub total_standard_moved : Moves sa (s.total_positions c).standard total.standard
  pub totalled : t.total_positions ≡ update s.total_positions c total

reserve_first-eq_ok :
    (r v : Result Error ℕ) {q : Position}
    → reserve_first r v ≡ ok q
    → (r ≡ ok q.reserve) × (v ≡ ok q.standard)
reserve_first-eq_ok (err x) v h = absurd (cc)
reserve_first-eq_ok (ok r) (err x) h = absurd (cc)
reserve_first-eq_ok (ok r) (ok v) {q} h =
    let same : record { reserve = r; standard = v } ≡ q = cc in
    (ap (λ p. ok p.reserve) same, ap (λ p. ok p.standard) same)

standard_first-eq_ok :
    (v r : Result Error ℕ) {q : Position}
    → standard_first v r ≡ ok q
    → (r ≡ ok q.reserve) × (v ≡ ok q.standard)
standard_first-eq_ok (err x) r h = absurd (cc)
standard_first-eq_ok (ok v) (err x) h = absurd (cc)
standard_first-eq_ok (ok v) (ok r) {q} h =
    let same : record { reserve = r; standard = v } ≡ q = cc in
    (ap (λ p. ok p.reserve) same, ap (λ p. ok p.standard) same)

module _ {O W : Type 0} (T : Config O W) where
  -- A successful update of a position by two amounts other than the least `i128` moves the
  -- position of that account and the total of that currency by exactly these amounts.
  pub update_reserve-Updated :
      (who : ℕ) (c : CurrencyId) (ra sa : ℤ) (s : Settmint W) {u : Unit {0}} {t : Settmint W}
      → IsAmount ra
      → IsAmount sa
      → update_reserve T who c ra sa s ≡ ok (u, t)
      → Updated who c ra sa s t
  unfolding update_reserve change_position
  update_reserve-Updated who c ra sa s {u} {t} i j e =
      after_lift (balance_try_from_amount_abs ra) _ s e λ rb er h₁.
        after_lift (balance_try_from_amount_abs sa) _ s h₁ λ sb es h₂.
          after_lift
            (reserve_first (new_reserve ra rb (position s c who))
              (new_standard sa sb (position s c who)))
            _ s h₂
            λ q eq h₃.
              after_lift
                (standard_first (new_standard sa sb (s.total_positions c))
                  (new_reserve ra rb (s.total_positions c)))
                _ (change_position T who c sa (position s c who) q s) h₃
                λ z ez h₄.
                  let (qr, qs) = reserve_first-eq_ok _ _ eq in
                  let (zr, zs) = standard_first-eq_ok _ _ ez in
                  record {
                    new = q;
                    reserve_moved =
                        adjusted-Moves ra _ Error.reserve_overflow Error.reserve_too_low i er qr;
                    standard_moved =
                        adjusted-Moves sa _ Error.standard_overflow Error.standard_too_low j es qs;
                    stored = cc;
                    total = z;
                    total_reserve_moved =
                        adjusted-Moves ra _ Error.reserve_overflow Error.reserve_too_low i er zr;
                    total_standard_moved =
                        adjusted-Moves sa _ Error.standard_overflow Error.standard_too_low j es zs;
                    totalled = cc;
                  }
