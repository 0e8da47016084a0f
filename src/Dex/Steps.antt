-- ===== src/Dex/Steps.antt =====
-- Inversion of a successful call, one step of a `do` block at a time: each rule hands what the
-- step has shown, and the rest of the block, to the proof that follows it.
use setheum.Common.{
  ℕ, zero, suc, ◌≡◌, refl, Bool, true, false, some, List, [], ◌∷◌, Result, ok, err, get_elem?,
  ◌>>=◌, ◌>>◌, if◌then◌else◌,
}
pub use setheum.Common.{after_ensure, after_ok_or, after_lift}
use setheum.Dex.Types.{Dex, Call, returned, outside, index, when}

module _ {W A : Type 0} {a : A} {t : Dex W} {P : Type 0} where
  pub after_index :
      {B : Type 0} (xs : List B) (i : ℕ) (k : B → Call W A) (s : Dex W)
      → (index xs i >>= k) s ≡ ok (a, t)
      → ((b : B) → get_elem? xs i ≡ some b → k b s ≡ ok (a, t) → P)
      → P
  after_index [] i k s h next = absurd (cc)
  after_index (x ∷ xs) zero k s h next = next x refl h
  after_index (x ∷ xs) (suc i) k s h next = after_index xs i k s h next

  pub after_outside :
      (f : W → Result ℕ W) (k : Call W A) (s : Dex W)
      → (outside f >> k) s ≡ ok (a, t)
      → ((w : W) → f s.world ≡ ok w → k (record s { world = w }) ≡ ok (a, t) → P)
      → P
  after_outside f k s h next = split (f s.world) refl h
    where
      split :
          (r : Result ℕ W)
          → f s.world ≡ r
          → (elim (returned s r) [ ok (_, s') ↦ k s' | err e ↦ err e ]) ≡ ok (a, t)
          → P
      split (ok w) p h = next w p h
      split (err e) p h = absurd (cc)

  -- an outside call under a flag
  pub after_when :
      (b : Bool) (f : W → Result ℕ W) (k : Call W A) (s : Dex W)
      → (when b (outside f) >> k) s ≡ ok (a, t)
      → ((w : W)
          → (if b then f s.world else ok s.world) ≡ ok w
          → k (record s { world = w }) ≡ ok (a, t)
          → P)
      → P
  after_when false f k s h next = next s.world refl h
  after_when true f k s h next = after_outside f k s h λ w e g. next w e g
