-- ===== src/Auction/Steps.antt =====
-- Inversion of a successful call of another pallet, as the next step of a `do` block.
use setheum.Common.{◌≡◌, refl, ap, ℕ, Option, Result, ok, err, ◌>>=◌, ◌>>◌}
use setheum.Auction.Types.{Error, Config, Auctions, Call, returned, outside}
use setheum.Auction.Calls.{allocate, allocated}

module _ {W A : Type 0} {a : A} {t : Auctions W} {P : Type 0} where
  pub after_outside :
      (f : W → Result ℕ W) (k : Call W A) (s : Auctions W)
      → (outside f >> k) s ≡ ok (a, t)
      → ((w : W) → f s.world ≡ ok w → k (record s { world = w }) ≡ ok (a, t) → P)
      → P
  after_outside f k s h next = split (f s.world) refl h
    where
      split :
          (r : Result ℕ W)
          → f s.world ≡ r
          → (elim (returned s r) [ ok (_, s') ↦ k s' | err e ↦ err e ]) ≡ ok (a, t)
          → P
      split (ok w) p h = next w p h
      split (err e) p h = absurd (cc)

module _ {W A : Type 0} {a : A} {t : Auctions W} {P : Type 0} (T : Config W) where
  pub after_allocate :
      (start : ℕ) (end : Option ℕ) (k : ℕ → Call W A) (s : Auctions W)
      → (allocate T start end >>= k) s ≡ ok (a, t)
      → ((id : ℕ) (w : W)
          → T.new_auction start end s.world ≡ ok (id, w)
          → k id (record s { world = w }) ≡ ok (a, t)
          → P)
      → P
  after_allocate start end k s h next = split (T.new_auction start end s.world) refl h
    where
      split :
          (r : Result ℕ (ℕ × W))
          → T.new_auction start end s.world ≡ r
          → (elim (allocated s r) [ ok (id, s') ↦ k id s' | err e ↦ err e ]) ≡ ok (a, t)
          → P
      split (ok (id, w)) p h = next id w p h
      split (err e) p h = absurd (cc)

module _ {W A : Type 0} where
  -- a call that succeeds, with the rest of the block
  pub outside_ok :
      (f : W → Result ℕ W) {w : W} (k : Call W A) (s : Auctions W)
      → f s.world ≡ ok w
      → (outside f >> k) s ≡ k (record s { world = w })
  outside_ok f {w} k s h = split (f s.world) h
    where
      split :
          (r : Result ℕ W)
          → r ≡ ok w
          → ◌≡◌ {A = Result Error (A × Auctions W)}
              (elim (returned s r) [ ok (_, s') ↦ k s' | err e ↦ err e ])
              (k (record s { world = w }))
      split (ok v) h = ap (λ w. k (record s { world = w })) value
        where
          value : v ≡ w
          value = cc
      split (err _) h = absurd (cc)
