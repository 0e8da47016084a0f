-- ===== src/Incentives/Shares.antt =====
-- Shares that were deposited for incentives can be withdrawn again.
use setheum.Common.{
  ℕ, ◌+◌, ◌≤◌, ◌≡◌, ◌≢◌, refl, ap, true, ◌&&◌, Result, ok, err, arith, leb, after_ensure, ◌>>◌,
}
use setheum.Primitives.Currency.{CurrencyId, is_dex_share_currency_id}
use setheum.Incentives.{
  PoolId, Error, Config, Incentives, Call, returned, outside, do_deposit_dex_share,
  do_withdraw_dex_share,
}

module _ {W A : Type 0} {a : A} {t : Incentives W} {P : Type 0} where
  after_outside :
      (f : W → Result ℕ W) (k : Call W A) (s : Incentives W)
      → (outside f >> k) s ≡ ok (a, t)
      → ((w : W) → f s.world ≡ ok w → k (record s { world = w }) ≡ ok (a, t) → P)
      → P
  after_outside f k s h next = split (f s.world) refl h
    where
      split :
          (r : Result ℕ W)
          → f s.world ≡ r
          → (elim (returned s r) [ ok (_, s') ↦ k s' | err e ↦ err e ]) ≡ ok (a, t)
          → P
      split (ok w) p h = next w p h
      split (err e) p h = absurd (cc)

outside-ok :
    {W A : Type 0} (f : W → Result ℕ W) (k : Call W A) (s : Incentives W) {w : W}
    → f s.world ≡ ok w
    → (outside f >> k) s ≡ k (record s { world = w })
outside-ok {W} {A} f k s {w} e = by_result (f s.world) e
  where
    by_result :
        (r : Result ℕ W)
        → r ≡ ok w
        → (elim (returned s r) [ ok (_, s') ↦ k s' | err e ↦ err e ]) ≡ k (record s { world = w })
    by_result (ok w') h = let same : w' ≡ w = cc in ap (λ w. k (record s { world = w })) same
    by_result (err x) h = absurd (cc)

module _ {O W : Type 0} (T : Config O W) where
  -- The rewards pallet adds to the share in one pool.
  pub record IsKeeping : Type 0 where
    pub add_own :
        (who : ℕ) (p : PoolId) (n : ℕ) (w : W)
        → T.share p who (T.add_share who p n w) ≡ T.share p who w + n
    pub add_other :
        (who : ℕ) (p q : PoolId) (n : ℕ) (w : W)
        → q ≢ p
        → T.share q who (T.add_share who p n w) ≡ T.share q who w

  -- What a successful deposit has done: the two shares have grown by the amount.
  pub do_deposit_dex_share-shares :
      (who : ℕ) (lp : CurrencyId) (n : ℕ) (s : Incentives W) {u : Unit {0}} {t : Incentives W}
      → IsKeeping
      → do_deposit_dex_share T who lp n s ≡ ok (u, t)
      → (is_dex_share_currency_id lp ≡ true)
        × (n ≤ T.share (PoolId.dex_incentive lp) who t.world)
        × (n ≤ T.share (PoolId.dex_premium lp) who t.world)
  unfolding do_deposit_dex_share
  do_deposit_dex_share-shares who lp n s {u} {t} law e =
      after_ensure (is_dex_share_currency_id lp) Error.invalid_currency_id _ s e λ shared h₁.
        after_outside (T.transfer lp who T.account_id n) _ s h₁ λ w _ h₂.
          let w₁ = T.add_share who (PoolId.dex_incentive lp) n w in
          let w₂ = T.add_share who (PoolId.dex_premium lp) n w₁ in
          let same : w₂ ≡ t.world = cc in
          let own = law.add_own who (PoolId.dex_incentive lp) n w in
          let kept =
            law.add_other who (PoolId.dex_premium lp) (PoolId.dex_incentive lp) n w₁ different in
          let own' = law.add_own who (PoolId.dex_premium lp) n w₁ in
          rw (← same) (shared, omega arith, omega arith)
    where
      different : PoolId.dex_incentive lp ≢ PoolId.dex_premium lp
      different f = cc

  -- After a successful deposit a withdrawal of the same amount succeeds, if the transfer back does,
  -- where the rewards pallet adds shares to the pool that it is told.
  pub do_withdraw_dex_share-deposited :
      (who : ℕ) (lp : CurrencyId) (n : ℕ) (s : Incentives W) {u : Unit {0}} {t : Incentives W}
      {w : W}
      → IsKeeping
      → do_deposit_dex_share T who lp n s ≡ ok (u, t)
      → T.transfer lp T.account_id who n t.world ≡ ok w
      → (v : Incentives W) × (do_withdraw_dex_share T who lp n t ≡ ok (tt, v))
  unfolding do_withdraw_dex_share
  do_withdraw_dex_share-deposited who lp n s {u} {t} {w} law e back =
      let (shared, i, p) = do_deposit_dex_share-shares who lp n s law e in
      let enough = both_leb _ _ n i p in
      rw (shared, enough) (_, outside-ok (T.transfer lp T.account_id who n) _ t back)
    where
      both_leb : (x y n : ℕ) → n ≤ x → n ≤ y → (leb n x && leb n y) ≡ true
      both_leb x y n h g = ground arith
