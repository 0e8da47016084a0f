-- ===== src/Incentives/Rewards.antt =====
-- What `accumulate_reward` reports is what it has issued.
use setheum.Common.{
  ℕ, ◌+◌, ◌%◌, ◌≤◌, ◌≡◌, ◌≢◌, refl, sym, ap, ◌∙◌, inl, inr, true, false, List, [], ◌∷◌, Result, ok,
  err, arith, min, u128_max, is_zero, Bool-cases, saturating_add,
}
use setheum.Primitives.Currency.{CurrencyId}
use setheum.Incentives.{
  PoolId, Error, Config, Incentives, Accumulated, accumulate_pool, accumulate_pools, push_reward,
  accumulate_reward,
}

carried : (n k : ℕ) → n ≡ min (0 + k) u128_max → n ≡ min k u128_max
carried n k e = omega arith

module _ {O W : Type 0} (T : Config O W) (callback : PoolId → ℕ → W → W)
    (issued : CurrencyId → W → ℕ) where
  -- `issued` is the issuance of a currency: a deposit adds to that of its currency, and the
  -- rewards pallet changes none.
  pub record IsIssuance : Type 0 where
    pub deposit_own :
        (c : CurrencyId) (who n : ℕ) (w : W) {w' : W}
        → T.deposit c who n w ≡ ok w'
        → issued c w' ≡ issued c w + n
    pub deposit_other :
        (c d : CurrencyId) (who n : ℕ) (w : W) {w' : W}
        → d ≢ c
        → T.deposit c who n w ≡ ok w'
        → issued d w' ≡ issued d w
    pub callback_none :
        (d : CurrencyId) (p : PoolId) (n : ℕ) (w : W) → issued d (callback p n w) ≡ issued d w

  -- From `a` to `b` the issuance and what is carried have grown alike, up to `u128::MAX`.
  pub record Grown (a b : Accumulated W) : Type 0 where
    pub incentives : ℕ
    pub premiums : ℕ
    pub incentive_issued :
        issued T.incentive_currency_id b.world ≡ issued T.incentive_currency_id a.world + incentives
    pub premium_issued :
        issued T.premium_currency_id b.world ≡ issued T.premium_currency_id a.world + premiums
    pub incentive_carried : b.incentive ≡ min (a.incentive + incentives) u128_max
    pub premium_carried : b.premium ≡ min (a.premium + premiums) u128_max

  -- What is carried is a `u128`.
  abbrev pub Fits : Accumulated W → Type 0
  Fits a = (a.incentive ≤ u128_max) × (a.premium ≤ u128_max)

  none-Grown : (a : Accumulated W) → Fits a → Grown a a
  none-Grown a (h, g) = record {
    incentives = 0;
    premiums = 0;
    incentive_issued = omega arith;
    premium_issued = omega arith;
    incentive_carried = omega arith;
    premium_carried = omega arith;
  }

  Grown-Fits : (a b : Accumulated W) → Grown a b → Fits b
  Grown-Fits a b g =
      let e = g.incentive_carried in let f = g.premium_carried in (omega arith, omega arith)

  both-Grown : (a b c : Accumulated W) → Grown a b → Grown b c → Grown a c
  both-Grown a b c g h =
      let e₁ = g.incentive_issued in
      let e₂ = g.premium_issued in
      let e₃ = g.incentive_carried in
      let e₄ = g.premium_carried in
      let f₁ = h.incentive_issued in
      let f₂ = h.premium_issued in
      let f₃ = h.incentive_carried in
      let f₄ = h.premium_carried in
      record {
        incentives = g.incentives + h.incentives;
        premiums = g.premiums + h.premiums;
        incentive_issued = omega arith;
        premium_issued = omega arith;
        incentive_carried = omega arith;
        premium_carried = omega arith;
      }

  module _ (law : IsIssuance) (apart : T.incentive_currency_id ≢ T.premium_currency_id) where
    accumulate_pool-Grown :
        (s : Incentives W) (pool : PoolId × ℕ) (a : Accumulated W)
        → Fits a
        → Grown a (accumulate_pool T callback s pool a)
    unfolding accumulate_pool
    accumulate_pool-Grown s (PoolId.dex_incentive c, shares) a (h, g) =
        elim (Bool-cases (is_zero shares)) [
          | inl z ↦ rw z (none-Grown a (h, g))
          | inr z ↦ elim (Bool-cases (is_zero (s.dex_incentive_rewards c))) [
            | inl y ↦ rw (z, y) (none-Grown a (h, g))
            | inr y ↦
                rw (z, y)
                  (by_result
                    (T.deposit T.incentive_currency_id T.dex_incentive_pool
                      (s.dex_incentive_rewards c) a.world)
                    refl)
          ]
        ]
      where
        by_result :
            (r : Result ℕ W)
            → T.deposit T.incentive_currency_id T.dex_incentive_pool
                (s.dex_incentive_rewards c)
                a.world
              ≡ r
            → Grown a (elim r [
              | err _ ↦ a
              | ok w ↦ record a {
                incentive = saturating_add a.incentive (s.dex_incentive_rewards c);
                world = callback (PoolId.dex_incentive c) (s.dex_incentive_rewards c) w;
              }
            ])
        by_result (err x) e = none-Grown a (h, g)
        by_result (ok w) e = record {
          incentives = s.dex_incentive_rewards c;
          premiums = 0;
          incentive_issued = law.callback_none _ _ _ w ∙ law.deposit_own _ _ _ a.world e;
          premium_issued =
              law.callback_none _ _ _ w
              ∙ law.deposit_other _ _ _ _ a.world (λ f. apart (sym f)) e
              ∙ omega arith;
          incentive_carried = refl;
          premium_carried = omega arith;
        }
    accumulate_pool-Grown s (PoolId.dex_premium c, shares) a (h, g) =
        elim (Bool-cases (is_zero shares)) [
          | inl z ↦ rw z (none-Grown a (h, g))
          | inr z ↦ elim (Bool-cases (is_zero (s.dex_premium_rewards c))) [
            | inl y ↦ rw (z, y) (none-Grown a (h, g))
            | inr y ↦
                rw (z, y)
                  (by_result
                    (T.deposit T.premium_currency_id T.dex_premium_pool (s.dex_premium_rewards c)
                      a.world)
                    refl)
          ]
        ]
      where
        by_result :
            (r : Result ℕ W)
            → T.deposit T.premium_currency_id T.dex_premium_pool (s.dex_premium_rewards c) a.world
              ≡ r
            → Grown a (elim r [
              | err _ ↦ a
              | ok w ↦ record a {
                premium = saturating_add a.premium (s.dex_premium_rewards c);
                world = callback (PoolId.dex_premium c) (s.dex_premium_rewards c) w;
              }
            ])
        by_result (err x) e = none-Grown a (h, g)
        by_result (ok w) e = record {
          incentives = 0;
          premiums = s.dex_premium_rewards c;
          incentive_issued =
              law.callback_none _ _ _ w ∙ law.deposit_other _ _ _ _ a.world apart e ∙ omega arith;
          premium_issued = law.callback_none _ _ _ w ∙ law.deposit_own _ _ _ a.world e;
          incentive_carried = omega arith;
          premium_carried = refl;
        }

    accumulate_pools-Grown :
        (s : Incentives W) (pools : List (PoolId × ℕ)) (a : Accumulated W)
        → Fits a
        → Grown a (accumulate_pools T callback s pools a)
    unfolding accumulate_pools
    accumulate_pools-Grown s [] a h = none-Grown a h
    accumulate_pools-Grown s (pool ∷ pools) a h =
        let b = accumulate_pool T callback s pool a in
        let one = accumulate_pool-Grown s pool a h in
        both-Grown a b (accumulate_pools T callback s pools b) one
          (accumulate_pools-Grown s pools b (Grown-Fits a b one))

    -- When a period ends, the pallet reports for each of its two currencies, which differ, what it
    -- has issued meanwhile, up to `u128::MAX`, and nothing for a currency of which it has issued
    -- nothing, if deposits issue what they are told; deposits that fail are in neither. Nothing but
    -- the runtime around the pallet changes.
    pub accumulate_reward-issued :
        (now : ℕ) (s : Incentives W)
        → s.accumulate_period ≢ 0
        → now % s.accumulate_period ≡ 0
        → (t : Incentives W) × (i p : ℕ) × (accumulate_reward T callback now s
            ≡ ok (
              push_reward T callback T.premium_currency_id
                  (min p u128_max)
                  (push_reward T callback T.incentive_currency_id (min i u128_max) []),
              t,
            ))
          × (issued T.incentive_currency_id t.world ≡ issued T.incentive_currency_id s.world + i)
          × (issued T.premium_currency_id t.world ≡ issued T.premium_currency_id s.world + p)
          × (t ≡ record s { world = t.world })
    unfolding accumulate_reward
    accumulate_reward-issued now s ne due =
        let start : Accumulated W = record { incentive = 0; premium = 0; world = s.world } in
        let all = accumulate_pools T callback s (T.pools s.world) start in
        let g = accumulate_pools-Grown s (T.pools s.world) start (omega arith, omega arith) in
        let on : is_zero s.accumulate_period ≡ false = ground arith in
        let now_due : is_zero (now % s.accumulate_period) ≡ true = rw due refl in
        let report : (ℕ × ℕ) → Result Error (List (CurrencyId × ℕ) × Incentives W) = λ v. ok (
          push_reward T callback T.premium_currency_id v.1
              (push_reward T callback T.incentive_currency_id v.0 []),
          record s { world = all.world },
        ) in
        let same : ◌≡◌ {A = ℕ × ℕ} (all.incentive, all.premium)
            (min g.incentives u128_max, min g.premiums u128_max) =
          λ i. (carried _ _ (g.incentive_carried) i, carried _ _ (g.premium_carried) i) in
        (
          record s { world = all.world },
          g.incentives,
          g.premiums,
          rw (on, now_due) (ap report same),
          g.incentive_issued,
          g.premium_issued,
          refl,
        )
