-- ===== src/Dex/Provision/Effects.antt =====
-- What a successful `do_add_provision` has done, and what a conversion does.
use setheum.Common.{
  lookup, insert, ℕ, ◌≤◌, ◌≡◌, refl, ap, ◌⊎◌, Bool, true, false, ◌||◌, [], ◌∷◌, ◌++◌, Result, ok,
  err, arith, leb, update,
}
use setheum.Primitives.Currency.{TradingPair}
use setheum.Primitives.Order.{pair_eq}
use setheum.Dex.Types.{
  Balances, TradingPairProvisionParameters, TradingPairStatus, Error, Event, Config, Dex,
}
use setheum.Dex.Steps.{after_ensure, after_outside}
use setheum.Dex.Provision.{add_balances, or_zero, is_some, count_consumer, provide}
use setheum.Dex.Liquidity.Effects.{◌⨾◌}

module _ {O W : Type 0} (T : Config O W) where
  -- From `s` to `t`, `who` has put `c` into the provision of `p`.
  pub record Provided (who : ℕ) (p : TradingPair) (q : TradingPairProvisionParameters)
      (c : Balances) (s t : Dex W) : Type 0 where
    pub enough : (q.min_contribution.0 ≤ c.0) ⊎ (q.min_contribution.1 ≤ c.1)
    pub between : W
    pub paid :
        (T.transfer p.left who T.account_id c.0 s.world ⨾ T.transfer p.right who T.account_id c.1)
        ≡ ok between
    pub counted :
        t.world
        ≡ (count_consumer T
            (is_some (lookup who (s.provisioning_pool p)))
            who
            (record s { world = between })).world
    pub statuses :
        t.trading_pair_statuses
        ≡ update s.trading_pair_statuses p (
            TradingPairStatus.provisioning
              (record q { accumulated_provision = add_balances q.accumulated_provision c }))
    pub provisions :
        t.provisioning_pool
        ≡ update s.provisioning_pool p (
            insert who
              (add_balances (or_zero (lookup who (s.provisioning_pool p))) c)
              (s.provisioning_pool p))
    pub pools : t.liquidity_pool ≡ s.liquidity_pool

  either_le : (a b c d : ℕ) → (leb a b || leb c d) ≡ true → (a ≤ b) ⊎ (c ≤ d)
  either_le a b c d e = ground arith

  count_consumer_lem :
      (b : Bool) (who : ℕ) (s : Dex W)
      → count_consumer T b who s ≡ record s { world = (count_consumer T b who s).world }
  count_consumer_lem true who s = refl
  count_consumer_lem false who s = by_result (T.inc_consumers who s.world)
    where
      by_result :
          (r : Result ℕ W)
          → let after : Dex W = elim r [ ok w ↦ record s { world = w } | err _ ↦ s ] in
            after ≡ record s { world = after.world }
      by_result (ok w) = refl
      by_result (err e) = refl

  make-Provided :
      (who : ℕ) (p : TradingPair) (q : TradingPairProvisionParameters) (c : Balances) (s : Dex W)
      {w₁ w₂ : W} {t : Dex W}
      → (leb q.min_contribution.0 c.0 || leb q.min_contribution.1 c.1) ≡ true
      → T.transfer p.left who T.account_id c.0 s.world ≡ ok w₁
      → T.transfer p.right who T.account_id c.1 w₁ ≡ ok w₂
      → let old = lookup who (s.provisioning_pool p) in
        let u = count_consumer T (is_some old) who (record s { world = w₂ }) in
        t ≡ record u {
          trading_pair_statuses = update u.trading_pair_statuses p (
              TradingPairStatus.provisioning
                (record q { accumulated_provision = add_balances q.accumulated_provision c }));
          events = u.events ++ (Event.add_provision who p.left c.0 p.right c.1 ∷ []);
          provisioning_pool =
              update u.provisioning_pool p
                (insert who (add_balances (or_zero old) c) (u.provisioning_pool p));
        }
        → Provided who p q c s t
  make-Provided who p q c s {w₁} {w₂} {t} e c₁ c₂ eq =
      let old = lookup who (s.provisioning_pool p) in
      let u = count_consumer T (is_some old) who (record s { world = w₂ }) in
      let same = count_consumer_lem (is_some old) who (record s { world = w₂ }) in
      rw eq (record {
        enough = either_le q.min_contribution.0 c.0 q.min_contribution.1 c.1 e;
        between = w₂;
        paid = rw (c₁, ◌⨾◌) c₂;
        counted = refl;
        statuses =
            ap
              (λ v. update (v.trading_pair_statuses) p (
                TradingPairStatus.provisioning
                  (record q { accumulated_provision = add_balances q.accumulated_provision c })))
              same;
        provisions =
            ap
              (λ v.
                update (v.provisioning_pool) p
                  (insert who (add_balances (or_zero old) c) (v.provisioning_pool p)))
              same;
        pools = ap (λ v. v.liquidity_pool) same;
      })

  pub provide-Provided :
      (who : ℕ) (p : TradingPair) (q : TradingPairProvisionParameters) (c : Balances) (s : Dex W)
      {v : Unit {0}} {t : Dex W}
      → provide T who p q c s ≡ ok (v, t)
      → Provided who p q c s t
  unfolding provide
  provide-Provided who p q c s {v} {t} e =
      after_ensure (leb q.min_contribution.0 c.0 || leb q.min_contribution.1 c.1)
        Error.invalid_contribution_increment _ s e
        λ e₁ h₁. after_outside (T.transfer p.left who T.account_id c.0) _ s h₁ λ w₁ c₁ h₂.
          after_outside (T.transfer p.right who T.account_id c.1) _ (record s { world = w₁ }) h₂
            λ w₂ c₂ h₃. make-Provided who p q c s e₁ c₁ c₂ (cc)
