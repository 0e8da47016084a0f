-- ===== src/Dex/Calls/Refunds.antt =====
-- Disabling a provisioning pair gives every account its contributions back.
use setheum.Common.{
  ℕ, ◌+◌, ◌≡◌, ◌≢◌, refl, sym, ap, subst, ◌∙◌, inl, inr, true, false, some, List, [], ◌∷◌, ok,
  arith, Bool-cases, ◌==◌, ==_iff, if◌then◌else◌, after_ensure, after_action,
}
use setheum.Primitives.Currency.{CurrencyId, TradingPair, from_token_currency_ids}
use setheum.Primitives.Order.{pair_eq}
use setheum.Dex.Types.{
  Balances, TradingPairProvisionParameters, TradingPairStatus, Error, Config, Dex,
}
use setheum.Dex.Steps.{after_outside}
use setheum.Dex.Calls.{refund_all, disable_by_status, disable_trading_pair}

-- The sum of the contributions of one account.
abbrev pub contributed : ℕ → List (ℕ × Balances) → Balances
contributed k [] = (0, 0)
contributed k ((j, c) ∷ l) =
    let rest = contributed k l in if j == k then (c.0 + rest.0, c.1 + rest.1) else rest

module _ {O W : Type 0} (T : Config O W) (balance : CurrencyId → ℕ → W → ℕ) where
  -- `balance` is what an account has: a transfer adds to that of its receiver and changes that of
  -- no account but the two, in no other currency; references change none.
  pub record IsLedger : Type 0 where
    pub received :
        (c : CurrencyId) (from to n : ℕ) (w : W) {w' : W}
        → T.transfer c from to n w ≡ ok w'
        → from ≢ to
        → balance c to w' ≡ balance c to w + n
    pub other_account :
        (c : CurrencyId) (from to n k : ℕ) (w : W) {w' : W}
        → T.transfer c from to n w ≡ ok w'
        → k ≢ from
        → k ≢ to
        → balance c k w' ≡ balance c k w
    pub other_currency :
        (c d : CurrencyId) (from to n k : ℕ) (w : W) {w' : W}
        → T.transfer c from to n w ≡ ok w'
        → d ≢ c
        → balance d k w' ≡ balance d k w
    pub counted :
        (c : CurrencyId) (k who : ℕ) (w : W) → balance c k (T.dec_consumers who w) ≡ balance c k w

  module _ (law : IsLedger) (p : TradingPair) (apart : p.left ≢ p.right) (k : ℕ)
      (outside_account : k ≢ T.account_id) where
    -- One refund, to `k` or to another account.
    one_refund :
        (who : ℕ) (c : Balances) (w : W) {w₁ w₂ : W}
        → T.transfer p.left T.account_id who c.0 w ≡ ok w₁
        → T.transfer p.right T.account_id who c.1 w₁ ≡ ok w₂
        → let w₃ = T.dec_consumers who w₂ in
          let back : Balances = if who == k then c else (0, 0) in
          (balance p.left k w₃ ≡ balance p.left k w + back.0)
          × (balance p.right k w₃ ≡ balance p.right k w + back.1)
    one_refund who c w {w₁} {w₂} e f =
        let l₃ = law.counted p.left k who w₂ in
        let r₃ = law.counted p.right k who w₂ in
        let l₂ = law.other_currency p.right p.left T.account_id who c.1 k w₁ f apart in
        let r₁ =
          law.other_currency p.left p.right T.account_id who c.0 k w e (λ q. apart (sym q)) in
        elim (Bool-cases (who == k)) [
          | inl b ↦
              let same = (==_iff who k).0 b in
              let ne : T.account_id ≢ k = λ q. outside_account (sym q) in
              let l₁ =
                law.received p.left T.account_id k c.0 w
                  (subst (λ j. T.transfer p.left T.account_id j c.0 w ≡ ok w₁) same e) ne in
              let r₂ =
                law.received p.right T.account_id k c.1 w₁
                  (subst (λ j. T.transfer p.right T.account_id j c.1 w₁ ≡ ok w₂) same f) ne in
              rw b (l₃ ∙ l₂ ∙ l₁, r₃ ∙ r₂ ∙ ap (λ n. n + c.1) r₁)
          | inr b ↦
              let ne : k ≢ who = λ q. different (sym b ∙ (==_iff who k).1 (sym q)) in
              let l₁ = law.other_account p.left T.account_id who c.0 k w e outside_account ne in
              let r₂ = law.other_account p.right T.account_id who c.1 k w₁ f outside_account ne in
              rw b (l₃ ∙ l₂ ∙ l₁ ∙ omega arith, r₃ ∙ r₂ ∙ r₁ ∙ omega arith)
        ]
      where
        different : false ≡ true → ⊥
        different q = cc

    contributed_step :
        (who : ℕ) (c : Balances) (l : List (ℕ × Balances))
        → let back : Balances = if who == k then c else (0, 0) in
          let all = contributed k ((who, c) ∷ l) in
          (all.0 ≡ back.0 + (contributed k l).0) × (all.1 ≡ back.1 + (contributed k l).1)
    contributed_step who c l = elim (Bool-cases (who == k)) [
      | inl b ↦ rw b (refl, refl)
      | inr b ↦ rw b (omega arith, omega arith)
    ]

    sum_eq : (x y z a b c : ℕ) → y ≡ x + a → z ≡ y + b → c ≡ a + b → z ≡ x + c
    sum_eq x y z a b c e f g = omega arith

    refund_all-contributed :
        (l : List (ℕ × Balances)) (s : Dex W) {u : Unit {0}} {t : Dex W}
        → refund_all T p l s ≡ ok (u, t)
        → (balance p.left k t.world ≡ balance p.left k s.world + (contributed k l).0)
          × (balance p.right k t.world ≡ balance p.right k s.world + (contributed k l).1)
    unfolding refund_all
    refund_all-contributed [] s {u} {t} e =
        let same : s ≡ t = cc in
        subst
          (λ (t : Dex W).
            (balance p.left k t.world ≡ balance p.left k s.world + 0)
            × (balance p.right k t.world ≡ balance p.right k s.world + 0))
          same (omega arith, omega arith)
    refund_all-contributed ((who, c) ∷ l) s {u} {t} e =
        after_outside (T.transfer p.left T.account_id who c.0) _ s e λ w₁ e₁ h₁.
          after_outside (T.transfer p.right T.account_id who c.1) _ (record s { world = w₁ }) h₁
            λ w₂ e₂ h₂.
              let (x, y) = one_refund who c s.world e₁ e₂ in
              let (v, w) =
                refund_all-contributed l (record s { world = T.dec_consumers who w₂ }) h₂ in
              let (f, g) = contributed_step who c l in
              (sum_eq _ _ _ _ _ _ x v f, sum_eq _ _ _ _ _ _ y w g)

    -- Disabling a provisioning pair of two different currencies gives every account other than that
    -- of the dex back, in both currencies, exactly the contributions that are recorded for it, where
    -- transfers keep a ledger.
    pub disable_trading_pair-contributed :
        (o : O) (a b : CurrencyId) (q : TradingPairProvisionParameters) (s : Dex W) {u : Unit {0}}
        {t : Dex W}
        → from_token_currency_ids a b ≡ some p
        → s.trading_pair_statuses p ≡ TradingPairStatus.provisioning q
        → disable_trading_pair T o a b s ≡ ok (u, t)
        → let given = contributed k (s.provisioning_pool p) in
          (balance p.left k t.world ≡ balance p.left k s.world + given.0)
          × (balance p.right k t.world ≡ balance p.right k s.world + given.1)
    unfolding disable_trading_pair disable_by_status
    disable_trading_pair-contributed o a b q s {u} {t} pair was e =
        after_ensure (T.listing_origin o) Error.bad_origin _ s e
          λ _ h₁. by_pair (rw (pair, was, disable_by_status) at h₁)
      where
        by_pair :
            disable_by_status T p (TradingPairStatus.provisioning q) s ≡ ok (u, t)
            → (let given = contributed k (s.provisioning_pool p) in
                (balance p.left k t.world ≡ balance p.left k s.world + given.0)
                × (balance p.right k t.world ≡ balance p.right k s.world + given.1))
        by_pair h = after_action (refund_all T p (s.provisioning_pool p)) _ s h λ _ m paid g.
            let same : m.world ≡ t.world = cc in
            rw (← same) (refund_all-contributed (s.provisioning_pool p) s paid)
