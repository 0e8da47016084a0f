-- ===== src/Incentives/Updates.antt =====
-- What `update_dex_incentive_rewards` and `update_dex_premium_rewards` accept and set.
use setheum.Common.{
  ℕ, ◌≡◌, refl, sym, ◌∙◌, true, List, [], ◌∷◌, ok, All, ◌↔◌, after_ensure, ensure-true,
  if◌then◌else◌, state_eq, update,
}
use setheum.Primitives.Currency.{CurrencyId, currency_beq, is_dex_share_currency_id}
use setheum.Primitives.Order.{currency_eq}
use setheum.Incentives.{Error, Config, Incentives, set_incentives, update_dex_incentive_rewards}

-- The last amount that the updates have for a currency, or the one that it had.
abbrev pub last_of : CurrencyId → List (CurrencyId × ℕ) → ℕ → ℕ
last_of c [] n = n
last_of c ((d, amount) ∷ updates) n = last_of c updates (if currency_beq c d then amount else n)

module _ {O W : Type 0} (T : Config O W) where
  -- The storage with every currency of the updates at its last amount.
  abbrev pub with_incentives : List (CurrencyId × ℕ) → Incentives W → Incentives W
  with_incentives updates s = record s {
    dex_incentive_rewards = λ c. last_of c updates (s.dex_incentive_rewards c);
  }

  abbrev pub with_premiums : List (CurrencyId × ℕ) → Incentives W → Incentives W
  with_premiums updates s = record s {
    dex_premium_rewards = λ c. last_of c updates (s.dex_premium_rewards c);
  }

  set_incentives_iff :
      (updates : List (CurrencyId × ℕ)) (s t : Incentives W)
      → (set_incentives T updates s ≡ ok (tt, t)) ↔ (
          All (λ (c, _). is_dex_share_currency_id c ≡ true) updates
          × (t ≡ with_incentives updates s))
  unfolding set_incentives
  set_incentives_iff [] s t = (λ e. (tt, sym (state_eq e)), λ h. rw h.1 refl)
  set_incentives_iff ((c, amount) ∷ updates) s t =
      let later =
        set_incentives_iff updates
          (record s { dex_incentive_rewards = update s.dex_incentive_rewards c amount }) t in
      (
        λ e.
            after_ensure (is_dex_share_currency_id c) Error.invalid_currency_id _ s e
              λ share h. let (all, same) = later.0 h in ((share, all), same),
        λ h. ensure-true Error.invalid_currency_id _ s h.0.0 ∙ later.1 (h.0.1, h.1),
      )

  -- An update of the incentives succeeds exactly when its origin is permitted and every currency
  -- in it is a share currency, and then every currency has the last amount that the update has
  -- for it, or the one that it had, and nothing else has changed.
  pub update_dex_incentive_rewards_iff :
      (o : O) (updates : List (CurrencyId × ℕ)) (s t : Incentives W)
      → (update_dex_incentive_rewards T o updates s ≡ ok (tt, t)) ↔ (
          (T.update_origin o ≡ true)
          × All (λ (c, _). is_dex_share_currency_id c ≡ true) updates
          × (t ≡ with_incentives updates s))
  unfolding update_dex_incentive_rewards
  update_dex_incentive_rewards_iff o updates s t =
      let loop = set_incentives_iff updates s t in
      (
        λ e.
            after_ensure (T.update_origin o) Error.bad_origin _ s e
              λ allowed h. let (all, same) = loop.0 h in (allowed, all, same),
        λ (allowed, all, same). ensure-true Error.bad_origin _ s allowed ∙ loop.1 (all, same),
      )
