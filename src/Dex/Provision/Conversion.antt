-- ===== src/Dex/Provision/Conversion.antt =====
-- The conversion of a provisioning pair to an enabled one (`convert_to_enabled_if_possible`).
use setheum.Common.{
  ℕ, ◌≤◌, ◌<◌, ◌≡◌, refl, ◌⊎◌, inl, inr, Option, none, some, Result, ok, Bool-cases,
}
use setheum.Primitives.Currency.{CurrencyId, TradingPair, get_dex_share_currency_id}
use setheum.Primitives.Order.{pair_eq}
use setheum.Dex.Types.{TradingPairProvisionParameters, TradingPairStatus, Error, Config, Dex}
use setheum.Dex.Provision.{
  is_ready, enable_with, enable_if_shared, convert_by_status, convert_to_enabled_if_possible,
}

-- The conditions for a conversion, in numbers.
pub record Ready (q : TradingPairProvisionParameters) (now : ℕ) : Type 0 where
  pub on_time : q.not_before ≤ now
  pub left_given : 0 < q.accumulated_provision.0
  pub right_given : 0 < q.accumulated_provision.1
  pub reached :
      (q.target_provision.0 ≤ q.accumulated_provision.0)
      ⊎ (q.target_provision.1 ≤ q.accumulated_provision.1)

module _ {O W : Type 0} (T : Config O W) where
  -- What a conversion of a pair of status `v` may have done.
  abbrev pub Converted : TradingPair → TradingPairStatus → Dex W → Dex W → Type 0
  Converted p v s t =
      (t ≡ s)
      ⊎ ((q : TradingPairProvisionParameters) × (lp : CurrencyId) × (v
            ≡ TradingPairStatus.provisioning q)
          × (get_dex_share_currency_id p ≡ some lp)
          × (t ≡ enable_with T p q lp s))

  enable_if_shared-Converted :
      (p : TradingPair) (q : TradingPairProvisionParameters) (o : Option CurrencyId) (s : Dex W)
      {u : Unit {0}} {t : Dex W}
      → get_dex_share_currency_id p ≡ o
      → enable_if_shared T p q o s ≡ ok (u, t)
      → Converted p (TradingPairStatus.provisioning q) s t
  unfolding enable_if_shared
  enable_if_shared-Converted p q none s f e = absurd (cc)
  enable_if_shared-Converted p q (some lp) s f e = inr (q, lp, refl, f, cc)

  convert_by_status-Converted :
      (p : TradingPair) (v : TradingPairStatus) (s : Dex W) {u : Unit {0}} {t : Dex W}
      → convert_by_status T p v s ≡ ok (u, t)
      → Converted p v s t
  unfolding convert_by_status
  convert_by_status-Converted p TradingPairStatus.not_enabled s e = inl (cc)
  convert_by_status-Converted p TradingPairStatus.enabled s e = inl (cc)
  convert_by_status-Converted p (TradingPairStatus.provisioning q) s e =
      elim (Bool-cases (is_ready q (T.block_number s.world))) [
        | inl r ↦
            enable_if_shared-Converted p q (get_dex_share_currency_id p) s refl
              (rw (r, convert_by_status) at e)
        | inr r ↦ inl (same (rw (r, convert_by_status) at e))
      ]
    where
      same :
          {u : Unit {0}} {t : Dex W}
          → ◌≡◌ {A = Result Error (Unit {0} × Dex W)} (ok (tt, s)) (ok (u, t))
          → t ≡ s
      same h = cc

  pub convert_to_enabled-Converted :
      (p : TradingPair) (s : Dex W) {u : Unit {0}} {t : Dex W}
      → convert_to_enabled_if_possible T p s ≡ ok (u, t)
      → Converted p (s.trading_pair_statuses p) s t
  unfolding convert_to_enabled_if_possible
  convert_to_enabled-Converted p s e = convert_by_status-Converted p (s.trading_pair_statuses p) s e
