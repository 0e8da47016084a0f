-- ===== src/Dex/Calls/Switches.antt =====
-- What `enable_trading_pair`, `disable_trading_pair`, `add_liquidity` and the other calls do to
-- the status and the provisions of a pair.
use setheum.Common.{
  ℕ, ◌≡◌, refl, sym, ap, subst, ◌∙◌, inl, inr, Bool, true, false, none, List, [], Result, ok,
  Bool-cases, is_zero, update, after_ensure, after_ok_or, after_action, ==_iff,
}
use setheum.Primitives.Currency.{CurrencyId, TradingPair, from_token_currency_ids}
use setheum.Primitives.Order.{pair_eq}
use setheum.Dex.Types.{TradingPairStatus, Error, Event, Config, Dex, is_not_enabled, deposit_event}
use setheum.Dex.Route.{do_swap_with_exact_supply, do_swap_with_exact_target}
use setheum.Dex.Route.Settled.{do_swap_with_exact_supply-Settled, do_swap_with_exact_target-Settled}
use setheum.Dex.Liquidity.{do_remove_liquidity}
use setheum.Dex.Liquidity.Removal.{do_remove_liquidity-Removed}
use setheum.Dex.Provision.{set_status, set_provisions}
use setheum.Dex.Calls.{
  swap_with_exact_supply, swap_with_exact_target, remove_liquidity, enable_trading_pair, refund_all,
  disable_by_status, disable_trading_pair,
}
use setheum.Dex.Calls.Changes.{
  Change, ChangeAt, frame-ChangeAt, one-ChangeAt, status_only, both_set, OnlyWorld,
  is_not_enabled-true, refund_all-OnlyWorld,
}

module _ {O W : Type 0} (T : Config O W) where
  pub enable_trading_pair-ChangeAt :
      (o : O) (a b : CurrencyId) (s : Dex W) {u : Unit {0}} {t : Dex W}
      → enable_trading_pair T o a b s ≡ ok (u, t)
      → (p : TradingPair) → ChangeAt s t p
  unfolding enable_trading_pair
  enable_trading_pair-ChangeAt o a b s {u} {t} e =
      after_ensure (T.listing_origin o) Error.bad_origin _ s e λ _ h₁.
        after_ok_or (from_token_currency_ids a b) Error.invalid_currency_id _ s h₁ λ p _ h₂.
          after_ensure (is_not_enabled (s.trading_pair_statuses p)) Error.must_be_not_enabled _ s h₂
            λ closed h₃.
              let (same, now, same_l) = status_only s t p TradingPairStatus.enabled (cc) (cc) in
              one-ChangeAt s t p same
                (Change.enabled (is_not_enabled-true (s.trading_pair_statuses p) closed) now same_l)

  disable_by_status-ChangeAt :
      (p : TradingPair) (v : TradingPairStatus) (s : Dex W) {u : Unit {0}} {t : Dex W}
      → s.trading_pair_statuses p ≡ v
      → disable_by_status T p v s ≡ ok (u, t)
      → (r : TradingPair) → ChangeAt s t r
  unfolding disable_by_status
  disable_by_status-ChangeAt p TradingPairStatus.not_enabled s was e = absurd (cc)
  disable_by_status-ChangeAt p TradingPairStatus.enabled s {u} {t} was e =
      let (same, now, same_l) = status_only s t p TradingPairStatus.not_enabled (cc) (cc) in
      one-ChangeAt s t p same (Change.disabled was now same_l)
  disable_by_status-ChangeAt p (TradingPairStatus.provisioning q) s {u} {t} was e =
      after_action (refund_all T p (s.provisioning_pool p)) _ s e
        λ _ m only h. emptied m (refund_all-OnlyWorld T p (s.provisioning_pool p) s only) h
    where
      emptied :
          (m : Dex W)
          → OnlyWorld s m
          → ◌≡◌ {A = Result Error (Unit {0} × Dex W)}
              (deposit_event
                (Event.disable_trading_pair p)
                (set_status p TradingPairStatus.not_enabled (set_provisions p [] m)))
              (ok (u, t))
          → (r : TradingPair) → ChangeAt s t r
      emptied m (w, em) h =
          let eq : record (set_status p TradingPairStatus.not_enabled (set_provisions p [] m)) {
            events = t.events;
          }
              ≡ t =
            cc in
          let (same, now, now_l) =
            both_set s t p TradingPairStatus.not_enabled []
              (sym (ap (λ (x : Dex W). x.trading_pair_statuses) eq)
                ∙ ap (λ (x : Dex W). update x.trading_pair_statuses p TradingPairStatus.not_enabled)
                    (sym em))
              (sym (ap (λ (x : Dex W). x.provisioning_pool) eq)
                ∙ ap (λ (x : Dex W). update x.provisioning_pool p []) (sym em)) in
          one-ChangeAt s t p same (Change.refunded q was now now_l)

  pub disable_trading_pair-ChangeAt :
      (o : O) (a b : CurrencyId) (s : Dex W) {u : Unit {0}} {t : Dex W}
      → disable_trading_pair T o a b s ≡ ok (u, t)
      → (p : TradingPair) → ChangeAt s t p
  unfolding disable_trading_pair
  disable_trading_pair-ChangeAt o a b s {u} {t} e =
      after_ensure (T.listing_origin o) Error.bad_origin _ s e λ _ h₁.
        after_ok_or (from_token_currency_ids a b) Error.invalid_currency_id _ s h₁
          λ p _ h₂. disable_by_status-ChangeAt p (s.trading_pair_statuses p) s refl h₂

  pub swap_with_exact_supply-ChangeAt :
      (o : O) (path : List CurrencyId) (x least : ℕ) (s : Dex W) {u : Unit {0}} {t : Dex W}
      → swap_with_exact_supply T o path x least s ≡ ok (u, t)
      → (p : TradingPair) → ChangeAt s t p
  unfolding swap_with_exact_supply
  swap_with_exact_supply-ChangeAt o path x least s {u} {t} e =
      after_ok_or (T.ensure_signed o) Error.bad_origin _ s e λ who _ h₁.
        after_action (do_swap_with_exact_supply T who path x least none) _ s h₁ λ y m done h₂.
          let (_, _, _, _, _, _, settled) =
            do_swap_with_exact_supply-Settled T who path x least none s done in
          let same : m ≡ t = cc in
          subst (λ (t : Dex W). (p : TradingPair) → ChangeAt s t p) same
            (frame-ChangeAt settled.frame)

  pub swap_with_exact_target-ChangeAt :
      (o : O) (path : List CurrencyId) (y most : ℕ) (s : Dex W) {u : Unit {0}} {t : Dex W}
      → swap_with_exact_target T o path y most s ≡ ok (u, t)
      → (p : TradingPair) → ChangeAt s t p
  unfolding swap_with_exact_target
  swap_with_exact_target-ChangeAt o path y most s {u} {t} e =
      after_ok_or (T.ensure_signed o) Error.bad_origin _ s e λ who _ h₁.
        after_action (do_swap_with_exact_target T who path y most none) _ s h₁ λ x m done h₂.
          let (_, _, _, _, _, _, settled) =
            do_swap_with_exact_target-Settled T who path y most none s done in
          let same : m ≡ t = cc in
          subst (λ (t : Dex W). (p : TradingPair) → ChangeAt s t p) same
            (frame-ChangeAt settled.frame)

  pub remove_liquidity-ChangeAt :
      (o : O) (a b : CurrencyId) (x least_a least_b : ℕ) (withdrawn : Bool) (s : Dex W)
      {u : Unit {0}} {t : Dex W}
      → remove_liquidity T o a b x least_a least_b withdrawn s ≡ ok (u, t)
      → (p : TradingPair) → ChangeAt s t p
  unfolding remove_liquidity do_remove_liquidity
  remove_liquidity-ChangeAt o a b x least_a least_b withdrawn s {u} {t} e =
      after_ok_or (T.ensure_signed o) Error.bad_origin _ s e λ who _ h₁.
        elim (Bool-cases (is_zero x)) [
          | inl z ↦ nothing (rw (z, do_remove_liquidity) at h₁)
          | inr z ↦
              let (_, _, _, done) =
                do_remove_liquidity-Removed T who a b x least_a least_b withdrawn s
                  (λ q. different (sym z ∙ (==_iff x 0).1 q)) h₁ in
              frame-ChangeAt done.frame
        ]
    where
      different : false ≡ true → ⊥
      different f = cc

      nothing :
          ◌≡◌ {A = Result Error (Unit {0} × Dex W)} (ok (tt, s)) (ok (u, t))
          → (p : TradingPair) → ChangeAt s t p
      nothing h =
          let same : s ≡ t = cc in
          subst (λ (t : Dex W). (p : TradingPair) → ChangeAt s t p) same
            (λ p. Change.unchanged refl refl)
