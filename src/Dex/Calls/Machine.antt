-- ===== src/Dex/Calls/Machine.antt =====
-- All calls of the dex as one step, and what every sequence of calls does to the pairs.
use setheum.Common.{
  ℕ, ◌≡◌, refl, sym, ap, subst, ◌∙◌, inl, inr, Bool, some, List, [], Result, ok, after_ok_or,
  after_action,
}
use setheum.Primitives.Currency.{CurrencyId, TradingPair, new_pair, from_token_currency_ids}
use setheum.Primitives.Order.{pair_eq}
use setheum.Primitives.Pairs.{from_token_currency_ids-eq_some}
use setheum.Dex.Types.{
  Balances, TradingPairProvisionParameters, TradingPairStatus, Error, Config, Dex,
}
use setheum.Dex.Price.{in_order}
use setheum.Dex.Liquidity.Effects.{do_add_liquidity-Added}
use setheum.Dex.Provision.{do_add_provision, enable_with}
use setheum.Dex.Provision.Effects.{Provided, provide-Provided}
use setheum.Dex.Provision.Conversion.{Converted, convert_to_enabled-Converted}
use setheum.Dex.Calls.{
  swap_with_exact_supply, swap_with_exact_target, add_by_status, add_liquidity, remove_liquidity,
  list_trading_pair, enable_trading_pair, disable_trading_pair,
}
use setheum.Dex.Calls.Changes.{
  Change, ChangeAt, frame-ChangeAt, one-ChangeAt, both_set, list_trading_pair-ChangeAt,
}
use setheum.Dex.Calls.Switches.{
  enable_trading_pair-ChangeAt, disable_trading_pair-ChangeAt, swap_with_exact_supply-ChangeAt,
  swap_with_exact_target-ChangeAt, remove_liquidity-ChangeAt,
}

module _ {O W : Type 0} (T : Config O W) where
  -- A provision, and the conversion that follows it.
  Provided-then-Converted :
      (who : ℕ) (p : TradingPair) (q : TradingPairProvisionParameters) (c : Balances)
      (s m t : Dex W)
      → s.trading_pair_statuses p ≡ TradingPairStatus.provisioning q
      → Provided T who p q c s m
      → Converted T p (m.trading_pair_statuses p) m t
      → (r : TradingPair) → ChangeAt s t r
  unfolding enable_with
  Provided-then-Converted who p q c s m t was done conv =
      let (same, now, now_l) = both_set s m p _ _ done.statuses done.provisions in
      elim conv [
        | inl e ↦
            subst (λ (t : Dex W). (r : TradingPair) → ChangeAt s t r) (sym e)
              (one-ChangeAt s m p same (Change.contributed q who c was now now_l))
        | inr (q', lp, _, _, e) ↦
            let (same', on, empty) =
              both_set m t p TradingPairStatus.enabled []
                (ap (λ (x : Dex W). x.trading_pair_statuses) e)
                (ap (λ (x : Dex W). x.provisioning_pool) e) in
            one-ChangeAt s t p
              (λ r ne. ((same' r ne).0 ∙ (same r ne).0, (same' r ne).1 ∙ (same r ne).1))
              (Change.converted q was on empty)
      ]

  add_by_status-ChangeAt :
      (p : TradingPair) (v : TradingPairStatus) (who : ℕ) (a b : CurrencyId) (x y least : ℕ)
      (deposited : Bool) (s : Dex W) {u : Unit {0}} {t : Dex W}
      → from_token_currency_ids a b ≡ some p
      → s.trading_pair_statuses p ≡ v
      → add_by_status T p v who a b x y least deposited s ≡ ok (u, t)
      → (r : TradingPair) → ChangeAt s t r
  unfolding add_by_status do_add_provision
  add_by_status-ChangeAt p TradingPairStatus.not_enabled who a b x y least deposited s pair was e =
      absurd (cc)
  add_by_status-ChangeAt p TradingPairStatus.enabled who a b x y least deposited s pair was e =
      let (_, added) = do_add_liquidity-Added T who a b x y least deposited s e in
      frame-ChangeAt added.frame
  add_by_status-ChangeAt p (TradingPairStatus.provisioning q) who a b x y least deposited s {u} {t}
        pair was e =
      after_action (do_add_provision T who a b x y) _ s e λ _ m done h.
        Provided-then-Converted who p q (in_order a p (x, y)) s m t was (provided m done)
          (convert_to_enabled-Converted T p m h)
    where
      here : p ≡ new_pair a b
      here = (from_token_currency_ids-eq_some a b pair).2

      provided :
          (m : Dex W) {v : Unit {0}}
          → do_add_provision T who a b x y s ≡ ok (v, m)
          → Provided T who p q (in_order a p (x, y)) s m
      provided m done =
          let was' : s.trading_pair_statuses (new_pair a b) ≡ TradingPairStatus.provisioning q =
            ap (λ p. s.trading_pair_statuses p) (sym here) ∙ was in
          subst (λ p. Provided T who p q (in_order a p (x, y)) s m) (sym here)
            (provide-Provided T who (new_pair a b) q (in_order a (new_pair a b) (x, y)) s
              (rw (was', do_add_provision) at done))

  add_liquidity-ChangeAt :
      (o : O) (a b : CurrencyId) (x y least : ℕ) (deposited : Bool) (s : Dex W) {u : Unit {0}}
      {t : Dex W}
      → add_liquidity T o a b x y least deposited s ≡ ok (u, t)
      → (p : TradingPair) → ChangeAt s t p
  unfolding add_liquidity
  add_liquidity-ChangeAt o a b x y least deposited s {u} {t} e =
      after_ok_or (T.ensure_signed o) Error.bad_origin _ s e λ who _ h₁.
        after_ok_or (from_token_currency_ids a b) Error.invalid_currency_id _ s h₁ λ p pair h₂.
          add_by_status-ChangeAt p (s.trading_pair_statuses p) who a b x y least deposited s pair
            refl h₂

-- The calls, with the origin that sends each.
pub data DexCall (O : Type 0) : Type 0 where
  swap_supply swap_target : O → List CurrencyId → ℕ → ℕ → DexCall O
  add : O → CurrencyId → CurrencyId → ℕ → ℕ → ℕ → Bool → DexCall O
  remove : O → CurrencyId → CurrencyId → ℕ → ℕ → ℕ → Bool → DexCall O
  list : O → CurrencyId → CurrencyId → Balances → Balances → ℕ → DexCall O
  enable disable : O → CurrencyId → CurrencyId → DexCall O

module _ {O W : Type 0} (T : Config O W) where
  abbrev pub dispatch : DexCall O → Dex W → Result Error (Unit {0} × Dex W)
  dispatch (DexCall.swap_supply o path x least) = swap_with_exact_supply T o path x least
  dispatch (DexCall.swap_target o path y most) = swap_with_exact_target T o path y most
  dispatch (DexCall.add o a b x y least deposited) = add_liquidity T o a b x y least deposited
  dispatch (DexCall.remove o a b x c d withdrawn) = remove_liquidity T o a b x c d withdrawn
  dispatch (DexCall.list o a b least target now) = list_trading_pair T o a b least target now
  dispatch (DexCall.enable o a b) = enable_trading_pair T o a b
  dispatch (DexCall.disable o a b) = disable_trading_pair T o a b

  -- A successful call changes the status and the provisions of each pair in one of these ways
  -- only: not at all; from not enabled to provisioning with nothing accumulated, or to enabled;
  -- from enabled to not enabled; from provisioning to not enabled, without provisions left; by
  -- one contribution, recorded and accumulated; or from provisioning to enabled, without
  -- provisions left.
  pub dispatch-ChangeAt :
      (call : DexCall O) (s : Dex W) {u : Unit {0}} {t : Dex W}
      → dispatch call s ≡ ok (u, t)
      → (p : TradingPair) → ChangeAt s t p
  dispatch-ChangeAt (DexCall.swap_supply o path x least) s e =
      swap_with_exact_supply-ChangeAt T o path x least s e
  dispatch-ChangeAt (DexCall.swap_target o path y most) s e =
      swap_with_exact_target-ChangeAt T o path y most s e
  dispatch-ChangeAt (DexCall.add o a b x y least deposited) s e =
      add_liquidity-ChangeAt T o a b x y least deposited s e
  dispatch-ChangeAt (DexCall.remove o a b x c d withdrawn) s e =
      remove_liquidity-ChangeAt T o a b x c d withdrawn s e
  dispatch-ChangeAt (DexCall.list o a b least target now) s e =
      list_trading_pair-ChangeAt T o a b least target now s e
  dispatch-ChangeAt (DexCall.enable o a b) s e = enable_trading_pair-ChangeAt T o a b s e
  dispatch-ChangeAt (DexCall.disable o a b) s e = disable_trading_pair-ChangeAt T o a b s e
