-- ===== src/Dex/Calls/Changes.antt =====
-- The life of a trading pair: what a call may do to the status and the provisions of a pair.
use setheum.Common.{
  ℕ, ◌≡◌, ◌≢◌, refl, sym, ap, subst, ◌∙◌, inl, inr, true, false, not, List, [], ◌∷◌, Result, ok,
  err, Bool-cases, is_zero, lookup, insert, update, update_self, update_ne, after_ensure,
  after_ok_or, after_action,
}
use setheum.Primitives.Currency.{
  CurrencyId, TradingPair, pair_beq, currency_beq, from_token_currency_ids,
  get_dex_share_currency_id,
}
use setheum.Primitives.Order.{pair_eq, pair_beq_iff}
use setheum.Dex.Types.{
  Balances, TradingPairProvisionParameters, TradingPairStatus, Error, Event, Config, Dex, returned,
  is_not_enabled, deposit_event,
}
use setheum.Dex.Steps.{after_outside}
use setheum.Dex.Price.{in_order}
use setheum.Dex.Route.Settled.{SameFrame}
use setheum.Dex.Provision.{add_balances, or_zero, set_status}
use setheum.Dex.Calls.{map_erc20, list_trading_pair, refund_all}

-- From the status `v` with the provisions `l` to `v'` with `l'`.
pub data Change (v : TradingPairStatus) (l : List (ℕ × Balances)) (v' : TradingPairStatus)
    (l' : List (ℕ × Balances)) : Type 0 where
  unchanged : v' ≡ v → l' ≡ l → Change v l v' l'
  listed :
      (q : TradingPairProvisionParameters)
      → v ≡ TradingPairStatus.not_enabled
      → v' ≡ TradingPairStatus.provisioning q
      → q.accumulated_provision ≡ (0, 0)
      → l' ≡ l
      → Change v l v' l'
  enabled :
      v ≡ TradingPairStatus.not_enabled → v' ≡ TradingPairStatus.enabled → l' ≡ l → Change v l v' l'
  disabled :
      v ≡ TradingPairStatus.enabled → v' ≡ TradingPairStatus.not_enabled → l' ≡ l → Change v l v' l'
  refunded :
      (q : TradingPairProvisionParameters)
      → v ≡ TradingPairStatus.provisioning q
      → v' ≡ TradingPairStatus.not_enabled
      → l' ≡ []
      → Change v l v' l'
  contributed :
      (q : TradingPairProvisionParameters) (who : ℕ) (c : Balances)
      → v ≡ TradingPairStatus.provisioning q
      → v'
        ≡ TradingPairStatus.provisioning
            (record q { accumulated_provision = add_balances q.accumulated_provision c })
      → l' ≡ insert who (add_balances (or_zero (lookup who l)) c) l
      → Change v l v' l'
  converted :
      (q : TradingPairProvisionParameters)
      → v ≡ TradingPairStatus.provisioning q
      → v' ≡ TradingPairStatus.enabled
      → l' ≡ []
      → Change v l v' l'

module _ {W : Type 0} where
  abbrev pub ChangeAt : Dex W → Dex W → TradingPair → Type 0
  ChangeAt s t p =
      Change (s.trading_pair_statuses p) (s.provisioning_pool p) (t.trading_pair_statuses p)
        (t.provisioning_pool p)

  -- Every pair but `p` is as before.
  abbrev pub SameElsewhere : TradingPair → Dex W → Dex W → Type 0
  SameElsewhere p s t =
      (r : TradingPair)
      → r ≢ p
      → (t.trading_pair_statuses r ≡ s.trading_pair_statuses r)
        × (t.provisioning_pool r ≡ s.provisioning_pool r)

  pub frame-ChangeAt : {s t : Dex W} → SameFrame s t → (p : TradingPair) → ChangeAt s t p
  frame-ChangeAt f p =
      Change.unchanged (ap (λ m. m p) f.same_statuses) (ap (λ m. m p) f.same_provisions)

  pub one-ChangeAt :
      (s t : Dex W) (p : TradingPair)
      → SameElsewhere p s t
      → ChangeAt s t p
      → (r : TradingPair) → ChangeAt s t r
  one-ChangeAt s t p same c r = elim (Bool-cases (pair_beq r p)) [
    | inl b ↦ subst (ChangeAt s t) (sym ((pair_beq_iff r p).0 b)) c
    | inr b ↦
        let ne : r ≢ p = λ f. different (sym b ∙ (pair_beq_iff r p).1 f) in
        Change.unchanged ((same r ne).0) ((same r ne).1)
  ]
    where
      different : false ≡ true → ⊥
      different f = cc

  pub status_only :
      (s t : Dex W) (p : TradingPair) (v : TradingPairStatus)
      → t.trading_pair_statuses ≡ update s.trading_pair_statuses p v
      → t.provisioning_pool ≡ s.provisioning_pool
      → SameElsewhere p s t
        × (t.trading_pair_statuses p ≡ v)
        × (t.provisioning_pool p ≡ s.provisioning_pool p)
  status_only s t p v e f = (
    λ r ne. (ap (λ m. m r) e ∙ update_ne s.trading_pair_statuses p r v ne, ap (λ m. m r) f),
    ap (λ m. m p) e ∙ update_self s.trading_pair_statuses p v,
    ap (λ m. m p) f,
  )

  pub both_set :
      (s t : Dex W) (p : TradingPair) (v : TradingPairStatus) (l : List (ℕ × Balances))
      → t.trading_pair_statuses ≡ update s.trading_pair_statuses p v
      → t.provisioning_pool ≡ update s.provisioning_pool p l
      → SameElsewhere p s t × (t.trading_pair_statuses p ≡ v) × (t.provisioning_pool p ≡ l)
  both_set s t p v l e f = (
    λ r ne. (
      ap (λ m. m r) e ∙ update_ne s.trading_pair_statuses p r v ne,
      ap (λ m. m r) f ∙ update_ne s.provisioning_pool p r l ne,
    ),
    ap (λ m. m p) e ∙ update_self s.trading_pair_statuses p v,
    ap (λ m. m p) f ∙ update_self s.provisioning_pool p l,
  )

  abbrev pub OnlyWorld : Dex W → Dex W → Type 0
  OnlyWorld s t = (w : W) × (record s { world = w } ≡ t)

pub is_not_enabled-true :
    (v : TradingPairStatus) → is_not_enabled v ≡ true → v ≡ TradingPairStatus.not_enabled
is_not_enabled-true TradingPairStatus.not_enabled e = refl
is_not_enabled-true (TradingPairStatus.provisioning q) e = absurd (cc)
is_not_enabled-true TradingPairStatus.enabled e = absurd (cc)

module _ {O W : Type 0} (T : Config O W) where
  map_erc20-OnlyWorld :
      (c : CurrencyId) (s : Dex W) {u : Unit {0}} {t : Dex W}
      → map_erc20 T c s ≡ ok (u, t)
      → OnlyWorld s t
  map_erc20-OnlyWorld (CurrencyId.erc20 a) s {u} {t} e = split (T.set_erc20_mapping a s.world) e
    where
      split : (r : Result ℕ W) → returned s r ≡ ok (u, t) → OnlyWorld s t
      split (ok w) h = (w, cc)
      split (err x) h = absurd (cc)
  map_erc20-OnlyWorld (CurrencyId.token _) s e = (s.world, cc)
  map_erc20-OnlyWorld (CurrencyId.dex_share _ _) s e = (s.world, cc)
  map_erc20-OnlyWorld (CurrencyId.chain_bridge _) s e = (s.world, cc)

  -- The refunds change the world outside only.
  pub refund_all-OnlyWorld :
      (p : TradingPair) (l : List (ℕ × Balances)) (s : Dex W) {u : Unit {0}} {t : Dex W}
      → refund_all T p l s ≡ ok (u, t)
      → OnlyWorld s t
  unfolding refund_all
  refund_all-OnlyWorld p [] s e = (s.world, cc)
  refund_all-OnlyWorld p ((who, c) ∷ l) s {u} {t} e =
      after_outside (T.transfer p.left T.account_id who c.0) _ s e λ w₁ _ h₁.
        after_outside (T.transfer p.right T.account_id who c.1) _ (record s { world = w₁ }) h₁
          λ w₂ _ h₂. refund_all-OnlyWorld p l (record s { world = T.dec_consumers who w₂ }) h₂

  pub list_trading_pair-ChangeAt :
      (o : O) (a b : CurrencyId) (least target : Balances) (now : ℕ) (s : Dex W) {u : Unit {0}}
      {t : Dex W}
      → list_trading_pair T o a b least target now s ≡ ok (u, t)
      → (p : TradingPair) → ChangeAt s t p
  unfolding list_trading_pair
  list_trading_pair-ChangeAt o a b least target now s {u} {t} e =
      after_ensure (T.listing_origin o) Error.bad_origin _ s e λ _ h₁.
        after_ensure (not (currency_beq a b)) Error.not_allowed_list _ s h₁ λ _ h₂.
          after_ok_or (from_token_currency_ids a b) Error.invalid_currency_id _ s h₂ λ p _ h₃.
            after_ok_or (get_dex_share_currency_id p) Error.invalid_currency_id _ s h₃ λ lp _ h₄.
              after_ensure (is_not_enabled (s.trading_pair_statuses p)) Error.must_be_not_enabled _
                s h₄
                λ closed h₅.
                  after_ensure (is_zero (T.total_issuance lp s.world)) Error.not_allowed_list _ s h₅
                    λ _ h₆. after_action (map_erc20 T a) _ s h₆ λ _ m only h₇.
                      after_action (map_erc20 T b) _ m h₇ λ _ n only' h₈.
                        finish p closed m n (map_erc20-OnlyWorld a s only)
                          (map_erc20-OnlyWorld b m only') h₈
    where
      finish :
          (p : TradingPair)
          → is_not_enabled (s.trading_pair_statuses p) ≡ true
          → (m n : Dex W) → OnlyWorld s m
          → OnlyWorld m n
          → (let v = TradingPairStatus.provisioning (record {
            min_contribution = in_order a p least;
            target_provision = in_order a p target;
            accumulated_provision = (0, 0);
            not_before = now;
          }) in
              ◌≡◌ {A = Result Error (Unit {0} × Dex W)}
                (deposit_event (Event.list_trading_pair p) (set_status p v n))
                (ok (u, t)))
          → (r : TradingPair) → ChangeAt s t r
      finish p closed m n (w, em) (w', en) h =
          let v = TradingPairStatus.provisioning (record {
            min_contribution = in_order a p least;
            target_provision = in_order a p target;
            accumulated_provision = (0, 0);
            not_before = now;
          }) in
          let eq : record (set_status p v n) { events = t.events } ≡ t = cc in
          let back : n.trading_pair_statuses ≡ s.trading_pair_statuses = sym (
            ap (λ (x : Dex W). x.trading_pair_statuses) em
            ∙ ap (λ (x : Dex W). x.trading_pair_statuses) en) in
          let back' : n.provisioning_pool ≡ s.provisioning_pool = sym (
            ap (λ (x : Dex W). x.provisioning_pool) em
            ∙ ap (λ (x : Dex W). x.provisioning_pool) en) in
          let (same, now_v, same_l) =
            status_only s t p v
              (sym (ap (λ (x : Dex W). x.trading_pair_statuses) eq) ∙ ap (λ m. update m p v) back)
              (sym (ap (λ (x : Dex W). x.provisioning_pool) eq) ∙ back') in
          one-ChangeAt s t p same (
            Change.listed _ (is_not_enabled-true (s.trading_pair_statuses p) closed) now_v refl
              same_l)
