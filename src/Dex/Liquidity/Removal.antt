-- ===== src/Dex/Liquidity/Removal.antt =====
-- What a successful `do_remove_liquidity` has done.
use setheum.Common.{
  ℕ, ◌≤◌, ◌≡◌, ◌≢◌, refl, Bool, true, false, ◌&&◌, some, ◌++◌, ◌∷◌, [], ok, arith, is_zero, leb,
  if◌then◌else◌, saturating_sub, update,
}
use setheum.Primitives.Currency.{
  CurrencyId, TradingPair, from_token_currency_ids, get_dex_share_currency_id,
}
use setheum.Primitives.Order.{pair_eq}
use setheum.Dex.Types.{Balances, Error, Event, Config, Dex}
use setheum.Dex.Steps.{after_ok_or, after_ensure, after_outside, after_when}
use setheum.Dex.Price.{in_order}
use setheum.Dex.Liquidity.{liquidity_decrements, remove_share_of, do_remove_liquidity}
use setheum.Dex.Liquidity.Effects.{◌⨾◌}
use setheum.Dex.Route.Settled.{SameFrame}

module _ {O W : Type 0} (T : Config O W) where
  -- From `s` to `t`, `who` has given up `removed` shares in `lp` for the decrements of the pool.
  pub record Removed (who : ℕ) (p : TradingPair) (lp : CurrencyId) (removed : ℕ) (least : Balances)
      (withdrawn : Bool) (s t : Dex W) : Type 0 where
    pub share_currency : get_dex_share_currency_id p ≡ some lp
    pub dec : Balances
    pub priced :
        dec
        ≡ liquidity_decrements T.fixed (T.total_issuance lp s.world) (s.liquidity_pool p) removed
    pub left_enough : least.0 ≤ dec.0
    pub right_enough : least.1 ≤ dec.1
    pub paid :
        ((if withdrawn then T.do_withdraw_dex_share who lp removed s.world else ok s.world)
          ⨾ T.withdraw lp who removed
          ⨾ T.transfer p.left T.account_id who dec.0
          ⨾ T.transfer p.right T.account_id who dec.1)
        ≡ ok t.world
    pub pools :
        t.liquidity_pool
        ≡ update s.liquidity_pool p (
          saturating_sub (s.liquidity_pool p).0 dec.0,
          saturating_sub (s.liquidity_pool p).1 dec.1,
        )
    pub frame : SameFrame s t

  both_le : (a b c d : ℕ) → (leb a b && leb c d) ≡ true → (a ≤ b) × (c ≤ d)
  both_le a b c d e = ground arith

  make-Removed :
      (who : ℕ) (p : TradingPair) (lp : CurrencyId) (removed : ℕ) (least : Balances)
      (withdrawn : Bool) (s : Dex W) {w₁ w₂ w₃ w₄ : W} {t : Dex W}
      → let pool = s.liquidity_pool p in
        let dec = liquidity_decrements T.fixed (T.total_issuance lp s.world) pool removed in
        get_dex_share_currency_id p ≡ some lp
        → (leb least.0 dec.0 && leb least.1 dec.1) ≡ true
        → (if withdrawn then T.do_withdraw_dex_share who lp removed s.world else ok s.world) ≡ ok w₁
        → T.withdraw lp who removed w₁ ≡ ok w₂
        → T.transfer p.left T.account_id who dec.0 w₂ ≡ ok w₃
        → T.transfer p.right T.account_id who dec.1 w₃ ≡ ok w₄
        → t ≡ record s {
          liquidity_pool =
              update s.liquidity_pool p (saturating_sub pool.0 dec.0, saturating_sub pool.1 dec.1);
          events = s.events ++ (Event.remove_liquidity who p.left dec.0 p.right dec.1 removed ∷ []);
          world = w₄;
        }
        → Removed who p lp removed least withdrawn s t
  make-Removed who p lp removed least withdrawn s e₁ e₂ c₁ c₂ c₃ c₄ q =
      let dec =
        liquidity_decrements T.fixed (T.total_issuance lp s.world) (s.liquidity_pool p) removed in
      let (l, r) = both_le least.0 dec.0 least.1 dec.1 e₂ in
      rw q (record {
        share_currency = e₁;
        dec = dec;
        priced = refl;
        left_enough = l;
        right_enough = r;
        paid = rw (c₁, ◌⨾◌, c₂, c₃) c₄;
        pools = refl;
        frame = record { same_statuses = refl; same_provisions = refl; same_fee = refl };
      })

  remove_share_of-Removed :
      (who : ℕ) (a b : CurrencyId) (removed min_a min_b : ℕ) (withdrawn : Bool) (s : Dex W)
      {u : Unit {0}} {t : Dex W}
      → remove_share_of T who a b removed min_a min_b withdrawn s ≡ ok (u, t)
      → (p : TradingPair) × (lp : CurrencyId) × (from_token_currency_ids a b ≡ some p)
        × Removed who p lp removed (in_order a p (min_a, min_b)) withdrawn s t
  unfolding remove_share_of
  remove_share_of-Removed who a b removed min_a min_b withdrawn s {u} {t} e =
      let dec : TradingPair → CurrencyId → Balances = λ p lp.
        liquidity_decrements T.fixed (T.total_issuance lp s.world) (s.liquidity_pool p) removed in
      let least : TradingPair → Balances = λ p. in_order a p (min_a, min_b) in
      after_ok_or (from_token_currency_ids a b) Error.invalid_currency_id _ s e λ p e₀ h₀.
        after_ok_or (get_dex_share_currency_id p) Error.invalid_currency_id _ s h₀ λ lp e₁ h₁.
          after_ensure (leb (least p).0 (dec p lp).0 && leb (least p).1 (dec p lp).1)
            Error.unacceptable_liquidity_withdrawn _ s h₁
            λ e₂ h₂.
              after_when withdrawn (T.do_withdraw_dex_share who lp removed) _ s h₂ λ w₁ c₁ h₃.
                after_outside (T.withdraw lp who removed) _ (record s { world = w₁ }) h₃
                  λ w₂ c₂ h₄.
                    after_outside (T.transfer p.left T.account_id who (dec p lp).0) _
                      (record s { world = w₂ }) h₄
                      λ w₃ c₃ h₅.
                        after_outside (T.transfer p.right T.account_id who (dec p lp).1) _
                          (record s { world = w₃ }) h₅
                          λ w₄ c₄ h₆. (
                            p,
                            lp,
                            e₀,
                            make-Removed who p lp removed (least p) withdrawn s e₁ e₂ c₁ c₂ c₃ c₄
                                (cc),
                          )

  -- A successful removal of a share that is not zero burns that share, after taking it out of the
  -- incentives if asked to, pays out the quoted decrements, at least the minima, takes them out of
  -- the pool of the pair, and changes no other pool, status, provision or fee.
  pub do_remove_liquidity-Removed :
      (who : ℕ) (a b : CurrencyId) (removed min_a min_b : ℕ) (withdrawn : Bool) (s : Dex W)
      {u : Unit {0}} {t : Dex W}
      → removed ≢ 0
      → do_remove_liquidity T who a b removed min_a min_b withdrawn s ≡ ok (u, t)
      → (p : TradingPair) × (lp : CurrencyId) × (from_token_currency_ids a b ≡ some p)
        × Removed who p lp removed (in_order a p (min_a, min_b)) withdrawn s t
  unfolding do_remove_liquidity
  do_remove_liquidity-Removed who a b removed min_a min_b withdrawn s ne e =
      let z : is_zero removed ≡ false = ground arith in
      remove_share_of-Removed who a b removed min_a min_b withdrawn s (rw z at e)
