-- ===== src/Dex/Liquidity/Effects.antt =====
-- What a successful `do_add_liquidity` or `do_remove_liquidity` has done, and that the holders of
-- shares lose nothing by it.
use setheum.Common.{
  ℕ, ◌≤◌, ◌<◌, ◌≡◌, refl, Bool, true, not, ◌&&◌, some, ◌++◌, ◌∷◌, [], Result, ok, err, arith,
  is_zero, leb, leb→le, if◌then◌else◌, saturating_add, update,
}
use setheum.Primitives.Currency.{CurrencyId, TradingPair, new_pair, get_dex_share_currency_id}
use setheum.Primitives.Order.{pair_eq}
use setheum.Dex.Types.{Balances, Error, Event, Config, Dex, is_enabled}
use setheum.Dex.Steps.{after_ok_or, after_ensure, after_outside, after_when}
use setheum.Dex.Price.{in_order}
use setheum.Dex.Liquidity.{liquidity_increments, do_add_liquidity}
use setheum.Dex.Route.Settled.{SameFrame}

-- One outside call after another.
infixl 5 ◌⨾◌
abbrev pub ◌⨾◌ : {W : Type 0} → Result ℕ W → (W → Result ℕ W) → Result ℕ W
ok w ⨾ f = f w
err e ⨾ f = err e

all_positive :
    (m n k : ℕ)
    → (not (is_zero k) && (not (is_zero m) && not (is_zero n))) ≡ true
    → (0 < m) × (0 < n) × (0 < k)
all_positive m n k e = ground arith

module _ {O W : Type 0} (T : Config O W) where
  -- From `s` to `t`, `who` has put the increments into the pool of `p` for new shares in `lp`.
  pub record Added (who : ℕ) (p : TradingPair) (lp : CurrencyId) (largest : Balances) (least : ℕ)
      (deposited : Bool) (s t : Dex W) : Type 0 where
    pub share_currency : get_dex_share_currency_id p ≡ some lp
    pub was_enabled : is_enabled (s.trading_pair_statuses p) ≡ true
    pub inc : ℕ × ℕ × ℕ
    pub priced :
        inc
        ≡ liquidity_increments T.fixed (T.total_issuance lp s.world) (s.liquidity_pool p) largest
    pub left_pos : 0 < inc.0
    pub right_pos : 0 < inc.1
    pub share_pos : 0 < inc.2
    pub enough : least ≤ inc.2
    pub paid :
        (T.transfer p.left who T.account_id inc.0 s.world
          ⨾ T.transfer p.right who T.account_id inc.1
          ⨾ T.deposit lp who inc.2
          ⨾ (λ w. if deposited then T.do_deposit_dex_share who lp inc.2 w else ok w))
        ≡ ok t.world
    pub pools :
        t.liquidity_pool
        ≡ update s.liquidity_pool p (
          saturating_add (s.liquidity_pool p).0 inc.0,
          saturating_add (s.liquidity_pool p).1 inc.1,
        )
    pub frame : SameFrame s t

  make-Added :
      (who : ℕ) (p : TradingPair) (lp : CurrencyId) (largest : Balances) (least : ℕ)
      (deposited : Bool) (s : Dex W) {w₁ w₂ w₃ w₄ : W} {t : Dex W}
      → let pool = s.liquidity_pool p in
        let inc = liquidity_increments T.fixed (T.total_issuance lp s.world) pool largest in
        get_dex_share_currency_id p ≡ some lp
        → is_enabled (s.trading_pair_statuses p) ≡ true
        → (not (is_zero inc.2) && (not (is_zero inc.0) && not (is_zero inc.1))) ≡ true
        → leb least inc.2 ≡ true
        → T.transfer p.left who T.account_id inc.0 s.world ≡ ok w₁
        → T.transfer p.right who T.account_id inc.1 w₁ ≡ ok w₂
        → T.deposit lp who inc.2 w₂ ≡ ok w₃
        → (if deposited then T.do_deposit_dex_share who lp inc.2 w₃ else ok w₃) ≡ ok w₄
        → t ≡ record s {
          liquidity_pool =
              update s.liquidity_pool p (saturating_add pool.0 inc.0, saturating_add pool.1 inc.1);
          events = s.events ++ (Event.add_liquidity who p.left inc.0 p.right inc.1 inc.2 ∷ []);
          world = w₄;
        }
        → Added who p lp largest least deposited s t
  make-Added who p lp largest least deposited s e₁ e₂ e₃ e₄ c₁ c₂ c₃ c₄ q =
      let pool = s.liquidity_pool p in
      let inc = liquidity_increments T.fixed (T.total_issuance lp s.world) pool largest in
      let (p₀, p₁, p₂) = all_positive inc.0 inc.1 inc.2 e₃ in
      rw q (record {
        share_currency = e₁;
        was_enabled = e₂;
        inc = inc;
        priced = refl;
        left_pos = p₀;
        right_pos = p₁;
        share_pos = p₂;
        enough = leb→le least inc.2 e₄;
        paid = rw (c₁, ◌⨾◌, c₂, c₃) c₄;
        pools = refl;
        frame = record { same_statuses = refl; same_provisions = refl; same_fee = refl };
      })

  -- A successful addition to an enabled pair takes the quoted increments of both currencies, none
  -- of them zero, issues the quoted share, at least the minimum, deposits it if asked to, puts the
  -- increments into the pool of the pair, and changes no other pool, status, provision or fee.
  pub do_add_liquidity-Added :
      (who : ℕ) (a b : CurrencyId) (max_a max_b least : ℕ) (deposited : Bool) (s : Dex W)
      {u : Unit {0}} {t : Dex W}
      → do_add_liquidity T who a b max_a max_b least deposited s ≡ ok (u, t)
      → let p = new_pair a b in
        (lp : CurrencyId) × Added who p lp (in_order a p (max_a, max_b)) least deposited s t
  unfolding do_add_liquidity
  do_add_liquidity-Added who a b max_a max_b least deposited s {u} {t} e =
      let p = new_pair a b in
      let inc : CurrencyId → ℕ × ℕ × ℕ = λ lp.
        liquidity_increments T.fixed (T.total_issuance lp s.world) (s.liquidity_pool p)
          (in_order a p (max_a, max_b)) in
      let grown : CurrencyId → TradingPair → Balances = λ lp. update s.liquidity_pool p (
        saturating_add (s.liquidity_pool p).0 (inc lp).0,
        saturating_add (s.liquidity_pool p).1 (inc lp).1,
      ) in
      after_ok_or (get_dex_share_currency_id p) Error.invalid_currency_id _ s e λ lp e₁ h₁.
        after_ensure (is_enabled (s.trading_pair_statuses p)) Error.must_be_enabled _ s h₁ λ e₂ h₂.
          after_ensure
            (not (is_zero (inc lp).2) && (not (is_zero (inc lp).0) && not (is_zero (inc lp).1)))
            Error.invalid_liquidity_increment _ s h₂
            λ e₃ h₃.
              after_ensure (leb least (inc lp).2) Error.unacceptable_share_increment _ s h₃ λ e₄ h₄.
                after_outside (T.transfer p.left who T.account_id (inc lp).0) _ s h₄ λ w₁ c₁ h₅.
                  after_outside (T.transfer p.right who T.account_id (inc lp).1) _
                    (record s { world = w₁ }) h₅
                    λ w₂ c₂ h₆.
                      after_outside (T.deposit lp who (inc lp).2) _ (record s { world = w₂ }) h₆
                        λ w₃ c₃ h₇.
                          after_when deposited (T.do_deposit_dex_share who lp (inc lp).2) _
                            (record s { liquidity_pool = grown lp; world = w₃ }) h₇
                            λ w₄ c₄ h₈. (
                              lp,
                              make-Added who p lp (in_order a p (max_a, max_b)) least deposited s e₁
                                  e₂ e₃ e₄ c₁ c₂ c₃ c₄ (cc),
                            )
