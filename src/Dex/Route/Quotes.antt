-- ===== src/Dex/Route/Quotes.antt =====
-- What a quote of `get_target_amounts` says, hop by hop, and what it depends on.
use setheum.Common.{
  ℕ, ◌≡◌, ◌≢◌, refl, sym, ap, subst, inl, inr, ◌⊎◌, Bool, true, false, not, ◌||◌, Option, List, [],
  ◌∷◌, Result, ok, err, arith, is_zero, Option-cases, update_ne,
}
use setheum.Primitives.Currency.{
  CurrencyId, TradingPair, currency_beq, new_pair, from_token_currency_ids,
}
use setheum.Primitives.Order.{pair_eq}
use setheum.Primitives.Pairs.{from_token_currency_ids-eq_some}
use setheum.Dex.Types.{TradingPairStatus, Error, Config, Dex, is_enabled}
use setheum.Dex.Price.{get_liquidity, get_target_amount, get_supply_amount}
use setheum.Dex.Route.{
  and_then, unless, exceeds, exchange, set_pool, swap_pools, target_step, target_hops, supply_step,
  supply_hops,
}

pub and_then-eq_ok :
    {A B : Type 0} (r : Result Error A) (f : A → Result Error B) {b : B}
    → and_then r f ≡ ok b
    → (a : A) × (r ≡ ok a) × (f a ≡ ok b)
and_then-eq_ok (ok a) f e = (a, refl, e)
and_then-eq_ok (err x) f e = cc

pub unless-eq_ok :
    {A : Type 0} (t : Bool) (x : Error) (r : Result Error A) {a : A}
    → unless t x r ≡ ok a
    → (t ≡ false) × (r ≡ ok a)
unless-eq_ok true x r e = cc
unless-eq_ok false x r e = (refl, e)

-- The four checks of a hop have passed, if it gives a value.
pub checks_passed :
    (t₁ t₂ t₃ t₄ : Bool) (x₁ x₂ x₃ x₄ : Error) (v : ℕ) {y : ℕ}
    → unless t₁ x₁ (unless t₂ x₂ (unless t₃ x₃ (unless t₄ x₄ (ok v)))) ≡ ok y
    → (t₁ ≡ false) × (t₂ ≡ false) × (t₃ ≡ false) × (t₄ ≡ false) × (v ≡ y)
checks_passed true t₂ t₃ t₄ x₁ x₂ x₃ x₄ v e = cc
checks_passed false true t₃ t₄ x₁ x₂ x₃ x₄ v e = cc
checks_passed false false true t₄ x₁ x₂ x₃ x₄ v e = cc
checks_passed false false false true x₁ x₂ x₃ x₄ v e = cc
checks_passed false false false false x₁ x₂ x₃ x₄ v e = (refl, refl, refl, refl, cc)

-- A swap changes at most the pool of its pair.
pub swap_pools_cases :
    {W : Type 0} (a b : CurrencyId) (x y : ℕ) (s : Dex W)
    → (swap_pools a b x y s ≡ s)
      ⊎ (swap_pools a b x y s
          ≡ set_pool
              (new_pair a b)
              (exchange (currency_beq a (new_pair a b).left) x y (s.liquidity_pool (new_pair a b)))
              s)
unfolding swap_pools
swap_pools_cases a b x y s = elim (Option-cases (from_token_currency_ids a b)) [
  | inl e ↦ rw (e, swap_pools) (inl refl)
  | inr (p, e) ↦
      let q = (from_token_currency_ids-eq_some a b e).2 in
      rw (e, swap_pools)
        (inr (ap (λ p. set_pool p (exchange (currency_beq a p.left) x y (s.liquidity_pool p)) s) q))
]

-- Two states give the same quotes for a pair.
pub record SamePair {W : Type 0} (p : TradingPair) (s t : Dex W) : Type 0 where
  pub same_pool : s.liquidity_pool p ≡ t.liquidity_pool p
  pub same_status : s.trading_pair_statuses p ≡ t.trading_pair_statuses p
  pub same_fee : s.get_exchange_fee ≡ t.get_exchange_fee

pub swap_pools-SamePair :
    {W : Type 0} (a b : CurrencyId) (x y : ℕ) (s : Dex W) (p : TradingPair)
    → p ≢ new_pair a b
    → SamePair p (swap_pools a b x y s) s
swap_pools-SamePair a b x y s p ne = elim (swap_pools_cases a b x y s) [
  | inl e ↦ rw e (record { same_pool = refl; same_status = refl; same_fee = refl })
  | inr e ↦ rw e (record {
    same_pool =
        update_ne s.liquidity_pool (new_pair a b) p
          (exchange (currency_beq a (new_pair a b).left) x y (s.liquidity_pool (new_pair a b))) ne;
    same_status = refl;
    same_fee = refl;
  })
]

-- The amounts of a path, from the currency reached, where each hop is a step from the amount before
-- it to the amount after it.
abbrev pub Steps :
    {W : Type 0}
    → (Dex W → CurrencyId → CurrencyId → ℕ → ℕ → Type 0)
    → Dex W
    → CurrencyId
    → List CurrencyId
    → ℕ
    → List ℕ
    → Type 0
Steps Step s a [] x ys = ys ≡ []
Steps Step s a (b ∷ path) x [] = ⊥
Steps Step s a (b ∷ path) x (y ∷ ys) = Step s a b x y × Steps Step s b path y ys

not_zero : (n : ℕ) → is_zero n ≡ false → n ≢ 0
not_zero n e = ground arith

or_false : (m n : ℕ) → (is_zero m || is_zero n) ≡ false → (m ≡ 0) ⊎ (n ≡ 0) → ⊥
or_false m n e (inl z) = ground arith
or_false m n e (inr z) = ground arith

module _ {O W : Type 0} (T : Config O W) (limit : Option ℕ) where
  pub target_step_congr :
      (a b : CurrencyId) (x : ℕ) (s t : Dex W)
      → SamePair (new_pair a b) s t
      → target_step T s limit a b x ≡ target_step T t limit a b x
  unfolding target_step get_liquidity
  target_step_congr a b x s t h = rw (h.same_pool, h.same_status, h.same_fee)

  -- The hop from `a` to `b` turns `x` into `y`, by the code's pricing function.
  pub record Hop (s : Dex W) (a b : CurrencyId) (x y : ℕ) : Type 0 where
    pub is_open : s.trading_pair_statuses (new_pair a b) ≡ TradingPairStatus.enabled
    pub supply_ne : (get_liquidity a b s).0 ≢ 0
    pub target_ne : (get_liquidity a b s).1 ≢ 0
    pub priced :
        y
        ≡ get_target_amount T.u256 s.get_exchange_fee
            (get_liquidity a b s).0
            (get_liquidity a b s).1
            x
    pub priced_ne : y ≢ 0
    pub within_limit : exceeds T.fixed limit y (get_liquidity a b s).1 ≡ false

  -- The hop from `a` to `b` asks for `x` to give `y`, by the code's pricing function.
  pub record SupplyHop (s : Dex W) (a b : CurrencyId) (x y : ℕ) : Type 0 where
    pub is_open : s.trading_pair_statuses (new_pair a b) ≡ TradingPairStatus.enabled
    pub supply_ne : (get_liquidity a b s).0 ≢ 0
    pub target_ne : (get_liquidity a b s).1 ≢ 0
    pub priced :
        x
        ≡ get_supply_amount T.u256 s.get_exchange_fee
            (get_liquidity a b s).0
            (get_liquidity a b s).1
            y
    pub priced_ne : x ≢ 0
    pub within_limit : exceeds T.fixed limit y (get_liquidity a b s).1 ≡ false

  is_enabled-eq :
      (v : TradingPairStatus) → not (is_enabled v) ≡ false → v ≡ TradingPairStatus.enabled
  is_enabled-eq TradingPairStatus.enabled e = refl
  is_enabled-eq TradingPairStatus.not_enabled e = cc
  is_enabled-eq (TradingPairStatus.provisioning _) e = cc

  pub target_step-Hop :
      (s : Dex W) (a b : CurrencyId) (x y : ℕ) → target_step T s limit a b x ≡ ok y → Hop s a b x y
  unfolding target_step
  target_step-Hop s a b x y e =
      let pools = get_liquidity a b s in
      let v = get_target_amount T.u256 s.get_exchange_fee pools.0 pools.1 x in
      let (e₁, e₂, e₃, e₄, q) =
        checks_passed (not (is_enabled (s.trading_pair_statuses (new_pair a b))))
          (is_zero pools.0 || is_zero pools.1) (is_zero v) (exceeds T.fixed limit v pools.1)
          Error.must_be_enabled Error.insufficient_liquidity Error.zero_target_amount
          Error.exceed_price_impact_limit v e in
      record {
        is_open = is_enabled-eq (s.trading_pair_statuses (new_pair a b)) e₁;
        supply_ne = λ z. or_false pools.0 pools.1 e₂ (inl z);
        target_ne = λ z. or_false pools.0 pools.1 e₂ (inr z);
        priced = sym q;
        priced_ne = subst (λ n. n ≢ 0) q (not_zero v e₃);
        within_limit = subst (λ n. exceeds T.fixed limit n pools.1 ≡ false) q e₄;
      }

  -- The amounts of a path, hop by hop, from the currency reached.
  abbrev pub Hops : Dex W → CurrencyId → List CurrencyId → ℕ → List ℕ → Type 0
  Hops = Steps λ s a b x y. target_step T s limit a b x ≡ ok y

  pub target_hops-Hops :
      (s : Dex W) (a : CurrencyId) (path : List CurrencyId) (x : ℕ) {amounts : List ℕ}
      → target_hops T s limit a path x ≡ ok amounts
      → (ys : List ℕ) × (amounts ≡ x ∷ ys) × Hops s a path x ys
  unfolding target_hops
  target_hops-Hops s a [] x e = ([], cc, refl)
  target_hops-Hops s a (b ∷ path) x {amounts} e =
      let (y, e₁, f) =
        and_then-eq_ok (target_step T s limit a b x)
          (λ target. and_then (target_hops T s limit b path target) λ rest. ok (x ∷ rest)) e in
      let (rest, e₂, g) =
        and_then-eq_ok (target_hops T s limit b path y) (λ rest. ok (x ∷ rest)) f in
      let (ys, e₃, h) = target_hops-Hops s b path y e₂ in (y ∷ ys, cc, (e₁, h))

  pub supply_step_congr :
      (a b : CurrencyId) (y : ℕ) (s t : Dex W)
      → SamePair (new_pair a b) s t
      → supply_step T s limit a b y ≡ supply_step T t limit a b y
  unfolding supply_step get_liquidity
  supply_step_congr a b y s t h = rw (h.same_pool, h.same_status, h.same_fee)

  pub supply_step-SupplyHop :
      (s : Dex W) (a b : CurrencyId) (x y : ℕ)
      → supply_step T s limit a b y ≡ ok x
      → SupplyHop s a b x y
  unfolding supply_step
  supply_step-SupplyHop s a b x y e =
      let pools = get_liquidity a b s in
      let v = get_supply_amount T.u256 s.get_exchange_fee pools.0 pools.1 y in
      let (e₁, e₂, e₃, e₄, q) =
        checks_passed (not (is_enabled (s.trading_pair_statuses (new_pair a b))))
          (is_zero pools.0 || is_zero pools.1) (is_zero v) (exceeds T.fixed limit y pools.1)
          Error.must_be_enabled Error.insufficient_liquidity Error.zero_supply_amount
          Error.exceed_price_impact_limit v e in
      record {
        is_open = is_enabled-eq (s.trading_pair_statuses (new_pair a b)) e₁;
        supply_ne = λ z. or_false pools.0 pools.1 e₂ (inl z);
        target_ne = λ z. or_false pools.0 pools.1 e₂ (inr z);
        priced = sym q;
        priced_ne = subst (λ n. n ≢ 0) q (not_zero v e₃);
        within_limit = e₄;
      }

  abbrev pub SupplyHops : Dex W → CurrencyId → List CurrencyId → ℕ → List ℕ → Type 0
  SupplyHops = Steps λ s a b x y. supply_step T s limit a b y ≡ ok x

  pub supply_hops-SupplyHops :
      (s : Dex W) (a : CurrencyId) (path : List CurrencyId) (target : ℕ) {all : ℕ × List ℕ}
      → supply_hops T s limit a path target ≡ ok all
      → SupplyHops s a path all.0 all.1
  unfolding supply_hops
  supply_hops-SupplyHops s a [] target {all} e =
      let q : (target, []) ≡ all = cc in subst (λ (all : ℕ × List ℕ). all.1 ≡ []) q refl
  supply_hops-SupplyHops s a (b ∷ path) target {all} e =
      let (later, e₁, f) =
        and_then-eq_ok (supply_hops T s limit b path target)
          (λ later.
            and_then (supply_step T s limit a b later.0) λ supply. ok (supply, later.0 ∷ later.1))
          e in
      let (supply, e₂, g) =
        and_then-eq_ok (supply_step T s limit a b later.0)
          (λ supply. ok (supply, later.0 ∷ later.1)) f in
      let q : (supply, later.0 ∷ later.1) ≡ all = cc in
      subst (λ (all : ℕ × List ℕ). SupplyHops s a (b ∷ path) all.0 all.1) q
        (e₂, supply_hops-SupplyHops s b path target e₁)
