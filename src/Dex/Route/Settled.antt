-- ===== src/Dex/Route/Settled.antt =====
-- What a successful swap along a path has done, in one description of the whole call.
use setheum.Common.{
  ℕ, ◌-◌, ◌≤◌, ◌≡◌, refl, subst, ◌∙◌, inl, inr, Option, some, List, [], ◌∷◌, ◌++◌, Result, ok, err,
  leb, length, get_elem?, ◌>>=◌, ◌>>◌, pure, modify, Option-cases, leb→le,
}
use setheum.Primitives.Currency.{CurrencyId}
use setheum.Dex.Types.{Error, Event, Config, Dex, outside, deposit_event, index}
use setheum.Dex.Steps.{after_index, after_outside, after_lift, after_ensure}
use setheum.Primitives.Currency.{from_token_currency_ids}
use setheum.Dex.Route.Quotes.{swap_pools_cases}
use setheum.Dex.Route.{
  swap_pools, swap_hops, swap_by_path, get_target_amounts, get_supply_amounts,
  do_swap_with_exact_supply, do_swap_with_exact_target,
}

-- The two payments of a swap: the supply to the pallet's account, then the target from it.
abbrev pub payments :
    {O W : Type 0} → Config O W → ℕ → CurrencyId → ℕ → CurrencyId → ℕ → W → Result ℕ W
payments T who first x last y w = elim (T.transfer first who T.account_id x w) [
  | ok w' ↦ T.transfer last T.account_id who y w'
  | err e ↦ err e
]

-- The swaps do not look at the rest of the runtime, and change nothing but the pools.
module _ {W : Type 0} where
  swap_pools_world :
      (a b : CurrencyId) (x y : ℕ) (s : Dex W) (w : W)
      → swap_pools a b x y (record s { world = w }) ≡ record (swap_pools a b x y s) { world = w }
  unfolding swap_pools
  swap_pools_world a b x y s w = elim (Option-cases (from_token_currency_ids a b)) [
    | inl e ↦ rw (e, swap_pools)
    | inr (p, e) ↦ rw (e, swap_pools)
  ]

  swap_hops_world :
      (a : CurrencyId) (path : List CurrencyId) (x : ℕ) (ys : List ℕ) (s : Dex W) (w : W)
      → swap_hops a path x ys (record s { world = w })
        ≡ record (swap_hops a path x ys s) { world = w }
  unfolding swap_hops
  swap_hops_world a [] x ys s w = refl
  swap_hops_world a (b ∷ path) x [] s w = refl
  swap_hops_world a (b ∷ path) x (y ∷ ys) s w =
      rw (swap_pools_world a b x y s w) (swap_hops_world b path y ys (swap_pools a b x y s) w)

  swap_by_path_world :
      (path : List CurrencyId) (amounts : List ℕ) (s : Dex W) (w : W)
      → swap_by_path path amounts (record s { world = w })
        ≡ record (swap_by_path path amounts s) { world = w }
  unfolding swap_by_path
  swap_by_path_world [] amounts s w = refl
  swap_by_path_world (a ∷ path) [] s w = refl
  swap_by_path_world (a ∷ path) (x ∷ amounts) s w = swap_hops_world a path x amounts s w

  -- all but the pools
  pub record SameFrame (s t : Dex W) : Type 0 where
    pub same_statuses : t.trading_pair_statuses ≡ s.trading_pair_statuses
    pub same_provisions : t.provisioning_pool ≡ s.provisioning_pool
    pub same_fee : t.get_exchange_fee ≡ s.get_exchange_fee

  swap_pools-SameFrame :
      (a b : CurrencyId) (x y : ℕ) (s : Dex W) → SameFrame s (swap_pools a b x y s)
  swap_pools-SameFrame a b x y s = elim (swap_pools_cases a b x y s) [
    | inl e ↦ rw e (record { same_statuses = refl; same_provisions = refl; same_fee = refl })
    | inr e ↦ rw e (record { same_statuses = refl; same_provisions = refl; same_fee = refl })
  ]

  swap_hops-SameFrame :
      (a : CurrencyId) (path : List CurrencyId) (x : ℕ) (ys : List ℕ) (s : Dex W)
      → SameFrame s (swap_hops a path x ys s)
  unfolding swap_hops
  swap_hops-SameFrame a [] x ys s = record {
    same_statuses = refl;
    same_provisions = refl;
    same_fee = refl;
  }
  swap_hops-SameFrame a (b ∷ path) x [] s = record {
    same_statuses = refl;
    same_provisions = refl;
    same_fee = refl;
  }
  swap_hops-SameFrame a (b ∷ path) x (y ∷ ys) s =
      let one = swap_pools-SameFrame a b x y s in
      let ih = swap_hops-SameFrame b path y ys (swap_pools a b x y s) in
      record {
        same_statuses = ih.same_statuses ∙ one.same_statuses;
        same_provisions = ih.same_provisions ∙ one.same_provisions;
        same_fee = ih.same_fee ∙ one.same_fee;
      }

  swap_by_path-SameFrame :
      (path : List CurrencyId) (amounts : List ℕ) (s : Dex W)
      → SameFrame s (swap_by_path path amounts s)
  unfolding swap_by_path
  swap_by_path-SameFrame [] amounts s = record {
    same_statuses = refl;
    same_provisions = refl;
    same_fee = refl;
  }
  swap_by_path-SameFrame (a ∷ path) [] s = record {
    same_statuses = refl;
    same_provisions = refl;
    same_fee = refl;
  }
  swap_by_path-SameFrame (a ∷ path) (x ∷ amounts) s = swap_hops-SameFrame a path x amounts s

-- From `s` to `t`, the swap of `who` along `path` with these amounts.
pub record Settled {O W : Type 0} (T : Config O W) (who : ℕ) (path : List CurrencyId)
    (amounts : List ℕ) (first last : CurrencyId) (x y : ℕ) (s t : Dex W) : Type 0 where
  pub from_first : get_elem? path 0 ≡ some first
  pub to_last : get_elem? path (length path - 1) ≡ some last
  pub paid : payments T who first x last y s.world ≡ ok t.world
  pub pools : t.liquidity_pool ≡ (swap_by_path path amounts s).liquidity_pool
  pub frame : SameFrame s t

module _ {O W : Type 0} (T : Config O W) where
  make-Settled :
      (who : ℕ) (path : List CurrencyId) (amounts : List ℕ) (x y : ℕ) (s : Dex W)
      (first last : CurrencyId) {w₁ w₂ : W} {t : Dex W}
      → get_elem? path 0 ≡ some first
      → get_elem? path (length path - 1) ≡ some last
      → T.transfer first who T.account_id x s.world ≡ ok w₁
      → T.transfer last T.account_id who y w₁ ≡ ok w₂
      → let S = swap_by_path path amounts s in
        t ≡ record S { world = w₂; events = S.events ++ (Event.swap who path x y ∷ []) }
        → Settled T who path amounts first last x y s t
  make-Settled who path amounts x y s first last e₁ e₂ e₃ e₄ q =
      let frame = swap_by_path-SameFrame path amounts s in
      rw q (record {
        from_first = e₁;
        to_last = e₂;
        paid = rw (e₃, payments) e₄;
        pools = refl;
        frame = record {
          same_statuses = frame.same_statuses;
          same_provisions = frame.same_provisions;
          same_fee = frame.same_fee;
        };
      })

  settle_tail :
      (who : ℕ) (path : List CurrencyId) (amounts : List ℕ) (x y v : ℕ) (s : Dex W) {r : ℕ}
      {t : Dex W}
      → (do
        first ← index path 0
        outside (T.transfer first who T.account_id x)
        modify (swap_by_path path amounts)
        last ← index path (length path - 1)
        outside (T.transfer last T.account_id who y)
        deposit_event (Event.swap who path x y)
        pure {S = Dex W} {E = Error} v)
          s
        ≡ ok (r, t)
      → (first last : CurrencyId) × (v ≡ r) × Settled T who path amounts first last x y s t
  settle_tail who path amounts x y v s {r} {t} e =
      let S = swap_by_path path amounts s in
      after_index path 0 _ s e λ first e₁ h₁.
        after_outside (T.transfer first who T.account_id x) _ s h₁ λ w₁ e₂ h₂.
          after_index path (length path - 1) _ (record S { world = w₁ })
            (rw (swap_by_path_world path amounts s w₁) at h₂)
            λ last e₃ h₃.
              after_outside (T.transfer last T.account_id who y) _ (record S { world = w₁ }) h₃
                λ w₂ e₄ h₄.
                  (first, last, cc, make-Settled who path amounts x y s first last e₁ e₃ e₂ e₄ (cc))

  -- A swap of an exact supply that succeeds has a quote for the path whose last amount is what it
  -- returns and at least the minimum; it has taken the supply in the first currency of the path,
  -- paid out that last amount in the last one, moved the pools hop by hop by the quote, and changed
  -- no status, provision or fee.
  pub do_swap_with_exact_supply-Settled :
      (who : ℕ) (path : List CurrencyId) (x least : ℕ) (limit : Option ℕ) (s : Dex W) {y : ℕ}
      {t : Dex W}
      → do_swap_with_exact_supply T who path x least limit s ≡ ok (y, t)
      → (amounts : List ℕ) × (first last : CurrencyId) × (get_target_amounts T path x limit s
          ≡ ok amounts)
        × (get_elem? amounts (length amounts - 1) ≡ some y)
        × (least ≤ y)
        × Settled T who path amounts first last x y s t
  unfolding do_swap_with_exact_supply
  do_swap_with_exact_supply-Settled who path x least limit s {y} {t} e =
      after_lift (get_target_amounts T path x limit s) _ s e λ amounts e₁ h₁.
        after_index amounts (length amounts - 1) _ s h₁ λ target e₂ h₂.
          after_ensure (leb least target) Error.insufficient_target_amount _ s h₂ λ e₃ h₃.
            let (first, last, q, done) = settle_tail who path amounts x target target s h₃ in
            (
              amounts,
              first,
              last,
              e₁,
              rw (← q) e₂,
              rw (← q) (leb→le least target e₃),
              subst (λ v. Settled T who path amounts first last x v s t) q done,
            )

  -- A swap for an exact target that succeeds has a quote for the path whose first amount is what it
  -- returns and at most the maximum; it has taken that amount in the first currency of the path,
  -- paid out the target in the last one, moved the pools hop by hop by the quote, and changed no
  -- status, provision or fee.
  pub do_swap_with_exact_target-Settled :
      (who : ℕ) (path : List CurrencyId) (y most : ℕ) (limit : Option ℕ) (s : Dex W) {x : ℕ}
      {t : Dex W}
      → do_swap_with_exact_target T who path y most limit s ≡ ok (x, t)
      → (amounts : List ℕ) × (first last : CurrencyId) × (get_supply_amounts T path y limit s
          ≡ ok amounts)
        × (get_elem? amounts 0 ≡ some x)
        × (x ≤ most)
        × Settled T who path amounts first last x y s t
  unfolding do_swap_with_exact_target
  do_swap_with_exact_target-Settled who path y most limit s {x} {t} e =
      after_lift (get_supply_amounts T path y limit s) _ s e λ amounts e₁ h₁.
        after_index amounts 0 _ s h₁ λ supply e₂ h₂.
          after_ensure (leb supply most) Error.excessive_supply_amount _ s h₂ λ e₃ h₃.
            let (first, last, q, done) = settle_tail who path amounts supply y supply s h₃ in
            (
              amounts,
              first,
              last,
              e₁,
              rw (← q) e₂,
              rw (← q) (leb→le supply most e₃),
              subst (λ v. Settled T who path amounts first last v y s t) q done,
            )
