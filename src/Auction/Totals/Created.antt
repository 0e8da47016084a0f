-- ===== src/Auction/Totals/Created.antt =====
-- A new auction adds what it is for to its total, also where it fails after that.
use setheum.Common.{
  ℕ, ◌+◌, ◌≤◌, ◌<◌, ◌≡◌, refl, subst, true, not, ◌&&◌, none, some, List, ok, err, Result, state_eq,
  ◌++◌, ◌∷◌, [], arith, is_zero, checked_add, update, insert, after_ensure, after_ok_or,
  IsBook-weaken, IsBook-create, IsBook-fresh, Apart-sym, Apart-insert,
}
use setheum.Primitives.Currency.{CurrencyId, currency_beq, contains}
use setheum.Primitives.Order.{currency_eq}
use setheum.Auction.Types.{
  DiamondAuctionItem, SetterAuctionItem, SerplusAuctionItem, Error, Event, Config, Auctions, Call,
}
use setheum.Auction.Steps.{after_allocate}
use setheum.Auction.Calls.{
  Partial, settle, atomic, continue, followed_by, end_block, raise_setter, place_diamond,
  new_diamond_auction, raise_settcurrency, allocate_now, place_setter, new_setter_auction,
  raise_serplus, place_serplus, new_serplus_auction, is_ok,
}
use setheum.Auction.Totals.{
  IssuesIds, Excess, more_setter, more_settcurrency, more_serplus, IsAccounted, added_in,
  elsewhere-IsAccounted, raise_setter-IsAccounted, raise_settcurrency-IsAccounted,
  raise_serplus-IsAccounted,
}

pub checked_add-eq_some : (a b : ℕ) {c : ℕ} → checked_add a b ≡ some c → c ≡ a + b
checked_add-eq_some a b e = ground arith

module _ {W : Type 0} {T : Config W} (ids : IssuesIds T) {x : Excess} {s : Auctions W}
    (h : IsAccounted ids x s) (es : List Event) (w : W) (id : ℕ) (old : ids.next_id s.world ≤ id)
    (new : id < ids.next_id w) where
  create_diamond-IsAccounted :
      (item : DiamondAuctionItem) (total : ℕ)
      → total ≡ s.total_setter_in_auction + item.fix
      → IsAccounted ids x (record s {
        diamond_auctions = insert id item s.diamond_auctions;
        total_setter_in_auction = total;
        events = es;
        world = w;
      })
  create_diamond-IsAccounted item total e = record {
    diamonds = IsBook-create h.diamonds (ids.next_id w) id item _ old new (λ _. e);
    setters = IsBook-weaken h.setters (ids.next_id w) (omega arith);
    serplus = IsBook-weaken h.serplus (ids.next_id w) (omega arith);
    diamond_setter = Apart-insert h.diamond_setter id item (IsBook-fresh h.setters id old);
    diamond_serplus = Apart-insert h.diamond_serplus id item (IsBook-fresh h.serplus id old);
    setter_serplus = h.setter_serplus;
  }

  create_setter-IsAccounted :
      (item : SetterAuctionItem) (total : ℕ)
      → total ≡ s.total_settcurrency_in_auction item.currency + item.fix
      → IsAccounted ids x (record s {
        setter_auctions = insert id item s.setter_auctions;
        total_settcurrency_in_auction = update s.total_settcurrency_in_auction item.currency total;
        events = es;
        world = w;
      })
  create_setter-IsAccounted item total e = record {
    diamonds = IsBook-weaken h.diamonds (ids.next_id w) (omega arith);
    setters =
        IsBook-create h.setters (ids.next_id w) id item _ old new
          (λ c. added_in s.total_settcurrency_in_auction item.currency item.fix total c e);
    serplus = IsBook-weaken h.serplus (ids.next_id w) (omega arith);
    diamond_setter =
        Apart-sym
          (Apart-insert (Apart-sym h.diamond_setter) id item (IsBook-fresh h.diamonds id old));
    diamond_serplus = h.diamond_serplus;
    setter_serplus = Apart-insert h.setter_serplus id item (IsBook-fresh h.serplus id old);
  }

  create_serplus-IsAccounted :
      (item : SerplusAuctionItem) (total : ℕ)
      → total ≡ s.total_serplus_in_auction item.currency + item.amount
      → IsAccounted ids x (record s {
        serplus_auctions = insert id item s.serplus_auctions;
        total_serplus_in_auction = update s.total_serplus_in_auction item.currency total;
        events = es;
        world = w;
      })
  create_serplus-IsAccounted item total e = record {
    diamonds = IsBook-weaken h.diamonds (ids.next_id w) (omega arith);
    setters = IsBook-weaken h.setters (ids.next_id w) (omega arith);
    serplus =
        IsBook-create h.serplus (ids.next_id w) id item _ old new
          (λ c. added_in s.total_serplus_in_auction item.currency item.amount total c e);
    diamond_setter = h.diamond_setter;
    diamond_serplus =
        Apart-sym
          (Apart-insert (Apart-sym h.diamond_serplus) id item (IsBook-fresh h.diamonds id old));
    setter_serplus =
        Apart-sym
          (Apart-insert (Apart-sym h.setter_serplus) id item (IsBook-fresh h.setters id old));
  }

module _ {W : Type 0} {T : Config W} (ids : IssuesIds T) where
  -- The storage is in order with some excess, which is `x` where the call has succeeded.
  abbrev pub Outcome : Excess → Result Error (Unit {0}) × Auctions W → Type 0
  Outcome x (r, t) = (x' : Excess) × IsAccounted ids x' t × (is_ok r ≡ true → x' ≡ x)

  -- an atomic first part, and what comes after it
  pub after_atomic :
      {A : Type 0} (m : Call W A) (k : A → Partial W (Unit {0})) (x x₀ : Excess) (s : Auctions W)
      → IsAccounted ids x₀ s
      → ((a : A) (t : Auctions W) → m s ≡ ok (a, t) → Outcome x (k a t))
      → Outcome x (followed_by (atomic m) k s)
  after_atomic {A} m k x x₀ s h next = split (m s) refl
    where
      split : (r : Result Error (A × Auctions W)) → m s ≡ r → Outcome x (continue k (settle s r))
      split (ok (a, t)) e = next a t e
      split (err _) e = (x₀, h, λ q. absurd (cc))

  -- an atomic last part
  pub atomic-Outcome :
      (m : Call W (Unit {0})) (x x₀ : Excess) (s : Auctions W)
      → IsAccounted ids x₀ s
      → ((t : Auctions W) → m s ≡ ok (tt, t) → IsAccounted ids x t)
      → Outcome x (atomic m s)
  atomic-Outcome m x x₀ s h next = split (m s) refl
    where
      split : (r : Result Error (Unit {0} × Auctions W)) → m s ≡ r → Outcome x (settle s r)
      split (ok (_, t)) e = (x, next t e, λ _. refl)
      split (err _) e = (x₀, h, λ q. absurd (cc))

module _ {W : Type 0} {T : Config W} (ids : IssuesIds T) {x : Excess} (s : Auctions W)
    (h : IsAccounted ids x s) where
  pub new_diamond_auction-Outcome :
      (amount fix : ℕ) → Outcome ids x (new_diamond_auction T amount fix s)
  unfolding new_diamond_auction
  new_diamond_auction-Outcome amount fix =
      after_atomic ids (raise_setter T amount fix) _ x x s h λ u t e.
        after_ensure (not (is_zero amount) && not (is_zero fix)) Error.invalid_amount _ s e λ _ h₁.
          after_ok_or (checked_add s.total_setter_in_auction fix) Error.invalid_amount _ s h₁
            λ total sum h₂.
              let s₁ : Auctions W = record s { total_setter_in_auction = total } in
              subst (λ t. Outcome ids x (atomic (place_diamond T amount fix) t)) (state_eq h₂)
                (placed total (checked_add-eq_some s.total_setter_in_auction fix sum))
    where
      placed :
          (total : ℕ)
          → total ≡ s.total_setter_in_auction + fix
          → Outcome ids x
              (atomic (place_diamond T amount fix) (record s { total_setter_in_auction = total }))
      placed total sum =
          let start = T.block_number s.world in
          let s₁ : Auctions W = record s { total_setter_in_auction = total } in
          atomic-Outcome ids (place_diamond T amount fix) x (more_setter fix x) s₁
            (raise_setter-IsAccounted ids h fix total sum)
            λ t e. after_allocate T start (end_block T start) _ s₁ e λ id w given h₃.
              let (old, new) = ids.new_auction_lem start (end_block T start) s.world given in
              subst (IsAccounted ids x) (state_eq h₃) (
                create_diamond-IsAccounted ids h
                  (s.events ++ (Event.new_diamond_auction id amount T.native_currency_id fix ∷ []))
                  w id old new
                  (record {
                    initial_amount = amount;
                    amount = amount;
                    fix = fix;
                    start_time = start;
                  })
                  total sum)

  pub new_setter_auction-Outcome :
      (amount fix : ℕ) (c : CurrencyId) → Outcome ids x (new_setter_auction T amount fix c s)
  unfolding new_setter_auction
  new_setter_auction-Outcome amount fix c =
      after_atomic ids (raise_settcurrency T amount fix c) _ x x s h λ u t e.
        after_ensure (not (is_zero amount) && not (is_zero fix)) Error.invalid_amount _ s e λ _ h₁.
          after_ensure (contains T.stable_currency_ids c) Error.invalid_currency_type _ s h₁ λ _ h₂.
            after_ok_or (checked_add (s.total_settcurrency_in_auction c) fix) Error.invalid_amount _
              s h₂
              λ total sum h₃.
                subst (λ t. Outcome ids x (rest t)) (state_eq h₃)
                  (placed total (checked_add-eq_some (s.total_settcurrency_in_auction c) fix sum))
    where
      rest : Partial W (Unit {0})
      rest =
          followed_by (atomic (allocate_now T)) λ given. atomic (place_setter T amount fix c given)

      placed :
          (total : ℕ)
          → total ≡ s.total_settcurrency_in_auction c + fix
          → Outcome ids x (
              rest (record s {
                total_settcurrency_in_auction = update s.total_settcurrency_in_auction c total;
              }))
      placed total sum =
          let start = T.block_number s.world in
          let s₁ : Auctions W = record s {
            total_settcurrency_in_auction = update s.total_settcurrency_in_auction c total;
          } in
          let h₁ = raise_settcurrency-IsAccounted ids h c fix total sum in
          let x₁ = more_settcurrency c fix x in
          after_atomic ids (allocate_now T) _ x x₁ s₁ h₁ λ a t e.
            after_allocate T start (end_block T start) _ s₁ e λ id w given h₂.
              let (old, new) = ids.new_auction_lem start (end_block T start) s.world given in
              let s₂ : Auctions W = record s₁ { world = w } in
              let same : (start, id) ≡ a = cc in
              rw (← same, ← state_eq h₂)
                (atomic-Outcome ids (place_setter T amount fix c (start, id)) x x₁ s₂
                  (elsewhere-IsAccounted ids h₁ s.events w (omega arith))
                  λ t e.
                    after_ensure (not (currency_beq c T.setter_currency_id))
                      Error.currency_not_accepted _ s₂ e
                      λ _ h₃. subst (IsAccounted ids x) (state_eq h₃) (
                        create_setter-IsAccounted ids h
                          (s.events ++ (Event.new_setter_auction id amount fix c ∷ [])) w id old new
                          (record {
                            initial_amount = amount;
                            amount = amount;
                            currency = c;
                            fix = fix;
                            start_time = start;
                          })
                          total sum))

  pub new_serplus_auction-Outcome :
      (amount : ℕ) (c : CurrencyId) → Outcome ids x (new_serplus_auction T amount c s)
  unfolding new_serplus_auction
  new_serplus_auction-Outcome amount c =
      after_atomic ids (raise_serplus T amount c) _ x x s h λ u t e.
        after_ensure (not (is_zero amount)) Error.invalid_amount _ s e λ _ h₁.
          after_ensure (contains T.stable_currency_ids c) Error.invalid_currency_type _ s h₁ λ _ h₂.
            after_ok_or (checked_add (s.total_serplus_in_auction c) amount) Error.invalid_amount _ s
              h₂
              λ total sum h₃.
                subst (λ t. Outcome ids x (atomic (place_serplus T amount c) t)) (state_eq h₃)
                  (placed total (checked_add-eq_some (s.total_serplus_in_auction c) amount sum))
    where
      placed :
          (total : ℕ)
          → total ≡ s.total_serplus_in_auction c + amount
          → Outcome ids x (
              atomic
                (place_serplus T amount c)
                (record s { total_serplus_in_auction = update s.total_serplus_in_auction c total }))
      placed total sum =
          let start = T.block_number s.world in
          let s₁ : Auctions W = record s {
            total_serplus_in_auction = update s.total_serplus_in_auction c total;
          } in
          atomic-Outcome ids (place_serplus T amount c) x (more_serplus c amount x) s₁
            (raise_serplus-IsAccounted ids h c amount total sum)
            λ t e. after_allocate T start none _ s₁ e λ id w given h₄.
              let (old, new) = ids.new_auction_lem start none s.world given in
              subst (IsAccounted ids x) (state_eq h₄) (
                create_serplus-IsAccounted ids h
                  (s.events ++ (Event.new_serplus_auction id amount c ∷ [])) w id old new
                  (record { amount = amount; currency = c; start_time = start }) total sum)
