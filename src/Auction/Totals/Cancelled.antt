-- ===== src/Auction/Totals/Cancelled.antt =====
-- What a successful cancellation has done, and what is left of one that fails.
use setheum.Common.{
  ℕ, ◌≤◌, ◌≡◌, refl, subst, Option, none, some, ok, err, Result, arith, remove, update,
  saturating_sub, after_action,
}
use setheum.Primitives.Order.{currency_eq}
use setheum.Auction.Types.{
  DiamondAuctionItem, SetterAuctionItem, SerplusAuctionItem, Bid, Error, Config, Auctions, Call,
}
use setheum.Auction.Steps.{after_outside}
use setheum.Auction.Bids.{diamond_auction, setter_auction, serplus_auction}
use setheum.Auction.Calls.{
  settle, atomic, continue, refund_bidder, get_last_bid, take_diamond, take_setter, take_serplus,
  cancel_by_kind, cancel_diamond_auction, cancel_setter_auction, cancel_serplus_auction,
  cancel_auction,
}
use setheum.Auction.Totals.{
  IssuesIds, Excess, more_setter, more_settcurrency, more_serplus, IsAccounted,
  close_diamond-IsAccounted, close_setter-IsAccounted, close_serplus-IsAccounted,
  take_diamond-IsAccounted, take_setter-IsAccounted, take_serplus-IsAccounted,
}
use setheum.Auction.Totals.Created.{Outcome}
use setheum.Auction.Totals.Closed.{IsClosed, without_diamond, without_setter_at, without_serplus_at}

module _ {W : Type 0} (T : Config W) where
  -- The last bidder, if there is one, has the refund and has lost the reference.
  abbrev pub Refunds : (ℕ → ℕ → W → Result ℕ W) → Option Bid → W → W → Type 0
  Refunds refund none w w' = w' ≡ w
  Refunds refund (some (who, price)) w w' =
      (m : W) × (refund who price w ≡ ok m) × (w' ≡ T.dec_consumers who m)

  -- From `s` to `t`, the auction `id` is gone from the first map that had it, the setter auctions
  -- first, its amount is off the total, and the bidder is refunded.
  pub data Cancelled (id : ℕ) (s t : Auctions W) : Type 0 where
    setter :
        (item : SetterAuctionItem) (w : W)
        → setter_auction s id ≡ some item
        → Refunds
            (λ who _. T.issue_propper item.currency who item.fix)
            (get_last_bid T id s.world)
            s.world
            w
        → t ≡ record s {
          setter_auctions = remove id s.setter_auctions;
          total_settcurrency_in_auction =
              update s.total_settcurrency_in_auction item.currency
                (saturating_sub (s.total_settcurrency_in_auction item.currency) item.fix);
          world = T.remove_auction id w;
        }
        → Cancelled id s t
    diamond :
        (item : DiamondAuctionItem) (w : W)
        → diamond_auction s id ≡ some item
        → Refunds (λ who _. T.issue_setter who item.fix) (get_last_bid T id s.world) s.world w
        → t ≡ record s {
          diamond_auctions = remove id s.diamond_auctions;
          total_setter_in_auction = saturating_sub s.total_setter_in_auction item.fix;
          world = T.remove_auction id w;
        }
        → Cancelled id s t
    serplus :
        (item : SerplusAuctionItem) (w : W)
        → serplus_auction s id ≡ some item
        → Refunds
            (λ who price. T.deposit T.native_currency_id who price)
            (get_last_bid T id s.world)
            s.world
            w
        → t ≡ record s {
          serplus_auctions = remove id s.serplus_auctions;
          total_serplus_in_auction =
              update s.total_serplus_in_auction item.currency
                (saturating_sub (s.total_serplus_in_auction item.currency) item.amount);
          world = T.remove_auction id w;
        }
        → Cancelled id s t

  refund_bidder-Refunds :
      (refund : ℕ → ℕ → W → Result ℕ W) (bid : Option Bid) (s : Auctions W) {u : Unit {0}}
      {t : Auctions W}
      → refund_bidder T refund bid s ≡ ok (u, t)
      → (w : W) × Refunds refund bid s.world w × (t ≡ record s { world = w })
  refund_bidder-Refunds refund none s e = (s.world, refl, cc)
  refund_bidder-Refunds refund (some (who, price)) s e =
      after_outside (refund who price) _ s e
        λ m paid h. (T.dec_consumers who m, (m, paid, refl), cc)

  -- an atomic part that has succeeded
  atomic-ok :
      {A : Type 0} (m : Call W A) (s : Auctions W) {a : A} {t : Auctions W}
      → atomic m s ≡ (ok a, t)
      → m s ≡ ok (a, t)
  atomic-ok {A} m s {a} {t} e = split (m s) e
    where
      split : (r : Result Error (A × Auctions W)) → settle s r ≡ (ok a, t) → r ≡ ok (a, t)
      split (ok (b, u)) e = cc
      split (err _) e = absurd (cc)

  cancel_by_kind-Cancelled :
      (id : ℕ) (s : Auctions W) (r : Option SetterAuctionItem) (d : Option DiamondAuctionItem)
      (p : Option SerplusAuctionItem) {u : Unit {0}} {t : Auctions W}
      → setter_auction s id ≡ r
      → diamond_auction s id ≡ d
      → serplus_auction s id ≡ p
      → cancel_by_kind T r d p id s ≡ (ok u, t)
      → Cancelled id s (record t { world = T.remove_auction id t.world })
  unfolding cancel_setter_auction cancel_diamond_auction cancel_serplus_auction
  cancel_by_kind-Cancelled id s (some item) d p e f g h =
      after_action
        (refund_bidder T (λ who _. T.issue_propper item.currency who item.fix)
          (get_last_bid T id s.world))
        _ (take_setter id s) (atomic-ok (cancel_setter_auction T id item) (take_setter id s) h)
        λ _ m paid h'.
          let (w, refunds, q) = refund_bidder-Refunds _ _ (take_setter id s) paid in
          Cancelled.setter item w e refunds (cc)
  cancel_by_kind-Cancelled id s none (some item) p e f g h =
      after_action
        (refund_bidder T (λ who _. T.issue_setter who item.fix) (get_last_bid T id s.world)) _
        (take_diamond id s) (atomic-ok (cancel_diamond_auction T id item) (take_diamond id s) h)
        λ _ m paid h'.
          let (w, refunds, q) = refund_bidder-Refunds _ _ (take_diamond id s) paid in
          Cancelled.diamond item w f refunds (cc)
  cancel_by_kind-Cancelled id s none none (some item) e f g h =
      after_action
        (refund_bidder T (λ who price. T.deposit T.native_currency_id who price)
          (get_last_bid T id s.world))
        _ (take_serplus id s) (atomic-ok (cancel_serplus_auction T id item) (take_serplus id s) h)
        λ _ m paid h'.
          let (w, refunds, q) = refund_bidder-Refunds _ _ (take_serplus id s) paid in
          Cancelled.serplus item w g refunds (cc)
  cancel_by_kind-Cancelled id s none none none e f g h = absurd (cc)

  pub cancel_auction-Cancelled :
      (id : ℕ) (s : Auctions W) {u : Unit {0}} {t : Auctions W}
      → cancel_auction T id s ≡ (ok u, t)
      → Cancelled id s t
  unfolding cancel_auction
  cancel_auction-Cancelled id s {u} {t} e = split (cancel_by_kind T r d p id s) refl e
    where
      r : Option SetterAuctionItem
      r = setter_auction s id

      d : Option DiamondAuctionItem
      d = diamond_auction s id

      p : Option SerplusAuctionItem
      p = serplus_auction s id

      split :
          (q : Result Error (Unit {0}) × Auctions W)
          → cancel_by_kind T r d p id s ≡ q
          → continue (λ _ s. (ok tt, record s { world = T.remove_auction id s.world })) q
            ≡ (ok u, t)
          → Cancelled id s t
      split (ok v, m) done h =
          subst (Cancelled id s) (cc) (cancel_by_kind-Cancelled id s r d p refl refl refl done)
      split (err _, m) done h = absurd (cc)

-- an atomic part that has failed
atomic-err :
    {W A : Type 0} (m : Call W A) (s : Auctions W) {e : Error} {t : Auctions W}
    → atomic m s ≡ (err e, t)
    → s ≡ t
atomic-err {W} {A} m s {e} {t} h = split (m s) h
  where
    split : (r : Result Error (A × Auctions W)) → settle s r ≡ (err e, t) → s ≡ t
    split (ok _) h = absurd (cc)
    split (err _) h = cc

module _ {W : Type 0} {T : Config W} (ids : IssuesIds T) where
  Refunds-le :
      (refund : ℕ → ℕ → W → Result ℕ W) (bid : Option Bid) (w w' : W)
      → ((who price : ℕ) (m : W) → refund who price w ≡ ok m → ids.next_id w ≤ ids.next_id m)
      → Refunds T refund bid w w'
      → ids.next_id w ≤ ids.next_id w'
  Refunds-le refund none w w' h e = rw e (omega arith)
  Refunds-le refund (some (who, price)) w w' h (m, paid, e) =
      rw e (omega (arith, h who price m paid, ids.dec_consumers_le who m))

  removed_le :
      (id : ℕ) (v w : W)
      → ids.next_id v ≤ ids.next_id w
      → ids.next_id v ≤ ids.next_id (T.remove_auction id w)
  removed_le id v w le = omega (arith, ids.remove_auction_le id w)

  -- A cancelled auction keeps the totals in order, and no map has its identifier.
  pub Cancelled-IsAccounted :
      {x : Excess} (id : ℕ) (s t : Auctions W)
      → IsAccounted ids x s
      → Cancelled T id s t
      → IsAccounted ids x t × IsClosed id t
  Cancelled-IsAccounted id s t h (Cancelled.setter item w found refunds e) = rw e (
    close_setter-IsAccounted ids h s.events (T.remove_auction id w) id item
        (removed_le id s.world w (
          Refunds-le _ (get_last_bid T id s.world) s.world w
            (λ who _ _. ids.issue_propper_le item.currency who item.fix s.world) refunds))
        found,
    without_setter_at h found,
  )
  Cancelled-IsAccounted id s t h (Cancelled.diamond item w found refunds e) = rw e (
    close_diamond-IsAccounted ids h s.events (T.remove_auction id w) id item
        (removed_le id s.world w (
          Refunds-le _ (get_last_bid T id s.world) s.world w
            (λ who _ _. ids.issue_setter_le who item.fix s.world) refunds))
        found,
    without_diamond h found,
  )
  Cancelled-IsAccounted id s t h (Cancelled.serplus item w found refunds e) = rw e (
    close_serplus-IsAccounted ids h s.events (T.remove_auction id w) id item
        (removed_le id s.world w (
          Refunds-le _ (get_last_bid T id s.world) s.world w
            (λ who price _. ids.deposit_le T.native_currency_id who price s.world) refunds))
        found,
    without_serplus_at h found,
  )

  -- A cancellation that fails after it has taken the item leaves its amount in the total.
  cancel_by_kind-failed :
      {x : Excess} (id : ℕ) (s : Auctions W) (r : Option SetterAuctionItem)
      (d : Option DiamondAuctionItem) (p : Option SerplusAuctionItem) {e : Error} {t : Auctions W}
      → IsAccounted ids x s
      → setter_auction s id ≡ r
      → diamond_auction s id ≡ d
      → serplus_auction s id ≡ p
      → cancel_by_kind T r d p id s ≡ (err e, t)
      → (x' : Excess) × IsAccounted ids x' t
  cancel_by_kind-failed {x} id s (some item) d p a e f g h = (
    more_settcurrency item.currency item.fix x,
    rw (← atomic-err (cancel_setter_auction T id item) (take_setter id s) h)
        (take_setter-IsAccounted ids a id item e),
  )
  cancel_by_kind-failed {x} id s none (some item) p a e f g h = (
    more_setter item.fix x,
    rw (← atomic-err (cancel_diamond_auction T id item) (take_diamond id s) h)
        (take_diamond-IsAccounted ids a id item f),
  )
  cancel_by_kind-failed {x} id s none none (some item) a e f g h = (
    more_serplus item.currency item.amount x,
    rw (← atomic-err (cancel_serplus_auction T id item) (take_serplus id s) h)
        (take_serplus-IsAccounted ids a id item g),
  )
  cancel_by_kind-failed {x} id s none none none {t = t} a e f g h =
      let same : s ≡ t = cc in (x, rw (← same) a)

  pub cancel_auction-Outcome :
      {x : Excess} (id : ℕ) (s : Auctions W)
      → IsAccounted ids x s
      → Outcome ids x (cancel_auction T id s)
  unfolding cancel_auction
  cancel_auction-Outcome {x} id s h = split (cancel_by_kind T r d p id s) refl
    where
      r : Option SetterAuctionItem
      r = setter_auction s id

      d : Option DiamondAuctionItem
      d = diamond_auction s id

      p : Option SerplusAuctionItem
      p = serplus_auction s id

      split :
          (q : Result Error (Unit {0}) × Auctions W)
          → cancel_by_kind T r d p id s ≡ q
          → Outcome ids x
              (continue (λ _ s. (ok tt, record s { world = T.remove_auction id s.world })) q)
      split (ok _, m) e =
          let done = cancel_by_kind-Cancelled T id s r d p refl refl refl e in
          (x, (Cancelled-IsAccounted id s _ h done).0, λ _. refl)
      split (err _, m) e =
          let (x', a) = cancel_by_kind-failed id s r d p h refl refl refl e in
          (x', a, λ q. absurd (cc))
