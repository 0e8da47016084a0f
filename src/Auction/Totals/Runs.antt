-- ===== src/Auction/Totals/Runs.antt =====
-- What every sequence of operations keeps of the totals, and a closed auction takes no part any
-- more.
use setheum.Common.{
  ℕ, ◌≡◌, refl, ◌∙◌, Bool, true, false, ◌&&◌, Option, List, [], ◌∷◌, ok, err, inl, inr,
}
use setheum.Auction.Types.{Bid, Error, Config, Auctions}
use setheum.Auction.Bids.{Change, on_new_bid}
use setheum.Auction.Bids.Accepted.{on_new_bid-AcceptedBid}
use setheum.Auction.Calls.{
  AuctionCall, step, run, is_ok, none_fails, cancel_auction, on_auction_ended,
}
use setheum.Auction.Totals.{IssuesIds, Excess, IsAccounted}
use setheum.Auction.Totals.Created.{
  Outcome, new_diamond_auction-Outcome, new_setter_auction-Outcome, new_serplus_auction-Outcome,
}
use setheum.Auction.Totals.Closed.{
  IsClosed, on_auction_ended-IsAccounted, on_auction_ended-IsClosed,
}
use setheum.Auction.Totals.Cancelled.{
  Cancelled, cancel_auction-Cancelled, Cancelled-IsAccounted, cancel_auction-Outcome,
}
use setheum.Auction.Totals.Bidding.{AcceptedBid-IsAccounted}

module _ {W : Type 0} {T : Config W} (ids : IssuesIds T) where
  on_new_bid-IsAccounted :
      {x : Excess} (now id who price : ℕ) (last_bid : Option Bid) (s : Auctions W)
      → IsAccounted ids x s
      → IsAccounted ids x (on_new_bid T now id (who, price) last_bid s).1
  on_new_bid-IsAccounted now id who price last_bid s h =
      elim (on_new_bid-AcceptedBid T now id who price last_bid s) [
        | inl (_, e) ↦ rw e h
        | inr (_, _, bid) ↦ AcceptedBid-IsAccounted ids h bid
      ]

  step-Outcome :
      {x : Excess} (c : AuctionCall) (s : Auctions W)
      → IsAccounted ids x s
      → Outcome ids x (step T c s)
  step-Outcome (AuctionCall.new_diamond amount fix) s h =
      new_diamond_auction-Outcome ids s h amount fix
  step-Outcome (AuctionCall.new_setter amount fix c) s h =
      new_setter_auction-Outcome ids s h amount fix c
  step-Outcome (AuctionCall.new_serplus amount c) s h = new_serplus_auction-Outcome ids s h amount c
  step-Outcome (AuctionCall.cancel id) s h = cancel_auction-Outcome ids id s h
  step-Outcome {x} (AuctionCall.bid now id (who, price) last_bid) s h =
      (x, on_new_bid-IsAccounted now id who price last_bid s h, λ _. refl)
  step-Outcome {x} (AuctionCall.ended id winner) s h =
      (x, on_auction_ended-IsAccounted ids id winner s h, λ _. refl)

  both_true : (a b : Bool) → (a && b) ≡ true → (a ≡ true) × (b ≡ true)
  both_true true b e = (refl, e)
  both_true false b e = absurd (cc)

  -- Where the auction pallet issues no identifier twice, every sequence of operations (auctions
  -- made, bid for, ended and cancelled), from a storage in which this holds, keeps each total (of
  -- the diamond auctions, and in each currency of the setter and of the serplus auctions) the sum
  -- of the amounts of its auctions and an excess that is not negative, and no identifier in two
  -- maps. The excess stays what it was when no creation and no cancellation fails: one that fails
  -- keeps what it has written.
  pub run-IsAccounted :
      (calls : List AuctionCall) (x : Excess) (s : Auctions W)
      → IsAccounted ids x s
      → (x' : Excess) × IsAccounted ids x' (run T calls s) × (none_fails T calls s ≡ true → x' ≡ x)
  run-IsAccounted [] x s h = (x, h, λ _. refl)
  run-IsAccounted (c ∷ cs) x s h =
      let (x₁, h₁, e₁) = step-Outcome c s h in
      let (x₂, h₂, e₂) = run-IsAccounted cs x₁ (step T c s).1 h₁ in
      (
        x₂,
        h₂,
        λ q.
            let (a, b) = both_true (is_ok (step T c s).0) (none_fails T cs (step T c s).1) q in
            e₂ b ∙ e₁ a,
      )

module _ {W : Type 0} (T : Config W) (id : ℕ) (s : Auctions W) where
  -- No bid for the auction is accepted, and it cannot be cancelled.
  pub record IsFinal : Type 0 where
    pub no_bid :
        (now : ℕ) (new_bid : Bid) (last_bid : Option Bid)
        → on_new_bid T now id new_bid last_bid s
          ≡ (record { accept_bid = false; auction_end_change = Change.no_change }, s)
    pub no_cancel : cancel_auction T id s ≡ (err Error.auction_non_existent, s)

  IsClosed-IsFinal : IsClosed id s → IsFinal
  unfolding on_new_bid cancel_auction
  IsClosed-IsFinal h = record {
    no_bid = λ now new_bid last_bid. rw (h.no_diamond, h.no_setter, h.no_serplus) refl;
    no_cancel = rw (h.no_diamond, h.no_setter, h.no_serplus) refl;
  }

module _ {W : Type 0} {T : Config W} (ids : IssuesIds T) {x : Excess} (id : ℕ) (s : Auctions W)
    (h : IsAccounted ids x s) where
  -- From a storage in order, an auction that has ended is final: it takes no bid and cannot be
  -- cancelled.
  pub on_auction_ended-IsFinal :
      (winner : Option Bid) → IsFinal T id (on_auction_ended T id winner s)
  on_auction_ended-IsFinal winner =
      IsClosed-IsFinal T id (on_auction_ended T id winner s)
        (on_auction_ended-IsClosed ids id winner s h)

  -- From a storage in order, a successful cancellation was of an auction in one of the maps, has
  -- refunded the last bidder if there is one (the fixed amount in its currency, or the price of a
  -- serplus auction), has taken the auction off its total and changed nothing else, and the
  -- auction takes no bid and cannot be cancelled again.
  pub cancel_auction-IsFinal :
      {u : Unit {0}} {t : Auctions W}
      → cancel_auction T id s ≡ (ok u, t)
      → Cancelled T id s t × IsFinal T id t
  cancel_auction-IsFinal {u} {t} e =
      let done = cancel_auction-Cancelled T id s e in
      (done, IsClosed-IsFinal T id t (Cancelled-IsAccounted ids id s t h done).1)
