-- ===== src/Auction/Bids/Accepted.antt =====
-- What an accepted bid has done.
use setheum.Common.{ℕ, ◌≡◌, refl, true, false, Option, none, some, Result, ok, err, ◌⊎◌, inl, inr}
use setheum.Auction.Types.{
  DiamondAuctionItem, SetterAuctionItem, SerplusAuctionItem, Bid, Error, Config, Auctions,
}
use setheum.Auction.Bids.Handlers.{
  DiamondBid, SetterBid, SerplusBid, diamond_auction_bid_handler-DiamondBid,
  setter_auction_bid_handler-SetterBid, serplus_auction_bid_handler-SerplusBid,
}
use setheum.Auction.Bids.{
  is_some, diamond_auction, setter_auction, serplus_auction, Change, bid_by_kind, bid_result,
  answered, on_new_bid,
}

module _ {W : Type 0} (T : Config W) where
  -- An accepted bid is one of the three, by the map that has the auction, the diamond auctions
  -- first.
  pub data AcceptedBid (now id who price : ℕ) (last_bid : Option Bid) (s t : Auctions W)
      (end_time : ℕ) : Type 0 where
    diamond :
        DiamondBid T now id who price last_bid s t end_time
        → AcceptedBid now id who price last_bid s t end_time
    setter :
        diamond_auction s id ≡ none
        → SetterBid T now id who price last_bid s t end_time
        → AcceptedBid now id who price last_bid s t end_time
    serplus :
        diamond_auction s id ≡ none
        → setter_auction s id ≡ none
        → SerplusBid T now id who price last_bid s t end_time
        → AcceptedBid now id who price last_bid s t end_time

  bid_by_kind-AcceptedBid :
      (now id who price : ℕ) (last_bid : Option Bid) (s : Auctions W) {end_time : ℕ}
      {t : Auctions W} (d : Option DiamondAuctionItem) (r : Option SetterAuctionItem)
      (p : Option SerplusAuctionItem)
      → diamond_auction s id ≡ d
      → setter_auction s id ≡ r
      → bid_by_kind T (is_some d) (is_some r) (is_some p) now id (who, price) last_bid s
        ≡ ok (end_time, t)
      → AcceptedBid now id who price last_bid s t end_time
  bid_by_kind-AcceptedBid now id who price last_bid s (some _) r p e f h =
      AcceptedBid.diamond (diamond_auction_bid_handler-DiamondBid T now id who price last_bid s h)
  bid_by_kind-AcceptedBid now id who price last_bid s none (some _) p e f h =
      AcceptedBid.setter e (setter_auction_bid_handler-SetterBid T now id who price last_bid s h)
  bid_by_kind-AcceptedBid now id who price last_bid s none none (some _) e f h =
      AcceptedBid.serplus e f
        (serplus_auction_bid_handler-SerplusBid T now id who price last_bid s h)
  bid_by_kind-AcceptedBid now id who price last_bid s none none none e f h = absurd (cc)

  -- A bid is refused, with the storage as it was, or accepted by one of the handlers.
  pub on_new_bid-AcceptedBid :
      (now id who price : ℕ) (last_bid : Option Bid) (s : Auctions W)
      → (let (answer, t) = on_new_bid T now id (who, price) last_bid s in
          ((answer ≡ record { accept_bid = false; auction_end_change = Change.no_change })
            × (t ≡ s))
          ⊎ ((end_time : ℕ) × (answer ≡ record {
            accept_bid = true;
            auction_end_change = Change.new_value (some end_time);
          })
              × AcceptedBid now id who price last_bid s t end_time))
  unfolding on_new_bid
  on_new_bid-AcceptedBid now id who price last_bid s =
      split (bid_result T now id (who, price) last_bid s) refl
    where
      split :
          (r : Result Error (ℕ × Auctions W))
          → bid_result T now id (who, price) last_bid s ≡ r
          → (let (answer, t) = answered s r in
              ((answer ≡ record { accept_bid = false; auction_end_change = Change.no_change })
                × (t ≡ s))
              ⊎ ((end_time : ℕ) × (answer ≡ record {
                accept_bid = true;
                auction_end_change = Change.new_value (some end_time);
              })
                  × AcceptedBid now id who price last_bid s t end_time))
      split (err _) e = inl (refl, refl)
      split (ok (end_time, t)) e = inr (
        end_time,
        refl,
        bid_by_kind-AcceptedBid now id who price last_bid s (diamond_auction s id)
            (setter_auction s id) (serplus_auction s id) refl refl e,
      )
