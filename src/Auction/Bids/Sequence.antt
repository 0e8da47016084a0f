-- ===== src/Auction/Bids/Sequence.antt =====
-- A sequence of bids for one diamond auction, each after the last accepted one.
use setheum.Common.{
  ℕ, ◌*◌, ◌≤◌, ◌≡◌, refl, sym, ap, subst, ◌∙◌, max, Bool, true, false, All, Option, some, List, [],
  ◌∷◌, arith, if◌then◌else◌, ◌⊎◌, inl, inr, u128_max, lookup, lookup-insert,
}
use setheum.Runtime.Numbers.{IsRounded, accuracy}
use setheum.Auction.Types.{DiamondAuctionItem, Bid, Config, Auctions}
use setheum.Auction.Pricing.{amount_for_sale, last_price}
use setheum.Auction.Pricing.Bounds.{priced_amount-bound}
use setheum.Auction.Bids.{diamond_auction, Change, OnNewBidResult, on_new_bid}
use setheum.Auction.Bids.Handlers.{DiamondBid}
use setheum.Auction.Bids.Accepted.{AcceptedBid, on_new_bid-AcceptedBid}

-- From one item and last bid to another, the fixed amount is the same, neither the amount for sale
-- nor its value at the higher of the last price and the fixed amount has gone up, and the price
-- has not gone down.
pub record Cheaper (item : DiamondAuctionItem) (last_bid : Option Bid) (item' : DiamondAuctionItem)
    (last_bid' : Option Bid) : Type 0 where
  pub same_initial : item'.initial_amount ≡ item.initial_amount
  pub same_fix : item'.fix ≡ item.fix
  pub same_start : item'.start_time ≡ item.start_time
  pub amount_le : item'.amount ≤ item.amount
  pub value_le :
      item'.amount * max (last_price last_bid') item'.fix
      ≤ item.amount * max (last_price last_bid) item.fix
  pub price_le : last_price last_bid ≤ last_price last_bid'

Cheaper-refl :
    (item : DiamondAuctionItem) (last_bid : Option Bid) → Cheaper item last_bid item last_bid
Cheaper-refl item last_bid = record {
  same_initial = refl;
  same_fix = refl;
  same_start = refl;
  amount_le = omega arith;
  value_le = omega arith;
  price_le = omega arith;
}

Cheaper-trans :
    {a b c : DiamondAuctionItem} {x y z : Option Bid}
    → Cheaper a x b y
    → Cheaper b y c z
    → Cheaper a x c z
Cheaper-trans p q = record {
  same_initial = q.same_initial ∙ p.same_initial;
  same_fix = q.same_fix ∙ p.same_fix;
  same_start = q.same_start ∙ p.same_start;
  amount_le = omega (arith, p.amount_le, q.amount_le);
  value_le = omega (arith, p.value_le, q.value_le);
  price_le = omega (arith, p.price_le, q.price_le);
}

module _ {W : Type 0} (T : Config W) where
  -- The bids in their order, with the block of each: an accepted bid is the last bid of the next.
  abbrev pub bid_all : ℕ → List (ℕ × Bid) → Option Bid → Auctions W → Option Bid × Auctions W
  bid_all id [] last_bid s = (last_bid, s)
  bid_all id ((now, new_bid) ∷ bids) last_bid s =
      bid_all id bids
        (if (on_new_bid T now id new_bid last_bid s).0.accept_bid then some new_bid else last_bid)
        (on_new_bid T now id new_bid last_bid s).1

  module _ (rules : IsRounded T.fixed) where
    offer-Cheaper :
        (item : DiamondAuctionItem) (last_bid : Option Bid) (who price : ℕ)
        → item.amount * accuracy ≤ u128_max
        → max (last_price last_bid) item.fix * accuracy ≤ u128_max
        → item.fix ≤ price
        → last_price last_bid ≤ price
        → Cheaper item last_bid
            (record item { amount = amount_for_sale T.fixed item (last_price last_bid) price })
            (some (who, price))
    offer-Cheaper item last_bid who price fits in_range met le =
        let (a, v) =
          priced_amount-bound T.fixed rules item.amount item.fix (last_price last_bid) price fits
            in_range (omega arith) in
        let top : max price item.fix ≡ price = omega arith in
        record {
          same_initial = refl;
          same_fix = refl;
          same_start = refl;
          amount_le = a;
          value_le = rw top v;
          price_le = le;
        }

    -- the item after an accepted bid
    DiamondBid-Cheaper :
        {now id who price end_time : ℕ} {last_bid : Option Bid} {s t : Auctions W}
        (item : DiamondAuctionItem)
        → diamond_auction s id ≡ some item
        → item.amount * accuracy ≤ u128_max
        → max (last_price last_bid) item.fix * accuracy ≤ u128_max
        → DiamondBid T now id who price last_bid s t end_time
        → (item' : DiamondAuctionItem) × (diamond_auction t id ≡ some item')
          × Cheaper item last_bid item' (some (who, price))
    DiamondBid-Cheaper {now} {id} {who} {price} {end_time} {last_bid} {s} {t} item found fits
          in_range bid =
        let same : item ≡ bid.item = cc in
        subst
          (λ item.
            (item' : DiamondAuctionItem) × (diamond_auction t id ≡ some item')
            × Cheaper item last_bid item' (some (who, price)))
          (sym same)
          (
            record bid.item {
              amount = amount_for_sale T.fixed bid.item (last_price last_bid) price;
            },
            ap (λ (t : Auctions W). lookup id t.diamond_auctions) bid.changed
                ∙ lookup-insert id _ s.diamond_auctions,
            offer-Cheaper bid.item last_bid who price (rw (← same) fits) (rw (← same) in_range)
                bid.fix_met bid.at_least,
          )

    one_bid-Cheaper :
        (now id : ℕ) (new_bid : Bid) (last_bid : Option Bid) (s : Auctions W)
        (item : DiamondAuctionItem)
        → diamond_auction s id ≡ some item
        → item.amount * accuracy ≤ u128_max
        → max (last_price last_bid) item.fix * accuracy ≤ u128_max
        → (let (answer, t) = on_new_bid T now id new_bid last_bid s in
            (item' : DiamondAuctionItem) × (diamond_auction t id ≡ some item')
            × Cheaper item last_bid item' (if answer.accept_bid then some new_bid else last_bid))
    one_bid-Cheaper now id (who, price) last_bid s item found fits in_range =
        let (answer, t) = on_new_bid T now id (who, price) last_bid s in
        split answer t (on_new_bid-AcceptedBid T now id who price last_bid s)
      where
        after :
            (t : Auctions W) (end_time : ℕ)
            → AcceptedBid T now id who price last_bid s t end_time
            → (item' : DiamondAuctionItem) × (diamond_auction t id ≡ some item')
              × Cheaper item last_bid item' (some (who, price))
        after t end_time (AcceptedBid.diamond bid) = DiamondBid-Cheaper item found fits in_range bid
        after t end_time (AcceptedBid.setter e _) = absurd (cc)
        after t end_time (AcceptedBid.serplus e _ _) = absurd (cc)

        split :
            (answer : OnNewBidResult) (t : Auctions W)
            → (((answer ≡ record { accept_bid = false; auction_end_change = Change.no_change })
                  × (t ≡ s))
                ⊎ ((end_time : ℕ) × (answer ≡ record {
                  accept_bid = true;
                  auction_end_change = Change.new_value (some end_time);
                })
                    × AcceptedBid T now id who price last_bid s t end_time))
            → (item' : DiamondAuctionItem) × (diamond_auction t id ≡ some item')
              × Cheaper item last_bid item'
                  (if answer.accept_bid then some (who, price) else last_bid)
        split answer t (inl (e, f)) = rw (e, f) (item, found, Cheaper-refl item last_bid)
        split answer t (inr (end_time, e, bid)) = rw e (after t end_time bid)

    still_in_range :
        (b : Bool) (new_bid : Bid) (last_bid : Option Bid) (fix : ℕ)
        → new_bid.1 * accuracy ≤ u128_max
        → max (last_price last_bid) fix * accuracy ≤ u128_max
        → max (last_price (if b then some new_bid else last_bid)) fix * accuracy ≤ u128_max
    still_in_range true new_bid last_bid fix new old = ground arith
    still_in_range false new_bid last_bid fix new old = old

    -- In any sequence of bids for a diamond auction that exists, where an accepted bid is the last
    -- bid of the next, the auction stays, with the same initial amount, fixed amount and start, the
    -- last price does not go down, and neither the amount for sale goes up nor its product with the
    -- last price (with the fixed amount, while the price is below it), if the amount for sale, the
    -- fixed amount and every price fit a fixed-point number.
    pub bid_all-Cheaper :
        (id : ℕ) (bids : List (ℕ × Bid)) (last_bid : Option Bid) (s : Auctions W)
        (item : DiamondAuctionItem)
        → diamond_auction s id ≡ some item
        → item.amount * accuracy ≤ u128_max
        → max (last_price last_bid) item.fix * accuracy ≤ u128_max
        → All (λ (_, (_, price)). price * accuracy ≤ u128_max) bids
        → (let (last_bid', t) = bid_all id bids last_bid s in
            (item' : DiamondAuctionItem) × (diamond_auction t id ≡ some item')
            × Cheaper item last_bid item' last_bid')
    bid_all-Cheaper id [] last_bid s item found fits in_range all =
        (item, found, Cheaper-refl item last_bid)
    bid_all-Cheaper id ((now, new_bid) ∷ bids) last_bid s item found fits in_range all =
        let (mid, now_at, first) =
          one_bid-Cheaper now id new_bid last_bid s item found fits in_range in
        let (item', at, rest) =
          bid_all-Cheaper id bids _ _ mid now_at (omega (arith, first.amount_le))
            (rw first.same_fix (
              still_in_range (on_new_bid T now id new_bid last_bid s).0.accept_bid new_bid last_bid
                item.fix all.0 in_range))
            all.1 in
        (item', at, Cheaper-trans first rest)
