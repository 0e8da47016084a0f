-- ===== src/Auction/Bids/Valid.antt =====
-- A bid that is high enough and can be paid for is accepted.
use native.Mathlib.Nat.{le_of_mul-le-mul_right}
use setheum.Common.{
  ℕ, ◌-◌, ◌*◌, ◌≤◌, ◌≡◌, ap, max, Bool, true, false, ◌&&◌, Option, none, some, Result, ok, arith,
  u128_max, checked_sub, insert, ◌∙◌, ensure-true, ok_or-some,
}
use setheum.Runtime.Numbers.{FixedPoint, IsRounded, accuracy}
use setheum.Auction.Types.{DiamondAuctionItem, Bid, Error, Config, Auctions, add_blocks}
use setheum.Auction.Steps.{outside_ok}
use setheum.Auction.Pricing.{
  amount_for_sale, both_reach, check_minimum_increment, last_price,
  get_diamond_auction_minimum_increment_size, get_auction_time_to_close,
}
use setheum.Auction.Bids.{
  is_some, diamond_auction, setter_auction, serplus_auction, Change, swap_bidders, pay_setter,
  is_valid_bid, diamond_auction_bid_handler, bid_by_kind, answered, on_new_bid,
}

-- A price that exceeds the last one by the increment passes the check.
check_minimum_increment-pass :
    (f : FixedPoint) (rules : IsRounded f) (new last target increment : ℕ)
    → increment * max target last ≤ u128_max
    → last ≤ new
    → increment * max target last ≤ (new - last) * accuracy
    → check_minimum_increment f new last target increment ≡ true
check_minimum_increment-pass f rules new last target increment fits le high =
    let (m, e) = rules.checked_mul_some increment (max target last) fits in
    let below = rules.checked_mul_le increment (max target last) fits e in
    let reach : m ≤ new - last =
      le_of_mul-le-mul_right {k = accuracy} (omega arith) (omega arith) in
    rw e (reached m reach)
  where
    reached : (m : ℕ) → m ≤ new - last → both_reach (some m) (checked_sub new last) ≡ true
    reached m h = ground arith

module _ {W : Type 0} (T : Config W) (rules : IsRounded T.fixed) where
  handler_ok :
      (now id who price : ℕ) (last_bid : Option Bid) (s : Auctions W) (item : DiamondAuctionItem)
      {w : W}
      → diamond_auction s id ≡ some item
      → is_valid_bid T
          (get_diamond_auction_minimum_increment_size T now item.start_time)
          item.fix
          (last_price last_bid)
          price
        ≡ true
      → pay_setter T who last_bid item.fix s.world ≡ ok w
      → diamond_auction_bid_handler T now id (who, price) last_bid s
        ≡ ok (
          add_blocks now (get_auction_time_to_close T now item.start_time),
          record s {
            diamond_auctions =
                insert id
                  (record item {
                    amount = amount_for_sale T.fixed item (last_price last_bid) price;
                  })
                  s.diamond_auctions;
            world = swap_bidders T who last_bid w;
          },
        )
  unfolding diamond_auction_bid_handler
  handler_ok now id who price last_bid s item found valid paid =
      ok_or-some (diamond_auction s id) Error.auction_non_existent _ s found
      ∙ ensure-true Error.invalid_bid_price _ s valid
      ∙ outside_ok (pay_setter T who last_bid item.fix) _ s paid

  -- A bid for a diamond auction that exists is accepted when its price is at least the fixed amount
  -- and exceeds the last price by the minimum increment, the product for the increment
  -- fits a u128, and the payment of the fixed amount succeeds; the auction ends the time to close after it.
  pub on_new_bid-accepts :
      (now id who price : ℕ) (last_bid : Option Bid) (s : Auctions W) (item : DiamondAuctionItem)
      {w : W}
      → diamond_auction s id ≡ some item
      → get_diamond_auction_minimum_increment_size T now item.start_time
          * max item.fix (last_price last_bid)
        ≤ u128_max
      → item.fix ≤ price
      → last_price last_bid ≤ price
      → get_diamond_auction_minimum_increment_size T now item.start_time
          * max item.fix (last_price last_bid)
        ≤ (price - last_price last_bid) * accuracy
      → pay_setter T who last_bid item.fix s.world ≡ ok w
      → on_new_bid T now id (who, price) last_bid s ≡ (
        record {
          accept_bid = true;
          auction_end_change =
              Change.new_value
                (some (add_blocks now (get_auction_time_to_close T now item.start_time)));
        },
        record s {
          diamond_auctions =
              insert id
                (record item { amount = amount_for_sale T.fixed item (last_price last_bid) price })
                s.diamond_auctions;
          world = swap_bidders T who last_bid w;
        },
      )
  unfolding on_new_bid
  on_new_bid-accepts now id who price last_bid s item {w} found fits met le high paid =
      let pass =
        check_minimum_increment-pass T.fixed rules price (last_price last_bid) item.fix
          (get_diamond_auction_minimum_increment_size T now item.start_time) fits le high in
      by_diamond (diamond_auction s id) found
        (handler_ok now id who price last_bid s item found (both _ pass (ground arith)) paid)
    where
      both : (a : Bool) {b : Bool} → a ≡ true → b ≡ true → (a && b) ≡ true
      both true e f = f
      both false e f = absurd (cc)

      by_diamond :
          (d : Option DiamondAuctionItem) {r : Result Error (ℕ × Auctions W)}
          → d ≡ some item
          → diamond_auction_bid_handler T now id (who, price) last_bid s ≡ r
          → answered s (
              bid_by_kind T
                (is_some d)
                (is_some (setter_auction s id))
                (is_some (serplus_auction s id))
                now
                id
                (who, price)
                last_bid
                s)
            ≡ answered s r
      by_diamond (some _) e h = ap (answered s) h
      by_diamond none e h = absurd (cc)
