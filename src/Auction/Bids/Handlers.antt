-- ===== src/Auction/Bids/Handlers.antt =====
-- What each handler of a bid has done when it succeeds.
use setheum.Common.{
  ℕ, ◌+◌, ◌≤◌, ◌≡◌, refl, Bool, true, false, not, ◌&&◌, Option, none, some, ok, arith, leb, is_zero,
  insert, after_ensure, after_ok_or,
}
use setheum.Primitives.Currency.{contains}
use setheum.Auction.Types.{
  DiamondAuctionItem, SetterAuctionItem, SerplusAuctionItem, Bid, Error, Config, Auctions,
  add_blocks,
}
use setheum.Auction.Steps.{after_outside}
use setheum.Auction.Pricing.{
  amount_for_sale, setter_amount_for_sale, check_minimum_increment, last_price,
  get_diamond_auction_minimum_increment_size, get_setter_auction_minimum_increment_size,
  get_serplus_auction_minimum_increment_size, get_auction_time_to_close,
}
use setheum.Auction.Pricing.Bounds.{check_minimum_increment-at_least}
use setheum.Auction.Bids.{
  diamond_auction, setter_auction, serplus_auction, swap_bidders, pay_setter, pay_settcurrency,
  is_valid_bid, refund_last, burn_amount, diamond_auction_bid_handler, setter_auction_bid_handler,
  serplus_auction_bid_handler,
}

module _ {W : Type 0} (T : Config W) where
  -- From `s` to `t`, `who` has bid `price` for the diamond auction `id`.
  pub record DiamondBid (now id who price : ℕ) (last_bid : Option Bid) (s t : Auctions W)
      (end_time : ℕ) : Type 0 where
    pub item : DiamondAuctionItem
    pub found : diamond_auction s id ≡ some item
    pub fix_met : item.fix ≤ price
    pub at_least : last_price last_bid ≤ price
    pub paid_world : W
    pub paid : pay_setter T who last_bid item.fix s.world ≡ ok paid_world
    pub changed : t ≡ record s {
      diamond_auctions =
          insert id
            (record item { amount = amount_for_sale T.fixed item (last_price last_bid) price })
            s.diamond_auctions;
      world = swap_bidders T who last_bid paid_world;
    }
    pub ends : end_time ≡ add_blocks now (get_auction_time_to_close T now item.start_time)

  pub record SetterBid (now id who price : ℕ) (last_bid : Option Bid) (s t : Auctions W)
      (end_time : ℕ) : Type 0 where
    pub item : SetterAuctionItem
    pub found : setter_auction s id ≡ some item
    pub fix_met : item.fix ≤ price
    pub at_least : last_price last_bid ≤ price
    pub listed : contains T.stable_currency_ids item.currency ≡ true
    pub paid_world : W
    pub paid : pay_settcurrency T item.currency who last_bid item.fix s.world ≡ ok paid_world
    pub changed : t ≡ record s {
      setter_auctions =
          insert id
            (record item {
              amount = setter_amount_for_sale T.fixed item (last_price last_bid) price;
            })
            s.setter_auctions;
      world = swap_bidders T who last_bid paid_world;
    }
    pub ends : end_time ≡ add_blocks now (get_auction_time_to_close T now item.start_time)

  -- The last bidder gets the last price back, and the rest of the new price is burnt.
  pub record SerplusBid (now id who price : ℕ) (last_bid : Option Bid) (s t : Auctions W)
      (end_time : ℕ) : Type 0 where
    pub item : SerplusAuctionItem
    pub found : serplus_auction s id ≡ some item
    pub not_zero : is_zero price ≡ false
    pub at_least : last_price last_bid ≤ price
    pub refunded_world : W
    pub refunded : refund_last T who last_bid s.world ≡ ok refunded_world
    pub burnt : ℕ
    pub splits : last_price last_bid + burnt ≡ price
    pub burnt_world : W
    pub burns : T.withdraw T.native_currency_id who burnt refunded_world ≡ ok burnt_world
    pub changed : t ≡ record s { world = swap_bidders T who last_bid burnt_world }
    pub ends : end_time ≡ add_blocks now (get_auction_time_to_close T now item.start_time)

  both_hold : (a : Bool) (fix price : ℕ) → (a && leb fix price) ≡ true → (a ≡ true) × (fix ≤ price)
  both_hold true fix price e = (refl, ground arith)
  both_hold false fix price e = absurd (cc)

  burnt_splits :
      (last_bid : Option Bid) (price : ℕ)
      → last_price last_bid ≤ price
      → last_price last_bid + burn_amount price last_bid ≡ price
  burnt_splits none price le = omega arith
  burnt_splits (some (_, last)) price le = omega arith

  pub diamond_auction_bid_handler-DiamondBid :
      (now id who price : ℕ) (last_bid : Option Bid) (s : Auctions W) {end_time : ℕ}
      {t : Auctions W}
      → diamond_auction_bid_handler T now id (who, price) last_bid s ≡ ok (end_time, t)
      → DiamondBid now id who price last_bid s t end_time
  unfolding diamond_auction_bid_handler
  diamond_auction_bid_handler-DiamondBid now id who price last_bid s e =
      after_ok_or (diamond_auction s id) Error.auction_non_existent _ s e λ item found h₁.
        after_ensure
          (is_valid_bid T (get_diamond_auction_minimum_increment_size T now item.start_time)
            item.fix (last_price last_bid) price)
          Error.invalid_bid_price _ s h₁
          λ valid h₂. after_outside (pay_setter T who last_bid item.fix) _ s h₂ λ w paid h₃.
            let (check, met) = both_hold _ item.fix price valid in
            record {
              item = item;
              found = found;
              fix_met = met;
              at_least =
                  check_minimum_increment-at_least T.fixed price (last_price last_bid) item.fix _
                    check;
              paid_world = w;
              paid = paid;
              changed = cc;
              ends = cc;
            }

  pub setter_auction_bid_handler-SetterBid :
      (now id who price : ℕ) (last_bid : Option Bid) (s : Auctions W) {end_time : ℕ}
      {t : Auctions W}
      → setter_auction_bid_handler T now id (who, price) last_bid s ≡ ok (end_time, t)
      → SetterBid now id who price last_bid s t end_time
  unfolding setter_auction_bid_handler
  setter_auction_bid_handler-SetterBid now id who price last_bid s e =
      after_ok_or (setter_auction s id) Error.auction_non_existent _ s e λ item found h₁.
        after_ensure
          (is_valid_bid T (get_setter_auction_minimum_increment_size T now item.start_time) item.fix
            (last_price last_bid) price)
          Error.invalid_bid_price _ s h₁
          λ valid h₂.
            after_ensure (contains T.stable_currency_ids item.currency) Error.invalid_currency_type
              _ s h₂
              λ listed h₃.
                after_outside (pay_settcurrency T item.currency who last_bid item.fix) _ s h₃
                  λ w paid h₄.
                    let (check, met) = both_hold _ item.fix price valid in
                    record {
                      item = item;
                      found = found;
                      fix_met = met;
                      at_least =
                          check_minimum_increment-at_least T.fixed price (last_price last_bid)
                            item.fix _ check;
                      listed = listed;
                      paid_world = w;
                      paid = paid;
                      changed = cc;
                      ends = cc;
                    }

  pub serplus_auction_bid_handler-SerplusBid :
      (now id who price : ℕ) (last_bid : Option Bid) (s : Auctions W) {end_time : ℕ}
      {t : Auctions W}
      → serplus_auction_bid_handler T now id (who, price) last_bid s ≡ ok (end_time, t)
      → SerplusBid now id who price last_bid s t end_time
  unfolding serplus_auction_bid_handler
  serplus_auction_bid_handler-SerplusBid now id who price last_bid s e =
      after_ensure (not (is_zero price)) Error.invalid_bid_price _ s e λ nz h₁.
        after_ok_or (serplus_auction s id) Error.auction_non_existent _ s h₁ λ item found h₂.
          after_ensure
            (check_minimum_increment T.fixed price (last_price last_bid) 0
              (get_serplus_auction_minimum_increment_size T now item.start_time))
            Error.invalid_bid_price _ s h₂
            λ check h₃. after_outside (refund_last T who last_bid) _ s h₃ λ w refunded h₄.
              after_outside (T.withdraw T.native_currency_id who (burn_amount price last_bid)) _
                (record s { world = w }) h₄
                λ w' burns h₅.
                  let le =
                    check_minimum_increment-at_least T.fixed price (last_price last_bid) 0 _
                      check in
                  record {
                    item = item;
                    found = found;
                    not_zero = not_true (is_zero price) nz;
                    at_least = le;
                    refunded_world = w;
                    refunded = refunded;
                    burnt = burn_amount price last_bid;
                    splits = burnt_splits last_bid price le;
                    burnt_world = w';
                    burns = burns;
                    changed = cc;
                    ends = cc;
                  }
    where
      not_true : (b : Bool) → not b ≡ true → b ≡ false
      not_true true e = absurd (cc)
      not_true false e = refl
