-- ===== src/Auction/Bids.antt =====
-- The handlers of a new bid.
pub mod Handlers
pub mod Accepted
pub mod Sequence
pub mod Valid
use setheum.Common.{
  ℕ, Bool, true, false, not, ◌&&◌, Option, none, some, Result, ok, err, ◌>>=◌, ◌>>◌, pure, ensure,
  ok_or, gets, modify, fail, leb, is_zero, if◌then◌else◌, saturating_sub, lookup, insert,
}
use setheum.Primitives.Currency.{CurrencyId, contains}
use setheum.Auction.Types.{
  DiamondAuctionItem, SetterAuctionItem, SerplusAuctionItem, Bid, Error, Config, Auctions, Call,
  add_blocks, outside, or_same,
}
use setheum.Auction.Pricing.{
  amount_for_sale, setter_amount_for_sale, check_minimum_increment, last_price,
  get_diamond_auction_minimum_increment_size, get_setter_auction_minimum_increment_size,
  get_serplus_auction_minimum_increment_size, get_auction_time_to_close,
}

-- `contains_key`
abbrev pub is_some : {A : Type 0} → Option A → Bool
is_some none = false
is_some (some _) = true

module _ {W : Type 0} where
  -- `DiamondAuctions::get(id)` and its like
  abbrev pub diamond_auction : Auctions W → ℕ → Option DiamondAuctionItem
  diamond_auction s id = lookup id s.diamond_auctions

  abbrev pub setter_auction : Auctions W → ℕ → Option SetterAuctionItem
  setter_auction s id = lookup id s.setter_auctions

  abbrev pub serplus_auction : Auctions W → ℕ → Option SerplusAuctionItem
  serplus_auction s id = lookup id s.serplus_auctions

-- what a serplus bid burns: the price, less what the last bidder gets
abbrev pub burn_amount : ℕ → Option Bid → ℕ
burn_amount new_bid_price none = new_bid_price
burn_amount new_bid_price (some (_, price)) = saturating_sub new_bid_price price

-- `Change` and `OnNewBidResult` of the auction trait
pub data Change : Type 0 where
  no_change : Change
  new_value : Option ℕ → Change

pub record OnNewBidResult : Type 0 where
  pub accept_bid : Bool
  pub auction_end_change : Change

-- A handler that fails leaves the storage as it was.
abbrev pub answered :
    {W : Type 0} → Auctions W → Result Error (ℕ × Auctions W) → OnNewBidResult × Auctions W
answered s (ok (end_time, t)) =
    (record { accept_bid = true; auction_end_change = Change.new_value (some end_time) }, t)
answered s (err _) = (record { accept_bid = false; auction_end_change = Change.no_change }, s)

module _ {W : Type 0} (T : Config W) where
  -- the reference of the last bidder goes
  abbrev pub drop_last : Option Bid → W → W
  drop_last none w = w
  drop_last (some (who, _)) w = T.dec_consumers who w

  abbrev pub swap_bidders : ℕ → Option Bid → W → W
  swap_bidders new_bidder last_bid w = drop_last last_bid (or_same w (T.inc_consumers new_bidder w))

  -- the fixed amount goes to the last bidder, or else to the treasury
  abbrev pub pay_setter : ℕ → Option Bid → ℕ → W → Result ℕ W
  pay_setter new_bidder none fix = T.deposit_setter new_bidder fix
  pay_setter new_bidder (some (who, _)) fix = T.transfer T.setter_currency_id new_bidder who fix

  abbrev pub pay_settcurrency : CurrencyId → ℕ → Option Bid → ℕ → W → Result ℕ W
  pay_settcurrency c new_bidder none fix = T.deposit_serplus c new_bidder fix
  pay_settcurrency c new_bidder (some (who, _)) fix = T.transfer c new_bidder who fix

  -- the guard of a bid at a fixed target
  abbrev pub is_valid_bid : ℕ → ℕ → ℕ → ℕ → Bool
  is_valid_bid increment fix last_bid_price new_bid_price =
      check_minimum_increment T.fixed new_bid_price last_bid_price fix increment
      && leb fix new_bid_price

  unfoldable pub diamond_auction_bid_handler : ℕ → ℕ → Bid → Option Bid → Call W ℕ
  diamond_auction_bid_handler now id (new_bidder, new_bid_price) last_bid = do
    item ← (λ s. ok_or (diamond_auction s id) Error.auction_non_existent s)
    ensure
        (is_valid_bid (get_diamond_auction_minimum_increment_size T now item.start_time) item.fix
          (last_price last_bid) new_bid_price)
        Error.invalid_bid_price
    outside (pay_setter new_bidder last_bid item.fix)
    modify λ s. record s {
      diamond_auctions =
          insert id
            (record item {
              amount = amount_for_sale T.fixed item (last_price last_bid) new_bid_price;
            })
            s.diamond_auctions;
      world = swap_bidders new_bidder last_bid s.world;
    }
    pure (add_blocks now (get_auction_time_to_close T now item.start_time))

  unfoldable pub setter_auction_bid_handler : ℕ → ℕ → Bid → Option Bid → Call W ℕ
  setter_auction_bid_handler now id (new_bidder, new_bid_price) last_bid = do
    item ← (λ s. ok_or (setter_auction s id) Error.auction_non_existent s)
    ensure
        (is_valid_bid (get_setter_auction_minimum_increment_size T now item.start_time) item.fix
          (last_price last_bid) new_bid_price)
        Error.invalid_bid_price
    ensure (contains T.stable_currency_ids item.currency) Error.invalid_currency_type
    outside (pay_settcurrency item.currency new_bidder last_bid item.fix)
    modify λ s. record s {
      setter_auctions =
          insert id
            (record item {
              amount = setter_amount_for_sale T.fixed item (last_price last_bid) new_bid_price;
            })
            s.setter_auctions;
      world = swap_bidders new_bidder last_bid s.world;
    }
    pure (add_blocks now (get_auction_time_to_close T now item.start_time))

  -- the last bidder gets the last price back
  abbrev pub refund_last : ℕ → Option Bid → W → Result ℕ W
  refund_last new_bidder none w = ok w
  refund_last new_bidder (some (who, price)) w =
      T.transfer T.native_currency_id new_bidder who price w

  unfoldable pub serplus_auction_bid_handler : ℕ → ℕ → Bid → Option Bid → Call W ℕ
  serplus_auction_bid_handler now id (new_bidder, new_bid_price) last_bid = do
    ensure (not (is_zero new_bid_price)) Error.invalid_bid_price
    item ← (λ s. ok_or (serplus_auction s id) Error.auction_non_existent s)
    ensure
        (check_minimum_increment T.fixed new_bid_price (last_price last_bid) 0
          (get_serplus_auction_minimum_increment_size T now item.start_time))
        Error.invalid_bid_price
    outside (refund_last new_bidder last_bid)
    outside (T.withdraw T.native_currency_id new_bidder (burn_amount new_bid_price last_bid))
    modify λ s. record s { world = swap_bidders new_bidder last_bid s.world }
    pure (add_blocks now (get_auction_time_to_close T now item.start_time))

  -- `bid_result` of `on_new_bid`
  abbrev pub bid_by_kind : Bool → Bool → Bool → ℕ → ℕ → Bid → Option Bid → Call W ℕ
  bid_by_kind true _ _ now id new_bid last_bid = diamond_auction_bid_handler now id new_bid last_bid
  bid_by_kind false true _ now id new_bid last_bid =
      setter_auction_bid_handler now id new_bid last_bid
  bid_by_kind false false true now id new_bid last_bid =
      serplus_auction_bid_handler now id new_bid last_bid
  bid_by_kind false false false now id new_bid last_bid = fail Error.auction_non_existent

  abbrev pub bid_result : ℕ → ℕ → Bid → Option Bid → Call W ℕ
  bid_result now id new_bid last_bid s =
      bid_by_kind (is_some (diamond_auction s id)) (is_some (setter_auction s id))
        (is_some (serplus_auction s id)) now id new_bid last_bid s

  unfoldable pub on_new_bid : ℕ → ℕ → Bid → Option Bid → Auctions W → OnNewBidResult × Auctions W
  on_new_bid now id new_bid last_bid s = answered s (bid_result now id new_bid last_bid s)
