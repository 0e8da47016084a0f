-- ===== src/Auction/Pricing.antt =====
-- The numbers of an auction: the amount for sale, the minimum increment of a bid and the time that
-- a bid adds.
pub mod Bounds
use setheum.Common.{
  ℕ, ◌/◌, max, Bool, true, false, ◌&&◌, Option, none, some, ltb, leb, if◌then◌else◌, checked_sub,
}
use setheum.Runtime.Numbers.{FixedPoint}
use setheum.Auction.Types.{DiamondAuctionItem, SetterAuctionItem, Bid, Config, add_blocks}

-- `.unwrap_or(amount)`
abbrev pub unwrap_or : ℕ → Option ℕ → ℕ
unwrap_or d none = d
unwrap_or d (some n) = n

-- `.and_then(|n| n.checked_mul_int(amount))`
abbrev pub then_mul_int : FixedPoint → ℕ → Option ℕ → Option ℕ
then_mul_int f amount none = none
then_mul_int f amount (some r) = f.checked_mul_int r amount

-- the price that an offer is compared with
abbrev pub priced_amount : FixedPoint → ℕ → ℕ → ℕ → ℕ → ℕ
priced_amount f amount fix last_bid_price new_bid_price =
    if ltb last_bid_price new_bid_price && ltb fix new_bid_price
    then unwrap_or amount
        (then_mul_int f amount (f.checked_from_rational (max last_bid_price fix) new_bid_price))
    else amount

-- `DiamondAuctionItem::amount_for_sale`
abbrev pub amount_for_sale : FixedPoint → DiamondAuctionItem → ℕ → ℕ → ℕ
amount_for_sale f item last_bid_price new_bid_price =
    priced_amount f item.amount item.fix last_bid_price new_bid_price

-- `SetterAuctionItem::amount_for_sale`
abbrev pub setter_amount_for_sale : FixedPoint → SetterAuctionItem → ℕ → ℕ → ℕ
setter_amount_for_sale f item last_bid_price new_bid_price =
    priced_amount f item.amount item.fix last_bid_price new_bid_price

-- the two options of `check_minimum_increment`
abbrev pub both_reach : Option ℕ → Option ℕ → Bool
both_reach (some target) (some result) = leb target result
both_reach _ _ = false

abbrev pub check_minimum_increment : FixedPoint → ℕ → ℕ → ℕ → ℕ → Bool
check_minimum_increment f new_price last_price target_price minimum_increment =
    both_reach (f.checked_mul_int minimum_increment (max target_price last_price))
      (checked_sub new_price last_price)

-- `last_bid.map_or(0, |(_, price)| price)`
abbrev pub last_price : Option Bid → ℕ
last_price none = 0
last_price (some (_, price)) = price

module _ {W : Type 0} (T : Config W) where
  -- the auction has run for as long as the soft cap
  abbrev pub at_soft_cap : ℕ → ℕ → Bool
  at_soft_cap now start_block = leb (add_blocks start_block T.auction_duration_soft_cap) now

  -- an increment size, doubled at the soft cap
  abbrev pub increment_size : ℕ → ℕ → ℕ → ℕ
  increment_size size now start_block =
      if at_soft_cap now start_block
      then T.fixed.saturating_mul size (T.fixed.saturating_from_integer 2)
      else size

  abbrev pub get_diamond_auction_minimum_increment_size : ℕ → ℕ → ℕ
  get_diamond_auction_minimum_increment_size now start_block =
      increment_size T.diamond_auction_minimum_increment_size now start_block

  abbrev pub get_setter_auction_minimum_increment_size : ℕ → ℕ → ℕ
  get_setter_auction_minimum_increment_size now start_block =
      increment_size T.setter_auction_minimum_increment_size now start_block

  abbrev pub get_serplus_auction_minimum_increment_size : ℕ → ℕ → ℕ
  get_serplus_auction_minimum_increment_size now start_block =
      increment_size T.serplus_auction_minimum_increment_size now start_block

  abbrev pub get_auction_time_to_close : ℕ → ℕ → ℕ
  get_auction_time_to_close now start_block =
      if at_soft_cap now start_block then T.auction_time_to_close / 2 else T.auction_time_to_close
