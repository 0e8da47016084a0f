-- ===== src/Auction/Types.antt =====
-- lib-serml/serp/serp-auction/src/lib.rs: the items, the storage, the errors, the events and the
-- `Config`. A block number is a `u32`.
use setheum.Common.{ℕ, ◌+◌, ◌%◌, ◌^◌, Option, List, [], ◌∷◌, ◌++◌, Result, ok, err, Action}
use setheum.Primitives.Currency.{CurrencyId}
use setheum.Runtime.Numbers.{FixedPoint}

pub record DiamondAuctionItem : Type 0 where
  pub initial_amount : ℕ
  pub amount : ℕ
  pub fix : ℕ
  pub start_time : ℕ

pub record SetterAuctionItem : Type 0 where
  pub initial_amount : ℕ
  pub amount : ℕ
  pub currency : CurrencyId
  pub fix : ℕ
  pub start_time : ℕ

pub record SerplusAuctionItem : Type 0 where
  pub amount : ℕ
  pub currency : CurrencyId
  pub start_time : ℕ

-- an account and a price
abbrev pub Bid : Type 0
Bid = ℕ × ℕ

-- The pallet's errors; `other` is an error of another pallet.
pub data Error : Type 0 where
  auction_non_existent currency_not_accepted invalid_feed_price invalid_bid_price : Error
  invalid_amount invalid_currency_type : Error
  other : ℕ → Error

-- The events, with the fields that the code deposits.
pub data Event : Type 0 where
  new_diamond_auction : ℕ → ℕ → CurrencyId → ℕ → Event
  new_setter_auction : ℕ → ℕ → ℕ → CurrencyId → Event
  new_serplus_auction : ℕ → ℕ → CurrencyId → Event
  cancel_auction : ℕ → Event
  diamond_auction_dealt : ℕ → ℕ → ℕ → ℕ → Event
  setter_auction_dealt : ℕ → ℕ → ℕ → ℕ → CurrencyId → Event
  serplus_auction_dealt : ℕ → ℕ → CurrencyId → ℕ → ℕ → Event

-- What the pallet calls outside it. `W` is the storage of the rest of the runtime.
pub record Config (W : Type 0) : Type 0 where
  pub fixed : FixedPoint
  pub diamond_auction_minimum_increment_size : ℕ
  pub setter_auction_minimum_increment_size : ℕ
  pub serplus_auction_minimum_increment_size : ℕ
  pub auction_time_to_close : ℕ
  pub auction_duration_soft_cap : ℕ
  pub native_currency_id : CurrencyId
  pub setter_currency_id : CurrencyId
  pub stable_currency_ids : List CurrencyId
  -- `T::Currency`: currency, accounts, amount
  pub transfer : CurrencyId → ℕ → ℕ → ℕ → W → Result ℕ W
  pub deposit : CurrencyId → ℕ → ℕ → W → Result ℕ W
  pub withdraw : CurrencyId → ℕ → ℕ → W → Result ℕ W
  -- `T::Auction`: the bid of an auction that exists, an identifier for a new one, a removal
  pub auction_info : ℕ → W → Option (Option Bid)
  pub new_auction : ℕ → Option ℕ → W → Result ℕ (ℕ × W)
  pub remove_auction : ℕ → W → W
  -- `T::SerpTreasury`
  pub issue_setter : ℕ → ℕ → W → Result ℕ W
  pub issue_propper : CurrencyId → ℕ → ℕ → W → Result ℕ W
  pub deposit_setter : ℕ → ℕ → W → Result ℕ W
  pub deposit_serplus : CurrencyId → ℕ → ℕ → W → Result ℕ W
  -- `frame_system`
  pub block_number : W → ℕ
  pub inc_consumers : ℕ → W → Result ℕ W
  pub dec_consumers : ℕ → W → W

-- The storage. The totals of the setter and of the serplus auctions are by currency.
pub record Auctions (W : Type 0) : Type 0 where
  pub diamond_auctions : List (ℕ × DiamondAuctionItem)
  pub setter_auctions : List (ℕ × SetterAuctionItem)
  pub serplus_auctions : List (ℕ × SerplusAuctionItem)
  pub total_setter_in_auction : ℕ
  pub total_settcurrency_in_auction : CurrencyId → ℕ
  pub total_serplus_in_auction : CurrencyId → ℕ
  pub events : List Event
  pub world : W

abbrev pub Call : Type 0 → Type 0 → Type 0
Call W A = Action (Auctions W) Error A

-- `+` of block numbers, which wraps in a release build
abbrev pub add_blocks : ℕ → ℕ → ℕ
add_blocks a b = (a + b) % 2 ^ 32

module _ {W : Type 0} where
  abbrev pub returned : Auctions W → Result ℕ W → Result Error (Unit {0} × Auctions W)
  returned s (ok w) = ok (tt, record s { world = w })
  returned s (err e) = err (Error.other e)

  -- a call of another pallet, under `?`
  abbrev pub outside : (W → Result ℕ W) → Call W (Unit {0})
  outside f s = returned s (f s.world)

  -- a call of another pallet whose failure changes nothing and is ignored
  abbrev pub or_same : W → Result ℕ W → W
  or_same w (ok w') = w'
  or_same w (err _) = w

  abbrev pub deposit_event : Event → Call W (Unit {0})
  deposit_event e s = ok (tt, record s { events = s.events ++ (e ∷ []) })
