-- ===== src/Auction/Calls.antt =====
-- The creation, the cancellation and the end of auctions, and all operations as one step.
use setheum.Common.{
  ℕ, Bool, true, false, not, ◌&&◌, Option, none, some, List, [], ◌∷◌, Result, ok, err, ◌>>=◌, ◌>>◌,
  pure, ensure, ok_or, gets, modify, is_zero, checked_add, saturating_sub, update, insert, remove,
  ◌++◌,
}
use setheum.Primitives.Currency.{CurrencyId, currency_beq, contains}
use setheum.Primitives.Order.{currency_eq}
use setheum.Auction.Types.{
  DiamondAuctionItem, SetterAuctionItem, SerplusAuctionItem, Bid, Error, Event, Config, Auctions,
  Call, add_blocks, outside, or_same, deposit_event,
}
use setheum.Auction.Bids.{diamond_auction, setter_auction, serplus_auction, drop_last, on_new_bid}

-- `.and_then(|auction_info| auction_info.bid)`
abbrev pub and_then_bid : Option (Option Bid) → Option Bid
and_then_bid none = none
and_then_bid (some bid) = bid

module _ {W : Type 0} where
  abbrev pub allocated : Auctions W → Result ℕ (ℕ × W) → Result Error (ℕ × Auctions W)
  allocated s (ok (id, w)) = ok (id, record s { world = w })
  allocated s (err e) = err (Error.other e)

  -- a read that takes the entry
  abbrev pub take_diamond : ℕ → Auctions W → Auctions W
  take_diamond id s = record s { diamond_auctions = remove id s.diamond_auctions }

  abbrev pub take_setter : ℕ → Auctions W → Auctions W
  take_setter id s = record s { setter_auctions = remove id s.setter_auctions }

  abbrev pub take_serplus : ℕ → Auctions W → Auctions W
  take_serplus id s = record s { serplus_auctions = remove id s.serplus_auctions }

  -- the totals without an auction
  abbrev pub without_setter : ℕ → Auctions W → Auctions W
  without_setter fix s = record s {
    total_setter_in_auction = saturating_sub s.total_setter_in_auction fix;
  }

  abbrev pub without_settcurrency : CurrencyId → ℕ → Auctions W → Auctions W
  without_settcurrency c fix s = record s {
    total_settcurrency_in_auction =
        update s.total_settcurrency_in_auction c
          (saturating_sub (s.total_settcurrency_in_auction c) fix);
  }

  abbrev pub without_serplus : CurrencyId → ℕ → Auctions W → Auctions W
  without_serplus c amount s = record s {
    total_serplus_in_auction =
        update s.total_serplus_in_auction c (saturating_sub (s.total_serplus_in_auction c) amount);
  }

-- The creations and the cancellation run in no storage transaction: what they have written before
-- they fail stays. A part of a call that writes only after all that can fail in it is `atomic`.
abbrev pub Partial : Type 0 → Type 0 → Type 0
Partial W A = Auctions W → Result Error A × Auctions W

module _ {W A : Type 0} where
  abbrev pub settle : Auctions W → Result Error (A × Auctions W) → Result Error A × Auctions W
  settle s (ok (a, t)) = (ok a, t)
  settle s (err e) = (err e, s)

  abbrev pub atomic : Call W A → Partial W A
  atomic m s = settle s (m s)

module _ {W A B : Type 0} where
  abbrev pub continue :
      (A → Partial W B) → Result Error A × Auctions W → Result Error B × Auctions W
  continue k (ok a, t) = k a t
  continue k (err e, t) = (err e, t)

  -- one part after the other, where the first succeeds
  abbrev pub followed_by : Partial W A → (A → Partial W B) → Partial W B
  followed_by m k s = continue k (m s)

module _ {W : Type 0} (T : Config W) where
  -- `T::Auction::new_auction(start, end)?`
  abbrev pub allocate : ℕ → Option ℕ → Call W ℕ
  allocate start end s = allocated s (T.new_auction start end s.world)

  -- `Some(start_time + T::AuctionTimeToClose::get())`
  abbrev pub end_block : ℕ → Option ℕ
  end_block start = some (add_blocks start T.auction_time_to_close)

  -- the checks and the total
  abbrev pub raise_setter : ℕ → ℕ → Call W (Unit {0})
  raise_setter initial_amount fix_setter = do
    ensure (not (is_zero initial_amount) && not (is_zero fix_setter)) Error.invalid_amount
    total ← gets (λ s. s.total_setter_in_auction)
    total' ← ok_or (checked_add total fix_setter) Error.invalid_amount
    modify λ s. record s { total_setter_in_auction = total' }

  -- the auction, once it has an identifier
  abbrev pub place_diamond : ℕ → ℕ → Call W (Unit {0})
  place_diamond initial_amount fix_setter = do
    start_time ← gets (λ s. T.block_number s.world)
    id ← allocate start_time (end_block start_time)
    modify λ s. record s {
      diamond_auctions =
          insert id
            (record {
              initial_amount = initial_amount;
              amount = initial_amount;
              fix = fix_setter;
              start_time = start_time;
            })
            s.diamond_auctions;
    }
    deposit_event (Event.new_diamond_auction id initial_amount T.native_currency_id fix_setter)

  unfoldable pub new_diamond_auction : ℕ → ℕ → Partial W (Unit {0})
  new_diamond_auction initial_amount fix_setter =
      followed_by (atomic (raise_setter initial_amount fix_setter))
        λ _. atomic (place_diamond initial_amount fix_setter)

  abbrev pub raise_settcurrency : ℕ → ℕ → CurrencyId → Call W (Unit {0})
  raise_settcurrency initial_amount fix_settcurrency c = do
    ensure (not (is_zero initial_amount) && not (is_zero fix_settcurrency)) Error.invalid_amount
    ensure (contains T.stable_currency_ids c) Error.invalid_currency_type
    total ← gets (λ s. s.total_settcurrency_in_auction c)
    total' ← ok_or (checked_add total fix_settcurrency) Error.invalid_amount
    modify λ s. record s {
      total_settcurrency_in_auction = update s.total_settcurrency_in_auction c total';
    }

  -- the time and the identifier of a setter auction
  abbrev pub allocate_now : Call W (ℕ × ℕ)
  allocate_now = do
    start_time ← gets (λ s. T.block_number s.world)
    id ← allocate start_time (end_block start_time)
    pure (start_time, id)

  -- the auction, if its currency is accepted
  abbrev pub place_setter : ℕ → ℕ → CurrencyId → ℕ × ℕ → Call W (Unit {0})
  place_setter initial_amount fix_settcurrency c (start_time, id) = do
    ensure (not (currency_beq c T.setter_currency_id)) Error.currency_not_accepted
    modify λ s. record s {
      setter_auctions =
          insert id
            (record {
              initial_amount = initial_amount;
              amount = initial_amount;
              currency = c;
              fix = fix_settcurrency;
              start_time = start_time;
            })
            s.setter_auctions;
    }
    deposit_event (Event.new_setter_auction id initial_amount fix_settcurrency c)

  unfoldable pub new_setter_auction : ℕ → ℕ → CurrencyId → Partial W (Unit {0})
  new_setter_auction initial_amount fix_settcurrency c =
      followed_by (atomic (raise_settcurrency initial_amount fix_settcurrency c)) λ _.
        followed_by (atomic allocate_now)
          λ given. atomic (place_setter initial_amount fix_settcurrency c given)

  abbrev pub raise_serplus : ℕ → CurrencyId → Call W (Unit {0})
  raise_serplus amount c = do
    ensure (not (is_zero amount)) Error.invalid_amount
    ensure (contains T.stable_currency_ids c) Error.invalid_currency_type
    total ← gets (λ s. s.total_serplus_in_auction c)
    total' ← ok_or (checked_add total amount) Error.invalid_amount
    modify λ s. record s { total_serplus_in_auction = update s.total_serplus_in_auction c total' }

  abbrev pub place_serplus : ℕ → CurrencyId → Call W (Unit {0})
  place_serplus amount c = do
    start_time ← gets (λ s. T.block_number s.world)
    id ← allocate start_time none
    modify λ s. record s {
      serplus_auctions =
          insert id (record { amount = amount; currency = c; start_time = start_time })
            s.serplus_auctions;
    }
    deposit_event (Event.new_serplus_auction id amount c)

  unfoldable pub new_serplus_auction : ℕ → CurrencyId → Partial W (Unit {0})
  new_serplus_auction amount c =
      followed_by (atomic (raise_serplus amount c)) λ _. atomic (place_serplus amount c)

  abbrev pub get_last_bid : ℕ → W → Option Bid
  get_last_bid id w = and_then_bid (T.auction_info id w)

  -- a refund to the bidder, if there is a bid, and the reference that goes with it
  abbrev pub refund_bidder : (ℕ → ℕ → W → Result ℕ W) → Option Bid → Call W (Unit {0})
  refund_bidder refund none = pure tt
  refund_bidder refund (some (bidder, price)) = do
    outside (refund bidder price)
    modify λ s. record s { world = T.dec_consumers bidder s.world }

  unfoldable pub cancel_diamond_auction : ℕ → DiamondAuctionItem → Call W (Unit {0})
  cancel_diamond_auction id item = do
    bid ← gets (λ s. get_last_bid id s.world)
    refund_bidder (λ bidder _. T.issue_setter bidder item.fix) bid
    modify (without_setter item.fix)

  unfoldable pub cancel_setter_auction : ℕ → SetterAuctionItem → Call W (Unit {0})
  cancel_setter_auction id item = do
    bid ← gets (λ s. get_last_bid id s.world)
    refund_bidder (λ bidder _. T.issue_propper item.currency bidder item.fix) bid
    modify (without_settcurrency item.currency item.fix)

  unfoldable pub cancel_serplus_auction : ℕ → SerplusAuctionItem → Call W (Unit {0})
  cancel_serplus_auction id item = do
    bid ← gets (λ s. get_last_bid id s.world)
    refund_bidder (λ bidder bid_price. T.deposit T.native_currency_id bidder bid_price) bid
    modify (without_serplus item.currency item.amount)

  -- the chain of `take`s of `cancel_auction`: an item that is taken stays so where the rest fails
  abbrev pub cancel_by_kind :
      Option SetterAuctionItem
      → Option DiamondAuctionItem
      → Option SerplusAuctionItem
      → ℕ
      → Partial W (Unit {0})
  cancel_by_kind (some item) _ _ id s = atomic (cancel_setter_auction id item) (take_setter id s)
  cancel_by_kind none (some item) _ id s =
      atomic (cancel_diamond_auction id item) (take_diamond id s)
  cancel_by_kind none none (some item) id s =
      atomic (cancel_serplus_auction id item) (take_serplus id s)
  cancel_by_kind none none none id s = (err Error.auction_non_existent, s)

  unfoldable pub cancel_auction : ℕ → Partial W (Unit {0})
  cancel_auction id =
      followed_by
        (λ s.
          cancel_by_kind (setter_auction s id) (diamond_auction s id) (serplus_auction s id) id s)
        λ _. atomic (modify λ s. record s { world = T.remove_auction id s.world })

  -- what the winner gets, whether that fails or not, and the event
  abbrev pub deal : (ℕ → W → Result ℕ W) → (Bid → Event) → ℕ → Option Bid → Auctions W → Auctions W
  deal issue dealt id none s = record s { events = s.events ++ (Event.cancel_auction id ∷ []) }
  deal issue dealt id (some (bidder, price)) s = record s {
    events = s.events ++ (dealt (bidder, price) ∷ []);
    world = or_same s.world (issue bidder s.world);
  }

  abbrev pub diamond_auction_end_handler :
      ℕ → DiamondAuctionItem → Option Bid → Auctions W → Auctions W
  diamond_auction_end_handler id item winner s = without_setter item.fix (
      deal (λ bidder. T.deposit T.native_currency_id bidder item.amount)
        (λ (bidder, _). Event.diamond_auction_dealt id item.amount bidder item.fix) id winner s)

  abbrev pub setter_auction_end_handler :
      ℕ → SetterAuctionItem → Option Bid → Auctions W → Auctions W
  setter_auction_end_handler id item winner s = without_settcurrency item.currency item.fix (
      deal (λ bidder. T.issue_setter bidder item.amount)
        (λ (bidder, _). Event.setter_auction_dealt id item.amount bidder item.fix item.currency) id
        winner s)

  abbrev pub serplus_auction_end_handler :
      ℕ → SerplusAuctionItem → Option Bid → Auctions W → Auctions W
  serplus_auction_end_handler id item winner s = without_serplus item.currency item.amount (
      deal (λ bidder. T.issue_propper item.currency bidder item.amount)
        (λ (bidder, price). Event.serplus_auction_dealt id item.amount item.currency bidder price)
        id winner s)

  -- the chain of `take`s of `on_auction_ended`
  abbrev pub end_by_kind :
      Option DiamondAuctionItem
      → Option SetterAuctionItem
      → Option SerplusAuctionItem
      → ℕ
      → Option Bid
      → Auctions W
      → Auctions W
  end_by_kind (some item) _ _ id winner s =
      diamond_auction_end_handler id item winner (take_diamond id s)
  end_by_kind none (some item) _ id winner s =
      setter_auction_end_handler id item winner (take_setter id s)
  end_by_kind none none (some item) id winner s =
      serplus_auction_end_handler id item winner (take_serplus id s)
  end_by_kind none none none id winner s = s

  abbrev pub drop_winner : Option Bid → Auctions W → Auctions W
  drop_winner winner s = record s { world = drop_last T winner s.world }

  unfoldable pub on_auction_ended : ℕ → Option Bid → Auctions W → Auctions W
  on_auction_ended id winner s =
      drop_winner winner (
        end_by_kind (diamond_auction s id) (setter_auction s id) (serplus_auction s id) id winner s)

-- The operations, with what they are given.
pub data AuctionCall : Type 0 where
  new_diamond : ℕ → ℕ → AuctionCall
  new_setter : ℕ → ℕ → CurrencyId → AuctionCall
  new_serplus : ℕ → CurrencyId → AuctionCall
  cancel : ℕ → AuctionCall
  bid : ℕ → ℕ → Bid → Option Bid → AuctionCall
  ended : ℕ → Option Bid → AuctionCall

abbrev pub is_ok : Result Error (Unit {0}) → Bool
is_ok (ok _) = true
is_ok (err _) = false

module _ {W : Type 0} (T : Config W) where
  -- the operation, which answers a bid and an end in any case
  abbrev pub step : AuctionCall → Partial W (Unit {0})
  step (AuctionCall.new_diamond amount fix) s = new_diamond_auction T amount fix s
  step (AuctionCall.new_setter amount fix c) s = new_setter_auction T amount fix c s
  step (AuctionCall.new_serplus amount c) s = new_serplus_auction T amount c s
  step (AuctionCall.cancel id) s = cancel_auction T id s
  step (AuctionCall.bid now id new_bid last_bid) s =
      (ok tt, (on_new_bid T now id new_bid last_bid s).1)
  step (AuctionCall.ended id winner) s = (ok tt, on_auction_ended T id winner s)

  abbrev pub run : List AuctionCall → Auctions W → Auctions W
  run [] s = s
  run (c ∷ cs) s = run cs (step c s).1

  -- No call of the sequence fails.
  abbrev pub none_fails : List AuctionCall → Auctions W → Bool
  none_fails [] s = true
  none_fails (c ∷ cs) s = is_ok (step c s).0 && none_fails cs (step c s).1

module _ {W : Type 0} where
  abbrev pub get_total_serplus_in_auction : Auctions W → CurrencyId → ℕ
  get_total_serplus_in_auction s c = s.total_serplus_in_auction c

  abbrev pub get_total_settcurrency_in_auction : Auctions W → CurrencyId → ℕ
  get_total_settcurrency_in_auction s c = s.total_settcurrency_in_auction c

  abbrev pub get_total_setter_in_auction : Auctions W → ℕ
  get_total_setter_in_auction s = s.total_setter_in_auction
