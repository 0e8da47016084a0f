-- ===== src/Auction/Tests.antt =====
-- The auctions at concrete inputs: a world that only counts the identifiers issued, in which all
-- outside calls succeed.
use setheum.Common.{
  ℕ, ◌≤◌, ◌<◌, ◌≡◌, refl, true, false, none, some, List, [], ◌∷◌, Result, ok, arith, suc, inl,
}
use setheum.Primitives.Token.{TokenSymbol}
use setheum.Primitives.Currency.{CurrencyId}
use setheum.Runtime.Numbers.{rounded, rounded-IsRounded}
use setheum.Auction.Types.{DiamondAuctionItem, Bid, Config, Auctions}
use setheum.Auction.Bids.{diamond_auction, Change, on_new_bid, diamond_auction_bid_handler}
use setheum.Auction.Bids.Sequence.{Cheaper, bid_all, bid_all-Cheaper}
use setheum.Auction.Bids.Valid.{on_new_bid-accepts}
use setheum.Auction.Calls.{
  AuctionCall, run, none_fails, new_diamond_auction, new_setter_auction, new_serplus_auction,
  cancel_auction, on_auction_ended, cancel_setter_auction,
}
use setheum.Auction.Totals.{IssuesIds, Excess, no_excess, IsAccounted}
use setheum.Auction.Totals.Cancelled.{Cancelled}
use setheum.Auction.Totals.Runs.{
  IsFinal, run-IsAccounted, on_auction_ended-IsFinal, cancel_auction-IsFinal,
}

abbrev dollar : CurrencyId
dollar = CurrencyId.token TokenSymbol.usdj

abbrev sett : CurrencyId
sett = CurrencyId.token TokenSymbol.sett

-- Account 7 has bid 120 in every auction.
abbrev config : Config ℕ
config = record {
  fixed = rounded;
  diamond_auction_minimum_increment_size = 50000000000000000;
  setter_auction_minimum_increment_size = 50000000000000000;
  serplus_auction_minimum_increment_size = 50000000000000000;
  auction_time_to_close = 100;
  auction_duration_soft_cap = 1000;
  native_currency_id = CurrencyId.token TokenSymbol.dnar;
  setter_currency_id = sett;
  stable_currency_ids = dollar ∷ [];
  transfer = λ _ _ _ _ w. ok w;
  deposit = λ _ _ _ w. ok w;
  withdraw = λ _ _ _ w. ok w;
  auction_info = λ _ _. some (some (7, 120));
  new_auction = λ _ _ w. ok (w, suc w);
  remove_auction = λ _ w. w;
  issue_setter = λ _ _ w. ok w;
  issue_propper = λ _ _ _ w. ok w;
  deposit_setter = λ _ _ w. ok w;
  deposit_serplus = λ _ _ _ w. ok w;
  block_number = λ _. 10;
  inc_consumers = λ _ w. ok w;
  dec_consumers = λ _ w. w;
}

same_le : {v w : ℕ} → ◌≡◌ {A = Result ℕ ℕ} (ok v) (ok w) → v ≤ w
same_le {v} {w} e = let q : v ≡ w = cc in omega arith

issued :
    {v w id : ℕ} → ◌≡◌ {A = Result ℕ (ℕ × ℕ)} (ok (v, suc v)) (ok (id, w)) → (v ≤ id) × (id < w)
issued {v} {w} {id} e = let q : v ≡ id = cc in let r : suc v ≡ w = cc in (omega arith, omega arith)

config-IssuesIds : IssuesIds config
config-IssuesIds = record {
  next_id = λ w. w;
  new_auction_lem = λ _ _ _ e. issued e;
  transfer_le = λ _ _ _ _ _ e. same_le e;
  deposit_le = λ _ _ _ _ e. same_le e;
  withdraw_le = λ _ _ _ _ e. same_le e;
  issue_setter_le = λ _ _ _ e. same_le e;
  issue_propper_le = λ _ _ _ _ e. same_le e;
  deposit_setter_le = λ _ _ _ e. same_le e;
  deposit_serplus_le = λ _ _ _ _ e. same_le e;
  inc_consumers_le = λ _ _ e. same_le e;
  dec_consumers_le = λ _ _. omega arith;
  remove_auction_le = λ _ _. omega arith;
}

abbrev empty : Auctions ℕ
empty = record {
  diamond_auctions = [];
  setter_auctions = [];
  serplus_auctions = [];
  total_setter_in_auction = 0;
  total_settcurrency_in_auction = λ _. 0;
  total_serplus_in_auction = λ _. 0;
  events = [];
  world = 0;
}

empty-IsAccounted : IsAccounted config-IssuesIds no_excess empty
empty-IsAccounted = record {
  diamonds = record { entries = tt; below = tt; sums = λ _. refl };
  setters = record { entries = tt; below = tt; sums = λ _. refl };
  serplus = record { entries = tt; below = tt; sums = λ _. refl };
  diamond_setter = record { keys = λ _. inl refl };
  diamond_serplus = record { keys = λ _. inl refl };
  setter_serplus = record { keys = λ _. inl refl };
}

-- An auction of each kind, a bid for the first, and a call that fails.
abbrev calls : List AuctionCall
calls =
    AuctionCall.new_diamond 1000 100
    ∷ AuctionCall.new_setter 500 50 dollar
    ∷ AuctionCall.new_serplus 300 dollar
    ∷ AuctionCall.new_diamond 0 100
    ∷ AuctionCall.bid 20 0 (7, 120) none
    ∷ []

abbrev market : Auctions ℕ
market = run config calls empty

run_test :
    market.diamond_auctions
    ≡ (0, record { initial_amount = 1000; amount = 833; fix = 100; start_time = 10 }) ∷ []
unfolding new_diamond_auction new_setter_auction new_serplus_auction on_new_bid
    diamond_auction_bid_handler
run_test = refl

market-in_order :
    (x : Excess) × IsAccounted config-IssuesIds x market
    × (none_fails config calls empty ≡ true → x ≡ no_excess)
market-in_order = run-IsAccounted config-IssuesIds calls no_excess empty empty-IsAccounted

-- A creation that fails for its currency, after the total.
abbrev denied : List AuctionCall
denied = AuctionCall.new_setter 500 50 sett ∷ calls

abbrev denying : Config ℕ
denying = record config { stable_currency_ids = sett ∷ dollar ∷ [] }

denied_test :
    ((run denying denied empty).total_settcurrency_in_auction sett ≡ 50)
    × (none_fails denying denied empty ≡ false)
unfolding new_diamond_auction new_setter_auction new_serplus_auction on_new_bid
denied_test = (refl, refl)

run-IsAccounted_example :
    (x : Excess) × IsAccounted config-IssuesIds x market
    × (none_fails config calls empty ≡ true → x ≡ no_excess)
run-IsAccounted_example = run-IsAccounted config-IssuesIds calls no_excess empty empty-IsAccounted

on_auction_ended-IsFinal_example :
    IsFinal config 0 (on_auction_ended config 0 (some (7, 120)) market)
on_auction_ended-IsFinal_example =
    on_auction_ended-IsFinal config-IssuesIds 0 market market-in_order.1 (some (7, 120))

abbrev without : Auctions ℕ
without = (cancel_auction config 1 market).1

cancel_auction-IsFinal_example : Cancelled config 1 market without × IsFinal config 1 without
unfolding new_diamond_auction new_setter_auction new_serplus_auction on_new_bid
    diamond_auction_bid_handler cancel_auction cancel_setter_auction
cancel_auction-IsFinal_example =
    cancel_auction-IsFinal config-IssuesIds 1 market market-in_order.1 refl

-- Two bids after the first, the second of which is too low.
abbrev bids : List (ℕ × Bid)
bids = (30, (8, 200)) ∷ (40, (9, 205)) ∷ []

abbrev offered : DiamondAuctionItem
offered = record { initial_amount = 1000; amount = 833; fix = 100; start_time = 10 }

bid_all-Cheaper_example :
    (item' : DiamondAuctionItem) × (diamond_auction
        (bid_all config 0 bids (some (7, 120)) market).1
        0
      ≡ some item')
    × Cheaper offered (some (7, 120)) item' (bid_all config 0 bids (some (7, 120)) market).0
unfolding new_diamond_auction new_setter_auction new_serplus_auction on_new_bid
    diamond_auction_bid_handler
bid_all-Cheaper_example =
    bid_all-Cheaper config rounded-IsRounded 0 bids (some (7, 120)) market offered refl
      (omega arith) (omega arith) (omega arith, (omega arith, tt))

on_new_bid-accepts_example : on_new_bid config 30 0 (8, 200) (some (7, 120)) market ≡ (
  record { accept_bid = true; auction_end_change = Change.new_value (some 130) },
  record market {
    diamond_auctions =
        (0, record { initial_amount = 1000; amount = 499; fix = 100; start_time = 10 }) ∷ [];
  },
)
unfolding new_diamond_auction new_setter_auction new_serplus_auction on_new_bid
    diamond_auction_bid_handler
on_new_bid-accepts_example =
    on_new_bid-accepts config rounded-IsRounded 30 0 8 200 (some (7, 120)) market offered refl
      (omega arith) (omega arith) (omega arith) (omega arith) refl
