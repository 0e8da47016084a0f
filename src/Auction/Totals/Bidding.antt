-- ===== src/Auction/Totals/Bidding.antt =====
-- An accepted bid keeps the totals in order.
use setheum.Common.{
  ℕ, ◌≤◌, ◌≡◌, refl, Option, none, some, ok, arith, IsBook-weaken, IsBook-replace, Apart-sym,
  Apart-insert, Apart-found,
}
use setheum.Primitives.Currency.{CurrencyId}
use setheum.Primitives.Order.{currency_eq}
use setheum.Auction.Types.{Bid, Config, Auctions, or_same}
use setheum.Auction.Bids.{swap_bidders, pay_setter, pay_settcurrency, refund_last}
use setheum.Auction.Bids.Handlers.{DiamondBid, SetterBid, SerplusBid}
use setheum.Auction.Bids.Accepted.{AcceptedBid}
use setheum.Auction.Totals.{IssuesIds, Excess, IsAccounted, elsewhere-IsAccounted}
use setheum.Auction.Totals.Closed.{or_same_le, drop_last_le}

module _ {W : Type 0} {T : Config W} (ids : IssuesIds T) where
  swap_bidders_le :
      (who : ℕ) (last_bid : Option Bid) (w : W)
      → ids.next_id w ≤ ids.next_id (swap_bidders T who last_bid w)
  swap_bidders_le who last_bid w = omega (
    arith,
    or_same_le ids w (T.inc_consumers who w) (λ _. ids.inc_consumers_le who w),
    drop_last_le ids last_bid (or_same w (T.inc_consumers who w)),
  )

  pay_setter_le :
      (who : ℕ) (last_bid : Option Bid) (x : ℕ) (w : W) {w' : W}
      → pay_setter T who last_bid x w ≡ ok w'
      → ids.next_id w ≤ ids.next_id w'
  pay_setter_le who none x w e = ids.deposit_setter_le who x w e
  pay_setter_le who (some (to, _)) x w e = ids.transfer_le T.setter_currency_id who to x w e

  pay_settcurrency_le :
      (c : CurrencyId) (who : ℕ) (last_bid : Option Bid) (x : ℕ) (w : W) {w' : W}
      → pay_settcurrency T c who last_bid x w ≡ ok w'
      → ids.next_id w ≤ ids.next_id w'
  pay_settcurrency_le c who none x w e = ids.deposit_serplus_le c who x w e
  pay_settcurrency_le c who (some (to, _)) x w e = ids.transfer_le c who to x w e

  refund_last_le :
      (who : ℕ) (last_bid : Option Bid) (w : W) {w' : W}
      → refund_last T who last_bid w ≡ ok w'
      → ids.next_id w ≤ ids.next_id w'
  refund_last_le who none w {w'} e = let q : w ≡ w' = cc in rw q (omega arith)
  refund_last_le who (some (to, x)) w e = ids.transfer_le T.native_currency_id who to x w e

  module _ {now id who price end_time : ℕ} {last_bid : Option Bid} {x : Excess} {s t : Auctions W}
      (h : IsAccounted ids x s) where
    DiamondBid-IsAccounted :
        DiamondBid T now id who price last_bid s t end_time → IsAccounted ids x t
    DiamondBid-IsAccounted bid =
        let item = bid.item in
        let w = swap_bidders T who last_bid bid.paid_world in
        let le : ids.next_id s.world ≤ ids.next_id w = omega (
          arith,
          pay_setter_le who last_bid item.fix s.world bid.paid,
          swap_bidders_le who last_bid bid.paid_world,
        ) in
        rw bid.changed (record {
          diamonds = IsBook-replace h.diamonds (ids.next_id w) id _ item le bid.found (λ _. refl);
          setters = IsBook-weaken h.setters (ids.next_id w) le;
          serplus = IsBook-weaken h.serplus (ids.next_id w) le;
          diamond_setter =
              Apart-insert h.diamond_setter id _ (Apart-found h.diamond_setter id item bid.found);
          diamond_serplus =
              Apart-insert h.diamond_serplus id _ (Apart-found h.diamond_serplus id item bid.found);
          setter_serplus = h.setter_serplus;
        })

    SetterBid-IsAccounted : SetterBid T now id who price last_bid s t end_time → IsAccounted ids x t
    SetterBid-IsAccounted bid =
        let item = bid.item in
        let w = swap_bidders T who last_bid bid.paid_world in
        let le : ids.next_id s.world ≤ ids.next_id w = omega (
          arith,
          pay_settcurrency_le item.currency who last_bid item.fix s.world bid.paid,
          swap_bidders_le who last_bid bid.paid_world,
        ) in
        let apart = Apart-sym h.diamond_setter in
        rw bid.changed (record {
          diamonds = IsBook-weaken h.diamonds (ids.next_id w) le;
          setters = IsBook-replace h.setters (ids.next_id w) id _ item le bid.found (λ _. refl);
          serplus = IsBook-weaken h.serplus (ids.next_id w) le;
          diamond_setter =
              Apart-sym (Apart-insert apart id _ (Apart-found apart id item bid.found));
          diamond_serplus = h.diamond_serplus;
          setter_serplus =
              Apart-insert h.setter_serplus id _ (Apart-found h.setter_serplus id item bid.found);
        })

    SerplusBid-IsAccounted :
        SerplusBid T now id who price last_bid s t end_time → IsAccounted ids x t
    SerplusBid-IsAccounted bid = rw bid.changed (
        elsewhere-IsAccounted ids h s.events (swap_bidders T who last_bid bid.burnt_world) (
          omega (
            arith,
            refund_last_le who last_bid s.world bid.refunded,
            ids.withdraw_le T.native_currency_id who bid.burnt bid.refunded_world bid.burns,
            swap_bidders_le who last_bid bid.burnt_world,
          )))

    pub AcceptedBid-IsAccounted :
        AcceptedBid T now id who price last_bid s t end_time → IsAccounted ids x t
    AcceptedBid-IsAccounted (AcceptedBid.diamond bid) = DiamondBid-IsAccounted bid
    AcceptedBid-IsAccounted (AcceptedBid.setter _ bid) = SetterBid-IsAccounted bid
    AcceptedBid-IsAccounted (AcceptedBid.serplus _ _ bid) = SerplusBid-IsAccounted bid
