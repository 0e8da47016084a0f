-- ===== src/Auction/Totals/Closed.antt =====
-- The end and the cancellation of an auction take it off its map and off its total.
use setheum.Common.{
  ℕ, ◌≤◌, ◌≡◌, refl, Option, none, some, List, ok, err, Result, arith, remove, lookup-remove,
  Apart-found, Apart-sym,
}
use setheum.Primitives.Currency.{CurrencyId}
use setheum.Primitives.Order.{currency_eq}
use setheum.Auction.Types.{
  DiamondAuctionItem, SetterAuctionItem, SerplusAuctionItem, Bid, Event, Config, Auctions, or_same,
}
use setheum.Auction.Bids.{diamond_auction, setter_auction, serplus_auction, drop_last}
use setheum.Auction.Calls.{end_by_kind, drop_winner, on_auction_ended}
use setheum.Auction.Totals.{
  IssuesIds, Excess, IsAccounted, elsewhere-IsAccounted, close_diamond-IsAccounted,
  close_setter-IsAccounted, close_serplus-IsAccounted,
}

-- No map has the identifier.
pub record IsClosed {W : Type 0} (id : ℕ) (s : Auctions W) : Type 0 where
  pub no_diamond : diamond_auction s id ≡ none
  pub no_setter : setter_auction s id ≡ none
  pub no_serplus : serplus_auction s id ≡ none

module _ {W : Type 0} {T : Config W} {ids : IssuesIds T} {x : Excess} {s : Auctions W}
    (h : IsAccounted ids x s) {id : ℕ} where
  pub without_diamond :
      {item : DiamondAuctionItem} {total : ℕ} {es : List Event} {w : W}
      → diamond_auction s id ≡ some item
      → IsClosed id (record s {
        diamond_auctions = remove id s.diamond_auctions;
        total_setter_in_auction = total;
        events = es;
        world = w;
      })
  without_diamond {item} e = record {
    no_diamond = lookup-remove id s.diamond_auctions h.diamonds.entries;
    no_setter = Apart-found h.diamond_setter id item e;
    no_serplus = Apart-found h.diamond_serplus id item e;
  }

  pub without_setter_at :
      {item : SetterAuctionItem} {total : CurrencyId → ℕ} {es : List Event} {w : W}
      → setter_auction s id ≡ some item
      → IsClosed id (record s {
        setter_auctions = remove id s.setter_auctions;
        total_settcurrency_in_auction = total;
        events = es;
        world = w;
      })
  without_setter_at {item} e = record {
    no_diamond = Apart-found (Apart-sym h.diamond_setter) id item e;
    no_setter = lookup-remove id s.setter_auctions h.setters.entries;
    no_serplus = Apart-found h.setter_serplus id item e;
  }

  pub without_serplus_at :
      {item : SerplusAuctionItem} {total : CurrencyId → ℕ} {es : List Event} {w : W}
      → serplus_auction s id ≡ some item
      → IsClosed id (record s {
        serplus_auctions = remove id s.serplus_auctions;
        total_serplus_in_auction = total;
        events = es;
        world = w;
      })
  without_serplus_at {item} e = record {
    no_diamond = Apart-found (Apart-sym h.diamond_serplus) id item e;
    no_setter = Apart-found (Apart-sym h.setter_serplus) id item e;
    no_serplus = lookup-remove id s.serplus_auctions h.serplus.entries;
  }

module _ {W : Type 0} {T : Config W} (ids : IssuesIds T) where
  pub or_same_le :
      (w : W) (r : Result ℕ W)
      → ((w' : W) → r ≡ ok w' → ids.next_id w ≤ ids.next_id w')
      → ids.next_id w ≤ ids.next_id (or_same w r)
  or_same_le w (ok w') h = h w' refl
  or_same_le w (err _) h = omega arith

  pub drop_last_le : (bid : Option Bid) (w : W) → ids.next_id w ≤ ids.next_id (drop_last T bid w)
  drop_last_le none w = omega arith
  drop_last_le (some (who, _)) w = ids.dec_consumers_le who w

  -- what a winner gets, and the reference that goes
  won_le :
      (who : ℕ) (w : W) (r : Result ℕ W)
      → ((w' : W) → r ≡ ok w' → ids.next_id w ≤ ids.next_id w')
      → ids.next_id w ≤ ids.next_id (T.dec_consumers who (or_same w r))
  won_le who w r h = omega (arith, or_same_le w r h, ids.dec_consumers_le who (or_same w r))

  end_by_kind-IsAccounted :
      {x : Excess} (id : ℕ) (winner : Option Bid) (s : Auctions W) (d : Option DiamondAuctionItem)
      (r : Option SetterAuctionItem) (p : Option SerplusAuctionItem)
      → IsAccounted ids x s
      → diamond_auction s id ≡ d
      → setter_auction s id ≡ r
      → serplus_auction s id ≡ p
      → IsAccounted ids x (drop_winner T winner (end_by_kind T d r p id winner s))
  end_by_kind-IsAccounted id none s (some item) r p h e f g =
      close_diamond-IsAccounted ids h _ s.world id item (omega arith) e
  end_by_kind-IsAccounted id (some (who, _)) s (some item) r p h e f g =
      close_diamond-IsAccounted ids h _ _ id item
        (won_le who s.world _ (λ _. ids.deposit_le T.native_currency_id who item.amount s.world)) e
  end_by_kind-IsAccounted id none s none (some item) p h e f g =
      close_setter-IsAccounted ids h _ s.world id item (omega arith) f
  end_by_kind-IsAccounted id (some (who, _)) s none (some item) p h e f g =
      close_setter-IsAccounted ids h _ _ id item
        (won_le who s.world _ (λ _. ids.issue_setter_le who item.amount s.world)) f
  end_by_kind-IsAccounted id none s none none (some item) h e f g =
      close_serplus-IsAccounted ids h _ s.world id item (omega arith) g
  end_by_kind-IsAccounted id (some (who, _)) s none none (some item) h e f g =
      close_serplus-IsAccounted ids h _ _ id item
        (won_le who s.world _ (λ _. ids.issue_propper_le item.currency who item.amount s.world)) g
  end_by_kind-IsAccounted id winner s none none none h e f g =
      elsewhere-IsAccounted ids h s.events _ (drop_last_le winner s.world)

  pub on_auction_ended-IsAccounted :
      {x : Excess} (id : ℕ) (winner : Option Bid) (s : Auctions W)
      → IsAccounted ids x s
      → IsAccounted ids x (on_auction_ended T id winner s)
  unfolding on_auction_ended
  on_auction_ended-IsAccounted id winner s h =
      end_by_kind-IsAccounted id winner s (diamond_auction s id) (setter_auction s id)
        (serplus_auction s id) h refl refl refl

  end_by_kind-IsClosed :
      {x : Excess} (id : ℕ) (winner : Option Bid) (s : Auctions W) (d : Option DiamondAuctionItem)
      (r : Option SetterAuctionItem) (p : Option SerplusAuctionItem)
      → IsAccounted ids x s
      → diamond_auction s id ≡ d
      → setter_auction s id ≡ r
      → serplus_auction s id ≡ p
      → IsClosed id (drop_winner T winner (end_by_kind T d r p id winner s))
  end_by_kind-IsClosed id none s (some item) r p h e f g = without_diamond h e
  end_by_kind-IsClosed id (some _) s (some item) r p h e f g = without_diamond h e
  end_by_kind-IsClosed id none s none (some item) p h e f g = without_setter_at h f
  end_by_kind-IsClosed id (some _) s none (some item) p h e f g = without_setter_at h f
  end_by_kind-IsClosed id none s none none (some item) h e f g = without_serplus_at h g
  end_by_kind-IsClosed id (some _) s none none (some item) h e f g = without_serplus_at h g
  end_by_kind-IsClosed id winner s none none none h e f g = record {
    no_diamond = e;
    no_setter = f;
    no_serplus = g;
  }

  pub on_auction_ended-IsClosed :
      {x : Excess} (id : ℕ) (winner : Option Bid) (s : Auctions W)
      → IsAccounted ids x s
      → IsClosed id (on_auction_ended T id winner s)
  unfolding on_auction_ended
  on_auction_ended-IsClosed id winner s h =
      end_by_kind-IsClosed id winner s (diamond_auction s id) (setter_auction s id)
        (serplus_auction s id) h refl refl refl
