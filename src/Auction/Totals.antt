-- ===== src/Auction/Totals.antt =====
-- The totals of the auctions against the sums over the active auctions: the invariant, and what
-- each kind of change of the storage does to it.
pub mod Created
pub mod Closed
pub mod Cancelled
pub mod Bidding
pub mod Runs
use setheum.Common.{
  ℕ, ◌+◌, ◌-◌, ◌≤◌, ◌<◌, ◌≡◌, ◌≢◌, refl, sym, Bool, true, false, Option, none, some, List, ok, err,
  Result, arith, if◌then◌else◌, inl, inr, Bool-cases, update, update_self, update_ne, lookup,
  insert, remove, IsBook, IsBook-weaken, IsBook-create, IsBook-replace, IsBook-remove, IsBook-take,
  IsBook-raise, IsBook-fresh, Apart, Apart-sym, Apart-insert, Apart-remove, Apart-found,
}
use setheum.Primitives.Currency.{CurrencyId, currency_beq}
use setheum.Primitives.Order.{currency_eq, currency_beq_iff}
use setheum.Auction.Types.{
  DiamondAuctionItem, SetterAuctionItem, SerplusAuctionItem, Event, Config, Auctions,
}
use setheum.Auction.Bids.{diamond_auction, setter_auction, serplus_auction}
use setheum.Auction.Calls.{take_diamond, take_setter, take_serplus}

-- The auction pallet never issues an identifier again: there is a bound above all identifiers
-- issued so far, which no call lowers.
pub record IssuesIds {W : Type 0} (T : Config W) : Type 0 where
  pub next_id : W → ℕ
  pub new_auction_lem :
      (start : ℕ) (end : Option ℕ) (w : W) {id : ℕ} {w' : W}
      → T.new_auction start end w ≡ ok (id, w')
      → (next_id w ≤ id) × (id < next_id w')
  pub transfer_le :
      (c : CurrencyId) (from to x : ℕ) (w : W) {w' : W}
      → T.transfer c from to x w ≡ ok w'
      → next_id w ≤ next_id w'
  pub deposit_le :
      (c : CurrencyId) (who x : ℕ) (w : W) {w' : W}
      → T.deposit c who x w ≡ ok w'
      → next_id w ≤ next_id w'
  pub withdraw_le :
      (c : CurrencyId) (who x : ℕ) (w : W) {w' : W}
      → T.withdraw c who x w ≡ ok w'
      → next_id w ≤ next_id w'
  pub issue_setter_le :
      (who x : ℕ) (w : W) {w' : W} → T.issue_setter who x w ≡ ok w' → next_id w ≤ next_id w'
  pub issue_propper_le :
      (c : CurrencyId) (who x : ℕ) (w : W) {w' : W}
      → T.issue_propper c who x w ≡ ok w'
      → next_id w ≤ next_id w'
  pub deposit_setter_le :
      (who x : ℕ) (w : W) {w' : W} → T.deposit_setter who x w ≡ ok w' → next_id w ≤ next_id w'
  pub deposit_serplus_le :
      (c : CurrencyId) (who x : ℕ) (w : W) {w' : W}
      → T.deposit_serplus c who x w ≡ ok w'
      → next_id w ≤ next_id w'
  pub inc_consumers_le :
      (who : ℕ) (w : W) {w' : W} → T.inc_consumers who w ≡ ok w' → next_id w ≤ next_id w'
  pub dec_consumers_le : (who : ℕ) (w : W) → next_id w ≤ next_id (T.dec_consumers who w)
  pub remove_auction_le : (id : ℕ) (w : W) → next_id w ≤ next_id (T.remove_auction id w)

-- the part of an amount in a currency
abbrev pub amount_in : CurrencyId → CurrencyId → ℕ → ℕ
amount_in c d x = if currency_beq c d then x else 0

abbrev pub fix_in : CurrencyId → SetterAuctionItem → ℕ
fix_in c item = amount_in c item.currency item.fix

abbrev pub serplus_in : CurrencyId → SerplusAuctionItem → ℕ
serplus_in c item = amount_in c item.currency item.amount

abbrev pub diamond_fix : Unit {0} → DiamondAuctionItem → ℕ
diamond_fix _ item = item.fix

-- a total that moves in one currency only
pub added_in :
    (total : CurrencyId → ℕ) (d : CurrencyId) (x y : ℕ) (c : CurrencyId)
    → y ≡ total d + x
    → update total d y c ≡ total c + amount_in c d x
added_in total d x y c e = elim (Bool-cases (currency_beq c d)) [
  | inl b ↦ let same = (currency_beq_iff c d).0 b in rw (b, same) e
  | inr b ↦ rw b (omega arith)
]

taken_in :
    (total : CurrencyId → ℕ) (d : CurrencyId) (x : ℕ) (c : CurrencyId)
    → update total d (total d - x) c ≡ total c - amount_in c d x
taken_in total d x c = elim (Bool-cases (currency_beq c d)) [
  | inl b ↦ let same = (currency_beq_iff c d).0 b in rw (b, same) refl
  | inr b ↦ rw b (omega arith)
]

-- What the totals have above the sums, since a call that fails keeps what it has written.
pub record Excess : Type 0 where
  pub of_setter : Unit {0} → ℕ
  pub of_settcurrency : CurrencyId → ℕ
  pub of_serplus : CurrencyId → ℕ

abbrev pub no_excess : Excess
no_excess = record { of_setter = λ _. 0; of_settcurrency = λ _. 0; of_serplus = λ _. 0 }

abbrev pub more_setter : ℕ → Excess → Excess
more_setter n x = record x { of_setter = λ u. x.of_setter u + n }

abbrev pub more_settcurrency : CurrencyId → ℕ → Excess → Excess
more_settcurrency d n x = record x { of_settcurrency = λ c. x.of_settcurrency c + amount_in c d n }

abbrev pub more_serplus : CurrencyId → ℕ → Excess → Excess
more_serplus d n x = record x { of_serplus = λ c. x.of_serplus c + amount_in c d n }

module _ {W : Type 0} {T : Config W} (ids : IssuesIds T) where
  -- Each map has distinct identifiers below the bound, and its total is the sum over its auctions
  -- (by currency for the setter and the serplus auctions) and the excess; an identifier is in one
  -- map at most.
  pub record IsAccounted (x : Excess) (s : Auctions W) : Type 0 where
    pub diamonds :
        IsBook diamond_fix
          (ids.next_id s.world)
          s.diamond_auctions
          x.of_setter
          (λ _. s.total_setter_in_auction)
    pub setters :
        IsBook fix_in
          (ids.next_id s.world)
          s.setter_auctions
          x.of_settcurrency
          s.total_settcurrency_in_auction
    pub serplus :
        IsBook serplus_in
          (ids.next_id s.world)
          s.serplus_auctions
          x.of_serplus
          s.total_serplus_in_auction
    pub diamond_setter : Apart s.diamond_auctions s.setter_auctions
    pub diamond_serplus : Apart s.diamond_auctions s.serplus_auctions
    pub setter_serplus : Apart s.setter_auctions s.serplus_auctions

  module _ {x : Excess} {s : Auctions W} (h : IsAccounted x s) (es : List Event) (w : W) where
    pub elsewhere-IsAccounted :
        ids.next_id s.world ≤ ids.next_id w → IsAccounted x (record s { events = es; world = w })
    elsewhere-IsAccounted le = record {
      diamonds = IsBook-weaken h.diamonds (ids.next_id w) le;
      setters = IsBook-weaken h.setters (ids.next_id w) le;
      serplus = IsBook-weaken h.serplus (ids.next_id w) le;
      diamond_setter = h.diamond_setter;
      diamond_serplus = h.diamond_serplus;
      setter_serplus = h.setter_serplus;
    }

    pub close_diamond-IsAccounted :
        (id : ℕ) (item : DiamondAuctionItem)
        → ids.next_id s.world ≤ ids.next_id w
        → diamond_auction s id ≡ some item
        → IsAccounted x (record s {
          diamond_auctions = remove id s.diamond_auctions;
          total_setter_in_auction = s.total_setter_in_auction - item.fix;
          events = es;
          world = w;
        })
    close_diamond-IsAccounted id item le found = record {
      diamonds = IsBook-remove h.diamonds (ids.next_id w) id item _ le found (λ _. refl);
      setters = IsBook-weaken h.setters (ids.next_id w) le;
      serplus = IsBook-weaken h.serplus (ids.next_id w) le;
      diamond_setter = Apart-remove h.diamond_setter id h.diamonds.entries;
      diamond_serplus = Apart-remove h.diamond_serplus id h.diamonds.entries;
      setter_serplus = h.setter_serplus;
    }

    pub close_setter-IsAccounted :
        (id : ℕ) (item : SetterAuctionItem)
        → ids.next_id s.world ≤ ids.next_id w
        → setter_auction s id ≡ some item
        → IsAccounted x (record s {
          setter_auctions = remove id s.setter_auctions;
          total_settcurrency_in_auction =
              update s.total_settcurrency_in_auction item.currency
                (s.total_settcurrency_in_auction item.currency - item.fix);
          events = es;
          world = w;
        })
    close_setter-IsAccounted id item le found = record {
      diamonds = IsBook-weaken h.diamonds (ids.next_id w) le;
      setters =
          IsBook-remove h.setters (ids.next_id w) id item _ le found
            (taken_in s.total_settcurrency_in_auction item.currency item.fix);
      serplus = IsBook-weaken h.serplus (ids.next_id w) le;
      diamond_setter = Apart-sym (Apart-remove (Apart-sym h.diamond_setter) id h.setters.entries);
      diamond_serplus = h.diamond_serplus;
      setter_serplus = Apart-remove h.setter_serplus id h.setters.entries;
    }

    pub close_serplus-IsAccounted :
        (id : ℕ) (item : SerplusAuctionItem)
        → ids.next_id s.world ≤ ids.next_id w
        → serplus_auction s id ≡ some item
        → IsAccounted x (record s {
          serplus_auctions = remove id s.serplus_auctions;
          total_serplus_in_auction =
              update s.total_serplus_in_auction item.currency
                (s.total_serplus_in_auction item.currency - item.amount);
          events = es;
          world = w;
        })
    close_serplus-IsAccounted id item le found = record {
      diamonds = IsBook-weaken h.diamonds (ids.next_id w) le;
      setters = IsBook-weaken h.setters (ids.next_id w) le;
      serplus =
          IsBook-remove h.serplus (ids.next_id w) id item _ le found
            (taken_in s.total_serplus_in_auction item.currency item.amount);
      diamond_setter = h.diamond_setter;
      diamond_serplus = Apart-sym (Apart-remove (Apart-sym h.diamond_serplus) id h.serplus.entries);
      setter_serplus = Apart-sym (Apart-remove (Apart-sym h.setter_serplus) id h.serplus.entries);
    }

  module _ {x : Excess} {s : Auctions W} (h : IsAccounted x s) where
    -- a total that is raised before there is an auction
    pub raise_setter-IsAccounted :
        (n total : ℕ)
        → total ≡ s.total_setter_in_auction + n
        → IsAccounted (more_setter n x) (record s { total_setter_in_auction = total })
    raise_setter-IsAccounted n total e = record {
      diamonds = IsBook-raise h.diamonds (λ _. n) (λ _. total) (λ _. e);
      setters = h.setters;
      serplus = h.serplus;
      diamond_setter = h.diamond_setter;
      diamond_serplus = h.diamond_serplus;
      setter_serplus = h.setter_serplus;
    }

    pub raise_settcurrency-IsAccounted :
        (d : CurrencyId) (n total : ℕ)
        → total ≡ s.total_settcurrency_in_auction d + n
        → IsAccounted (more_settcurrency d n x) (record s {
          total_settcurrency_in_auction = update s.total_settcurrency_in_auction d total;
        })
    raise_settcurrency-IsAccounted d n total e = record {
      setters =
          IsBook-raise h.setters (λ c. amount_in c d n)
            (update s.total_settcurrency_in_auction d total)
            (λ c. added_in s.total_settcurrency_in_auction d n total c e);
      diamonds = h.diamonds;
      serplus = h.serplus;
      diamond_setter = h.diamond_setter;
      diamond_serplus = h.diamond_serplus;
      setter_serplus = h.setter_serplus;
    }

    pub raise_serplus-IsAccounted :
        (d : CurrencyId) (n total : ℕ)
        → total ≡ s.total_serplus_in_auction d + n
        → IsAccounted
            (more_serplus d n x)
            (record s { total_serplus_in_auction = update s.total_serplus_in_auction d total })
    raise_serplus-IsAccounted d n total e = record {
      serplus =
          IsBook-raise h.serplus (λ c. amount_in c d n) (update s.total_serplus_in_auction d total)
            (λ c. added_in s.total_serplus_in_auction d n total c e);
      diamonds = h.diamonds;
      setters = h.setters;
      diamond_setter = h.diamond_setter;
      diamond_serplus = h.diamond_serplus;
      setter_serplus = h.setter_serplus;
    }

    -- an auction that is taken while its total stays
    pub take_diamond-IsAccounted :
        (id : ℕ) (item : DiamondAuctionItem)
        → diamond_auction s id ≡ some item
        → IsAccounted (more_setter item.fix x) (take_diamond id s)
    take_diamond-IsAccounted id item found = record {
      diamonds = IsBook-take h.diamonds id item found;
      diamond_setter = Apart-remove h.diamond_setter id h.diamonds.entries;
      diamond_serplus = Apart-remove h.diamond_serplus id h.diamonds.entries;
      setters = h.setters;
      serplus = h.serplus;
      setter_serplus = h.setter_serplus;
    }

    pub take_setter-IsAccounted :
        (id : ℕ) (item : SetterAuctionItem)
        → setter_auction s id ≡ some item
        → IsAccounted (more_settcurrency item.currency item.fix x) (take_setter id s)
    take_setter-IsAccounted id item found = record {
      setters = IsBook-take h.setters id item found;
      diamond_setter = Apart-sym (Apart-remove (Apart-sym h.diamond_setter) id h.setters.entries);
      setter_serplus = Apart-remove h.setter_serplus id h.setters.entries;
      diamonds = h.diamonds;
      serplus = h.serplus;
      diamond_serplus = h.diamond_serplus;
    }

    pub take_serplus-IsAccounted :
        (id : ℕ) (item : SerplusAuctionItem)
        → serplus_auction s id ≡ some item
        → IsAccounted (more_serplus item.currency item.amount x) (take_serplus id s)
    take_serplus-IsAccounted id item found = record {
      serplus = IsBook-take h.serplus id item found;
      diamond_serplus = Apart-sym (Apart-remove (Apart-sym h.diamond_serplus) id h.serplus.entries);
      setter_serplus = Apart-sym (Apart-remove (Apart-sym h.setter_serplus) id h.serplus.entries);
      diamonds = h.diamonds;
      setters = h.setters;
      diamond_setter = h.diamond_setter;
    }
