-- ===== src/Primitives/Pairs.antt =====
-- Trading pairs and LP share currencies: a pair does not depend on the order of its currencies,
-- and every tradable pair has a share currency, from which the pair can be read back.
use mathlib.Core.Option.{some-injective}
use setheum.Common.{◌≡◌, refl, sym, ◌∙◌, inl, inr, true, false, Option, none, some, ◌⊎◌, Bool-cases}
use setheum.Primitives.Currency.{
  CurrencyId, TradingPair, currency_gtb, new_pair, is_tradable, from_token_currency_ids,
  is_dex_share_currency_id, get_dex_share_currency_id, split_dex_share_currency_id,
  join_dex_share_currency_id,
}
use setheum.Primitives.Order.{currency-Trichotomy}

-- The pair of two currencies is the same in either order.
pub new_pair_comm : (a b : CurrencyId) → new_pair a b ≡ new_pair b a
unfolding new_pair
new_pair_comm a b = elim (currency-Trichotomy a b) [
  | inl (p, q) ↦ rw (p, q)
  | inr (inl (p, q)) ↦ rw (p, q)
  | inr (inr e) ↦ rw e
]

-- A pair holds its two currencies, and the left one is not above the right one.
pub new_pair_ordered :
    (a b : CurrencyId)
    → let p = new_pair a b in
      ((p ≡ record { left = a; right = b }) ⊎ (p ≡ record { left = b; right = a }))
      × ((currency_gtb p.left p.right ≡ false) ⊎ (p.left ≡ p.right))
unfolding new_pair
new_pair_ordered a b = elim (currency-Trichotomy a b) [
  | inl (p, q) ↦ rw p (inr refl, inl q)
  | inr (inl (p, q)) ↦ rw p (inl refl, inl p)
  | inr (inr e) ↦ rw e (elim (Bool-cases (currency_gtb b b)) [
    | inl p ↦ rw p (inl refl, inr refl)
    | inr p ↦ rw p (inl refl, inr refl)
  ])
]

-- A share currency that can be split into the two currencies given.
abbrev pub SplitsInto : CurrencyId → CurrencyId → Option CurrencyId → Type 0
SplitsInto a b none = ⊥
SplitsInto a b (some c) =
    (is_dex_share_currency_id c ≡ true) × (split_dex_share_currency_id c ≡ some (a, b))

join-SplitsInto :
    (a b : CurrencyId)
    → is_tradable a ≡ true
    → is_tradable b ≡ true
    → SplitsInto a b (join_dex_share_currency_id a b)
unfolding join_dex_share_currency_id split_dex_share_currency_id
join-SplitsInto (CurrencyId.token s) (CurrencyId.token t) p q = (refl, refl)
join-SplitsInto (CurrencyId.token s) (CurrencyId.erc20 t) p q = (refl, refl)
join-SplitsInto (CurrencyId.erc20 s) (CurrencyId.token t) p q = (refl, refl)
join-SplitsInto (CurrencyId.erc20 s) (CurrencyId.erc20 t) p q = (refl, refl)
join-SplitsInto (CurrencyId.token s) (CurrencyId.dex_share _ _) p q = cc
join-SplitsInto (CurrencyId.token s) (CurrencyId.chain_bridge _) p q = cc
join-SplitsInto (CurrencyId.erc20 s) (CurrencyId.dex_share _ _) p q = cc
join-SplitsInto (CurrencyId.erc20 s) (CurrencyId.chain_bridge _) p q = cc
join-SplitsInto (CurrencyId.dex_share _ _) b p q = cc
join-SplitsInto (CurrencyId.chain_bridge _) b p q = cc

-- `from_token_currency_ids` gives the pair exactly when both currencies are tokens or ERC20s.
pub from_token_currency_ids-eq_some :
    (a b : CurrencyId) {p : TradingPair}
    → from_token_currency_ids a b ≡ some p
    → (is_tradable a ≡ true) × (is_tradable b ≡ true) × (p ≡ new_pair a b)
unfolding from_token_currency_ids
from_token_currency_ids-eq_some a b {p} e = elim (Bool-cases (is_tradable a)) [
  | inl ta ↦ elim (Bool-cases (is_tradable b)) [
    | inl tb ↦ (ta, tb, sym (some-injective _ _ (rw (ta, tb) at e)) ∙ new_pair_comm b a)
    | inr tb ↦ absurd_none (rw (ta, tb) at e)
  ]
  | inr ta ↦ absurd_none (rw ta at e)
]
  where
    absurd_none :
        none ≡ some p → (is_tradable a ≡ true) × (is_tradable b ≡ true) × (p ≡ new_pair a b)
    absurd_none h = cc

new_pair-tradable :
    (a b : CurrencyId)
    → is_tradable a ≡ true
    → is_tradable b ≡ true
    → (is_tradable (new_pair a b).left ≡ true) × (is_tradable (new_pair a b).right ≡ true)
new_pair-tradable a b p q = elim ((new_pair_ordered a b).0) [
  | inl e ↦ rw e (p, q)
  | inr e ↦ rw e (q, p)
]

-- Every pair that `from_token_currency_ids` gives has a share currency, and the share currency
-- splits into the two currencies of the pair again.
pub get_dex_share_currency_id-SplitsInto :
    (a b : CurrencyId) {p : TradingPair}
    → from_token_currency_ids a b ≡ some p
    → SplitsInto p.left p.right (get_dex_share_currency_id p)
unfolding get_dex_share_currency_id
get_dex_share_currency_id-SplitsInto a b {p} e =
    let (ta, tb, q) = from_token_currency_ids-eq_some a b e in
    let (l, r) = new_pair-tradable a b ta tb in
    rw q (join-SplitsInto (new_pair a b).left (new_pair a b).right l r)
