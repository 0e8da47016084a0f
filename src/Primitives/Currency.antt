-- ===== src/Primitives/Currency.antt =====
-- Currencies and trading pairs: `DexShare`, `CurrencyId` (primitives/src/currency.rs) and
-- `TradingPair` (primitives/src/lib.rs), with their derived equality and order.
-- An `EvmAddress` and a `ResourceId` are fixed-size byte arrays; they stand as the big-endian
-- numbers that they spell, whose order is the byte order.
use setheum.Common.{
  ℕ, List, [], ◌∷◌, Bool, true, false, ◌&&◌, ◌||◌, Option, none, some, ltb, ◌==◌, if◌then◌else◌,
}
use setheum.Primitives.Token.{TokenSymbol, into_u8}

pub data DexShare : Type 0 where
  token : TokenSymbol → DexShare
  erc20 : ℕ → DexShare

pub data CurrencyId : Type 0 where
  token : TokenSymbol → CurrencyId
  dex_share : DexShare → DexShare → CurrencyId
  erc20 : ℕ → CurrencyId
  chain_bridge : ℕ → CurrencyId

abbrev pub is_token_currency_id : CurrencyId → Bool
is_token_currency_id (CurrencyId.token _) = true
is_token_currency_id _ = false

abbrev pub is_dex_share_currency_id : CurrencyId → Bool
is_dex_share_currency_id (CurrencyId.dex_share _ _) = true
is_dex_share_currency_id _ = false

abbrev pub is_erc20_currency_id : CurrencyId → Bool
is_erc20_currency_id (CurrencyId.erc20 _) = true
is_erc20_currency_id _ = false

-- `Into<CurrencyId> for DexShare`
abbrev pub into_currency_id : DexShare → CurrencyId
into_currency_id (DexShare.token s) = CurrencyId.token s
into_currency_id (DexShare.erc20 a) = CurrencyId.erc20 a

unfoldable pub split_dex_share_currency_id : CurrencyId → Option (CurrencyId × CurrencyId)
split_dex_share_currency_id (CurrencyId.dex_share a b) =
    some (into_currency_id a, into_currency_id b)
split_dex_share_currency_id _ = none

-- the two `match`es of `join_dex_share_currency_id`
abbrev pub as_dex_share : CurrencyId → Option DexShare
as_dex_share (CurrencyId.token s) = some (DexShare.token s)
as_dex_share (CurrencyId.erc20 a) = some (DexShare.erc20 a)
as_dex_share _ = none

unfoldable pub join_dex_share_currency_id : CurrencyId → CurrencyId → Option CurrencyId
join_dex_share_currency_id c d = elim (as_dex_share c) [
  | none ↦ none
  | some a ↦ elim (as_dex_share d) [ none ↦ none | some b ↦ some (CurrencyId.dex_share a b) ]
]

-- the derived `==`
abbrev pub share_beq : DexShare → DexShare → Bool
share_beq (DexShare.token s) (DexShare.token t) = into_u8 s == into_u8 t
share_beq (DexShare.erc20 a) (DexShare.erc20 b) = a == b
share_beq _ _ = false

abbrev pub currency_beq : CurrencyId → CurrencyId → Bool
currency_beq (CurrencyId.token s) (CurrencyId.token t) = into_u8 s == into_u8 t
currency_beq (CurrencyId.dex_share a b) (CurrencyId.dex_share c d) = share_beq a c && share_beq b d
currency_beq (CurrencyId.erc20 a) (CurrencyId.erc20 b) = a == b
currency_beq (CurrencyId.chain_bridge a) (CurrencyId.chain_bridge b) = a == b
currency_beq _ _ = false

-- the derived `>`: the variants in order, then their fields
abbrev pub share_gtb : DexShare → DexShare → Bool
share_gtb (DexShare.token s) (DexShare.token t) = ltb (into_u8 t) (into_u8 s)
share_gtb (DexShare.token _) (DexShare.erc20 _) = false
share_gtb (DexShare.erc20 _) (DexShare.token _) = true
share_gtb (DexShare.erc20 a) (DexShare.erc20 b) = ltb b a

abbrev pub variant : CurrencyId → ℕ
variant (CurrencyId.token _) = 0
variant (CurrencyId.dex_share _ _) = 1
variant (CurrencyId.erc20 _) = 2
variant (CurrencyId.chain_bridge _) = 3

abbrev pub currency_gtb : CurrencyId → CurrencyId → Bool
currency_gtb (CurrencyId.token s) (CurrencyId.token t) = ltb (into_u8 t) (into_u8 s)
currency_gtb (CurrencyId.dex_share a b) (CurrencyId.dex_share c d) =
    share_gtb a c || (share_beq a c && share_gtb b d)
currency_gtb (CurrencyId.erc20 a) (CurrencyId.erc20 b) = ltb b a
currency_gtb (CurrencyId.chain_bridge a) (CurrencyId.chain_bridge b) = ltb b a
currency_gtb c d = ltb (variant d) (variant c)

-- `Vec::contains`
abbrev pub contains : List CurrencyId → CurrencyId → Bool
contains [] c = false
contains (d ∷ ds) c = if currency_beq d c then true else contains ds c

-- `TradingPair(pub CurrencyId, pub CurrencyId)`; `left` is `.0`, `right` is `.1`.
pub record TradingPair : Type 0 where
  pub left : CurrencyId
  pub right : CurrencyId

abbrev pub pair_beq : TradingPair → TradingPair → Bool
pair_beq p q = currency_beq p.left q.left && currency_beq p.right q.right

-- `TradingPair::new`
unfoldable pub new_pair : CurrencyId → CurrencyId → TradingPair
new_pair a b =
    if currency_gtb a b then record { left = b; right = a } else record { left = a; right = b }

-- a token or an ERC20 currency, which may stand in a pair
abbrev pub is_tradable : CurrencyId → Bool
is_tradable c = is_token_currency_id c || is_erc20_currency_id c

unfoldable pub from_token_currency_ids : CurrencyId → CurrencyId → Option TradingPair
from_token_currency_ids c d = if is_tradable c && is_tradable d then some (new_pair d c) else none

unfoldable pub get_dex_share_currency_id : TradingPair → Option CurrencyId
get_dex_share_currency_id p = join_dex_share_currency_id p.left p.right
