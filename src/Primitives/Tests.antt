-- ===== src/Primitives/Tests.antt =====
-- Token symbols, trading pairs and share currencies at concrete inputs.
use setheum.Common.{refl}
use setheum.Primitives.Token.{TokenSymbol}
use setheum.Primitives.Currency.{
  CurrencyId, TradingPair, new_pair, from_token_currency_ids, get_dex_share_currency_id,
}
use setheum.Primitives.Pairs.{SplitsInto, get_dex_share_currency_id-SplitsInto}

abbrev dinar : CurrencyId
dinar = CurrencyId.token TokenSymbol.dnar

abbrev contract : CurrencyId
contract = CurrencyId.erc20 77

abbrev pair : TradingPair
pair = record { left = dinar; right = contract }

get_dex_share_currency_id-SplitsInto_example :
    SplitsInto dinar contract (get_dex_share_currency_id pair)
unfolding from_token_currency_ids new_pair
get_dex_share_currency_id-SplitsInto_example =
    get_dex_share_currency_id-SplitsInto contract dinar refl
