-- ===== src/EvmManager/Tests.antt =====
-- The manager at concrete inputs: a contract whose first four bytes spell 16777216, and a bridge that
-- answers every question.
use setheum.Common.{ℕ, ◌+◌, ◌^◌, ◌≡◌, refl, none, some, [], ok, err, arith, nat_eq}
use setheum.Primitives.Token.{TokenSymbol, decimals}
use setheum.Primitives.Currency.{DexShare, CurrencyId}
use setheum.EvmManager.Mapping.{
  Error, Erc20Info, Config, EvmManager, into_u32, erc20_info, insert, set_erc20_mapping,
  encode_evm_address, decode_evm_address, currency_decimals,
}
use setheum.EvmManager.Addresses.{decode_evm_address-encode_evm_address}
use setheum.EvmManager.Numbers.{IsOwned, Extends, set_erc20_mapping-Mapped}

abbrev config : Config ℕ
config = record { name = λ _ _. ok []; symbol = λ _ _. ok []; decimals = λ _ _. ok 18 }

abbrev contract : ℕ
contract = 2 ^ 152 + 5

-- a contract with the same first four bytes
abbrev other_contract : ℕ
other_contract = 2 ^ 152 + 6

abbrev contract_info : Erc20Info
contract_info = record { address = contract; name = []; symbol = []; decimals = 18 }

abbrev start : EvmManager ℕ
start = record { currency_id_map = λ _. none; world = 0 }

abbrev after_set : EvmManager ℕ
after_set = insert 16777216 contract_info start

set : set_erc20_mapping config contract start ≡ ok (tt, after_set)
unfolding set_erc20_mapping into_u32
set = refl

start-IsOwned : IsOwned start
start-IsOwned = record { number = λ id v e. absurd cc }

set_erc20_mapping-Mapped_example :
    IsOwned after_set
    × ((v : Erc20Info) × (erc20_info contract after_set ≡ some v))
    × Extends start after_set
set_erc20_mapping-Mapped_example = set_erc20_mapping-Mapped config contract start start-IsOwned set

-- The share of a token and the contract.
abbrev lp_token : CurrencyId
lp_token = CurrencyId.dex_share (DexShare.token TokenSymbol.dram) (DexShare.erc20 contract)

decode_evm_address-encode_evm_address_example :
    decode_evm_address (2 ^ 64 + 2 ^ 32 + 16777216) after_set ≡ some lp_token
unfolding encode_evm_address into_u32
decode_evm_address-encode_evm_address_example =
    decode_evm_address-encode_evm_address lp_token after_set (tt, omega arith) refl

-- Another contract with the same number cannot get it, but its address is decoded as the first one.
existed : set_erc20_mapping config other_contract after_set ≡ err Error.currency_id_existed
unfolding set_erc20_mapping into_u32
existed = refl

decoded_as_other : decode_evm_address other_contract after_set ≡ some (CurrencyId.erc20 contract)
unfolding decode_evm_address into_u32
decoded_as_other = refl

lp_decimals : currency_decimals lp_token after_set ≡ some 18
unfolding into_u32 decimals
lp_decimals = refl
