-- ===== src/EvmManager/Mapping.antt =====
-- The map from numbers to contracts (`CurrencyIdMap`), its change (`set_erc20_mapping`), and what
-- it gives for a currency (`decimals`, `encode_evm_address`, `decode_evm_address`). An address is
-- the big-endian number that its 20 bytes spell.
use setheum.Common.{
  ℕ, zero, suc, ◌-◌, ◌*◌, ◌/◌, ◌%◌, ◌^◌, Option, none, some, List, Result, ok, err, Action, ◌>>=◌,
  ensure, modify, ◌==◌, ltb, if◌then◌else◌, update, nat_eq,
}
use setheum.Primitives.Token.{into_u8, try_from_u8, decimals}
use setheum.Primitives.Currency.{DexShare, CurrencyId}
use setheum.Primitives.Addresses.{dexshare_address, try_into_evm_address}
use setheum.Currencies.Types.{InvokeContext}

pub data Error : Type 0 where
  currency_id_existed : Error
  other : ℕ → Error

pub record Erc20Info : Type 0 where
  pub address : ℕ
  pub name : List ℕ
  pub symbol : List ℕ
  pub decimals : ℕ

-- `T::EVMBridge`, on the storage `W` of the contracts
pub record Config (W : Type 0) : Type 0 where
  pub name : InvokeContext → W → Result ℕ (List ℕ)
  pub symbol : InvokeContext → W → Result ℕ (List ℕ)
  pub decimals : InvokeContext → W → Result ℕ ℕ

pub record EvmManager (W : Type 0) : Type 0 where
  pub currency_id_map : ℕ → Option Erc20Info
  pub world : W

-- how many of the last `k` bytes are zero before the first other one
abbrev pub leading_zeros : ℕ → ℕ → ℕ
leading_zeros zero address = 0
leading_zeros (suc k) address =
    let rest = leading_zeros k address in if address / 2 ^ (8 * k) % 256 == 0 then suc rest else 0

-- the four bytes from an index
abbrev pub four_bytes : ℕ → ℕ → ℕ
four_bytes index address = address / 2 ^ (8 * (16 - index)) % 2 ^ 32

-- `From<DexShare> for u32`
unfoldable pub into_u32 : DexShare → ℕ
into_u32 (DexShare.token s) = into_u8 s
into_u32 (DexShare.erc20 address) =
    let zeros = leading_zeros 20 address in four_bytes (if ltb 16 zeros then 16 else zeros) address

-- `.filter(|v| v.address == address)`
abbrev pub of_address : ℕ → Option Erc20Info → Option Erc20Info
of_address address none = none
of_address address (some v) = if v.address == address then some v else none

abbrev pub map_option : {A B : Type 0} → (A → B) → Option A → Option B
map_option f none = none
map_option f (some a) = some (f a)

-- `max` of two values under `?`
abbrev pub larger : Option ℕ → Option ℕ → Option ℕ
larger none _ = none
larger (some _) none = none
larger (some a) (some b) = some (if ltb a b then b else a)

abbrev pub joined_shares : Option DexShare → Option DexShare → Option CurrencyId
joined_shares none _ = none
joined_shares (some _) none = none
joined_shares (some left) (some right) = some (CurrencyId.dex_share left right)

module _ {W : Type 0} where
  -- the entry of a contract
  abbrev pub erc20_info : ℕ → EvmManager W → Option Erc20Info
  erc20_info address s = of_address address (s.currency_id_map (into_u32 (DexShare.erc20 address)))

  abbrev pub bridge_answer :
      {A : Type 0} → EvmManager W → Result ℕ A → Result Error (A × EvmManager W)
  bridge_answer s (ok a) = ok (a, s)
  bridge_answer s (err e) = err (Error.other e)

  -- a call of the contract, under `?`
  abbrev pub bridge : {A : Type 0} → (W → Result ℕ A) → Action (EvmManager W) Error A
  bridge f s = bridge_answer s (f s.world)

  abbrev pub insert : ℕ → Erc20Info → EvmManager W → EvmManager W
  insert id info s = record s { currency_id_map = update s.currency_id_map id (some info) }

  -- the entry of the number, which is there or is made
  abbrev pub map_entry : Config W → ℕ → Option Erc20Info → Action (EvmManager W) Error (Unit {0})
  map_entry T address (some info) = ensure (info.address == address) Error.currency_id_existed
  map_entry T address none =
      let context : InvokeContext = record { contract = address; sender = 0; origin = 0 } in
      do
        name ← bridge (T.name context)
        symbol ← bridge (T.symbol context)
        decimals ← bridge (T.decimals context)
        modify (
            insert (into_u32 (DexShare.erc20 address))
              (record { address = address; name = name; symbol = symbol; decimals = decimals }))

  unfoldable pub set_erc20_mapping : Config W → ℕ → Action (EvmManager W) Error (Unit {0})
  set_erc20_mapping T address s =
      map_entry T address (s.currency_id_map (into_u32 (DexShare.erc20 address))) s

  abbrev pub get_evm_address : ℕ → EvmManager W → Option ℕ
  get_evm_address currency_id s = map_option (λ v. v.address) (s.currency_id_map currency_id)

  abbrev pub share_decimals : DexShare → EvmManager W → Option ℕ
  share_decimals (DexShare.token symbol) s = some (decimals symbol)
  share_decimals (DexShare.erc20 address) s = map_option (λ v. v.decimals) (erc20_info address s)

  abbrev pub currency_decimals : CurrencyId → EvmManager W → Option ℕ
  currency_decimals (CurrencyId.token symbol) s = some (decimals symbol)
  currency_decimals (CurrencyId.dex_share a b) s = larger (share_decimals a s) (share_decimals b s)
  currency_decimals (CurrencyId.erc20 address) s =
      map_option (λ v. v.decimals) (erc20_info address s)
  currency_decimals (CurrencyId.chain_bridge _) s = none

  -- the number of a share, where a contract is in the map
  abbrev pub share_id : DexShare → EvmManager W → Option ℕ
  share_id (DexShare.token symbol) s = some (into_u32 (DexShare.token symbol))
  share_id (DexShare.erc20 address) s =
      map_option (λ _. into_u32 (DexShare.erc20 address)) (erc20_info address s)

  unfoldable pub encode_evm_address : CurrencyId → EvmManager W → Option ℕ
  encode_evm_address (CurrencyId.dex_share left right) s =
      dexshare_address (share_id left s) (share_id right s)
  encode_evm_address v s = try_into_evm_address v

  abbrev pub decode_share : ℕ → EvmManager W → Option DexShare
  decode_share id s =
      if id / 256 == 0
      then map_option (λ t. DexShare.token t) (try_from_u8 (id % 256))
      else map_option (λ v. DexShare.erc20 v.address) (s.currency_id_map id)

  -- The first 19 bytes of a token's address spell 65536, the first 12 of a share's address 1.
  unfoldable pub decode_evm_address : ℕ → EvmManager W → Option CurrencyId
  decode_evm_address address s =
      if address / 256 == 65536
      then map_option (λ t. CurrencyId.token t) (try_from_u8 (address % 256))
      else (if address / 2 ^ 64 == 1
          then joined_shares (decode_share (address / 2 ^ 32 % 2 ^ 32) s)
              (decode_share (address % 2 ^ 32) s)
          else map_option (λ v. CurrencyId.erc20 v.address)
              (s.currency_id_map (into_u32 (DexShare.erc20 address))))
