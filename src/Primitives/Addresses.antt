-- ===== src/Primitives/Addresses.antt =====
-- The EVM addresses of currencies: `TryFrom<CurrencyId> for EvmAddress` and the address constants
-- of primitives/src/lib.rs. An address is the big-endian number that its bytes spell. The bits
-- that the code puts together by `|` do not meet, so that `|` is a sum here.
use setheum.Common.{ℕ, ◌+◌, ◌*◌, ◌≤◌, ◌≡◌, sym, ap, ◌∙◌, false, Option, none, some, arith}
use setheum.Primitives.Token.{TokenSymbol, into_u8, into_u8-injective}
use setheum.Primitives.Currency.{DexShare, CurrencyId, is_erc20_currency_id}

-- `MIRRORED_TOKENS_ADDRESS_START`
abbrev pub mirrored_tokens_address_start : ℕ
mirrored_tokens_address_start = 16777216

-- the address whose first twelve bytes are `H160_PREFIX_DEXSHARE`
abbrev pub h160_prefix_dexshare : ℕ
h160_prefix_dexshare = 18446744073709551616

-- The symbol of a token; an ERC20 currency has none.
abbrev pub symbol_of : DexShare → Option ℕ
symbol_of (DexShare.token s) = some (into_u8 s)
symbol_of (DexShare.erc20 _) = none

-- `prefix | from_low_u64_be(symbol_0 << 32 | symbol_1)`
abbrev pub dexshare_address : Option ℕ → Option ℕ → Option ℕ
dexshare_address none _ = none
dexshare_address (some _) none = none
dexshare_address (some x) (some y) = some (h160_prefix_dexshare + (x * 4294967296 + y))

unfoldable pub try_into_evm_address : CurrencyId → Option ℕ
try_into_evm_address (CurrencyId.token s) = some (mirrored_tokens_address_start + into_u8 s)
try_into_evm_address (CurrencyId.dex_share a b) = dexshare_address (symbol_of a) (symbol_of b)
try_into_evm_address (CurrencyId.erc20 address) = some address
try_into_evm_address (CurrencyId.chain_bridge _) = none

-- A symbol is a `u8`.
pub into_u8_le : (s : TokenSymbol) → into_u8 s ≤ 255
into_u8_le TokenSymbol.dnar = omega arith
into_u8_le _ = omega arith

some_eq : (x y : ℕ) → some x ≡ some y → x ≡ y
some_eq x y e = cc

token_eq : (s t : TokenSymbol) → into_u8 s ≡ into_u8 t → CurrencyId.token s ≡ CurrencyId.token t
token_eq s t e = ap (λ s. CurrencyId.token s) (into_u8-injective s t e)

pair_of_symbols :
    (a b c d : ℕ)
    → b ≤ 255
    → d ≤ 255
    → h160_prefix_dexshare + (a * 4294967296 + b) ≡ h160_prefix_dexshare + (c * 4294967296 + d)
    → (a ≡ c) × (b ≡ d)
pair_of_symbols a b c d h g e = (omega arith, omega arith)

share_eq :
    (a b c d : DexShare) {x : ℕ}
    → dexshare_address (symbol_of a) (symbol_of b) ≡ some x
    → dexshare_address (symbol_of c) (symbol_of d) ≡ some x
    → CurrencyId.dex_share a b ≡ CurrencyId.dex_share c d
share_eq (DexShare.token s) (DexShare.token t) (DexShare.token u) (DexShare.token v) e f =
    let (p, q) =
      pair_of_symbols (into_u8 s) (into_u8 t) (into_u8 u) (into_u8 v) (into_u8_le t) (into_u8_le v)
        (some_eq _ _ (e ∙ sym f)) in
    λ i.
      CurrencyId.dex_share (DexShare.token (into_u8-injective s u p i))
        (DexShare.token (into_u8-injective t v q i))
share_eq (DexShare.erc20 _) b c d e f = absurd (cc)
share_eq (DexShare.token s) (DexShare.erc20 _) c d e f = absurd (cc)
share_eq (DexShare.token s) (DexShare.token t) (DexShare.erc20 _) d e f = absurd (cc)
share_eq (DexShare.token s) (DexShare.token t) (DexShare.token u) (DexShare.erc20 _) e f =
    absurd (cc)

-- The address of a token is below those of the shares.
apart :
    (s : TokenSymbol) (a b : DexShare) {x : ℕ}
    → some (mirrored_tokens_address_start + into_u8 s) ≡ some x
    → dexshare_address (symbol_of a) (symbol_of b) ≡ some x
    → ⊥
apart s (DexShare.token t) (DexShare.token u) e f =
    let g = into_u8_le s in let h = some_eq _ _ (e ∙ sym f) in omega arith
apart s (DexShare.erc20 _) b e f = cc
apart s (DexShare.token t) (DexShare.erc20 _) e f = cc

-- Two currencies other than ERC20 contracts never have one and the same EVM address.
try_into_evm_address-injective :
    (c d : CurrencyId) {x : ℕ}
    → is_erc20_currency_id c ≡ false
    → is_erc20_currency_id d ≡ false
    → try_into_evm_address c ≡ some x
    → try_into_evm_address d ≡ some x
    → c ≡ d
unfolding try_into_evm_address
try_into_evm_address-injective (CurrencyId.token s) (CurrencyId.token t) p q e f =
    let h = some_eq _ _ (e ∙ sym f) in token_eq s t (omega arith)
try_into_evm_address-injective (CurrencyId.token s) (CurrencyId.dex_share a b) p q e f =
    absurd (apart s a b e f)
try_into_evm_address-injective (CurrencyId.dex_share a b) (CurrencyId.token s) p q e f =
    absurd (apart s a b f e)
try_into_evm_address-injective (CurrencyId.dex_share a b) (CurrencyId.dex_share c d) p q e f =
    share_eq a b c d e f
try_into_evm_address-injective (CurrencyId.erc20 _) d p q e f = absurd (cc)
try_into_evm_address-injective (CurrencyId.chain_bridge _) d p q e f = absurd (cc)
try_into_evm_address-injective (CurrencyId.token s) (CurrencyId.erc20 _) p q e f = absurd (cc)
try_into_evm_address-injective (CurrencyId.token s) (CurrencyId.chain_bridge _) p q e f =
    absurd (cc)
try_into_evm_address-injective (CurrencyId.dex_share a b) (CurrencyId.erc20 _) p q e f = absurd (cc)
try_into_evm_address-injective (CurrencyId.dex_share a b) (CurrencyId.chain_bridge _) p q e f =
    absurd (cc)
