-- ===== src/EvmManager/Addresses.antt =====
-- The addresses of currencies in both directions (`encode_evm_address`, `decode_evm_address`).
use setheum.Common.{
  ℕ, ◌+◌, ◌*◌, ◌/◌, ◌%◌, ◌^◌, ◌≤◌, ◌<◌, ◌≡◌, ◌≢◌, refl, sym, subst, true, false, Option, none, some,
  arith, ◌==◌, ==_iff, Bool-cases, inl, inr, nat_eq, other_key,
}
use setheum.Primitives.Token.{TokenSymbol, into_u8, try_from_u8, try_from_u8_iff}
use setheum.Primitives.Currency.{DexShare, CurrencyId}
use setheum.Primitives.Addresses.{
  dexshare_address, try_into_evm_address, into_u8_le, h160_prefix_dexshare,
}
use setheum.EvmManager.Mapping.{
  Erc20Info, EvmManager, into_u32, of_address, map_option, erc20_info, share_id, encode_evm_address,
  decode_share, decode_evm_address,
}

some_eq : {x y : ℕ} → some x ≡ some y → x ≡ y
some_eq e = cc

found : (s : TokenSymbol) → try_from_u8 (into_u8 s) ≡ some s
found s = (try_from_u8_iff (into_u8 s) s).1 refl

of_address-address :
    (a : ℕ) (o : Option Erc20Info) {v : Erc20Info}
    → of_address a o ≡ some v
    → (o ≡ some v) × (v.address ≡ a)
of_address-address a none e = absurd cc
of_address-address a (some w) {v} e = elim (Bool-cases (w.address == a)) [
  | inl b ↦
      let q : some w ≡ some v = rw b at e in
      let r : w ≡ v = cc in
      (q, subst (λ (w : Erc20Info). w.address ≡ a) r ((==_iff w.address a).0 b))
  | inr b ↦ let q : ◌≡◌ {A = Option Erc20Info} none (some v) = rw b at e in absurd cc
]

-- The number of a contract in a share is not one of a token.
abbrev pub HasNumber : DexShare → Type 0
HasNumber (DexShare.token _) = Unit
HasNumber (DexShare.erc20 a) = 256 ≤ into_u32 (DexShare.erc20 a)

module _ {W : Type 0} where
  -- An address of a contract that is in the map and is none of a token or a share; in a share, the
  -- numbers of the contracts are none of tokens.
  abbrev pub HasAddress : CurrencyId → EvmManager W → Type 0
  HasAddress (CurrencyId.token _) s = Unit
  HasAddress (CurrencyId.dex_share l r) s = HasNumber l × HasNumber r
  HasAddress (CurrencyId.erc20 a) s =
      ((v : Erc20Info) × (erc20_info a s ≡ some v)) × (a / 256 ≢ 65536) × (a / 2 ^ 64 ≢ 1)
  HasAddress (CurrencyId.chain_bridge _) s = Unit

  share_token :
      (t : TokenSymbol) (s : EvmManager W)
      → (into_u8 t < 2 ^ 32) × (decode_share (into_u8 t) s ≡ some (DexShare.token t))
  share_token t s =
      let le = into_u8_le t in
      let high : (into_u8 t / 256 == 0) ≡ true = (==_iff (into_u8 t / 256) 0).1 (omega arith) in
      let low : into_u8 t % 256 ≡ into_u8 t = omega arith in
      (omega arith, rw (high, low, found t) refl)

  share_erc20 :
      (a : ℕ) (s : EvmManager W) {v : Erc20Info}
      → HasNumber (DexShare.erc20 a)
      → erc20_info a s ≡ some v
      → (into_u32 (DexShare.erc20 a) < 2 ^ 32)
        × (decode_share (into_u32 (DexShare.erc20 a)) s ≡ some (DexShare.erc20 a))
  unfolding into_u32
  share_erc20 a s number e =
      let id = into_u32 (DexShare.erc20 a) in
      let (entry, same) = of_address-address a (s.currency_id_map id) e in
      let high : (id / 256 == 0) ≡ false = other_key 0 (id / 256) (λ z. absurd (omega arith)) in
      (omega arith, rw (high, entry, same) refl)

  share :
      (d : DexShare) (s : EvmManager W) {x : ℕ}
      → HasNumber d
      → share_id d s ≡ some x
      → (x < 2 ^ 32) × (decode_share x s ≡ some d)
  unfolding into_u32
  share (DexShare.token t) s {x} number e =
      subst (λ x. (x < 2 ^ 32) × (decode_share x s ≡ some (DexShare.token t))) (some_eq e)
        (share_token t s)
  share (DexShare.erc20 a) s {x} number e = by_entry (erc20_info a s) refl e
    where
      by_entry :
          (o : Option Erc20Info)
          → erc20_info a s ≡ o
          → map_option (λ _. into_u32 (DexShare.erc20 a)) o ≡ some x
          → (x < 2 ^ 32) × (decode_share x s ≡ some (DexShare.erc20 a))
      by_entry none q e = absurd cc
      by_entry (some v) q e =
          subst (λ x. (x < 2 ^ 32) × (decode_share x s ≡ some (DexShare.erc20 a))) (some_eq e)
            (share_erc20 a s number q)

  decode_dex_share :
      (l r : DexShare) (s : EvmManager W) (x y : ℕ)
      → (x < 2 ^ 32) × (decode_share x s ≡ some l)
      → (y < 2 ^ 32) × (decode_share y s ≡ some r)
      → decode_evm_address (h160_prefix_dexshare + (x * 4294967296 + y)) s
        ≡ some (CurrencyId.dex_share l r)
  unfolding decode_evm_address
  decode_dex_share l r s x y (ltx, ex) (lty, ey) =
      let a : ℕ = h160_prefix_dexshare + (x * 4294967296 + y) in
      let no_token : (a / 256 == 65536) ≡ false =
        other_key 65536 (a / 256) (λ z. absurd (omega arith)) in
      let prefix : (a / 2 ^ 64 == 1) ≡ true = (==_iff (a / 2 ^ 64) 1).1 (omega arith) in
      let left : a / 2 ^ 32 % 2 ^ 32 ≡ x = omega arith in
      let right : a % 2 ^ 32 ≡ y = omega arith in rw (no_token, prefix, left, right, ex, ey) refl

  decode_shares :
      (l r : DexShare) (s : EvmManager W) {a : ℕ} (o p : Option ℕ)
      → HasNumber l
      → HasNumber r
      → share_id l s ≡ o
      → share_id r s ≡ p
      → dexshare_address o p ≡ some a
      → decode_evm_address a s ≡ some (CurrencyId.dex_share l r)
  decode_shares l r s none p hl hr el er e = absurd cc
  decode_shares l r s (some x) none hl hr el er e = absurd cc
  decode_shares l r s {a} (some x) (some y) hl hr el er e =
      subst (λ a. decode_evm_address a s ≡ some (CurrencyId.dex_share l r)) (some_eq e)
        (decode_dex_share l r s x y (share l s hl el) (share r s hr er))

  -- The address that a currency is encoded as, if it has one, is decoded as this currency.
  pub decode_evm_address-encode_evm_address :
      (c : CurrencyId) (s : EvmManager W) {a : ℕ}
      → HasAddress c s
      → encode_evm_address c s ≡ some a
      → decode_evm_address a s ≡ some c
  unfolding encode_evm_address decode_evm_address try_into_evm_address
  decode_evm_address-encode_evm_address (CurrencyId.token t) s {a} h e =
      let q : 16777216 + into_u8 t ≡ a = some_eq e in
      let le = into_u8_le t in
      let high : (a / 256 == 65536) ≡ true = (==_iff (a / 256) 65536).1 (omega arith) in
      let low : a % 256 ≡ into_u8 t = omega arith in rw (high, low, found t) refl
  decode_evm_address-encode_evm_address (CurrencyId.dex_share l r) s (hl, hr) e =
      decode_shares l r s (share_id l s) (share_id r s) hl hr refl refl e
  decode_evm_address-encode_evm_address (CurrencyId.erc20 b) s {a} ((v, e'), no_token, no_share) e =
      let q : b ≡ a = some_eq e in
      let (entry, same) =
        of_address-address b (s.currency_id_map (into_u32 (DexShare.erc20 b))) e' in
      let token : (b / 256 == 65536) ≡ false = other_key 65536 (b / 256) (λ z. no_token (sym z)) in
      let share : (b / 2 ^ 64 == 1) ≡ false = other_key 1 (b / 2 ^ 64) (λ z. no_share (sym z)) in
      subst (λ a. decode_evm_address a s ≡ some (CurrencyId.erc20 b)) q
        (rw (token, share, entry, same) refl)
  decode_evm_address-encode_evm_address (CurrencyId.chain_bridge _) s h e = absurd cc
