-- ===== src/EvmAccounts/Mapping.antt =====
-- The mapping between accounts and addresses (`EvmAddressMapping`), the claims and the end of an
-- account.
use setheum.Common.{
  ℕ, zero, suc, ◌+◌, ◌*◌, ◌/◌, ◌%◌, ◌^◌, Bool, true, false, not, ◌||◌, Option, none, some, List, [],
  ◌∷◌, ◌++◌, Result, ok, err, ◌>>=◌, ◌>>◌, ensure, ok_or, gets, modify, ◌==◌, if◌then◌else◌, update,
  nat_eq,
}
use setheum.EvmAccounts.Types.{Error, Event, Config, EvmAccounts, Call}
use setheum.EvmAccounts.Message.{ethereum_signable_message, to_ascii_hex}

-- `b"evm:"`, as a number
abbrev pub evm_prefix : ℕ
evm_prefix = 1702260026

-- the bytes of a number, the first one first
abbrev pub be_bytes : ℕ → ℕ → List ℕ
be_bytes zero n = []
be_bytes (suc k) n = n / 2 ^ (8 * k) % 256 ∷ be_bytes k n

-- `contains_key`
abbrev pub is_some : {A : Type 0} → Option A → Bool
is_some none = false
is_some (some _) = true

-- the account that is made of an address: the prefix, the address and eight bytes of zero
abbrev pub padded_account : ℕ → ℕ
padded_account address = evm_prefix * 2 ^ 224 + address * 2 ^ 64

-- the address that is in such an account
abbrev pub underlying_address : ℕ → Option ℕ
underlying_address account_id =
    if account_id / 2 ^ 224 == evm_prefix then some (account_id / 2 ^ 64 % 2 ^ 160) else none

-- `.or_else(…)`
abbrev pub or_else : Option ℕ → Option ℕ → Option ℕ
or_else (some a) o = some a
or_else none o = o

abbrev pub account_or_padded : Option ℕ → ℕ → ℕ
account_or_padded (some account_id) address = account_id
account_or_padded none address = padded_account address

module _ {W : Type 0} where
  abbrev pub returned : EvmAccounts W → Result ℕ W → Result Error (Unit {0} × EvmAccounts W)
  returned s (ok w) = ok (tt, record s { world = w })
  returned s (err e) = err (Error.other e)

  -- a call of another pallet, under `?`
  abbrev pub outside : (W → Result ℕ W) → Call W (Unit {0})
  outside f s = returned s (f s.world)

  -- `if test { f()?; }`
  abbrev pub when_outside : Bool → (W → Result ℕ W) → Call W (Unit {0})
  when_outside true f s = outside f s
  when_outside false f s = ok (tt, s)

  abbrev pub deposit_event : Event → Call W (Unit {0})
  deposit_event e s = ok (tt, record s { events = s.events ++ (e ∷ []) })

  -- `Accounts::insert` and `EvmAddresses::insert`
  abbrev pub link : ℕ → ℕ → EvmAccounts W → EvmAccounts W
  link who address s = record s {
    accounts = update s.accounts address (some who);
    evm_addresses = update s.evm_addresses who (some address);
  }

  -- `if let Some(address) = EvmAddresses::take(who) { Accounts::remove(address) }`
  abbrev pub unlink : ℕ → Option ℕ → EvmAccounts W → EvmAccounts W
  unlink who none s = s
  unlink who (some address) s = record s {
    accounts = update s.accounts address none;
    evm_addresses = update s.evm_addresses who none;
  }

  unfoldable pub get_account_id : ℕ → EvmAccounts W → ℕ
  get_account_id address s = account_or_padded (s.accounts address) address

  unfoldable pub get_evm_address : ℕ → EvmAccounts W → Option ℕ
  get_evm_address account_id s =
      or_else (s.evm_addresses account_id) (underlying_address account_id)

  -- `StaticLookup::lookup` of a `MultiAddress`, of which only an `Address20` has an account
  abbrev pub lookup_address : Option ℕ → EvmAccounts W → Result Error ℕ
  lookup_address (some address) s = ok (get_account_id address s)
  lookup_address none s = err Error.lookup_error

module _ {O G W : Type 0} (T : Config O G W) where
  abbrev pub account_to_default_evm_address : ℕ → ℕ
  account_to_default_evm_address account_id =
      T.blake2_256 (evm_prefix * 2 ^ 256 + account_id) / 2 ^ 96

  abbrev pub create_address : Option ℕ → ℕ → EvmAccounts W → ℕ × EvmAccounts W
  create_address (some address) account_id s = (address, s)
  create_address none account_id s =
      let address = account_to_default_evm_address account_id in
      (address, link account_id address s)

  unfoldable pub get_or_create_evm_address : ℕ → EvmAccounts W → ℕ × EvmAccounts W
  get_or_create_evm_address account_id s =
      create_address (get_evm_address account_id s) account_id s

  abbrev pub is_linked_to : Option ℕ → ℕ → Bool
  is_linked_to none address = false
  is_linked_to (some a) address = a == address

  unfoldable pub is_linked : ℕ → ℕ → EvmAccounts W → Bool
  is_linked account_id address s =
      is_linked_to (get_evm_address account_id s) address
      || account_to_default_evm_address account_id == address

  -- the last 20 bytes of the hash of the key
  abbrev pub key_address : Option (List ℕ) → Option ℕ
  key_address none = none
  key_address (some key) = some (T.keccak_256 key % 2 ^ 160)

  unfoldable pub eth_recover : G → List ℕ → List ℕ → Option ℕ
  eth_recover signature what extra =
      key_address
        (T.secp256k1_ecdsa_recover signature (T.keccak_256 (ethereum_signable_message what extra)))

  unfoldable pub claim_account : O → ℕ → G → Call W (Unit {0})
  claim_account origin eth_address eth_signature = do
    who ← ok_or (T.ensure_signed origin) Error.bad_origin
    has_address ← gets (λ s. is_some (s.evm_addresses who))
    ensure (not has_address) Error.account_id_has_mapped
    has_account ← gets (λ s. is_some (s.accounts eth_address))
    ensure (not has_account) Error.eth_address_has_mapped
    address ←
        ok_or (eth_recover eth_signature (to_ascii_hex (be_bytes 32 who)) []) Error.bad_signature
    ensure (eth_address == address) Error.invalid_signature
    account_id ← gets (get_account_id eth_address)
    exists ← gets (λ s. T.account_exists account_id s.world)
    when_outside exists (T.transfer_all account_id who)
    modify (link who eth_address)
    outside (T.on_claim who)
    deposit_event (Event.claim_account who eth_address)

  -- the hook, and the event after it
  abbrev pub handled : ℕ → ℕ → EvmAccounts W → Result ℕ W → Result Error (Unit {0}) × EvmAccounts W
  handled who address s (err e) = (err (Error.other e), s)
  handled who address s (ok w) =
      (ok tt, record s { events = s.events ++ (Event.claim_account who address ∷ []); world = w })

  abbrev pub claim_default_of : Option ℕ → EvmAccounts W → Result Error (Unit {0}) × EvmAccounts W
  claim_default_of none s = (err Error.bad_origin, s)
  claim_default_of (some who) s =
      if is_some (s.evm_addresses who)
      then (err Error.account_id_has_mapped, s)
      else (let (address, t) = get_or_create_evm_address who s in
          handled who address t (T.on_claim who t.world))

  -- This call is no transaction: an error of the hook leaves the new address.
  unfoldable pub claim_default_account : O → EvmAccounts W → Result Error (Unit {0}) × EvmAccounts W
  claim_default_account origin s = claim_default_of (T.ensure_signed origin) s

  unfoldable pub on_killed_account : ℕ → EvmAccounts W → EvmAccounts W
  on_killed_account who s =
      unlink who (s.evm_addresses who)
        (record s { accounts = update s.accounts (account_to_default_evm_address who) none })
