-- ===== src/EvmAccounts/Types.antt =====
-- The errors, the event, the storage and the `Config`. An account identifier is the number that its
-- 32 bytes spell, an address that of its 20 bytes.
use setheum.Common.{ℕ, Bool, Option, List, Result, Action}

pub data Error : Type 0 where
  account_id_has_mapped eth_address_has_mapped bad_signature invalid_signature : Error
  non_zero_ref_count bad_origin lookup_error : Error
  other : ℕ → Error

pub data Event : Type 0 where
  claim_account : ℕ → ℕ → Event

-- What the pallet calls outside it. `O` is the type of origins, `G` that of signatures and `W` the
-- storage of the rest of the runtime.
pub record Config (O G W : Type 0) : Type 0 where
  pub ensure_signed : O → Option ℕ
  -- of a signature and the hash of a message, the bytes of the public key
  pub secp256k1_ecdsa_recover : G → ℕ → Option (List ℕ)
  pub keccak_256 : List ℕ → ℕ
  -- on the bytes of the input as one number
  pub blake2_256 : ℕ → ℕ
  pub account_exists : ℕ → W → Bool
  pub transfer_all : ℕ → ℕ → W → Result ℕ W
  -- `T::OnClaim::handle`
  pub on_claim : ℕ → W → Result ℕ W

pub record EvmAccounts (W : Type 0) : Type 0 where
  pub accounts : ℕ → Option ℕ
  pub evm_addresses : ℕ → Option ℕ
  pub events : List Event
  pub world : W

abbrev pub Call : Type 0 → Type 0 → Type 0
Call W A = Action (EvmAccounts W) Error A
