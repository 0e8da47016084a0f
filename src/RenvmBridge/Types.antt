-- ===== src/RenvmBridge/Types.antt =====
-- The errors, the events, the storage and the `Config`. A signature is the number that its 65 bytes
-- spell, a public key that of its 20 bytes, an account that of its 32 bytes; a hash is its bytes.
use setheum.Common.{ℕ, Bool, Option, List, Result, Action}

pub data Error : Type 0 where
  invalid_ren_vm_public_key invalid_mint_signature signature_already_used : Error
  bad_origin overflow : Error
  other : ℕ → Error

pub data Event : Type 0 where
  minted : ℕ → ℕ → Event
  burnt : ℕ → List ℕ → ℕ → Event
  rotated_key : ℕ → Event

-- What the pallet calls outside it. `O` is the type of origins, `W` the storage of the rest of the
-- runtime.
pub record Config (O W : Type 0) : Type 0 where
  pub ensure_none : O → Bool
  pub ensure_signed : O → Option ℕ
  -- `T::BridgedTokenCurrency`: account and amount
  pub deposit : ℕ → ℕ → W → Result ℕ W
  pub withdraw : ℕ → ℕ → W → Result ℕ W
  pub currency_identifier : List ℕ
  pub unsigned_priority : ℕ
  -- `T::ChargeTransactionPayment::charge_fee`: account, length, weight and tip
  pub charge_fee : ℕ → ℕ → ℕ → ℕ → W → Result ℕ W
  pub block_number : W → ℕ
  -- of a signature and the hash of a message, the bytes of the public key
  pub secp256k1_ecdsa_recover : ℕ → ℕ → Option (List ℕ)
  pub keccak_256 : List ℕ → ℕ

pub record BurnEvent : Type 0 where
  pub block : ℕ
  pub dest : List ℕ
  pub amount : ℕ

-- The signatures are those that have been used.
pub record RenvmBridge (W : Type 0) : Type 0 where
  pub ren_vm_public_key : Option ℕ
  pub signatures : ℕ → Bool
  pub burn_events : ℕ → Option BurnEvent
  pub next_burn_event_id : ℕ
  pub events : List Event
  pub world : W

abbrev pub Call : Type 0 → Type 0
Call W = Action (RenvmBridge W) Error (Unit {0})

-- The calls of the pallet, with their arguments.
pub data RenvmCall : Type 0 where
  mint : ℕ → List ℕ → ℕ → List ℕ → ℕ → RenvmCall
  burn : List ℕ → ℕ → RenvmCall
  rotate_key : ℕ → ℕ → RenvmCall

pub data InvalidTransaction : Type 0 where
  call stale bad_proof : InvalidTransaction

-- `ValidTransaction::with_tag_prefix("setheum-renvm-bridge")…`, which propagates
pub record ValidTransaction : Type 0 where
  pub priority : ℕ
  pub provides : ℕ
  pub longevity : ℕ

abbrev pub TransactionValidity : Type 0
TransactionValidity = Result InvalidTransaction ValidTransaction
