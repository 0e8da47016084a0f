-- ===== src/RenvmBridge/Pallet.antt =====
-- The calls (`mint`, `burn`, `rotate_key`), the signatures of RenVM and `validate_unsigned`.
use setheum.Common.{
  ℕ, ◌+◌, ◌^◌, ◌%◌, true, false, Option, none, some, List, [], ◌∷◌, ◌++◌, Result, ok, err, ◌>>=◌,
  ◌>>◌, ensure, ok_or, gets, modify, ◌==◌, ltb, if◌then◌else◌, update, nat_eq,
}
use setheum.EvmAccounts.Mapping.{be_bytes}
use setheum.RenvmBridge.Types.{
  Error, Event, Config, RenvmBridge, Call, RenvmCall, InvalidTransaction, TransactionValidity,
}

-- `MINT_TX_LENGTH`
abbrev pub mint_tx_length : ℕ
mint_tx_length = 168

abbrev pub zero_bytes : List ℕ
zero_bytes = 0 ∷ 0 ∷ 0 ∷ 0 ∷ 0 ∷ 0 ∷ 0 ∷ 0 ∷ 0 ∷ 0 ∷ 0 ∷ 0 ∷ 0 ∷ 0 ∷ 0 ∷ 0 ∷ []

-- p_hash ++ amount ++ token ++ to ++ n_hash
abbrev pub signable_mint_message : List ℕ → ℕ → List ℕ → List ℕ → List ℕ → List ℕ
signable_mint_message p_hash amount to n_hash token =
    p_hash ++ (zero_bytes ++ (be_bytes 16 amount ++ (token ++ (to ++ n_hash))))

abbrev pub signable_rotate_key_message : ℕ → List ℕ
signable_rotate_key_message new_key = be_bytes 20 new_key

-- `id.checked_add(1)` of a `u32`
abbrev pub next_id : ℕ → Option ℕ
next_id id = if ltb (id + 1) (2 ^ 32) then some (id + 1) else none

module _ {W : Type 0} where
  abbrev pub returned : RenvmBridge W → Result ℕ W → Result Error (Unit {0} × RenvmBridge W)
  returned s (ok w) = ok (tt, record s { world = w })
  returned s (err e) = err (Error.other e)

  -- a call of another pallet, under `?`
  abbrev pub outside : (W → Result ℕ W) → Call W
  outside f s = returned s (f s.world)

  -- a call of another pallet whose result is ignored (`let _ = …`)
  abbrev pub world_after : W → Result ℕ W → W
  world_after w (ok w') = w'
  world_after w (err _) = w

  abbrev pub deposit_event : Event → Call W
  deposit_event e s = ok (tt, record s { events = s.events ++ (e ∷ []) })

  -- `Signatures::insert(sig, ())`
  abbrev pub use_signature : ℕ → RenvmBridge W → RenvmBridge W
  use_signature sig s = record s { signatures = update s.signatures sig true }

module _ {O W : Type 0} (T : Config O W) where
  unfoldable pub do_mint : ℕ → ℕ → ℕ → Call W
  do_mint sender amount sig = outside (T.deposit sender amount) >> modify (use_signature sig)

  -- The fee is charged whatever comes of it, with the weight 10000 and no tip.
  unfoldable pub mint : O → ℕ → List ℕ → ℕ → List ℕ → ℕ → Call W
  mint origin who p_hash amount n_hash sig = do
    ensure (T.ensure_none origin) Error.bad_origin
    do_mint who amount sig
    modify (λ s. record s {
      world = world_after s.world (T.charge_fee who mint_tx_length 10000 0 s.world);
    })
    deposit_event (Event.minted who amount)

  abbrev pub insert_burn : ℕ → List ℕ → ℕ → RenvmBridge W → RenvmBridge W
  insert_burn id to amount s = record s {
    burn_events =
        update s.burn_events id
          (some (record { block = T.block_number s.world; dest = to; amount = amount }));
  }

  unfoldable pub burn : O → List ℕ → ℕ → Call W
  burn origin to amount = do
    sender ← ok_or (T.ensure_signed origin) Error.bad_origin
    this_id ← gets (λ s. s.next_burn_event_id)
    next ← ok_or (next_id this_id) Error.overflow
    outside (T.withdraw sender amount)
    modify (insert_burn this_id to amount)
    deposit_event (Event.burnt sender to amount)
    modify (λ s. record s { next_burn_event_id = next })

  abbrev pub do_rotate_key : ℕ → ℕ → RenvmBridge W → RenvmBridge W
  do_rotate_key new_key sig s = use_signature sig (record s { ren_vm_public_key = some new_key })

  unfoldable pub rotate_key : O → ℕ → ℕ → Call W
  rotate_key origin new_key sig = do
    ensure (T.ensure_none origin) Error.bad_origin
    modify (do_rotate_key new_key sig)
    deposit_event (Event.rotated_key new_key)

  abbrev pub dispatch : O → RenvmCall → Call W
  dispatch origin (RenvmCall.mint who p_hash amount n_hash sig) =
      mint origin who p_hash amount n_hash sig
  dispatch origin (RenvmCall.burn to amount) = burn origin to amount
  dispatch origin (RenvmCall.rotate_key new_key sig) = rotate_key origin new_key sig

  -- the last 20 bytes of the hash of the key that has signed
  abbrev pub signer : Option (List ℕ) → Option ℕ
  signer none = none
  signer (some key) = some (T.keccak_256 key % 2 ^ 160)

  -- both checks of a signature, which differ in the message
  abbrev pub verify_signature : List ℕ → ℕ → Call W
  verify_signature message sig = do
    address ←
        ok_or (signer (T.secp256k1_ecdsa_recover sig (T.keccak_256 message)))
          Error.invalid_mint_signature
    key ← gets (λ s. s.ren_vm_public_key)
    public_key ← ok_or key Error.invalid_ren_vm_public_key
    ensure (address == public_key) Error.invalid_mint_signature

  unfoldable pub verify_mint_signature : List ℕ → ℕ → List ℕ → List ℕ → ℕ → Call W
  verify_mint_signature p_hash amount to n_hash sig =
      verify_signature (signable_mint_message p_hash amount to n_hash T.currency_identifier) sig

  unfoldable pub verify_rotate_key_signature : ℕ → ℕ → Call W
  verify_rotate_key_signature new_key sig =
      verify_signature (signable_rotate_key_message new_key) sig

  abbrev pub proved : ℕ → Result Error (Unit {0} × RenvmBridge W) → TransactionValidity
  proved sig (err _) = err InvalidTransaction.bad_proof
  proved sig (ok _) = ok (record { priority = T.unsigned_priority; provides = sig; longevity = 64 })

  unfoldable pub validate_unsigned : RenvmCall → RenvmBridge W → TransactionValidity
  validate_unsigned (RenvmCall.mint who p_hash amount n_hash sig) s =
      if s.signatures sig
      then err InvalidTransaction.stale
      else proved sig (verify_mint_signature p_hash amount (be_bytes 32 who) n_hash sig s)
  validate_unsigned (RenvmCall.rotate_key new_key sig) s =
      if s.signatures sig
      then err InvalidTransaction.stale
      else proved sig (verify_rotate_key_signature new_key sig s)
  validate_unsigned (RenvmCall.burn _ _) s = err InvalidTransaction.call

  -- the genesis build
  abbrev pub build : ℕ → W → RenvmBridge W
  build ren_vm_public_key w = record {
    ren_vm_public_key = some ren_vm_public_key;
    signatures = λ _. false;
    burn_events = λ _. none;
    next_burn_event_id = 0;
    events = [];
    world = w;
  }
