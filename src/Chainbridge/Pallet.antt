-- ===== src/Chainbridge/Pallet.antt =====
-- The calls (`register_resource_id`, `remove_resource_id`, `transfer_to_bridge`,
-- `transfer_native_to_bridge`, `transfer_from_bridge`).
use setheum.Common.{
  ℕ, ◌%◌, Bool, true, false, not, ◌&&◌, Option, none, some, List, [], ◌∷◌, ◌++◌, Result, ok, err,
  ◌>>=◌, ◌>>◌, ensure, ok_or, gets, modify, ◌==◌, if◌then◌else◌, update, nat_eq,
}
use setheum.Primitives.Currency.{CurrencyId}
use setheum.Primitives.Order.{currency_eq}
use setheum.Chainbridge.Types.{Error, Event, Config, Chainbridge, Call}

-- `contains_key`
abbrev pub contains_key : {A : Type 0} → Option A → Bool
contains_key none = false
contains_key (some _) = true

-- `match currency_id { ChainBridge(r_id) => r_id == resource_id, _ => false }`
abbrev pub is_chain_bridge_of : CurrencyId → ℕ → Bool
is_chain_bridge_of (CurrencyId.chain_bridge r_id) resource_id = r_id == resource_id
is_chain_bridge_of _ resource_id = false

-- `matches!(currency_id, CurrencyId::ChainBridge(_))`
abbrev pub is_chain_bridge : CurrencyId → Bool
is_chain_bridge (CurrencyId.chain_bridge _) = true
is_chain_bridge _ = false

module _ {W : Type 0} where
  abbrev pub returned : Chainbridge W → Result ℕ W → Result Error (Unit {0} × Chainbridge W)
  returned s (ok w) = ok (tt, record s { world = w })
  returned s (err e) = err (Error.other e)

  -- a call of another pallet, under `?`
  abbrev pub outside : (W → Result ℕ W) → Call W
  outside f s = returned s (f s.world)

  abbrev pub deposit_event : Event → Call W
  deposit_event e s = ok (tt, record s { events = s.events ++ (e ∷ []) })

  -- `ResourceIds::insert` and `CurrencyIds::insert`
  abbrev pub register : ℕ → CurrencyId → Chainbridge W → Chainbridge W
  register resource_id currency_id s = record s {
    resource_ids = update s.resource_ids currency_id (some resource_id);
    currency_ids = update s.currency_ids resource_id (some currency_id);
  }

  -- `if let Some(currency_id) = CurrencyIds::take(resource_id) { … }`
  abbrev pub unregister : ℕ → Option CurrencyId → Call W
  unregister resource_id none s = ok (tt, s)
  unregister resource_id (some currency_id) s =
      (modify (λ s. record s {
        resource_ids = update s.resource_ids currency_id none;
        currency_ids = update s.currency_ids resource_id none;
      })
          >> deposit_event (Event.unregister_resource_id resource_id currency_id))
        s

module _ {O W : Type 0} (T : Config O W) where
  abbrev pub is_origin_chain_resource : ℕ → Bool
  is_origin_chain_resource resource_id = resource_id % 256 == T.chain_id

  abbrev pub check_match : ℕ → CurrencyId → Bool
  check_match resource_id currency_id =
      if is_origin_chain_resource resource_id
      then not (is_chain_bridge currency_id)
      else is_chain_bridge_of currency_id resource_id

  unfoldable pub register_resource_id : O → ℕ → CurrencyId → Call W
  register_resource_id origin resource_id currency_id = do
    ensure (T.registor_origin origin) Error.bad_origin
    has_resource ← gets (λ s. contains_key (s.resource_ids currency_id))
    has_currency ← gets (λ s. contains_key (s.currency_ids resource_id))
    ensure (not has_resource && not has_currency) Error.resource_id_already_registered
    ensure (check_match resource_id currency_id) Error.resource_id_currency_id_not_match
    modify (register resource_id currency_id)
    deposit_event (Event.register_resource_id resource_id currency_id)

  unfoldable pub remove_resource_id : O → ℕ → Call W
  remove_resource_id origin resource_id = do
    ensure (T.registor_origin origin) Error.bad_origin
    currency_id ← gets (λ s. s.currency_ids resource_id)
    unregister resource_id currency_id

  -- tokens that are locked at the bridge account, or burnt
  abbrev pub take_tokens : Bool → CurrencyId → ℕ → ℕ → W → Result ℕ W
  take_tokens true currency_id from amount = T.transfer currency_id from T.account_id amount
  take_tokens false currency_id from amount = T.withdraw currency_id from amount

  unfoldable pub do_transfer_to_bridge : ℕ → CurrencyId → ℕ → List ℕ → ℕ → Call W
  do_transfer_to_bridge from currency_id dest_chain_id recipient amount = do
    whitelisted ← gets (λ s. T.chain_whitelisted dest_chain_id s.world)
    ensure whitelisted Error.invalid_dest_chain_id
    entry ← gets (λ s. s.resource_ids currency_id)
    resource_id ← ok_or entry Error.resource_id_not_registered
    outside (take_tokens (is_origin_chain_resource resource_id) currency_id from amount)
    outside (T.transfer_fungible dest_chain_id resource_id recipient amount)

  unfoldable pub transfer_to_bridge : O → CurrencyId → ℕ → List ℕ → ℕ → Call W
  transfer_to_bridge origin currency_id dest_chain_id recipient amount = do
    who ← ok_or (T.ensure_signed origin) Error.bad_origin
    do_transfer_to_bridge who currency_id dest_chain_id recipient amount

  unfoldable pub transfer_native_to_bridge : O → ℕ → List ℕ → ℕ → Call W
  transfer_native_to_bridge origin dest_chain_id recipient amount = do
    who ← ok_or (T.ensure_signed origin) Error.bad_origin
    do_transfer_to_bridge who T.native_currency_id dest_chain_id recipient amount

  -- tokens that are unlocked, from the account of the bridge's origin, or issued
  abbrev pub give_tokens : Bool → CurrencyId → ℕ → ℕ → ℕ → W → Result ℕ W
  give_tokens true currency_id bridge to amount = T.transfer currency_id bridge to amount
  give_tokens false currency_id bridge to amount = T.deposit currency_id to amount

  unfoldable pub transfer_from_bridge : O → ℕ → ℕ → ℕ → Call W
  transfer_from_bridge origin to amount resource_id = do
    bridge_account_id ← ok_or (T.bridge_origin origin) Error.bad_origin
    entry ← gets (λ s. s.currency_ids resource_id)
    currency_id ← ok_or entry Error.resource_id_not_registered
    outside
        (give_tokens (is_origin_chain_resource resource_id) currency_id bridge_account_id to amount)
