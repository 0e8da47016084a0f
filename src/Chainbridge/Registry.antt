-- ===== src/Chainbridge/Registry.antt =====
-- The two maps of the registry are inverse to each other (`register_resource_id`,
-- `remove_resource_id`), whatever calls are made.
use setheum.Common.{
  ℕ, ◌≡◌, refl, sym, ap, subst, ◌∙◌, Bool, true, not, ◌&&◌, Option, none, some, List, [], ◌∷◌,
  Result, ok, err, inl, inr, update, nat_eq, update-cases, some_eq, no_entry, IsInverse,
  insert-IsInverse, remove-IsInverse, after_ok_or, after_ensure, after_action, state_eq,
}
use setheum.Primitives.Currency.{CurrencyId}
use setheum.Primitives.Order.{currency_eq}
use setheum.Chainbridge.Types.{Error, Config, Chainbridge}
use setheum.Chainbridge.Pallet.{
  contains_key, returned, outside, unregister, check_match, register_resource_id,
  remove_resource_id, do_transfer_to_bridge, transfer_to_bridge, transfer_native_to_bridge,
  transfer_from_bridge, take_tokens, give_tokens, is_origin_chain_resource,
}

-- A currency has a resource exactly when the resource has the currency, and they match.
pub record IsRegistry (matches : ℕ → CurrencyId → Bool) (resource_ids : CurrencyId → Option ℕ)
    (currency_ids : ℕ → Option CurrencyId) : Type 0 where
  pub inverse : IsInverse resource_ids currency_ids
  pub matching : (r : ℕ) (c : CurrencyId) → currency_ids r ≡ some c → matches r c ≡ true

module _ {matches : ℕ → CurrencyId → Bool} {resource_ids : CurrencyId → Option ℕ}
    {currency_ids : ℕ → Option CurrencyId} (h : IsRegistry matches resource_ids currency_ids) where
  registered :
      (r : ℕ) (c : CurrencyId)
      → resource_ids c ≡ none
      → currency_ids r ≡ none
      → matches r c ≡ true
      → IsRegistry matches (update resource_ids c (some r)) (update currency_ids r (some c))
  registered r c free_c free_r fits = record {
    inverse = insert-IsInverse h.inverse c r free_c free_r;
    matching = λ q d e. elim (update-cases currency_ids r (some c) q e) [
      | inl (same, v) ↦ rw (same, ← some_eq v) fits
      | inr (_, v) ↦ h.matching q d v
    ];
  }

  unregistered :
      (r : ℕ) (c : CurrencyId)
      → currency_ids r ≡ some c
      → IsRegistry matches (update resource_ids c none) (update currency_ids r none)
  unregistered r c entry = record {
    inverse = remove-IsInverse h.inverse c r (h.inverse.backward r c entry);
    matching = λ q d e. elim (update-cases currency_ids r none q e) [
      | inl (_, v) ↦ absurd (no_entry v)
      | inr (_, v) ↦ h.matching q d v
    ];
  }

-- The calls, with what they are given.
pub data BridgeCall (O : Type 0) : Type 0 where
  registration : O → ℕ → CurrencyId → BridgeCall O
  removal : O → ℕ → BridgeCall O
  to_bridge : O → CurrencyId → ℕ → List ℕ → ℕ → BridgeCall O
  native_to_bridge : O → ℕ → List ℕ → ℕ → BridgeCall O
  from_bridge : O → ℕ → ℕ → ℕ → BridgeCall O

-- a transaction that fails leaves the storage as it was
abbrev pub or_unchanged :
    {W : Type 0} → Chainbridge W → Result Error (Unit {0} × Chainbridge W) → Chainbridge W
or_unchanged s (ok (_, t)) = t
or_unchanged s (err _) = s

-- the storage keeps its two maps
pub record SameRegistry {W : Type 0} (s t : Chainbridge W) : Type 0 where
  pub resources : t.resource_ids ≡ s.resource_ids
  pub currencies : t.currency_ids ≡ s.currency_ids

both_free :
    {A B : Type 0} (o : Option A) (p : Option B)
    → not (contains_key o) && not (contains_key p) ≡ true
    → (o ≡ none) × (p ≡ none)
both_free none none e = (refl, refl)
both_free none (some _) e = absurd (cc)
both_free (some _) p e = absurd (cc)

module _ {W : Type 0} where
  SameRegistry-trans :
      {s t u : Chainbridge W} → SameRegistry s t → SameRegistry t u → SameRegistry s u
  SameRegistry-trans p q = record {
    resources = q.resources ∙ p.resources;
    currencies = q.currencies ∙ p.currencies;
  }

  -- a call of another pallet that succeeds changes nothing but the world
  pub outside-ok :
      (f : W → Result ℕ W) (s : Chainbridge W) {u : Unit {0}} {t : Chainbridge W}
      → outside f s ≡ ok (u, t)
      → (f s.world ≡ ok t.world) × SameRegistry s t
  outside-ok f s {u} {t} e = by_result (f s.world) e
    where
      by_result : (r : Result ℕ W) → returned s r ≡ ok (u, t) → (r ≡ ok t.world) × SameRegistry s t
      by_result (ok w) e =
          let q = state_eq e in
          (
            ap (λ (s : Chainbridge W). ok s.world) q,
            record {
              resources = ap (λ (s : Chainbridge W). s.resource_ids) (sym q);
              currencies = ap (λ (s : Chainbridge W). s.currency_ids) (sym q);
            },
          )
      by_result (err _) e = absurd (cc)

module _ {O W : Type 0} (T : Config O W) where
  abbrev pub dispatch : BridgeCall O → Chainbridge W → Result Error (Unit {0} × Chainbridge W)
  dispatch (BridgeCall.registration o r c) = register_resource_id T o r c
  dispatch (BridgeCall.removal o r) = remove_resource_id T o r
  dispatch (BridgeCall.to_bridge o c d to n) = transfer_to_bridge T o c d to n
  dispatch (BridgeCall.native_to_bridge o d to n) = transfer_native_to_bridge T o d to n
  dispatch (BridgeCall.from_bridge o to n r) = transfer_from_bridge T o to n r

  abbrev pub run : List (BridgeCall O) → Chainbridge W → Chainbridge W
  run [] s = s
  run (c ∷ cs) s = run cs (or_unchanged s (dispatch c s))

  abbrev pub HasRegistry : Chainbridge W → Type 0
  HasRegistry s = IsRegistry (check_match T) s.resource_ids s.currency_ids

  pub do_transfer_to_bridge-SameRegistry :
      (from : ℕ) (c : CurrencyId) (d : ℕ) (to : List ℕ) (n : ℕ) (s : Chainbridge W) {u : Unit {0}}
      {t : Chainbridge W}
      → do_transfer_to_bridge T from c d to n s ≡ ok (u, t)
      → SameRegistry s t
  unfolding do_transfer_to_bridge
  do_transfer_to_bridge-SameRegistry from c d to n s e =
      after_ensure (T.chain_whitelisted d s.world) Error.invalid_dest_chain_id _ s e λ _ h₁.
        after_ok_or (s.resource_ids c) Error.resource_id_not_registered _ s h₁ λ r entry h₂.
          after_action (outside (take_tokens T (is_origin_chain_resource T r) c from n)) _ s h₂
            λ _ m taken h₃.
              SameRegistry-trans
                (outside-ok (take_tokens T (is_origin_chain_resource T r) c from n) s taken).1
                (outside-ok (T.transfer_fungible d r to n) m h₃).1

  -- a call that keeps the two maps
  kept : {s t : Chainbridge W} → SameRegistry s t → HasRegistry s → HasRegistry t
  kept {s} {t} same h =
      subst (IsRegistry (check_match T) t.resource_ids) (sym same.currencies)
        (subst (λ m. IsRegistry (check_match T) m s.currency_ids) (sym same.resources) h)

  dispatch-HasRegistry :
      (c : BridgeCall O) (s : Chainbridge W) {u : Unit {0}} {t : Chainbridge W}
      → HasRegistry s
      → dispatch c s ≡ ok (u, t)
      → HasRegistry t
  unfolding register_resource_id remove_resource_id transfer_to_bridge transfer_native_to_bridge
      transfer_from_bridge
  dispatch-HasRegistry (BridgeCall.registration o r c) s {u} {t} h e =
      after_ensure (T.registor_origin o) Error.bad_origin _ s e λ _ h₁.
        after_ensure
          (not (contains_key (s.resource_ids c)) && not (contains_key (s.currency_ids r)))
          Error.resource_id_already_registered _ s h₁
          λ free h₂.
            after_ensure (check_match T r c) Error.resource_id_currency_id_not_match _ s h₂
              λ fits h₃.
                let (free_c, free_r) = both_free (s.resource_ids c) (s.currency_ids r) free in
                subst HasRegistry (state_eq h₃) (registered h r c free_c free_r fits)
  dispatch-HasRegistry (BridgeCall.removal o r) s {u} {t} h e =
      after_ensure (T.registor_origin o) Error.bad_origin _ s e
        λ _ h₁. removed (s.currency_ids r) refl h₁
    where
      removed :
          (o : Option CurrencyId)
          → s.currency_ids r ≡ o
          → unregister r o s ≡ ok (u, t)
          → HasRegistry t
      removed none q e = subst HasRegistry (state_eq e) h
      removed (some c) q e = subst HasRegistry (state_eq e) (unregistered h r c q)
  dispatch-HasRegistry (BridgeCall.to_bridge o c d to n) s h e =
      after_ok_or (T.ensure_signed o) Error.bad_origin _ s e
        λ who _ h₁. kept (do_transfer_to_bridge-SameRegistry who c d to n s h₁) h
  dispatch-HasRegistry (BridgeCall.native_to_bridge o d to n) s h e =
      after_ok_or (T.ensure_signed o) Error.bad_origin _ s e
        λ who _ h₁. kept (do_transfer_to_bridge-SameRegistry who T.native_currency_id d to n s h₁) h
  dispatch-HasRegistry (BridgeCall.from_bridge o to n r) s h e =
      after_ok_or (T.bridge_origin o) Error.bad_origin _ s e λ bridge _ h₁.
        after_ok_or (s.currency_ids r) Error.resource_id_not_registered _ s h₁ λ c _ h₂.
          kept (outside-ok (give_tokens T (is_origin_chain_resource T r) c bridge to n) s h₂).1 h

  -- Whatever calls are made, in any order and with any origin, failed ones rolled back: if at first
  -- the two maps are inverse to each other and each resource fits its currency, so they are at the
  -- end. (A resource of this chain fits each currency but those of the bridge, another one fits only
  -- the bridge's currency of that resource.)
  pub run-HasRegistry :
      (cs : List (BridgeCall O)) (s : Chainbridge W) → HasRegistry s → HasRegistry (run cs s)
  run-HasRegistry [] s h = h
  run-HasRegistry (c ∷ cs) s h =
      run-HasRegistry cs (or_unchanged s (dispatch c s)) (after (dispatch c s) refl)
    where
      after :
          (r : Result Error (Unit {0} × Chainbridge W))
          → dispatch c s ≡ r
          → HasRegistry (or_unchanged s r)
      after (ok (u, t)) e = dispatch-HasRegistry c s h e
      after (err _) e = h
