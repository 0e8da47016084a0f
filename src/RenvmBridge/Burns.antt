-- ===== src/RenvmBridge/Burns.antt =====
-- The record of the burns (`burn`, `BurnEvents`, `NextBurnEventId`), in every history.
use setheum.Common.{
  ℕ, ◌+◌, ◌^◌, ◌≤◌, ◌<◌, ◌≡◌, ◌≢◌, refl, sym, ap, ◌∙◌, none, some, List, [], ◌∷◌, Result, ok, err,
  arith, inl, inr, update, update_self, update_ne, nat_eq, no_entry, key_ne, ==_iff, ◌==◌,
  Bool-cases, after_ok_or, after_ensure, after_action, state_eq,
}
use setheum.RenvmBridge.Types.{
  Error, Config, BurnEvent, RenvmBridge, RenvmCall, TransactionValidity,
}
use setheum.RenvmBridge.Pallet.{
  outside, do_mint, mint, next_id, burn, rotate_key, dispatch, validate_unsigned,
}
use setheum.RenvmBridge.Signatures.{outside-ok, Extrinsic, after, validated, apply}

-- The burns have the numbers below the next one, which is a `u32`.
pub record IsLog {W : Type 0} (s : RenvmBridge W) : Type 0 where
  pub recorded : (i : ℕ) → i < s.next_burn_event_id → (b : BurnEvent) × (s.burn_events i ≡ some b)
  pub free : (i : ℕ) → s.next_burn_event_id ≤ i → s.burn_events i ≡ none
  pub bounded : s.next_burn_event_id < 2 ^ 32

-- No burn leaves the record.
pub record KeepsBurns {W : Type 0} (s t : RenvmBridge W) : Type 0 where
  pub kept : (i : ℕ) (b : BurnEvent) → s.burn_events i ≡ some b → t.burn_events i ≡ some b

-- The record and the next number are the same.
record SameBurns {W : Type 0} (s t : RenvmBridge W) : Type 0 where
  same_events : t.burn_events ≡ s.burn_events
  same_next : t.next_burn_event_id ≡ s.next_burn_event_id

module _ {W : Type 0} where
  of_eq : {s t : RenvmBridge W} → s ≡ t → SameBurns s t
  of_eq e = record {
    same_events = ap (λ (s : RenvmBridge W). s.burn_events) (sym e);
    same_next = ap (λ (s : RenvmBridge W). s.next_burn_event_id) (sym e);
  }

  SameBurns-trans : {s t u : RenvmBridge W} → SameBurns s t → SameBurns t u → SameBurns s u
  SameBurns-trans p q = record {
    same_events = q.same_events ∙ p.same_events;
    same_next = q.same_next ∙ p.same_next;
  }

  outside-SameBurns :
      (f : W → Result ℕ W) (s : RenvmBridge W) {u : Unit {0}} {t : RenvmBridge W}
      → outside f s ≡ ok (u, t)
      → SameBurns s t
  outside-SameBurns f s {u} {t} e =
      let same = of_eq (sym (outside-ok f s e).1) in
      record { same_events = same.same_events; same_next = same.same_next }

  abbrev Logged : RenvmBridge W → RenvmBridge W → Type 0
  Logged s t = IsLog t × KeepsBurns s t

  same-Logged : {s t : RenvmBridge W} → IsLog s → SameBurns s t → Logged s t
  same-Logged {s} {t} log same = (
    record {
      recorded = λ i lt.
          let (b, e) = log.recorded i (omega (arith, same.same_next)) in
          (b, ap (λ f. f i) same.same_events ∙ e);
      free = λ i le. ap (λ f. f i) same.same_events ∙ log.free i (omega (arith, same.same_next));
      bounded = omega (arith, same.same_next, log.bounded);
    },
    record { kept = λ i b e. ap (λ f. f i) same.same_events ∙ e },
  )

  -- a storage with one more burn
  added-Logged :
      (b : BurnEvent) (s t : RenvmBridge W)
      → IsLog s
      → t.burn_events ≡ update s.burn_events s.next_burn_event_id (some b)
      → t.next_burn_event_id ≡ s.next_burn_event_id + 1
      → s.next_burn_event_id + 1 < 2 ^ 32
      → Logged s t
  added-Logged b s t log same next lt = (
    record {
      recorded = λ i le. elim (Bool-cases (i == id)) [
        | inl e ↦
            let here : i ≡ id = (==_iff i id).0 e in
            (b, rw here (ap (λ f. f id) same ∙ update_self s.burn_events id (some b)))
        | inr e ↦
            let (old, there) = log.recorded i (let ne = key_ne i id e in below i le ne) in
            (
              old,
              ap (λ f. f i) same ∙ update_ne s.burn_events id i (some b) (key_ne i id e) ∙ there,
            )
      ];
      free = λ i le.
          ap (λ f. f i) same
          ∙ update_ne s.burn_events id i (some b) (λ q. absurd (omega (arith, next)))
          ∙ log.free i (omega (arith, next));
      bounded = omega (arith, next, lt);
    },
    record {
      kept = λ i old e.
          ap (λ f. f i) same
          ∙ update_ne s.burn_events id i (some b)
              (λ q. no_entry (sym (log.free id (omega arith)) ∙ ap s.burn_events (sym q) ∙ e))
          ∙ e;
    },
  )
    where
      id : ℕ
      id = s.next_burn_event_id

      below : (i : ℕ) → i < t.next_burn_event_id → i ≢ id → i < id
      below i le ne = ground (arith, next)

next_id_lem : (id : ℕ) {next : ℕ} → next_id id ≡ some next → (next ≡ id + 1) × (id + 1 < 2 ^ 32)
next_id_lem id {next} e = ground arith

module _ {O W : Type 0} (T : Config O W) where
  -- A burn that succeeds has withdrawn the amount from the sender and is in the record under the next
  -- number, with the current block, the destination and the amount; no other burn has changed.
  pub burn-Recorded :
      (o : O) (to : List ℕ) (n : ℕ) (s : RenvmBridge W) {u : Unit {0}} {t : RenvmBridge W}
      → burn T o to n s ≡ ok (u, t)
      → (who : ℕ) × (T.ensure_signed o ≡ some who)
        × (T.withdraw who n s.world ≡ ok t.world)
        × (t.burn_events
            ≡ update s.burn_events s.next_burn_event_id
                (some (record { block = T.block_number t.world; dest = to; amount = n })))
        × (t.next_burn_event_id ≡ s.next_burn_event_id + 1)
        × (s.next_burn_event_id + 1 < 2 ^ 32)
  unfolding burn
  burn-Recorded o to n s {u} {t} e =
      after_ok_or (T.ensure_signed o) Error.bad_origin _ s e λ who signed h₁.
        after_ok_or (next_id s.next_burn_event_id) Error.overflow _ s h₁ λ next id h₂.
          after_action (outside (T.withdraw who n)) _ s h₂ λ _ m paid h₃.
            let (next_eq, lt) = next_id_lem s.next_burn_event_id id in
            let last = state_eq h₃ in
            let world_eq : m.world ≡ t.world = ap (λ (s : RenvmBridge W). s.world) last in
            let same = outside-SameBurns (T.withdraw who n) s paid in
            (
              who,
              signed,
              (outside-ok (T.withdraw who n) s paid).0 ∙ ap (λ w. ok w) world_eq,
              ap (λ (s : RenvmBridge W). s.burn_events) (sym last)
                  ∙ ap
                      (λ f.
                        update f s.next_burn_event_id
                          (some (record { block = T.block_number m.world; dest = to; amount = n })))
                      same.same_events
                  ∙ ap
                      (λ w.
                        update s.burn_events s.next_burn_event_id
                          (some (record { block = T.block_number w; dest = to; amount = n })))
                      world_eq,
              ap (λ (s : RenvmBridge W). s.next_burn_event_id) (sym last) ∙ next_eq,
              lt,
            )

  mint-SameBurns :
      (o : O) (who : ℕ) (p : List ℕ) (n : ℕ) (h : List ℕ) (sig : ℕ) (s : RenvmBridge W)
      {u : Unit {0}} {t : RenvmBridge W}
      → mint T o who p n h sig s ≡ ok (u, t)
      → SameBurns s t
  unfolding mint do_mint
  mint-SameBurns o who p n h sig s e = after_ensure (T.ensure_none o) Error.bad_origin _ s e λ _ h₁.
      after_action (do_mint T who n sig) _ s h₁ λ _ m did h₂.
        after_action (outside (T.deposit who n)) _ s did λ _ k paid h₃.
          let first = outside-SameBurns (T.deposit who n) s paid in
          let second = of_eq (state_eq h₃) in
          let third = of_eq (state_eq h₂) in
          record {
            same_events = third.same_events ∙ second.same_events ∙ first.same_events;
            same_next = third.same_next ∙ second.same_next ∙ first.same_next;
          }

  rotate_key-SameBurns :
      (o : O) (key sig : ℕ) (s : RenvmBridge W) {u : Unit {0}} {t : RenvmBridge W}
      → rotate_key T o key sig s ≡ ok (u, t)
      → SameBurns s t
  unfolding rotate_key
  rotate_key-SameBurns o key sig s e = after_ensure (T.ensure_none o) Error.bad_origin _ s e λ _ h₁.
      let last = of_eq (state_eq h₁) in
      record { same_events = last.same_events; same_next = last.same_next }

  dispatch-Logged :
      (c : RenvmCall) (o : O) (s : RenvmBridge W) (r : Result Error (Unit {0} × RenvmBridge W))
      → IsLog s
      → dispatch T o c s ≡ r
      → Logged s (after s c r).0
  dispatch-Logged c o s (err _) log e =
      same-Logged log (record { same_events = refl; same_next = refl })
  dispatch-Logged (RenvmCall.mint who p n h sig) o s (ok _) log e =
      same-Logged log (mint-SameBurns o who p n h sig s e)
  dispatch-Logged (RenvmCall.rotate_key key sig) o s (ok _) log e =
      same-Logged log (rotate_key-SameBurns o key sig s e)
  dispatch-Logged (RenvmCall.burn to n) o s (ok (_, t)) log e =
      let (who, _, _, same, next, lt) = burn-Recorded o to n s e in
      added-Logged (record { block = T.block_number t.world; dest = to; amount = n }) s t log same
        next lt

  module _ (none_origin : O) where
    -- the storage after a history
    abbrev pub final : List (Extrinsic O) → RenvmBridge W → RenvmBridge W
    final [] s = s
    final (x ∷ xs) s = final xs (apply T none_origin x s).0

    apply-Logged :
        (x : Extrinsic O) (s : RenvmBridge W) → IsLog s → Logged s (apply T none_origin x s).0
    apply-Logged (Extrinsic.unsigned c) s log = by_validity (validate_unsigned T c s)
      where
        by_validity : (v : TransactionValidity) → Logged s (validated T none_origin v c s).0
        by_validity (ok _) = dispatch-Logged c none_origin s (dispatch T none_origin c s) log refl
        by_validity (err _) = same-Logged log (record { same_events = refl; same_next = refl })
    apply-Logged (Extrinsic.signed o c) s log = dispatch-Logged c o s (dispatch T o c s) log refl

    -- In every history the burns keep the consecutive numbers below the next one, which stays a `u32`,
    -- and no burn that is in the record is changed or removed.
    pub final-IsLog :
        (xs : List (Extrinsic O)) (s : RenvmBridge W)
        → IsLog s
        → IsLog (final xs s) × KeepsBurns s (final xs s)
    final-IsLog [] s log = (log, record { kept = λ i b e. e })
    final-IsLog (x ∷ xs) s log =
        let (log', kept) = apply-Logged x s log in
        let (log'', kept') = final-IsLog xs (apply T none_origin x s).0 log' in
        (log'', record { kept = λ i b e. kept'.kept i b (kept.kept i b e) })
