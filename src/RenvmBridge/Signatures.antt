-- ===== src/RenvmBridge/Signatures.antt =====
-- Each signature is used once (`validate_unsigned`, `mint`, `rotate_key`), in every history of
-- transactions.
pub mod Keys
use setheum.Common.{
  ℕ, ◌≡◌, ◌≢◌, refl, sym, ap, subst, ◌∙◌, Bool, true, false, Option, none, some, List, [], ◌∷◌,
  ◌++◌, Result, ok, err, ◌>>=◌, ◌==◌, ==_iff, ==_refl, Bool-cases, inl, inr, ◌⊎◌, update,
  update-cases, nat_eq, All, after_ok_or, after_ensure, after_action, state_eq, modify,
  if◌then◌else◌,
}
use setheum.RenvmBridge.Types.{
  Error, Config, RenvmBridge, RenvmCall, InvalidTransaction, ValidTransaction, TransactionValidity,
}
use setheum.RenvmBridge.Pallet.{
  returned, outside, use_signature, do_mint, mint, next_id, burn, rotate_key, dispatch, proved,
  verify_mint_signature, verify_rotate_key_signature, validate_unsigned,
}
use setheum.EvmAccounts.Mapping.{be_bytes}

-- A transaction without a signature of its own, which `validate_unsigned` checks, or one with an
-- origin.
pub data Extrinsic (O : Type 0) : Type 0 where
  unsigned : RenvmCall → Extrinsic O
  signed : O → RenvmCall → Extrinsic O

-- the signature of RenVM in a call
abbrev pub signatures_of : RenvmCall → List ℕ
signatures_of (RenvmCall.mint _ _ _ _ sig) = sig ∷ []
signatures_of (RenvmCall.burn _ _) = []
signatures_of (RenvmCall.rotate_key _ sig) = sig ∷ []

abbrev pub Distinct : List ℕ → Type 0
Distinct [] = Unit
Distinct (x ∷ xs) = All (λ y. y ≢ x) xs × Distinct xs

module _ {W : Type 0} where
  -- the storage after a call, and the signature that the call has used
  abbrev pub after :
      RenvmBridge W → RenvmCall → Result Error (Unit {0} × RenvmBridge W) → RenvmBridge W × List ℕ
  after s c (ok (_, t)) = (t, signatures_of c)
  after s c (err _) = (s, [])

  abbrev pub Fresh : RenvmBridge W → ℕ → Type 0
  Fresh s sig = s.signatures sig ≡ false

  abbrev Used : RenvmBridge W → RenvmBridge W → List ℕ → Type 0
  Used s t l =
      ((l ≡ []) × (t.signatures ≡ s.signatures))
      ⊎ ((sig : ℕ) × (l ≡ sig ∷ []) × Fresh s sig × (t.signatures ≡ update s.signatures sig true))

  -- a call of another pallet that succeeds changes nothing but the world
  pub outside-ok :
      (f : W → Result ℕ W) (s : RenvmBridge W) {u : Unit {0}} {t : RenvmBridge W}
      → outside f s ≡ ok (u, t)
      → (f s.world ≡ ok t.world) × (t ≡ record s { world = t.world })
  outside-ok f s {u} {t} e = by_result (f s.world) e
    where
      by_result :
          (r : Result ℕ W)
          → returned s r ≡ ok (u, t)
          → (r ≡ ok t.world) × (t ≡ record s { world = t.world })
      by_result (ok w) e =
          let q = state_eq e in
          (
            ap (λ (s : RenvmBridge W). ok s.world) q,
            sym q ∙ ap (λ (t : RenvmBridge W). record s { world = t.world }) q,
          )
      by_result (err _) e = absurd (cc)

  outside-signatures :
      (f : W → Result ℕ W) (s : RenvmBridge W) {u : Unit {0}} {t : RenvmBridge W}
      → outside f s ≡ ok (u, t)
      → t.signatures ≡ s.signatures
  outside-signatures f s e = ap (λ (s : RenvmBridge W). s.signatures) (outside-ok f s e).1

module _ {O W : Type 0} (T : Config O W) where
  mint-Used :
      (o : O) (who : ℕ) (p : List ℕ) (n : ℕ) (h : List ℕ) (sig : ℕ) (s : RenvmBridge W)
      {u : Unit {0}} {t : RenvmBridge W}
      → Fresh s sig
      → mint T o who p n h sig s ≡ ok (u, t)
      → Used s t (sig ∷ [])
  unfolding mint do_mint
  mint-Used o who p n h sig s fresh e =
      after_ensure (T.ensure_none o) Error.bad_origin _ s e λ _ h₁.
        after_action (do_mint T who n sig) _ s h₁ λ _ m did h₂.
          after_action (outside (T.deposit who n)) _ s did λ _ k paid h₃. inr (
            sig,
            refl,
            fresh,
            ap (λ (s : RenvmBridge W). s.signatures) (sym (state_eq h₂))
                ∙ ap (λ (s : RenvmBridge W). s.signatures) (sym (state_eq h₃))
                ∙ ap (λ f. update f sig true) (outside-signatures (T.deposit who n) s paid),
          )

  rotate_key-Used :
      (o : O) (key sig : ℕ) (s : RenvmBridge W) {u : Unit {0}} {t : RenvmBridge W}
      → Fresh s sig
      → rotate_key T o key sig s ≡ ok (u, t)
      → Used s t (sig ∷ [])
  unfolding rotate_key
  rotate_key-Used o key sig s fresh e =
      after_ensure (T.ensure_none o) Error.bad_origin _ s e
        λ _ h₁. inr (sig, refl, fresh, ap (λ (s : RenvmBridge W). s.signatures) (sym (state_eq h₁)))

  burn-Used :
      (o : O) (to : List ℕ) (n : ℕ) (s : RenvmBridge W) {u : Unit {0}} {t : RenvmBridge W}
      → burn T o to n s ≡ ok (u, t)
      → Used s t []
  unfolding burn
  burn-Used o to n s e = after_ok_or (T.ensure_signed o) Error.bad_origin _ s e λ who _ h₁.
      after_ok_or (next_id s.next_burn_event_id) Error.overflow _ s h₁ λ next _ h₂.
        after_action (outside (T.withdraw who n)) _ s h₂ λ _ m paid h₃. inl (
          refl,
          ap (λ (s : RenvmBridge W). s.signatures) (sym (state_eq h₃))
              ∙ outside-signatures (T.withdraw who n) s paid,
        )

  dispatch-Used :
      (c : RenvmCall) (o : O) (s : RenvmBridge W) (r : Result Error (Unit {0} × RenvmBridge W))
      → All (Fresh s) (signatures_of c)
      → dispatch T o c s ≡ r
      → Used s (after s c r).0 (after s c r).1
  dispatch-Used c o s (err _) fresh e = inl (refl, refl)
  dispatch-Used (RenvmCall.mint who p n h sig) o s (ok _) fresh e =
      mint-Used o who p n h sig s fresh.0 e
  dispatch-Used (RenvmCall.burn to n) o s (ok _) fresh e = burn-Used o to n s e
  dispatch-Used (RenvmCall.rotate_key key sig) o s (ok _) fresh e =
      rotate_key-Used o key sig s fresh.0 e

  pub checked-Fresh :
      (s : RenvmBridge W) (sig : ℕ) (r : TransactionValidity) {v : ValidTransaction}
      → (if s.signatures sig then err InvalidTransaction.stale else r) ≡ ok v
      → Fresh s sig × (r ≡ ok v)
  checked-Fresh s sig r {v} e = split (s.signatures sig) e
    where
      split :
          (b : Bool)
          → (if b then err InvalidTransaction.stale else r) ≡ ok v
          → (b ≡ false) × (r ≡ ok v)
      split true e = absurd (cc)
      split false e = (refl, e)

  -- An unsigned transaction is applied if it is valid, with an origin of its own.
  module _ (none_origin : O) where
    abbrev pub validated : TransactionValidity → RenvmCall → RenvmBridge W → RenvmBridge W × List ℕ
    validated (ok _) c s = after s c (dispatch T none_origin c s)
    validated (err _) c s = (s, [])

    abbrev pub apply : Extrinsic O → RenvmBridge W → RenvmBridge W × List ℕ
    apply (Extrinsic.unsigned c) s = validated (validate_unsigned T c s) c s
    apply (Extrinsic.signed o c) s = after s c (dispatch T o c s)

    -- the signatures that a history has used, in order
    abbrev pub accepted : List (Extrinsic O) → RenvmBridge W → List ℕ
    accepted [] s = []
    accepted (x ∷ xs) s = (apply x s).1 ++ accepted xs (apply x s).0

    -- The origin of a transaction with a signature of its own is not that of an unsigned one.
    abbrev pub HasOrigin : Extrinsic O → Type 0
    HasOrigin (Extrinsic.unsigned _) = Unit
    HasOrigin (Extrinsic.signed o _) = T.ensure_none o ≡ false

    valid-Fresh :
        (c : RenvmCall) (s : RenvmBridge W) {v : ValidTransaction}
        → validate_unsigned T c s ≡ ok v
        → All (Fresh s) (signatures_of c)
    unfolding validate_unsigned
    valid-Fresh (RenvmCall.mint who p n h sig) s e = (
      (checked-Fresh s sig (proved T sig (verify_mint_signature T p n (be_bytes 32 who) h sig s))
          e).0,
      tt,
    )
    valid-Fresh (RenvmCall.burn _ _) s e = tt
    valid-Fresh (RenvmCall.rotate_key key sig) s e =
        ((checked-Fresh s sig (proved T sig (verify_rotate_key_signature T key sig s)) e).0, tt)

    unsigned-Used :
        (c : RenvmCall) (s : RenvmBridge W) (v : TransactionValidity)
        → validate_unsigned T c s ≡ v
        → Used s (validated v c s).0 (validated v c s).1
    unsigned-Used c s (err _) e = inl (refl, refl)
    unsigned-Used c s (ok _) e =
        dispatch-Used c none_origin s (dispatch T none_origin c s) (valid-Fresh c s e) refl

    signed-Used :
        (o : O) (c : RenvmCall) (s : RenvmBridge W)
        → T.ensure_none o ≡ false
        → Used s (after s c (dispatch T o c s)).0 (after s c (dispatch T o c s)).1
    unfolding mint rotate_key
    signed-Used o (RenvmCall.mint who p n h sig) s has = rw has (inl (refl, refl))
    signed-Used o (RenvmCall.burn to n) s has =
        dispatch-Used (RenvmCall.burn to n) o s (burn T o to n s) tt refl
    signed-Used o (RenvmCall.rotate_key key sig) s has = rw has (inl (refl, refl))

    apply-Used :
        (x : Extrinsic O) (s : RenvmBridge W) → HasOrigin x → Used s (apply x s).0 (apply x s).1
    apply-Used (Extrinsic.unsigned c) s has = unsigned-Used c s (validate_unsigned T c s) refl
    apply-Used (Extrinsic.signed o c) s has = signed-Used o c s has

    -- what is fresh after a signature is used was so before, and is another one
    before :
        (s t : RenvmBridge W) (sig : ℕ)
        → t.signatures ≡ update s.signatures sig true
        → (l : List ℕ) → All (Fresh t) l
        → All (Fresh s) l × All (λ y. y ≢ sig) l
    before s t sig same [] fresh = (tt, tt)
    before s t sig same (y ∷ l) (fresh, rest) =
        let (older, others) = before s t sig same l rest in
        elim (update-cases s.signatures sig true y (ap (λ f. f y) (sym same) ∙ fresh)) [
          | inl (_, e) ↦ absurd (different e)
          | inr (ne, e) ↦ ((e, older), (ne, others))
        ]
      where
        different : true ≡ false → ⊥
        different e = cc

    -- In a history of transactions, of which the unsigned ones are applied where they are valid and the
    -- others have origins of their own, no signature of RenVM is used twice, by mints and changes of the
    -- key alike, and none that had been used before is used again.
    pub accepted-Distinct :
        (xs : List (Extrinsic O)) (s : RenvmBridge W)
        → All HasOrigin xs
        → Distinct (accepted xs s) × All (Fresh s) (accepted xs s)
    accepted-Distinct [] s has = (tt, tt)
    accepted-Distinct (x ∷ xs) s (has, all) =
        let t = (apply x s).0 in
        let (distinct, fresh) = accepted-Distinct xs t all in
        elim (apply-Used x s has) [
          | inl (q, same) ↦
              rw q (distinct, subst (λ f. All (λ sig. f sig ≡ false) (accepted xs t)) same fresh)
          | inr (sig, q, fresh_sig, same) ↦
              let (older, others) = before s t sig same (accepted xs t) fresh in
              rw q ((others, distinct), (fresh_sig, older))
        ]
