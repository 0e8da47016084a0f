-- ===== src/RenvmBridge/Signatures/Keys.antt =====
-- When an unsigned transaction is valid (`validate_unsigned`, `verify_mint_signature`,
-- `verify_rotate_key_signature`).
use native.Mathlib.Nat.{div-div-eq-div-mul, div-eq_of_lt}
use setheum.Common.{
  ℕ, zero, suc, ◌*◌, ◌/◌, ◌%◌, ◌^◌, ◌≤◌, ◌<◌, ◌≡◌, refl, sym, ap, ◌∙◌, arith, Bool, true, false,
  Option, none, some, List, [], ◌∷◌, ◌++◌, Result, ok, err, ◌==◌, ==_iff, ==_refl, ensure, ◌↔◌,
  after_ok_or, if◌then◌else◌,
}
use setheum.EvmAccounts.Mapping.{be_bytes}
use setheum.RenvmBridge.Types.{
  Error, Config, RenvmBridge, RenvmCall, InvalidTransaction, ValidTransaction,
}
use setheum.RenvmBridge.Pallet.{
  zero_bytes, proved, signer, signable_mint_message, signable_rotate_key_message, verify_signature,
  verify_mint_signature, verify_rotate_key_signature, validate_unsigned,
}
use setheum.RenvmBridge.Signatures.{signatures_of, Fresh, checked-Fresh}

-- The number in base 256 with `k` digits, the last one least.
abbrev pub digits : ℕ → ℕ → List ℕ
digits zero n = []
digits (suc k) n = digits k (n / 256) ++ (n % 256 ∷ [])

div_one : (n : ℕ) → n / 1 ≡ n
div_one n = omega arith

next_power : (k n : ℕ) → n / 2 ^ (8 * suc k) ≡ n / 256 / 2 ^ (8 * k)
next_power k n = ap (λ d. n / d) (power k) ∙ sym (div-div-eq-div-mul n 256 (2 ^ (8 * k)))
  where
    power : (k : ℕ) → 2 ^ (8 * suc k) ≡ 256 * 2 ^ (8 * k)
    power k =
        let e : 8 * suc k ≡ suc (suc (suc (suc (suc (suc (suc (suc (8 * k)))))))) = omega arith in
        rw e (omega arith)

be_bytes-last : (k n : ℕ) → be_bytes (suc k) n ≡ be_bytes k (n / 256) ++ (n % 256 ∷ [])
be_bytes-last zero n = ap (λ m. m % 256 ∷ []) (div_one n)
be_bytes-last (suc k) n =
    ap (λ m. m % 256 ∷ be_bytes (suc k) n) (next_power k n)
    ∙ ap (λ l. n / 256 / 2 ^ (8 * k) % 256 ∷ l) (be_bytes-last k n)

be_bytes-digits : (k n : ℕ) → be_bytes k n ≡ digits k n
be_bytes-digits zero n = refl
be_bytes-digits (suc k) n =
    be_bytes-last k n ∙ ap (λ l. l ++ (n % 256 ∷ [])) (be_bytes-digits k (n / 256))

-- An amount of 16 bytes as a word of 32.
amount_word : (n : ℕ) → n < 2 ^ 128 → zero_bytes ++ be_bytes 16 n ≡ be_bytes 32 n
amount_word n small =
    rw
      (
        above (2 ^ 248) (omega arith),
        above (2 ^ 240) (omega arith),
        above (2 ^ 232) (omega arith),
        above (2 ^ 224) (omega arith),
        above (2 ^ 216) (omega arith),
        above (2 ^ 208) (omega arith),
        above (2 ^ 200) (omega arith),
        above (2 ^ 192) (omega arith),
        above (2 ^ 184) (omega arith),
        above (2 ^ 176) (omega arith),
        above (2 ^ 168) (omega arith),
        above (2 ^ 160) (omega arith),
        above (2 ^ 152) (omega arith),
        above (2 ^ 144) (omega arith),
        above (2 ^ 136) (omega arith),
        above (2 ^ 128) (omega arith),
      )
      refl
  where
    above : (d : ℕ) → 2 ^ 128 ≤ d → n / d % 256 ≡ 0
    above zero le = absurd (omega arith)
    above (suc d) le = let q : n / suc d ≡ 0 = div-eq_of_lt (omega arith) in rw q refl

module _ {O W : Type 0} (T : Config O W) where
  -- What RenVM has to sign: for a mint the hash of the payload, the amount and the account as words
  -- of 32 bytes around the identifier of the token, and the hash of the nonce; for a change of the
  -- key its 20 bytes.
  abbrev pub message_of : RenvmCall → List ℕ
  message_of (RenvmCall.mint who p n h _) =
      p ++ (digits 32 n ++ (T.currency_identifier ++ (digits 32 who ++ h)))
  message_of (RenvmCall.burn _ _) = []
  message_of (RenvmCall.rotate_key key _) = digits 20 key

  abbrev pub amount_of : RenvmCall → ℕ
  amount_of (RenvmCall.mint _ _ n _ _) = n
  amount_of (RenvmCall.burn _ n) = n
  amount_of (RenvmCall.rotate_key _ _) = 0

  -- The signature is one of the message by a key, the last 20 bytes of whose hash are the address
  -- in force.
  pub record IsSigned (message : List ℕ) (sig : ℕ) (s : RenvmBridge W) : Type 0 where
    pub key : List ℕ
    pub recovered : T.secp256k1_ecdsa_recover sig (T.keccak_256 message) ≡ some key
    pub in_force : s.ren_vm_public_key ≡ some (T.keccak_256 key % 2 ^ 160)

  signer-eq_some :
      (o : Option (List ℕ)) {a : ℕ}
      → signer T o ≡ some a
      → (key : List ℕ) × (o ≡ some key) × (T.keccak_256 key % 2 ^ 160 ≡ a)
  signer-eq_some none e = absurd (cc)
  signer-eq_some (some key) e = (key, refl, cc)

  ensured :
      (b : Bool) (e : Error) (s : RenvmBridge W) {u : Unit {0}} {t : RenvmBridge W}
      → ensure b e s ≡ ok (u, t)
      → b ≡ true
  ensured true e s h = refl
  ensured false e s h = absurd (cc)

  verified-IsSigned :
      (message : List ℕ) (sig : ℕ) (s : RenvmBridge W) {u : Unit {0}} {t : RenvmBridge W}
      → verify_signature T message sig s ≡ ok (u, t)
      → IsSigned message sig s
  verified-IsSigned message sig s h =
      after_ok_or (signer T (T.secp256k1_ecdsa_recover sig (T.keccak_256 message)))
        Error.invalid_mint_signature _ s h
        λ a recovered h₁.
          after_ok_or s.ren_vm_public_key Error.invalid_ren_vm_public_key _ s h₁ λ k in_force h₂.
            let same : a ≡ k =
              (==_iff a k).0 (ensured (a == k) Error.invalid_mint_signature s h₂) in
            let (key, found, hashed) = signer-eq_some _ recovered in
            record {
              key = key;
              recovered = found;
              in_force = in_force ∙ ap (λ a. some a) (sym (hashed ∙ same));
            }

  verify_signed :
      (message : List ℕ) (sig : ℕ) (s : RenvmBridge W)
      → IsSigned message sig s
      → verify_signature T message sig s ≡ ok (tt, s)
  verify_signed message sig s h =
      rw h.recovered (rw h.in_force (rw (==_refl (T.keccak_256 h.key % 2 ^ 160)) refl))

  proved_iff :
      (message : List ℕ) (sig : ℕ) (s : RenvmBridge W)
      → ((v : ValidTransaction) × (proved T sig (verify_signature T message sig s) ≡ ok v))
        ↔ IsSigned message sig s
  proved_iff message sig s = (
    λ valid. by_result (verify_signature T message sig s) refl valid.1,
    λ h. (
      record { priority = T.unsigned_priority; provides = sig; longevity = 64 },
      ap (proved T sig) (verify_signed message sig s h),
    ),
  )
    where
      by_result :
          (r : Result Error (Unit {0} × RenvmBridge W)) {v : ValidTransaction}
          → verify_signature T message sig s ≡ r
          → proved T sig r ≡ ok v
          → IsSigned message sig s
      by_result (ok (u, t)) q e = verified-IsSigned message sig s q
      by_result (err _) q e = absurd (cc)

  checked_iff :
      (message : List ℕ) (sig : ℕ) (s : RenvmBridge W)
      → ((v : ValidTransaction) × ((if s.signatures sig
              then err InvalidTransaction.stale
              else proved T sig (verify_signature T message sig s))
            ≡ ok v))
        ↔ (Fresh s sig × IsSigned message sig s)
  checked_iff message sig s = (
    λ valid.
        let (fresh, e) =
          checked-Fresh T s sig (proved T sig (verify_signature T message sig s)) valid.1 in
        (fresh, (proved_iff message sig s).0 (valid.0, e)),
    λ h. let (v, e) = (proved_iff message sig s).1 h.1 in (v, rw h.0 e),
  )

  signed_message :
      (who n : ℕ) (p h : List ℕ)
      → n < 2 ^ 128
      → signable_mint_message p n (be_bytes 32 who) h T.currency_identifier
        ≡ p ++ (digits 32 n ++ (T.currency_identifier ++ (digits 32 who ++ h)))
  signed_message who n p h small =
      ap (λ l. p ++ l)
        (ap (λ l. l ++ (T.currency_identifier ++ (be_bytes 32 who ++ h)))
            (amount_word n small ∙ be_bytes-digits 32 n)
          ∙ ap (λ l. digits 32 n ++ (T.currency_identifier ++ (l ++ h))) (be_bytes-digits 32 who))

  -- A mint of an amount of 128 bits or a change of the key is valid as an unsigned transaction exactly
  -- when its signature has not been used and is one of its message by a key whose address is the
  -- one in force.
  pub validate_unsigned_iff :
      (c : RenvmCall) (sig : ℕ) (s : RenvmBridge W)
      → signatures_of c ≡ sig ∷ []
      → amount_of c < 2 ^ 128
      → ((v : ValidTransaction) × (validate_unsigned T c s ≡ ok v))
        ↔ (Fresh s sig × IsSigned (message_of c) sig s)
  unfolding validate_unsigned verify_mint_signature verify_rotate_key_signature
  validate_unsigned_iff (RenvmCall.mint who p n h sig') sig s e small =
      let same : sig ≡ sig' = cc in
      rw (same, ← signed_message who n p h small)
        (checked_iff (signable_mint_message p n (be_bytes 32 who) h T.currency_identifier) sig' s)
  validate_unsigned_iff (RenvmCall.burn _ _) sig s e small = absurd (cc)
  validate_unsigned_iff (RenvmCall.rotate_key key sig') sig s e small =
      let same : sig ≡ sig' = cc in
      rw (same, ← be_bytes-digits 20 key) (checked_iff (signable_rotate_key_message key) sig' s)
