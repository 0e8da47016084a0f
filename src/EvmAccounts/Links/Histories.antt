-- ===== src/EvmAccounts/Links/Histories.antt =====
-- All operations that change the two maps, and every sequence of them (`claim_account`,
-- `claim_default_account`, `get_or_create_evm_address`, `on_killed_account`).
use setheum.Common.{
  ℕ, ◌≡◌, refl, sym, ap, subst, Bool-cases, ◌∙◌, Option, none, some, List, [], ◌∷◌, Result, ok, err,
  inl, inr, update, nat_eq, All,
}
use setheum.EvmAccounts.Types.{Error, Config, EvmAccounts}
use setheum.EvmAccounts.Mapping.{
  is_some, get_evm_address, or_else, underlying_address, account_to_default_evm_address,
  create_address, get_or_create_evm_address, claim_account, handled, claim_default_of,
  claim_default_account, unlink, on_killed_account,
}
use setheum.EvmAccounts.Links.Claims.{claim_account-maps}
use setheum.EvmAccounts.Links.{
  IsLinked, link-IsLinked, unlink-IsLinked, default_entry, update-none, update_twice,
}

-- The operations, with what they are given.
pub data EvmCall (O G : Type 0) : Type 0 where
  claim : O → ℕ → G → EvmCall O G
  claim_default : O → EvmCall O G
  create : ℕ → EvmCall O G
  killed : ℕ → EvmCall O G

-- a transaction that fails leaves the storage as it was
abbrev pub or_unchanged :
    {W : Type 0} → EvmAccounts W → Result Error (Unit {0} × EvmAccounts W) → EvmAccounts W
or_unchanged s (ok (_, t)) = t
or_unchanged s (err _) = s

module _ {O G W : Type 0} (T : Config O G W) where
  abbrev pub step : EvmCall O G → EvmAccounts W → EvmAccounts W
  step (EvmCall.claim o a g) s = or_unchanged s (claim_account T o a g s)
  step (EvmCall.claim_default o) s = (claim_default_account T o s).1
  step (EvmCall.create who) s = (get_or_create_evm_address T who s).1
  step (EvmCall.killed who) s = on_killed_account T who s

  abbrev pub run : List (EvmCall O G) → EvmAccounts W → EvmAccounts W
  run [] s = s
  run (c ∷ cs) s = run cs (step c s)

module _ {O G W : Type 0} (T : Config O G W) (live : ℕ → Type 0) where
  abbrev pub AreLinked : EvmAccounts W → Type 0
  AreLinked s = IsLinked live (account_to_default_evm_address T) s.accounts s.evm_addresses

  -- The accounts that a call is of are live, and an address that is claimed is the default of no
  -- other live account than the claimer.
  abbrev pub IsProper : EvmCall O G → Type 0
  IsProper (EvmCall.claim o a g) =
      (j : ℕ) → live j → account_to_default_evm_address T j ≡ a → T.ensure_signed o ≡ some j
  IsProper (EvmCall.claim_default o) = (j : ℕ) → T.ensure_signed o ≡ some j → live j
  IsProper (EvmCall.create who) = live who
  IsProper (EvmCall.killed who) = live who

  -- No two live accounts have one default address.
  abbrev pub NoCollision : Type 0
  NoCollision =
      (i j : ℕ)
      → live i
      → live j
      → account_to_default_evm_address T i ≡ account_to_default_evm_address T j
      → i ≡ j

  same_signer : {i j : ℕ} → some i ≡ some j → i ≡ j
  same_signer e = cc

  claim-AreLinked :
      (o : O) (a : ℕ) (g : G) (s : EvmAccounts W)
      → AreLinked s
      → IsProper (EvmCall.claim o a g)
      → AreLinked (or_unchanged s (claim_account T o a g s))
  claim-AreLinked o a g s h own = by_result (claim_account T o a g s) refl
    where
      by_result :
          (r : Result Error (Unit {0} × EvmAccounts W))
          → claim_account T o a g s ≡ r
          → AreLinked (or_unchanged s r)
      by_result (err _) q = h
      by_result (ok (u, t)) q =
          let (who, signed, free, free_a, _, ta, te) = claim_account-maps T o a g s q in
          subst (IsLinked live (account_to_default_evm_address T) t.accounts) (sym te) (
            subst
              (λ m.
                IsLinked live (account_to_default_evm_address T) m
                  (update s.evm_addresses who (some a)))
              (sym ta)
              (link-IsLinked h who a free free_a
                (λ j lives e. same_signer (sym (own j lives e) ∙ signed))))

  handled-AreLinked :
      (who a : ℕ) (t : EvmAccounts W) (r : Result ℕ W)
      → AreLinked t
      → AreLinked (handled T who a t r).1
  handled-AreLinked who a t (ok w) h = h
  handled-AreLinked who a t (err _) h = h

  killed-AreLinked :
      (who : ℕ) (s : EvmAccounts W) → live who → AreLinked s → AreLinked (on_killed_account T who s)
  unfolding on_killed_account
  killed-AreLinked who s lives h = by_entry (s.evm_addresses who) refl
    where
      no_entry : {A : Type 0} {a : ℕ} → ◌≡◌ {A = Option ℕ} none (some a) → A
      no_entry e = absurd (cc)

      by_entry :
          (e : Option ℕ)
          → s.evm_addresses who ≡ e
          → AreLinked (
              unlink who e (record s {
                accounts = update s.accounts (account_to_default_evm_address T who) none;
              }))
      by_entry none q = elim (default_entry h who lives) [
        | inl free ↦
            subst (λ m. IsLinked live (account_to_default_evm_address T) m s.evm_addresses)
              (sym (update-none s.accounts (account_to_default_evm_address T who) free)) h
        | inr e ↦ no_entry (sym q ∙ e)
      ]
      by_entry (some a) q = elim (default_entry h who lives) [
        | inl free ↦
            subst
              (λ m.
                IsLinked live (account_to_default_evm_address T) (update m a none)
                  (update s.evm_addresses who none))
              (sym (update-none s.accounts (account_to_default_evm_address T who) free))
              (unlink-IsLinked h who a q)
        | inr e ↦
            let same : a ≡ account_to_default_evm_address T who = same_signer (sym q ∙ e) in
            subst
              (λ m.
                IsLinked live (account_to_default_evm_address T) m
                  (update s.evm_addresses who none))
              (sym (
                ap (λ d. update (update s.accounts d none) a none) (sym same)
                ∙ update_twice s.accounts a none none))
              (unlink-IsLinked h who a q)
      ]

  module _ (unique : NoCollision) where
    create-AreLinked :
        (who : ℕ) (s : EvmAccounts W)
        → live who
        → AreLinked s
        → AreLinked (get_or_create_evm_address T who s).1
    unfolding get_or_create_evm_address get_evm_address
    create-AreLinked who s lives h = split (s.evm_addresses who) (underlying_address who) refl
      where
        no_address : {a : ℕ} → ◌≡◌ {A = Option ℕ} none (some a) → ⊥
        no_address e = cc

        split :
            (e u : Option ℕ)
            → s.evm_addresses who ≡ e
            → AreLinked (create_address T (or_else e u) who s).1
        split (some a) u q = h
        split none (some a) q = h
        split none none q =
            link-IsLinked h who (account_to_default_evm_address T who) q
              (elim (default_entry h who lives) [
                | inl e ↦ e
                | inr e ↦ absurd (no_address (sym q ∙ e))
              ])
              (λ j lives_j e. unique j who lives_j lives e)

    claim_default-AreLinked :
        (o : O) (s : EvmAccounts W)
        → IsProper (EvmCall.claim_default o)
        → AreLinked s
        → AreLinked (claim_default_account T o s).1
    unfolding claim_default_account
    claim_default-AreLinked o s signs h = by_origin (T.ensure_signed o) signs
      where
        by_origin :
            (who : Option ℕ)
            → ((j : ℕ) → who ≡ some j → live j)
            → AreLinked (claim_default_of T who s).1
        by_origin none signs = h
        by_origin (some who) signs = elim (Bool-cases (is_some (s.evm_addresses who))) [
          | inl b ↦ rw b h
          | inr b ↦
              let (a, t) = get_or_create_evm_address T who s in
              rw b (
                handled-AreLinked who a t (T.on_claim who t.world)
                  (create-AreLinked who s (signs who refl) h))
        ]

    pub step-AreLinked :
        (c : EvmCall O G) (s : EvmAccounts W) → AreLinked s → IsProper c → AreLinked (step T c s)
    step-AreLinked (EvmCall.claim o a g) s h own = claim-AreLinked o a g s h own
    step-AreLinked (EvmCall.claim_default o) s h own = claim_default-AreLinked o s own h
    step-AreLinked (EvmCall.create who) s h own = create-AreLinked who s own h
    step-AreLinked (EvmCall.killed who) s h own = killed-AreLinked who s own h

    -- Where no two live accounts have one default address, all calls are of live accounts and every
    -- claimed address is the default of no other live account than the claimer, each sequence of
    -- claims, default claims, new addresses and ends of accounts, failed ones included, keeps the two
    -- maps inverse to each other.
    pub run-AreLinked :
        (cs : List (EvmCall O G)) (s : EvmAccounts W)
        → AreLinked s
        → All IsProper cs
        → AreLinked (run T cs s)
    run-AreLinked [] s h own = h
    run-AreLinked (c ∷ cs) s h (own, owns) =
        run-AreLinked cs (step T c s) (step-AreLinked c s h own) owns
