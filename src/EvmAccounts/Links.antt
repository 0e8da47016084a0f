-- ===== src/EvmAccounts/Links.antt =====
-- When the two maps between accounts and addresses are inverse to each other, and the changes that
-- keep them so.
pub mod Claims
pub mod Histories
pub mod Lookups
use setheum.Common.{
  ℕ, ◌≡◌, ◌≢◌, refl, sym, ap, subst, ◌∙◌, Bool, true, false, Option, none, some, ◌==◌, ==_iff,
  ==_refl, Bool-cases, Option-cases, inl, inr, ◌⊎◌, update, update_self, update-cases, some_eq,
  no_entry, IsInverse, insert-IsInverse, remove-IsInverse, update_ne, nat_eq, key_ne,
}

-- An address has an account exactly when the account has the address, and an address that is the
-- default of a live account has no other account.
pub record IsLinked (live : ℕ → Type 0) (default : ℕ → ℕ) (accounts evm_addresses : ℕ → Option ℕ)
    : Type 0 where
  pub forward : (a who : ℕ) → accounts a ≡ some who → evm_addresses who ≡ some a
  pub backward : (who a : ℕ) → evm_addresses who ≡ some a → accounts a ≡ some who
  pub owned : (who v : ℕ) → live who → accounts (default who) ≡ some v → v ≡ who

module _ {live : ℕ → Type 0} {default : ℕ → ℕ} {accounts evm_addresses : ℕ → Option ℕ}
    (h : IsLinked live default accounts evm_addresses) where
  inverse : IsInverse accounts evm_addresses
  inverse = record { forward = h.forward; backward = h.backward }

  -- A new link of an account and an address that have none, where the address is the default of no
  -- other live account.
  pub link-IsLinked :
      (who a : ℕ)
      → evm_addresses who ≡ none
      → accounts a ≡ none
      → ((j : ℕ) → live j → default j ≡ a → j ≡ who)
      → IsLinked live default (update accounts a (some who)) (update evm_addresses who (some a))
  link-IsLinked who a free_who free_a own =
      let both = insert-IsInverse inverse a who free_a free_who in
      record {
        forward = both.forward;
        backward = both.backward;
        owned = λ j v lives e. elim (update-cases accounts a (some who) (default j) e) [
          | inl (q, r) ↦ sym (some_eq r) ∙ sym (own j lives q)
          | inr (ne, r) ↦ h.owned j v lives r
        ];
      }

  -- A link that is taken away.
  pub unlink-IsLinked :
      (who a : ℕ)
      → evm_addresses who ≡ some a
      → IsLinked live default (update accounts a none) (update evm_addresses who none)
  unlink-IsLinked who a linked =
      let both = remove-IsInverse inverse a who (h.backward who a linked) in
      record {
        forward = both.forward;
        backward = both.backward;
        owned = λ j v lives e. elim (update-cases accounts a none (default j) e) [
          | inl (_, r) ↦ absurd (no_entry r)
          | inr (ne, r) ↦ h.owned j v lives r
        ];
      }

  -- Only the account itself may have its default address.
  pub default_entry :
      (who : ℕ)
      → live who
      → (accounts (default who) ≡ none) ⊎ (evm_addresses who ≡ some (default who))
  default_entry who lives = elim (Option-cases (accounts (default who))) [
    | inl e ↦ inl e
    | inr (v, e) ↦ inr (h.forward (default who) who (e ∙ ap (λ v. some v) (h.owned who v lives e)))
  ]

-- a map whose entry was none
pub update-none : (m : ℕ → Option ℕ) (k : ℕ) → m k ≡ none → update m k none ≡ m
update-none m k e i j = same j i
  where
    same : (j : ℕ) → update m k none j ≡ m j
    same j = elim (Bool-cases (j == k)) [
      | inl b ↦ rw b (sym e ∙ ap m (sym ((==_iff j k).0 b)))
      | inr b ↦ rw b refl
    ]

pub update_twice :
    (m : ℕ → Option ℕ) (k : ℕ) (v w : Option ℕ) → update (update m k v) k w ≡ update m k w
update_twice m k v w i j = same j i
  where
    same : (j : ℕ) → update (update m k v) k w j ≡ update m k w j
    same j = elim (Bool-cases (j == k)) [ inl b ↦ rw b refl | inr b ↦ rw b refl ]
