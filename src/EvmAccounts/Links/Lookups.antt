-- ===== src/EvmAccounts/Links/Lookups.antt =====
-- What the lookups of one map say of the other.
use setheum.Common.{
  ℕ, ◌/◌, ◌%◌, ◌^◌, ◌<◌, ◌≡◌, refl, subst, true, Option, none, some, arith, ==_refl, inl, inr, ◌⊎◌,
  update_self, nat_eq,
}
use setheum.EvmAccounts.Types.{Config, EvmAccounts}
use setheum.EvmAccounts.Mapping.{
  evm_prefix, padded_account, account_or_padded, underlying_address, get_account_id,
  get_evm_address, or_else, account_to_default_evm_address, create_address,
  get_or_create_evm_address, is_linked,
}
use setheum.EvmAccounts.Links.Histories.{AreLinked}

-- The address in an account that is made of it.
underlying_address-padded_account :
    (a : ℕ) → a < 2 ^ 160 → underlying_address (padded_account a) ≡ some a
underlying_address-padded_account a lt =
    let top : padded_account a / 2 ^ 224 ≡ evm_prefix = omega arith in
    let middle : padded_account a / 2 ^ 64 % 2 ^ 160 ≡ a = omega arith in rw (top, middle) refl

module _ {O G W : Type 0} (T : Config O G W) where
  -- Where the maps are inverse to each other and the account that is made of an address is linked to
  -- nothing, the address of the account of an address is that address.
  pub get_evm_address-get_account_id :
      (live : ℕ → Type 0) (a : ℕ) (s : EvmAccounts W)
      → AreLinked T live s
      → a < 2 ^ 160
      → s.evm_addresses (padded_account a) ≡ none
      → get_evm_address (get_account_id a s) s ≡ some a
  unfolding get_evm_address get_account_id
  get_evm_address-get_account_id live a s h lt free = by_entry (s.accounts a) refl
    where
      by_entry :
          (e : Option ℕ)
          → s.accounts a ≡ e
          → or_else
              (s.evm_addresses (account_or_padded e a))
              (underlying_address (account_or_padded e a))
            ≡ some a
      by_entry (some who) q = rw (h.forward a who q) refl
      by_entry none q = rw free (underlying_address-padded_account a lt)

  -- the claims of the theorem below
  abbrev IsAddressOf : ℕ → ℕ → EvmAccounts W → EvmAccounts W → Type 0
  IsAddressOf who a s t =
      (get_evm_address who t ≡ some a)
      × (is_linked T who a t ≡ true)
      × (get_or_create_evm_address T who t ≡ (a, t))
      × (((t.evm_addresses who ≡ some a) × (get_account_id a t ≡ who))
          ⊎ ((t ≡ s) × (s.evm_addresses who ≡ none) × (underlying_address who ≡ some a)))

  stays :
      (who a : ℕ) (t : EvmAccounts W)
      → get_evm_address who t ≡ some a
      → (is_linked T who a t ≡ true) × (get_or_create_evm_address T who t ≡ (a, t))
  unfolding is_linked get_or_create_evm_address
  stays who a t e = (rw e (rw (==_refl a) refl), rw e refl)

  linked :
      (who a : ℕ) (s t : EvmAccounts W)
      → t.evm_addresses who ≡ some a
      → t.accounts a ≡ some who
      → IsAddressOf who a s t
  unfolding get_evm_address get_account_id
  linked who a s t e e' =
      let known : or_else (t.evm_addresses who) (underlying_address who) ≡ some a = rw e refl in
      let (is, same) = stays who a t known in (known, is, same, inl (e, rw e' refl))

  underlying :
      (who a : ℕ) (s : EvmAccounts W)
      → s.evm_addresses who ≡ none
      → underlying_address who ≡ some a
      → IsAddressOf who a s s
  unfolding get_evm_address
  underlying who a s e u =
      let known : or_else (s.evm_addresses who) (underlying_address who) ≡ some a = rw e u in
      let (is, same) = stays who a s known in (known, is, same, inr (refl, e, u))

  created :
      (live : ℕ → Type 0) (who : ℕ) (s : EvmAccounts W)
      → AreLinked T live s
      → IsAddressOf who
          (get_or_create_evm_address T who s).0
          s
          (get_or_create_evm_address T who s).1
  unfolding get_or_create_evm_address get_evm_address
  created live who s h = by_entry (s.evm_addresses who) (underlying_address who) refl refl
    where
      by_entry :
          (e u : Option ℕ)
          → s.evm_addresses who ≡ e
          → underlying_address who ≡ u
          → (let r = create_address T (or_else e u) who s in IsAddressOf who r.0 s r.1)
      by_entry (some a) u q q' = linked who a s s q (h.backward who a q)
      by_entry none (some a) q q' = underlying who a s q q'
      by_entry none none q q' =
          linked who (account_to_default_evm_address T who) s (create_address T none who s).1
            (update_self s.evm_addresses who (some (account_to_default_evm_address T who)))
            (update_self s.accounts (account_to_default_evm_address T who) (some who))

  -- The address that an account gets is its address from then on, it is linked to the account, and
  -- asking for it again gives the same and changes nothing. It is in the maps and its account is the
  -- one that asked, or it is the address in an account that the maps do not hold, and nothing has
  -- changed.
  pub get_or_create_evm_address-get :
      (live : ℕ → Type 0) (who a : ℕ) (s t : EvmAccounts W)
      → AreLinked T live s
      → get_or_create_evm_address T who s ≡ (a, t)
      → (get_evm_address who t ≡ some a)
        × (is_linked T who a t ≡ true)
        × (get_or_create_evm_address T who t ≡ (a, t))
        × (((t.evm_addresses who ≡ some a) × (get_account_id a t ≡ who))
            ⊎ ((t ≡ s) × (s.evm_addresses who ≡ none) × (underlying_address who ≡ some a)))
  get_or_create_evm_address-get live who a s t h e =
      subst (λ r. IsAddressOf who r.0 s r.1) e (created live who s h)
