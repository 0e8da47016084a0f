-- ===== src/EvmAccounts/Links/Claims.antt =====
-- What a claim that succeeds has checked and changed (`claim_account`).
use setheum.Common.{
  ℕ, ◌≡◌, refl, sym, ap, ◌∙◌, Bool, true, false, not, Option, none, some, [], ◌∷◌, ◌++◌, Result, ok,
  err, ◌==◌, ==_iff, update, nat_eq, after_ok_or, after_ensure, after_action,
}
use setheum.EvmAccounts.Types.{Error, Event, Config, EvmAccounts}
use setheum.EvmAccounts.Message.{to_ascii_hex}
use setheum.EvmAccounts.Mapping.{
  is_some, be_bytes, returned, outside, when_outside, link, get_account_id, eth_recover,
  claim_account,
}

module _ {O G W : Type 0} (T : Config O G W) where
  is_none : {A : Type 0} (o : Option A) → not (is_some o) ≡ true → o ≡ none
  is_none none e = refl
  is_none (some _) e = absurd (cc)

  -- a call outside changes no map
  outside-maps :
      (f : W → Result ℕ W) (s : EvmAccounts W) {u : Unit {0}} {t : EvmAccounts W}
      → outside f s ≡ ok (u, t)
      → (t.accounts ≡ s.accounts) × (t.evm_addresses ≡ s.evm_addresses)
  outside-maps f s {u} {t} e = by_result (f s.world) e
    where
      by_result :
          (r : Result ℕ W)
          → returned s r ≡ ok (u, t)
          → (t.accounts ≡ s.accounts) × (t.evm_addresses ≡ s.evm_addresses)
      by_result (ok w) e =
          let q : record s { world = w } ≡ t = cc in
          (
            ap (λ (t : EvmAccounts W). t.accounts) (sym q),
            ap (λ (t : EvmAccounts W). t.evm_addresses) (sym q),
          )
      by_result (err _) e = absurd (cc)

  when_outside-maps :
      (b : Bool) (f : W → Result ℕ W) (s : EvmAccounts W) {u : Unit {0}} {t : EvmAccounts W}
      → when_outside b f s ≡ ok (u, t)
      → (t.accounts ≡ s.accounts) × (t.evm_addresses ≡ s.evm_addresses)
  when_outside-maps true f s e = outside-maps f s e
  when_outside-maps false f s {u} {t} e =
      let q : s ≡ t = cc in
      (
        ap (λ (t : EvmAccounts W). t.accounts) (sym q),
        ap (λ (t : EvmAccounts W). t.evm_addresses) (sym q),
      )

  -- A claim that succeeds is of a signer that has no address, for an address that has no account, and
  -- the signature is one of the hexadecimal digits of the signer by the key of that address. After it
  -- the address has the signer and the signer the address, and no other entry of the maps has changed.
  pub claim_account-maps :
      (o : O) (a : ℕ) (g : G) (s : EvmAccounts W) {u : Unit {0}} {t : EvmAccounts W}
      → claim_account T o a g s ≡ ok (u, t)
      → (who : ℕ) × (T.ensure_signed o ≡ some who)
        × (s.evm_addresses who ≡ none)
        × (s.accounts a ≡ none)
        × (eth_recover T g (to_ascii_hex (be_bytes 32 who)) [] ≡ some a)
        × (t.accounts ≡ update s.accounts a (some who))
        × (t.evm_addresses ≡ update s.evm_addresses who (some a))
  unfolding claim_account
  claim_account-maps o a g s {u} {t} e =
      after_ok_or (T.ensure_signed o) Error.bad_origin _ s e λ who signed h₁.
        after_ensure (not (is_some (s.evm_addresses who))) Error.account_id_has_mapped _ s h₁
          λ free h₂.
            after_ensure (not (is_some (s.accounts a))) Error.eth_address_has_mapped _ s h₂
              λ free_a h₃.
                after_ok_or (eth_recover T g (to_ascii_hex (be_bytes 32 who)) [])
                  Error.bad_signature _ s h₃
                  λ b recovered h₄. after_ensure (a == b) Error.invalid_signature _ s h₄ λ same h₅.
                    after_action
                      (when_outside (T.account_exists (get_account_id a s) s.world)
                        (T.transfer_all (get_account_id a s) who))
                      _ s h₅
                      λ _ m moved h₆.
                        after_action (outside (T.on_claim who)) _ (link who a m) h₆
                          λ _ n claimed h₇.
                            let (ma, me) =
                              when_outside-maps (T.account_exists (get_account_id a s) s.world)
                                (T.transfer_all (get_account_id a s) who) s moved in
                            let (na, ne) = outside-maps (T.on_claim who) (link who a m) claimed in
                            let last : record n {
                              events = n.events ++ (Event.claim_account who a ∷ []);
                            }
                                ≡ t =
                              cc in
                            let q : b ≡ a = sym ((==_iff a b).0 same) in
                            (
                              who,
                              signed,
                              is_none _ free,
                              is_none _ free_a,
                              recovered ∙ ap (λ b. some b) q,
                              ap (λ (t : EvmAccounts W). t.accounts) (sym last)
                                  ∙ na
                                  ∙ ap (λ m. update m a (some who)) ma,
                              ap (λ (t : EvmAccounts W). t.evm_addresses) (sym last)
                                  ∙ ne
                                  ∙ ap (λ m. update m who (some a)) me,
                            )
