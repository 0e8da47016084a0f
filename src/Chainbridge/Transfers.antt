-- ===== src/Chainbridge/Transfers.antt =====
-- What goes over the bridge and comes back (`do_transfer_to_bridge`, `transfer_from_bridge`).
use setheum.Common.{
  ℕ, ◌+◌, ◌≡◌, sym, ap, ◌∙◌, Bool, true, false, ◌&&◌, some, List, Result, ok, err, ◌==◌, arith,
  if◌then◌else◌, some_eq, after_ok_or, after_ensure, after_action,
}
use setheum.Primitives.Currency.{CurrencyId, currency_beq}
use setheum.Chainbridge.Types.{Error, Config, Chainbridge}
use setheum.Chainbridge.Pallet.{
  returned, outside, is_origin_chain_resource, take_tokens, do_transfer_to_bridge,
  transfer_to_bridge, give_tokens, transfer_from_bridge,
}
use setheum.Chainbridge.Registry.{HasRegistry, outside-ok, do_transfer_to_bridge-SameRegistry}

-- an amount of one currency in one account, as a balance of each
abbrev pub amount_at : CurrencyId → ℕ → ℕ → CurrencyId → ℕ → ℕ
amount_at c a n d i = if currency_beq d c && i == a then n else 0

-- What the currencies do with the balances, where no account is left with dust, and that a message to another chain leaves them alone.
pub record MovesBalances {O W : Type 0} (T : Config O W) (balance : CurrencyId → ℕ → W → ℕ)
    : Type 0 where
  pub transferred :
      (c : CurrencyId) (from to n : ℕ) (w w' : W)
      → T.transfer c from to n w ≡ ok w'
      → (d : CurrencyId) (i : ℕ)
      → balance d i w' + amount_at c from n d i ≡ balance d i w + amount_at c to n d i
  pub deposited :
      (c : CurrencyId) (to n : ℕ) (w w' : W)
      → T.deposit c to n w ≡ ok w'
      → (d : CurrencyId) (i : ℕ) → balance d i w' ≡ balance d i w + amount_at c to n d i
  pub withdrawn :
      (c : CurrencyId) (from n : ℕ) (w w' : W)
      → T.withdraw c from n w ≡ ok w'
      → (d : CurrencyId) (i : ℕ) → balance d i w' + amount_at c from n d i ≡ balance d i w
  pub sent :
      (chain r n : ℕ) (to : List ℕ) (w w' : W)
      → T.transfer_fungible chain r to n w ≡ ok w'
      → (d : CurrencyId) (i : ℕ) → balance d i w' ≡ balance d i w

module _ {O W : Type 0} (T : Config O W) {balance : CurrencyId → ℕ → W → ℕ}
    (rules : MovesBalances T balance) where
  outside-world :
      (f : W → Result ℕ W) (s : Chainbridge W) {u : Unit {0}} {t : Chainbridge W}
      → outside f s ≡ ok (u, t)
      → f s.world ≡ ok t.world
  outside-world f s {u} {t} e = by_result (f s.world) e
    where
      by_result : (r : Result ℕ W) → returned s r ≡ ok (u, t) → r ≡ ok t.world
      by_result (ok w) e =
          let q : record s { world = w } ≡ t = cc in ap (λ (s : Chainbridge W). ok s.world) q
      by_result (err _) e = absurd (cc)

  -- Tokens of this chain go to the account of the bridge and come from it, others are burnt and
  -- issued.
  taken_given :
      (origin : Bool) (c : CurrencyId) (who n : ℕ) (w₀ w₁ w₂ w₃ : W) (d : CurrencyId) (i : ℕ)
      → take_tokens T origin c who n w₀ ≡ ok w₁
      → balance d i w₂ ≡ balance d i w₁
      → give_tokens T origin c T.account_id who n w₂ ≡ ok w₃
      → balance d i w₃ ≡ balance d i w₀
  taken_given true c who n w₀ w₁ w₂ w₃ d i e q f = omega (
    arith,
    rules.transferred c who T.account_id n w₀ w₁ e d i,
    q,
    rules.transferred c T.account_id who n w₂ w₃ f d i,
  )
  taken_given false c who n w₀ w₁ w₂ w₃ d i e q f =
      omega (arith, rules.withdrawn c who n w₀ w₁ e d i, q, rules.deposited c who n w₂ w₃ f d i)

  -- Where the registry is in order, the currencies move balances as they say and a message to another
  -- chain moves none: after a successful transfer of an account to the bridge, a successful transfer
  -- of the same amount by the account of the bridge, for the resource of the currency, gives each
  -- account the balance that it had in each currency.
  pub transfer_from_bridge-transfer_to_bridge :
      (o o' : O) (who r n chain : ℕ) (to : List ℕ) (c : CurrencyId) (s m t : Chainbridge W)
      {u u' : Unit {0}}
      → HasRegistry T s
      → T.ensure_signed o ≡ some who
      → T.bridge_origin o' ≡ some T.account_id
      → s.resource_ids c ≡ some r
      → transfer_to_bridge T o c chain to n s ≡ ok (u, m)
      → transfer_from_bridge T o' who n r m ≡ ok (u', t)
      → (d : CurrencyId) (i : ℕ) → balance d i t.world ≡ balance d i s.world
  unfolding transfer_to_bridge do_transfer_to_bridge transfer_from_bridge
  transfer_from_bridge-transfer_to_bridge o o' who r n chain to c s m t h signed bridge entry e f d
        i =
      after_ok_or (T.ensure_signed o) Error.bad_origin _ s e λ j j_signed e₁.
        after_ensure (T.chain_whitelisted chain s.world) Error.invalid_dest_chain_id _ s e₁ λ _ e₂.
          after_ok_or (s.resource_ids c) Error.resource_id_not_registered _ s e₂ λ q found e₃.
            after_action (outside (take_tokens T (is_origin_chain_resource T q) c j n)) _ s e₃
              λ _ m₁ taken sent.
                after_ok_or (T.bridge_origin o') Error.bad_origin _ m f λ b b_signed f₁.
                  after_ok_or (m.currency_ids r) Error.resource_id_not_registered _ m f₁
                    λ c' back given.
                      let same = do_transfer_to_bridge-SameRegistry T j c chain to n s e₁ in
                      let q_r : q ≡ r = some_eq (sym found ∙ entry) in
                      let j_who : j ≡ who = some_eq (sym j_signed ∙ signed) in
                      let b_account : b ≡ T.account_id = some_eq (sym b_signed ∙ bridge) in
                      let c_c : c' ≡ c =
                        some_eq (
                          sym back ∙ ap (λ m. m r) same.currencies ∙ h.inverse.forward c r entry) in
                      let take : take_tokens T (is_origin_chain_resource T r) c who n s.world
                          ≡ ok m₁.world =
                        rw (q_r, j_who) at
                          (outside-ok (take_tokens T (is_origin_chain_resource T q) c j n) s
                            taken).0 in
                      let give : give_tokens T (is_origin_chain_resource T r) c T.account_id who n
                            m.world
                          ≡ ok t.world =
                        rw (b_account, c_c) at
                          (outside-ok (give_tokens T (is_origin_chain_resource T r) c' b who n) m
                            given).0 in
                      taken_given (is_origin_chain_resource T r) c who n s.world m₁.world m.world
                        t.world d i take
                        (rules.sent chain q n to m₁.world m.world
                          (outside-ok (T.transfer_fungible chain q to n) m₁ sent).0 d i)
                        give
