-- ===== src/Currencies/Reserves/Repatriation.antt =====
-- The reserve of one account that goes to another.
use setheum.Common.{
  ℕ, ◌+◌, ◌-◌, ◌≡◌, ◌≢◌, refl, sym, ap, subst, ◌∙◌, min, false, some, Result, ok, err, arith, ◌==◌,
  is_zero, Bool-cases, inl, inr, other_key,
}
use setheum.Primitives.Currency.{CurrencyId}
use setheum.Currencies.Types.{Error, BalanceStatus, Config, Currencies, returned_number}
use setheum.Currencies.Pallet.{contract_balance, reserve_address}
use setheum.Currencies.Reserves.{
  reserved_balance, receiver, with_left, repatriate_at, repatriate_reserved,
}
use setheum.Currencies.Reserves.Contracts.{IsErc20, in_reserve, reserved_balance_at}
use setheum.Currencies.Reserves.Moves.{Moved, bridge_transfer-Moved}

module _ {O W : Type 0} (T : Config O W) (contract : ℕ) where
  -- From `s` to `t`, `x` of the reserve of `slashed` has gone to the address `to`, `left` is what is
  -- missing to the value, and nothing else has moved in the contract.
  pub record Repatriated (slashed a to value x left : ℕ) (s t : Currencies W) : Type 0 where
    pub filled : left + x ≡ value
    pub taken :
        reserved_balance T (CurrencyId.erc20 contract) slashed s.world
        ≡ reserved_balance T (CurrencyId.erc20 contract) slashed t.world + x
    pub given : contract_balance T contract to t.world ≡ contract_balance T contract to s.world + x
    pub others :
        (b : ℕ)
        → b ≢ reserve_address T a
        → b ≢ to
        → contract_balance T contract b t.world ≡ contract_balance T contract b s.world
    pub same_events : t.events ≡ s.events

  module _ (rules : IsErc20 T contract) (slashed a beneficiary b value : ℕ) (status : BalanceStatus)
      (s : Currencies W) {w₁ : W} (e : T.get_evm_address slashed s.world ≡ some a)
      (made : T.get_or_create_evm_address beneficiary s.world ≡ (b, w₁))
      (ne : reserve_address T a ≢ receiver T status b) where
    Moved-Repatriated :
        (left : ℕ) {w : W}
        → left + (in_reserve T contract slashed value s.world) ≡ value
        → Moved T contract
            (reserve_address T a)
            (receiver T status b)
            (in_reserve T contract slashed value s.world)
            w₁
            w
        → Repatriated slashed a
            (receiver T status b)
            value
            (in_reserve T contract slashed value s.world)
            left
            s
            (record s { world = w })
    Moved-Repatriated left {w} filled moved =
        let kept = rules.made_kept beneficiary s.world slashed made e in
        let same : (c : ℕ)
            → contract_balance T contract c w₁ ≡ contract_balance T contract c s.world =
          λ c. rules.made_balance beneficiary s.world c made in
        record {
          filled = filled;
          taken =
              reserved_balance_at T contract e
              ∙ sym (same (reserve_address T a))
              ∙ moved.sent
              ∙ ap (λ n. n + (in_reserve T contract slashed value s.world))
                  (sym (reserved_balance_at T contract (moved.mapped slashed ∙ kept)));
          given =
              moved.received
              ∙ ap (λ n. n + (in_reserve T contract slashed value s.world))
                  (same (receiver T status b));
          others = λ c nf nt. moved.others c nf nt ∙ same c;
          same_events = refl;
        }

    repatriate_at-Repatriated :
        {left : ℕ} {t : Currencies W}
        → returned_number s (repatriate_at T contract (some a) beneficiary value status s.world)
          ≡ ok (left, t)
        → Repatriated slashed a
            (receiver T status b)
            value
            (in_reserve T contract slashed value s.world)
            left
            s
            t
    repatriate_at-Repatriated {left} {t} h =
        split (min (contract_balance T contract (reserve_address T a) w₁) value)
          (ap (λ r. min r value)
            (rules.made_balance beneficiary s.world (reserve_address T a) made
              ∙ sym (reserved_balance_at T contract e)))
          (T.bridge_transfer
            (record { contract = contract; sender = reserve_address T a; origin = a })
            (receiver T status b) (min (contract_balance T contract (reserve_address T a) w₁) value)
            w₁)
          refl (rw made at h)
      where
        fill :
            (x : ℕ)
            → x ≡ (in_reserve T contract slashed value s.world)
            → value - x + (in_reserve T contract slashed value s.world) ≡ value
        fill x q = omega arith

        split :
            (x : ℕ)
            → x ≡ (in_reserve T contract slashed value s.world)
            → (r : Result Error W)
            → T.bridge_transfer
                (record { contract = contract; sender = reserve_address T a; origin = a })
                (receiver T status b)
                x
                w₁
              ≡ r
            → returned_number s (with_left (value - x) r) ≡ ok (left, t)
            → Repatriated slashed a
                (receiver T status b)
                value
                (in_reserve T contract slashed value s.world)
                left
                s
                t
        split x q (err _) p h = absurd (cc)
        split x q (ok w) p h =
            let moved =
              bridge_transfer-Moved T contract rules (reserve_address T a) a (receiver T status b) x
                w₁ ne p in
            let l : value - x ≡ left = cc in
            let u : record s { world = w } ≡ t = cc in
            subst
              (λ left.
                Repatriated slashed a (receiver T status b) value
                  (in_reserve T contract slashed value s.world) left s t)
              l
              (subst
                (λ t.
                  Repatriated slashed a (receiver T status b) value
                    (in_reserve T contract slashed value s.world) (value - x) s t)
                u
                (Moved-Repatriated (value - x) (fill x q) (
                  subst (λ x. Moved T contract (reserve_address T a) (receiver T status b) x w₁ w) q
                    moved)))

    -- A successful repatriation of a reserve in a well-behaved ERC20 contract to another account,
    -- where the receiving address is not the reserve address of the slashed account, moves the
    -- reserved balance up to the value to the address of the beneficiary, or to its reserve address,
    -- moves nothing else, and returns what is missing to the value.
    pub repatriate_reserved-Repatriated :
        {left : ℕ} {t : Currencies W}
        → slashed ≢ beneficiary
        → repatriate_reserved T (CurrencyId.erc20 contract) slashed beneficiary value status s
          ≡ ok (left, t)
        → Repatriated slashed a
            (receiver T status b)
            value
            (in_reserve T contract slashed value s.world)
            left
            s
            t
    unfolding repatriate_reserved
    repatriate_reserved-Repatriated {left} {t} other h = elim (Bool-cases (is_zero value)) [
      | inl z ↦
          let nothing : (in_reserve T contract slashed value s.world) ≡ 0 = ground arith in
          unmoved nothing (rw z at h)
      | inr z ↦
          let differ : (slashed == beneficiary) ≡ false =
            other_key beneficiary slashed (λ q. other (sym q)) in
          repatriate_at-Repatriated (rw (z, differ, e) at h)
    ]
      where
        unmoved :
            (in_reserve T contract slashed value s.world) ≡ 0
            → ◌≡◌ {A = Result Error (ℕ × Currencies W)} (ok (value, s)) (ok (left, t))
            → Repatriated slashed a
                (receiver T status b)
                value
                (in_reserve T contract slashed value s.world)
                left
                s
                t
        unmoved z h =
            let l : value ≡ left = cc in
            let u : s ≡ t = cc in
            subst
              (λ left.
                Repatriated slashed a (receiver T status b) value
                  (in_reserve T contract slashed value s.world) left s t)
              l
              (subst
                (λ t.
                  Repatriated slashed a (receiver T status b) value
                    (in_reserve T contract slashed value s.world) value s t)
                u
                (record {
                  filled = omega arith;
                  taken = omega arith;
                  given = omega arith;
                  others = λ _ _ _. refl;
                  same_events = refl;
                }))
