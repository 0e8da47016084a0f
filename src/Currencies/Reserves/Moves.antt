-- ===== src/Currencies/Reserves/Moves.antt =====
-- What the reserves of an ERC20 currency do to the balances.
use setheum.Common.{
  ℕ, ◌+◌, ◌-◌, ◌≤◌, ◌≡◌, ◌≢◌, refl, sym, ap, subst, ◌∙◌, min, Bool, true, false, some, Result, ok,
  err, arith, is_zero, if◌then◌else◌, Bool-cases, inl, inr,
}
use setheum.Primitives.Currency.{CurrencyId}
use setheum.Currencies.Types.{Error, Config, Currencies, returned}
use setheum.Currencies.Pallet.{contract_balance, free_balance, reserve_address}
use setheum.Currencies.Reserves.{
  reserved_balance, reserve_at, reserve, left_after, unreserve_at, unreserve,
}
use setheum.Currencies.Reserves.Contracts.{
  IsErc20, in_reserve, free_balance_at, reserved_balance_at,
}

module _ {O W : Type 0} (T : Config O W) (contract : ℕ) where
  -- From `v` to `w`, `x` has gone from the address `from` to the address `to`, and nothing else has
  -- moved in the contract; all addresses are as they were.
  pub record Moved (from to x : ℕ) (v w : W) : Type 0 where
    pub sent : contract_balance T contract from v ≡ contract_balance T contract from w + x
    pub received : contract_balance T contract to w ≡ contract_balance T contract to v + x
    pub others :
        (b : ℕ)
        → b ≢ from
        → b ≢ to
        → contract_balance T contract b w ≡ contract_balance T contract b v
    pub mapped : (who : ℕ) → T.get_evm_address who w ≡ T.get_evm_address who v

  -- nothing has moved
  pub Moved-none : (from to : ℕ) (w : W) → Moved from to 0 w w
  Moved-none from to w = record {
    sent = omega arith;
    received = omega arith;
    others = λ _ _ _. refl;
    mapped = λ _. refl;
  }

  module _ {who a x : ℕ} {v w : W} (e : T.get_evm_address who v ≡ some a) where
    pub to_reserve-balances :
        Moved a (reserve_address T a) x v w
        → (free_balance T (CurrencyId.erc20 contract) who v
            ≡ free_balance T (CurrencyId.erc20 contract) who w + x)
          × (reserved_balance T (CurrencyId.erc20 contract) who w
              ≡ reserved_balance T (CurrencyId.erc20 contract) who v + x)
    to_reserve-balances m =
        let f = m.mapped who ∙ e in
        (
          free_balance_at T contract e
              ∙ m.sent
              ∙ ap (λ n. n + x) (sym (free_balance_at T contract f)),
          reserved_balance_at T contract f
              ∙ m.received
              ∙ ap (λ n. n + x) (sym (reserved_balance_at T contract e)),
        )

    pub from_reserve-balances :
        Moved (reserve_address T a) a x v w
        → (free_balance T (CurrencyId.erc20 contract) who w
            ≡ free_balance T (CurrencyId.erc20 contract) who v + x)
          × (reserved_balance T (CurrencyId.erc20 contract) who v
              ≡ reserved_balance T (CurrencyId.erc20 contract) who w + x)
    from_reserve-balances m =
        let f = m.mapped who ∙ e in
        (
          free_balance_at T contract f
              ∙ m.received
              ∙ ap (λ n. n + x) (sym (free_balance_at T contract e)),
          reserved_balance_at T contract e
              ∙ m.sent
              ∙ ap (λ n. n + x) (sym (reserved_balance_at T contract f)),
        )

  module _ (rules : IsErc20 T contract) where
    pub bridge_transfer-Moved :
        (sender origin to x : ℕ) (w : W) {w' : W}
        → sender ≢ to
        → T.bridge_transfer
            (record { contract = contract; sender = sender; origin = origin })
            to
            x
            w
          ≡ ok w'
        → Moved sender to x w w'
    bridge_transfer-Moved sender origin to x w ne e = record {
      sent = rules.sent sender origin to x w ne e;
      received = rules.received sender origin to x w ne e;
      others = λ b nf nt. rules.others sender origin to x w b nf nt e;
      mapped = λ who. rules.mapped sender origin to x w who e;
    }

    module _ (who a value : ℕ) (s : Currencies W) (e : T.get_evm_address who s.world ≡ some a)
        (ne : a ≢ reserve_address T a) where
      reserve_at-Moved :
          {t : Currencies W}
          → returned s (reserve_at T contract (some a) value s.world) ≡ ok t
          → Moved a (reserve_address T a) value s.world t.world × (t.events ≡ s.events)
      reserve_at-Moved {t} h =
          split
            (T.bridge_transfer (record { contract = contract; sender = a; origin = a })
              (reserve_address T a) value s.world)
            refl h
        where
          split :
              (r : Result Error W)
              → T.bridge_transfer
                  (record { contract = contract; sender = a; origin = a })
                  (reserve_address T a)
                  value
                  s.world
                ≡ r
              → returned s r ≡ ok t
              → Moved a (reserve_address T a) value s.world t.world × (t.events ≡ s.events)
          split (ok w) p h =
              let q : record s { world = w } ≡ t = cc in
              subst
                (λ (t : Currencies W).
                  Moved a (reserve_address T a) value s.world t.world × (t.events ≡ s.events))
                q (bridge_transfer-Moved a a (reserve_address T a) value s.world ne p, refl)
          split (err x) p h = absurd (cc)

      reserve-Moved :
          {t : Currencies W}
          → reserve T (CurrencyId.erc20 contract) who value s ≡ ok t
          → Moved a (reserve_address T a) value s.world t.world × (t.events ≡ s.events)
      unfolding reserve
      reserve-Moved {t} h = elim (Bool-cases (is_zero value)) [
        | inl z ↦
            let none_left : 0 ≡ value = ground arith in
            subst
              (λ value. Moved a (reserve_address T a) value s.world t.world × (t.events ≡ s.events))
              none_left (unmoved (rw z at h))
        | inr z ↦ reserve_at-Moved (rw (z, e) at h)
      ]
        where
          unmoved :
              ◌≡◌ {A = Result Error (Currencies W)} (ok s) (ok t)
              → Moved a (reserve_address T a) 0 s.world t.world × (t.events ≡ s.events)
          unmoved h =
              let q : s ≡ t = cc in
              subst
                (λ (t : Currencies W).
                  Moved a (reserve_address T a) 0 s.world t.world × (t.events ≡ s.events))
                q (Moved-none a (reserve_address T a) s.world, refl)

      -- A successful reservation in a well-behaved ERC20 contract, of an account whose address is not
      -- its own reserve address, moves the value from the address to the reserve address, that is,
      -- from the free to the reserved balance of the account, and moves nothing else.
      pub reserve-Reserved :
          {t : Currencies W}
          → reserve T (CurrencyId.erc20 contract) who value s ≡ ok t
          → Moved a (reserve_address T a) value s.world t.world
            × (t.events ≡ s.events)
            × (free_balance T (CurrencyId.erc20 contract) who s.world
                ≡ free_balance T (CurrencyId.erc20 contract) who t.world + value)
            × (reserved_balance T (CurrencyId.erc20 contract) who t.world
                ≡ reserved_balance T (CurrencyId.erc20 contract) who s.world + value)
      reserve-Reserved {t} h =
          let (moved, same) = reserve-Moved h in
          let (f, r) = to_reserve-balances e moved in (moved, same, f, r)

      unreserve_at-Moved :
          {w : W}
          → T.bridge_transfer
              (record { contract = contract; sender = reserve_address T a; origin = a })
              a
              (min (contract_balance T contract (reserve_address T a) s.world) value)
              s.world
            ≡ ok w
          → (let x = min (contract_balance T contract (reserve_address T a) s.world) value in
              let (left, w) = unreserve_at T contract (some a) value s.world in
              (left ≡ value - x) × Moved (reserve_address T a) a x s.world w)
      unreserve_at-Moved paid =
          let x = min (contract_balance T contract (reserve_address T a) s.world) value in
          split x
            (T.bridge_transfer
              (record { contract = contract; sender = reserve_address T a; origin = a }) a x
              s.world)
            refl paid
        where
          back : reserve_address T a ≢ a
          back q = ne (sym q)

          split :
              (x : ℕ) (r : Result Error W) {w : W}
              → T.bridge_transfer
                  (record { contract = contract; sender = reserve_address T a; origin = a })
                  a
                  x
                  s.world
                ≡ r
              → r ≡ ok w
              → (let (left, w) = left_after value x s.world r in
                  (left ≡ value - x) × Moved (reserve_address T a) a x s.world w)
          split x (ok w) q p =
              (refl, bridge_transfer-Moved (reserve_address T a) a a x s.world back q)
          split x (err _) q p = absurd (cc)

      fill : (left x : ℕ) → left ≡ value - x → x ≤ value → left + x ≡ value
      fill left x e le = omega arith

      unreserve_by-Moved :
          (b : Bool) {w : W}
          → is_zero value ≡ b
          → T.bridge_transfer
              (record { contract = contract; sender = reserve_address T a; origin = a })
              a
              (in_reserve T contract who value s.world)
              s.world
            ≡ ok w
          → (let (left, w) =
                if b
                then (value, s.world)
                else unreserve_at T contract (T.get_evm_address who s.world) value s.world in
              (left + in_reserve T contract who value s.world ≡ value)
              × Moved (reserve_address T a) a (in_reserve T contract who value s.world) s.world w)
      unreserve_by-Moved true z paid =
          let nothing : 0 ≡ in_reserve T contract who value s.world = ground arith in
          (
            ground arith,
            subst (λ x. Moved (reserve_address T a) a x s.world s.world) nothing
                (Moved-none (reserve_address T a) a s.world),
          )
      unreserve_by-Moved false {w} z paid =
          let x = min (contract_balance T contract (reserve_address T a) s.world) value in
          let same : x ≡ in_reserve T contract who value s.world =
            ap (λ r. min r value) (sym (reserved_balance_at T contract e)) in
          let (left, moved) = unreserve_at-Moved {w = w} (rw same paid) in
          rw (e, ← same) (fill _ x left (omega arith), moved)

      -- An unreservation in a well-behaved ERC20 contract, of an account whose address is not its own
      -- reserve address, where the contract's transfer back succeeds, gives back the reserved balance up to the value, moves exactly that from
      -- the reserve address to the address, from the reserved to the free balance, and returns what
      -- is missing to the value.
      pub unreserve-Unreserved :
          {w : W}
          → T.bridge_transfer
              (record { contract = contract; sender = reserve_address T a; origin = a })
              a
              (in_reserve T contract who value s.world)
              s.world
            ≡ ok w
          → (let (left, t) = unreserve T (CurrencyId.erc20 contract) who value s in
              (left + in_reserve T contract who value s.world ≡ value)
              × Moved
                  (reserve_address T a)
                  a
                  (in_reserve T contract who value s.world)
                  s.world
                  t.world
              × (t.events ≡ s.events)
              × (free_balance T (CurrencyId.erc20 contract) who t.world
                  ≡ free_balance T (CurrencyId.erc20 contract) who s.world
                    + in_reserve T contract who value s.world)
              × (reserved_balance T (CurrencyId.erc20 contract) who s.world
                  ≡ reserved_balance T (CurrencyId.erc20 contract) who t.world
                    + in_reserve T contract who value s.world))
      unfolding unreserve
      unreserve-Unreserved paid =
          let (left, moved) = unreserve_by-Moved (is_zero value) refl paid in
          let (f, r) = from_reserve-balances e moved in (left, moved, refl, f, r)
