-- ===== src/Currencies/Reserves/RoundTrip.antt =====
-- A reservation that is undone.
use setheum.Common.{
  ℕ, ◌+◌, ◌≡◌, ◌≢◌, ◌∙◌, some, ok, arith, ◌==◌, ==_iff, Bool-cases, inl, inr, key_ne,
}
use setheum.Primitives.Currency.{CurrencyId}
use setheum.Currencies.Types.{Config, Currencies}
use setheum.Currencies.Pallet.{contract_balance, reserve_address}
use setheum.Currencies.Reserves.{reserve, unreserve}
use setheum.Currencies.Reserves.Contracts.{IsErc20, in_reserve}
use setheum.Currencies.Reserves.Moves.{Moved, reserve-Reserved, unreserve-Unreserved}

module _ {O W : Type 0} (T : Config O W) (contract : ℕ) where
  -- What moves to an address and back leaves all balances.
  Moved-back :
      (from to x y : ℕ) (u v w : W)
      → x ≡ y
      → Moved T contract from to x u v
      → Moved T contract to from y v w
      → (b : ℕ) → contract_balance T contract b w ≡ contract_balance T contract b u
  Moved-back from to x y u v w same out back b = elim (Bool-cases (b == from)) [
    | inl e ↦ let q = (==_iff b from).0 e in rw q (cancel _ _ _ out.sent (rw same back.received))
    | inr e ↦ elim (Bool-cases (b == to)) [
      | inl f ↦ let q = (==_iff b to).0 f in rw q (cancel' _ _ _ out.received (rw same back.sent))
      | inr f ↦
          back.others b (key_ne b to f) (key_ne b from e)
          ∙ out.others b (key_ne b from e) (key_ne b to f)
    ]
  ]
    where
      cancel : (p q r : ℕ) → p ≡ q + x → r ≡ q + x → r ≡ p
      cancel p q r e f = omega arith

      cancel' : (p q r : ℕ) → q ≡ p + x → q ≡ r + x → r ≡ p
      cancel' p q r e f = omega arith

  -- After a successful reservation in a well-behaved ERC20 contract, of an account whose address is
  -- not its own reserve address, an unreservation of the same value for which the contract's transfer
  -- back succeeds leaves nothing missing, and the balances of all addresses, the address of every
  -- account and the events are what they were before the reservation.
  pub unreserve-reserve :
      (rules : IsErc20 T contract) (who a value : ℕ) (s : Currencies W) {t : Currencies W} {w : W}
      → T.get_evm_address who s.world ≡ some a
      → a ≢ reserve_address T a
      → reserve T (CurrencyId.erc20 contract) who value s ≡ ok t
      → T.bridge_transfer
          (record { contract = contract; sender = reserve_address T a; origin = a })
          a
          value
          t.world
        ≡ ok w
      → (let (left, u) = unreserve T (CurrencyId.erc20 contract) who value t in
          (left ≡ 0)
          × ((b : ℕ)
              → contract_balance T contract b u.world ≡ contract_balance T contract b s.world)
          × ((j : ℕ) → T.get_evm_address j u.world ≡ T.get_evm_address j s.world)
          × (u.events ≡ s.events))
  unreserve-reserve rules who a value s {t} {w} e ne h paid =
      let (out, same, _, r) = reserve-Reserved T contract rules who a value s e ne h in
      let all : value ≡ in_reserve T contract who value t.world = omega arith in
      let (left, back, same', _, _) =
        unreserve-Unreserved T contract rules who a value t (out.mapped who ∙ e) ne {w = w}
          (rw (← all) paid) in
      (
        omega arith,
        Moved-back a (reserve_address T a) value _ s.world t.world _ all out back,
        λ j. back.mapped j ∙ out.mapped j,
        same' ∙ same,
      )
