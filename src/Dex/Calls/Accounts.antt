-- ===== src/Dex/Calls/Accounts.antt =====
-- The accounts of provisions under every sequence of calls, overflow included.
use setheum.Common.{
  ℕ, ◌+◌, ◌≤◌, ◌≡◌, refl, ap, inl, inr, List, [], ◌∷◌, Result, ok, err, arith, Bool-cases, u128_max,
  min, saturating_add, lookup, insert, ◌==◌,
}
use setheum.Primitives.Currency.{TradingPair}
use setheum.Dex.Types.{Balances, TradingPairStatus, Error, Config, Dex}
use setheum.Dex.Provision.{add_balances, or_zero}
use setheum.Dex.Calls.Changes.{Change}
use setheum.Dex.Calls.Machine.{DexCall, dispatch, dispatch-ChangeAt}

-- The sum of the contributions, in exact numbers.
abbrev pub total_of : List (ℕ × Balances) → Balances
total_of [] = (0, 0)
total_of ((_, c) ∷ rest) = (c.0 + (total_of rest).0, c.1 + (total_of rest).1)

-- both sides of a sum, as a `u128` holds them
abbrev pub saturated : Balances → Balances
saturated (x, y) = (min x u128_max, min y u128_max)

-- A provisioning pair has accumulated the sum of its contributions, up to `u128::MAX`; any other
-- pair has none.
abbrev pub Recorded : TradingPairStatus → List (ℕ × Balances) → Type 0
Recorded (TradingPairStatus.provisioning q) l = q.accumulated_provision ≡ saturated (total_of l)
Recorded TradingPairStatus.not_enabled l = l ≡ []
Recorded TradingPairStatus.enabled l = l ≡ []

abbrev pub IsRecorded : {W : Type 0} → Dex W → Type 0
IsRecorded s = (p : TradingPair) → Recorded (s.trading_pair_statuses p) (s.provisioning_pool p)

-- The account that contributes takes its old contribution out of the sum, and puts the new one in.
total_of-insert_any :
    (k : ℕ) (c : Balances) (l : List (ℕ × Balances))
    → (let l' = insert k c l in
        let old = or_zero (lookup k l) in
        ((total_of l').0 + old.0 ≡ (total_of l).0 + c.0)
        × ((total_of l').1 + old.1 ≡ (total_of l).1 + c.1)
        × (old.0 ≤ (total_of l).0)
        × (old.1 ≤ (total_of l).1))
total_of-insert_any k (x, y) [] = (omega arith, omega arith, omega arith, omega arith)
total_of-insert_any k (x, y) ((j, (m, n)) ∷ l) = elim (Bool-cases (j == k)) [
  | inl b ↦ rw b (omega arith, omega arith, omega arith, omega arith)
  | inr b ↦
      let (f, g, h, i) = total_of-insert_any k (x, y) l in
      rw b (omega arith, omega arith, omega arith, omega arith)
]

-- One side: saturated sums stay saturated sums.
saturated_side :
    (acc total total' old c : ℕ)
    → acc ≡ min total u128_max
    → total' + old ≡ total + saturating_add old c
    → old ≤ total
    → saturating_add acc c ≡ min total' u128_max
saturated_side acc total total' old c e f h = omega arith

contribution-Recorded :
    (who : ℕ) (c acc : Balances) (l : List (ℕ × Balances))
    → acc ≡ saturated (total_of l)
    → add_balances acc c
      ≡ saturated (total_of (insert who (add_balances (or_zero (lookup who l)) c) l))
contribution-Recorded who (x, y) (a, b) l e =
    let old = or_zero (lookup who l) in
    let (f, g, h₀, h₁) = total_of-insert_any who (add_balances old (x, y)) l in
    let l' = insert who (add_balances old (x, y)) l in
    λ i. (
      saturated_side a (total_of l).0 (total_of l').0 old.0 x (ap (λ v. v.0) e) f h₀ i,
      saturated_side b (total_of l).1 (total_of l').1 old.1 y (ap (λ v. v.1) e) g h₁ i,
    )

Change-Recorded :
    (v v' : TradingPairStatus) (l l' : List (ℕ × Balances))
    → Change v l v' l'
    → Recorded v l
    → Recorded v' l'
Change-Recorded v v' l l' (Change.unchanged e f) r = rw (e, f) r
Change-Recorded v v' l l' (Change.listed q e f z g) r =
    let none_left : l ≡ [] = rw e at r in rw (f, g, none_left) z
Change-Recorded v v' l l' (Change.enabled e f g) r =
    let none_left : l ≡ [] = rw e at r in rw (f, g) none_left
Change-Recorded v v' l l' (Change.disabled e f g) r =
    let none_left : l ≡ [] = rw e at r in rw (f, g) none_left
Change-Recorded v v' l l' (Change.refunded q e f g) r = rw f g
Change-Recorded v v' l l' (Change.contributed q who c e f g) r =
    let sum : q.accumulated_provision ≡ saturated (total_of l) = rw e at r in
    rw (f, g) (contribution-Recorded who c q.accumulated_provision l sum)
Change-Recorded v v' l l' (Change.converted q e f g) r = rw f g

module _ {O W : Type 0} (T : Config O W) where
  -- Calls one after another; a call that fails is rolled back.
  abbrev pub kept : Dex W → Result Error (Unit {0} × Dex W) → Dex W
  kept s (ok (_, t)) = t
  kept s (err _) = s

  abbrev pub run_calls : List (DexCall O) → Dex W → Dex W
  run_calls [] s = s
  run_calls (call ∷ calls) s = run_calls calls (kept s (dispatch T call s))

  kept-IsRecorded :
      (call : DexCall O) (s : Dex W) → IsRecorded s → IsRecorded (kept s (dispatch T call s))
  kept-IsRecorded call s h = by_result (dispatch T call s) refl
    where
      by_result :
          (r : Result Error (Unit {0} × Dex W)) → dispatch T call s ≡ r → IsRecorded (kept s r)
      by_result (err x) e = h
      by_result (ok (u, t)) e = λ p. Change-Recorded _ _ _ _ (dispatch-ChangeAt T call s e p) (h p)

  -- After any sequence of calls, every provisioning pair has accumulated exactly the sum of the
  -- contributions that are recorded for it, up to `u128::MAX` on either side, and no other pair
  -- has contributions, if that was so before.
  pub run_calls-IsRecorded :
      (calls : List (DexCall O)) (s : Dex W) → IsRecorded s → IsRecorded (run_calls calls s)
  run_calls-IsRecorded [] s h = h
  run_calls-IsRecorded (call ∷ calls) s h =
      run_calls-IsRecorded calls (kept s (dispatch T call s)) (kept-IsRecorded call s h)
