-- ===== src/Settmint/Gateway/History.antt =====
-- The authorizations after a sequence of requests: the last request about an authorization
-- decides it.
use setheum.Common.{
  ℕ, arith, ◌≡◌, ◌≢◌, refl, ap, ◌∙◌, Bool, true, false, ◌&&◌, ◌||◌, Option, none, some, List, [],
  ◌∷◌, Result, ok, err, if◌then◌else◌, ◌==◌, ensure, ◌>>◌,
}
use setheum.Primitives.Currency.{CurrencyId, currency_beq}
use setheum.Settmint.Manager.{Error, Config, Settmint, Call, transfer_reserve}
use setheum.Settmint.Gateway as Gateway

-- The calls about authorizations, with the origin that sends each.
pub data Request (O : Type 0) : Type 0 where
  authorize unauthorize : O → CurrencyId → ℕ → Request O
  unauthorize_all : O → Request O

-- A call that fails leaves the state as it was.
abbrev pub kept : {W : Type 0} → Settmint W → Result Error (Unit {0} × Settmint W) → Settmint W
kept s (ok (_, t)) = t
kept s (err _) = s

abbrev pub is_account : Option ℕ → ℕ → Bool
is_account none k = false
is_account (some j) k = k == j

abbrev pub or_else : Option Bool → Bool → Bool
or_else none b = b
or_else (some v) b = v

decide : (b v old : Bool) → (if b then v else old) ≡ or_else (if b then some v else none) old
decide true v old = refl
decide false v old = refl

no_target : (a b v old : Bool) → old ≡ or_else (if a && (b && false) then some v else none) old
no_target true true v old = refl
no_target true false v old = refl
no_target false b v old = refl

module _ {O W : Type 0} (T : Config O W) where
  abbrev pub run : Request O → Settmint W → Settmint W
  run (Request.authorize o c to) s = kept s (Gateway.authorize T o c to s)
  run (Request.unauthorize o c to) s = kept s (Gateway.unauthorize T o c to s)
  run (Request.unauthorize_all o) s = kept s (Gateway.unauthorize_all T o s)

  abbrev pub run_all : List (Request O) → Settmint W → Settmint W
  run_all [] s = s
  run_all (r ∷ rs) s = run_all rs (run r s)

  -- What a request says of the authorization by `from` in `c` for `to`, if anything.
  abbrev pub verdict : ℕ → CurrencyId → ℕ → Request O → Option Bool
  verdict from c to (Request.authorize o d target) =
      if is_account (T.ensure_signed o) from
        && (currency_beq c d && is_account (T.lookup_account target) to)
      then some true
      else none
  verdict from c to (Request.unauthorize o d target) =
      if is_account (T.ensure_signed o) from
        && (currency_beq c d && is_account (T.lookup_account target) to)
      then some false
      else none
  verdict from c to (Request.unauthorize_all o) =
      if is_account (T.ensure_signed o) from then some false else none

  -- The authorization that the requests leave, if it was `given` before them.
  abbrev pub latest : ℕ → CurrencyId → ℕ → List (Request O) → Bool → Bool
  latest from c to [] given = given
  latest from c to (r ∷ rs) given = latest from c to rs (or_else (verdict from c to r) given)

  run-authorization :
      (r : Request O) (s : Settmint W) (from : ℕ) (c : CurrencyId) (to : ℕ)
      → (run r s).authorization from c to
        ≡ or_else (verdict from c to r) (s.authorization from c to)
  unfolding Gateway.authorize Gateway.unauthorize Gateway.unauthorize_all
  run-authorization (Request.authorize o d target) s from c to =
      by_accounts (T.ensure_signed o) (T.lookup_account target) refl refl
    where
      by_accounts :
          (i j : Option ℕ)
          → T.ensure_signed o ≡ i
          → T.lookup_account target ≡ j
          → (run (Request.authorize o d target) s).authorization from c to
            ≡ or_else (verdict from c to (Request.authorize o d target)) (s.authorization from c to)
      by_accounts none j e f = rw e refl
      by_accounts (some i) none e f = rw (e, f) (no_target (from == i) (currency_beq c d) _ _)
      by_accounts (some i) (some j) e f =
          rw (e, f)
            (decide ((from == i) && (currency_beq c d && (to == j))) true
              (s.authorization from c to))
  run-authorization (Request.unauthorize o d target) s from c to =
      by_accounts (T.ensure_signed o) (T.lookup_account target) refl refl
    where
      by_accounts :
          (i j : Option ℕ)
          → T.ensure_signed o ≡ i
          → T.lookup_account target ≡ j
          → (run (Request.unauthorize o d target) s).authorization from c to
            ≡ or_else
                (verdict from c to (Request.unauthorize o d target))
                (s.authorization from c to)
      by_accounts none j e f = rw e refl
      by_accounts (some i) none e f = rw (e, f) (no_target (from == i) (currency_beq c d) _ _)
      by_accounts (some i) (some j) e f =
          rw (e, f)
            (decide ((from == i) && (currency_beq c d && (to == j))) false
              (s.authorization from c to))
  run-authorization (Request.unauthorize_all o) s from c to = by_account (T.ensure_signed o) refl
    where
      by_account :
          (i : Option ℕ)
          → T.ensure_signed o ≡ i
          → (run (Request.unauthorize_all o) s).authorization from c to
            ≡ or_else (verdict from c to (Request.unauthorize_all o)) (s.authorization from c to)
      by_account none e = rw e refl
      by_account (some i) e = rw e (decide (from == i) false (s.authorization from c to))

  -- After any sequence of authorizing and unauthorizing calls, an account has the authorization
  -- of another in a currency exactly if the last successful call about it was to give it, or
  -- there was none and the account had it before.
  pub run_all-latest :
      (rs : List (Request O)) (s : Settmint W) (from : ℕ) (c : CurrencyId) (to : ℕ)
      → (run_all rs s).authorization from c to ≡ latest from c to rs (s.authorization from c to)
  run_all-latest [] s from c to = refl
  run_all-latest (r ∷ rs) s from c to =
      run_all-latest rs (run r s) from c to
      ∙ ap (latest from c to rs) (run-authorization r s from c to)

  ensure-false :
      (a b : Bool) (u : Settmint W)
      → a ≡ false
      → b ≡ false
      → ensure (a || b) Error.no_authorization u ≡ err Error.no_authorization
  ensure-false true b u p q = absurd (cc)
  ensure-false false true u p q = absurd (cc)
  ensure-false false false u p q = refl

  check_authorization-refused :
      (u : Settmint W) (from to : ℕ) (c : CurrencyId)
      → (from == to) ≡ false
      → u.authorization from c to ≡ false
      → Gateway.check_authorization from to c u ≡ err Error.no_authorization
  unfolding Gateway.check_authorization
  check_authorization-refused u from to c apart given =
      ensure-false (from == to) (u.authorization from c to) u apart given

  first_fails :
      {A : Type 0} (m : Call W (Unit {0})) (k : Call W A) (u : Settmint W) {e : Error}
      → m u ≡ err e
      → (m >> k) u ≡ err e
  first_fails m k u {e} h = by_result (m u) h
    where
      by_result :
          (r : Result Error (Unit {0} × Settmint W))
          → r ≡ err e
          → (elim r [ ok (_, s') ↦ k s' | err e ↦ err e ]) ≡ err e
      by_result (ok v) h = absurd (cc)
      by_result (err x) h = ap (λ e. err e) (cc)

  refused :
      (u : Settmint W) (o : O) (c : CurrencyId) (source : ℕ) {from to : ℕ}
      → T.ensure_signed o ≡ some to
      → T.lookup_account source ≡ some from
      → (from == to) ≡ false
      → u.authorization from c to ≡ false
      → Gateway.transfer_position_from T o c source u ≡ err Error.no_authorization
  unfolding Gateway.transfer_position_from
  refused u o c source {from} {to} signed found apart given =
      rw (signed, found)
        (first_fails (Gateway.check_authorization from to c) (transfer_reserve T from to c) u
          (check_authorization-refused u from to c apart given))

  -- A call of `transfer_position_from` for another account, after any sequence of authorizing and
  -- unauthorizing calls that leaves no authorization, fails with `NoAuthorization`.
  pub transfer_position_from-unauthorized :
      (rs : List (Request O)) (s : Settmint W) (o : O) (c : CurrencyId) (source : ℕ) {from to : ℕ}
      → T.ensure_signed o ≡ some to
      → T.lookup_account source ≡ some from
      → from ≢ to
      → latest from c to rs (s.authorization from c to) ≡ false
      → Gateway.transfer_position_from T o c source (run_all rs s) ≡ err Error.no_authorization
  transfer_position_from-unauthorized rs s o c source {from} {to} signed found ne without =
      refused (run_all rs s) o c source signed found (different_accounts ne)
        (run_all-latest rs s from c to ∙ without)
    where
      different_accounts : from ≢ to → (from == to) ≡ false
      different_accounts ne = ground arith
