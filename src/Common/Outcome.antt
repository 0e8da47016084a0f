-- ===== src/Common/Outcome.antt =====
-- The results of fallible code, and state passing with failure: an `Err` drops the state that
-- the call has written, as a storage transaction does.
use mathlib.Core.Path.{◌≡◌, refl, ap}
use mathlib.Core.Bool.{Bool, true, false}
use mathlib.Core.Option.{Option, none, some}

pub data Result (E A : Type 0) : Type 0 where
  ok : A → Result E A
  err : E → Result E A

-- A computation over the state `S` that ends with a value and a new state, or with an error.
abbrev pub Action : Type 0 → Type 0 → Type 0 → Type 0
Action S E A = S → Result E (A × S)

module _ {S E : Type 0} where
  abbrev pub pure : {A : Type 0} → A → Action S E A
  pure a s = ok (a, s)

  abbrev pub fail : {A : Type 0} → E → Action S E A
  fail e s = err e

  infixl 5 ◌>>=◌ ◌>>◌
  abbrev pub ◌>>=◌ : {A B : Type 0} → Action S E A → (A → Action S E B) → Action S E B
  ◌>>=◌ m f s = elim (m s) [ ok (a, s') ↦ f a s' | err e ↦ err e ]

  abbrev pub ◌>>◌ : {A B : Type 0} → Action S E A → Action S E B → Action S E B
  m >> k = m >>= λ _. k

  -- `ensure!(test, e)`
  abbrev pub ensure : Bool → E → Action S E (Unit {0})
  ensure true e s = ok (tt, s)
  ensure false e s = err e

  -- `o.ok_or(e)?`
  abbrev pub ok_or : {A : Type 0} → Option A → E → Action S E A
  ok_or none e s = err e
  ok_or (some a) e s = ok (a, s)

  -- a `Result` that does not touch the state, under `?`
  abbrev pub lift : {A : Type 0} → Result E A → Action S E A
  lift (ok a) s = ok (a, s)
  lift (err e) s = err e

  abbrev pub gets : {A : Type 0} → (S → A) → Action S E A
  gets f s = ok (f s, s)

  abbrev pub modify : (S → S) → Action S E (Unit {0})
  modify f s = ok (tt, f s)

  pub >>=-eq-ok :
      {A B : Type 0} (m : Action S E A) (f : A → Action S E B) (s : S) {b : B} {t : S}
      → (m >>= f) s ≡ ok (b, t)
      → (a : A) × (u : S) × (m s ≡ ok (a, u)) × (f a u ≡ ok (b, t))
  >>=-eq-ok {A} {B} m f s {b} {t} h = go (m s) refl h
    where
      go :
          (r : Result E (A × S))
          → m s ≡ r
          → (elim r [ ok (a, s') ↦ f a s' | err e ↦ err e ]) ≡ ok (b, t)
          → (a : A) × (u : S) × (m s ≡ ok (a, u)) × (f a u ≡ ok (b, t))
      go (ok (a, u)) e h = (a, u, e, h)
      go (err x) e h = cc

  -- a first step that fails
  pub >>=-err :
      {A B : Type 0} (m : Action S E A) (f : A → Action S E B) (s : S) {e : E}
      → m s ≡ err e
      → (m >>= f) s ≡ err e
  >>=-err {A} {B} m f s {e} h = split (m s) h
    where
      split :
          (r : Result E (A × S))
          → r ≡ err e
          → ◌≡◌ {A = Result E (B × S)} (elim r [ ok (a, s') ↦ f a s' | err e ↦ err e ]) (err e)
      split (ok _) h = absurd (cc)
      split (err _) h = cc

pub state_eq :
    {E S A : Type 0} {a b : A} {s t : S}
    → ◌≡◌ {A = Result E (A × S)} (ok (a, s)) (ok (b, t))
    → s ≡ t
state_eq e = cc

-- Inversion of a successful call, one step of a `do` block at a time: each rule hands what the
-- step has shown, and the rest of the block, to the proof that follows it.
module _ {S E A : Type 0} {a : A} {t : S} {P : Type 0} where
  pub after_ensure :
      (b : Bool) (e : E) (k : Action S E A) (s : S)
      → (ensure b e >> k) s ≡ ok (a, t)
      → (b ≡ true → k s ≡ ok (a, t) → P)
      → P
  after_ensure true e k s h next = next refl h
  after_ensure false e k s h next = absurd (cc)

  pub after_ok_or :
      {B : Type 0} (o : Option B) (e : E) (k : B → Action S E A) (s : S)
      → (ok_or o e >>= k) s ≡ ok (a, t)
      → ((b : B) → o ≡ some b → k b s ≡ ok (a, t) → P)
      → P
  after_ok_or none e k s h next = absurd (cc)
  after_ok_or (some b) e k s h next = next b refl h

  pub after_lift :
      {B : Type 0} (r : Result E B) (k : B → Action S E A) (s : S)
      → (lift r >>= k) s ≡ ok (a, t)
      → ((b : B) → r ≡ ok b → k b s ≡ ok (a, t) → P)
      → P
  after_lift (err e) k s h next = absurd (cc)
  after_lift (ok b) k s h next = next b refl h

  pub after_action :
      {B : Type 0} (m : Action S E B) (k : B → Action S E A) (s : S)
      → (m >>= k) s ≡ ok (a, t)
      → ((b : B) (u : S) → m s ≡ ok (b, u) → k b u ≡ ok (a, t) → P)
      → P
  after_action m k s h next = let (b, u, e, g) = >>=-eq-ok m k s h in next b u e g

-- A step that succeeds, with the rest of the block.
module _ {S E A : Type 0} where
  pub ensure-true :
      {b : Bool} (e : E) (k : Action S E A) (s : S) → b ≡ true → (ensure b e >> k) s ≡ k s
  ensure-true {b} e k s h = split b h
    where
      split : (b : Bool) → b ≡ true → (ensure b e >> k) s ≡ k s
      split true h = refl
      split false h = absurd (cc)

  pub ok_or-some :
      {B : Type 0} (o : Option B) {b : B} (e : E) (k : B → Action S E A) (s : S)
      → o ≡ some b
      → (ok_or o e >>= k) s ≡ k b s
  ok_or-some (some c) {b} e k s h = ap (λ b. k b s) value
    where
      value : c ≡ b
      value = cc
  ok_or-some none e k s h = absurd (cc)
