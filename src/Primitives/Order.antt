-- ===== src/Primitives/Order.antt =====
-- The derived equality and order of currencies: the test decides the paths, and the order is
-- total and antisymmetric, so that a pair does not depend on the order of its currencies.
use setheum.Common.{
  ℕ, ◌≡◌, refl, sym, ap, ◌∙◌, ◌↔◌, ◌⊎◌, inl, inr, Bool, true, false, ◌&&◌, arith, ltb, ◌==◌, ==_iff,
  ==_refl, Eq,
}
use setheum.Primitives.Token.{TokenSymbol, into_u8, into_u8-injective}
use setheum.Primitives.Currency.{
  DexShare, CurrencyId, TradingPair, share_beq, share_gtb, currency_beq, currency_gtb, pair_beq,
}

-- Numbers behind an injection: both tests, and what they say when neither holds.
and_elim : (a b : Bool) → (a && b) ≡ true → (a ≡ true) × (b ≡ true)
and_elim true b e = (refl, e)
and_elim false b e = cc

==_true : (a b : ℕ) → (a == b) ≡ true → a ≡ b
==_true a b = (==_iff a b).0

token_eq : (s t : TokenSymbol) → (into_u8 s == into_u8 t) ≡ true → s ≡ t
token_eq s t e = into_u8-injective s t (==_true (into_u8 s) (into_u8 t) e)

share_beq_refl : (a : DexShare) → share_beq a a ≡ true
share_beq_refl (DexShare.token s) = ==_refl (into_u8 s)
share_beq_refl (DexShare.erc20 a) = ==_refl a

share_beq-true : (a b : DexShare) → share_beq a b ≡ true → a ≡ b
share_beq-true (DexShare.token s) (DexShare.token t) e = ap DexShare.token (token_eq s t e)
share_beq-true (DexShare.token s) (DexShare.erc20 b) e = cc
share_beq-true (DexShare.erc20 a) (DexShare.token t) e = cc
share_beq-true (DexShare.erc20 a) (DexShare.erc20 b) e = ap DexShare.erc20 (==_true a b e)

currency_beq_refl : (c : CurrencyId) → currency_beq c c ≡ true
currency_beq_refl (CurrencyId.token s) = ==_refl (into_u8 s)
currency_beq_refl (CurrencyId.dex_share a b) = rw (share_beq_refl a, share_beq_refl b)
currency_beq_refl (CurrencyId.erc20 a) = ==_refl a
currency_beq_refl (CurrencyId.chain_bridge a) = ==_refl a

currency_beq-true : (c d : CurrencyId) → currency_beq c d ≡ true → c ≡ d
currency_beq-true (CurrencyId.token s) (CurrencyId.token t) e = ap CurrencyId.token (token_eq s t e)
currency_beq-true (CurrencyId.dex_share a b) (CurrencyId.dex_share c d) e =
    let (p, q) = and_elim (share_beq a c) (share_beq b d) e in
    cc (share_beq-true a c p, share_beq-true b d q)
currency_beq-true (CurrencyId.erc20 a) (CurrencyId.erc20 b) e = ap CurrencyId.erc20 (==_true a b e)
currency_beq-true (CurrencyId.chain_bridge a) (CurrencyId.chain_bridge b) e =
    ap CurrencyId.chain_bridge (==_true a b e)
currency_beq-true _ _ e = cc

pub currency_beq_iff : (c d : CurrencyId) → (currency_beq c d ≡ true) ↔ (c ≡ d)
currency_beq_iff c d = (currency_beq-true c d, λ e. rw e (currency_beq_refl d))

pub pair_beq_iff : (p q : TradingPair) → (pair_beq p q ≡ true) ↔ (p ≡ q)
pair_beq_iff p q = (
  λ e.
      let (l, r) = and_elim (currency_beq p.left q.left) (currency_beq p.right q.right) e in
      λ i. record {
        left = currency_beq-true p.left q.left l i;
        right = currency_beq-true p.right q.right r i;
      },
  λ e. rw e (rw (currency_beq_refl q.left, currency_beq_refl q.right)),
)

instance abbrev pub currency_eq : Eq CurrencyId
currency_eq = record { beq = currency_beq; beq_iff = currency_beq_iff }

instance abbrev pub pair_eq : Eq TradingPair
pair_eq = record { beq = pair_beq; beq_iff = pair_beq_iff }

-- The order of two numbers, as the two tests see it.
abbrev Trichotomy {ℓ} : {A : Type ℓ} → (A → A → Bool) → A → A → Type ℓ
Trichotomy gtb a b =
    ((gtb a b ≡ true) × (gtb b a ≡ false)) ⊎ ((gtb a b ≡ false) × (gtb b a ≡ true)) ⊎ (a ≡ b)

number-Trichotomy : (a b : ℕ) → Trichotomy (λ x y. ltb y x) a b
number-Trichotomy a b = ground arith

map_eq {ℓ κ} :
    {A : Type ℓ} {B : Type κ} (g : A → A → Bool) (h : B → B → Bool) (x y : A) (x' y' : B)
    → g x y ≡ h x' y'
    → g y x ≡ h y' x'
    → (x ≡ y → x' ≡ y')
    → Trichotomy g x y
    → Trichotomy h x' y'
map_eq g h x y x' y' p q f (inl (a, b)) = inl (sym p ∙ a, sym q ∙ b)
map_eq g h x y x' y' p q f (inr (inl (a, b))) = inr (inl (sym p ∙ a, sym q ∙ b))
map_eq g h x y x' y' p q f (inr (inr e)) = inr (inr (f e))

token-Trichotomy : (s t : TokenSymbol) → Trichotomy (λ x y. ltb (into_u8 y) (into_u8 x)) s t
token-Trichotomy s t =
    map_eq (λ x y. ltb y x) (λ x y. ltb (into_u8 y) (into_u8 x)) (into_u8 s) (into_u8 t) s t refl
      refl (into_u8-injective s t) (number-Trichotomy (into_u8 s) (into_u8 t))

share-Trichotomy : (a b : DexShare) → Trichotomy share_gtb a b
share-Trichotomy (DexShare.token s) (DexShare.token t) =
    map_eq (λ x y. ltb (into_u8 y) (into_u8 x)) share_gtb s t (DexShare.token s) (DexShare.token t)
      refl refl (ap DexShare.token) (token-Trichotomy s t)
share-Trichotomy (DexShare.token s) (DexShare.erc20 b) = inr (inl (refl, refl))
share-Trichotomy (DexShare.erc20 a) (DexShare.token t) = inl (refl, refl)
share-Trichotomy (DexShare.erc20 a) (DexShare.erc20 b) =
    map_eq (λ x y. ltb y x) share_gtb a b (DexShare.erc20 a) (DexShare.erc20 b) refl refl
      (ap DexShare.erc20) (number-Trichotomy a b)

-- A strictly ordered pair is not equal by the test.
share_gtb_ne : (a b : DexShare) → share_gtb a b ≡ true → share_beq a b ≡ false
share_gtb_ne (DexShare.token s) (DexShare.token t) e = number_ne (into_u8 s) (into_u8 t) e
  where
    number_ne : (m n : ℕ) → ltb n m ≡ true → (m == n) ≡ false
    number_ne m n h = ground arith
share_gtb_ne (DexShare.token s) (DexShare.erc20 b) e = refl
share_gtb_ne (DexShare.erc20 a) (DexShare.token t) e = refl
share_gtb_ne (DexShare.erc20 a) (DexShare.erc20 b) e = ground arith

share_beq_sym : (a b : DexShare) → share_beq a b ≡ false → share_beq b a ≡ false
share_beq_sym (DexShare.token s) (DexShare.token t) e = number_sym (into_u8 s) (into_u8 t) e
  where
    number_sym : (m n : ℕ) → (m == n) ≡ false → (n == m) ≡ false
    number_sym m n h = ground arith
share_beq_sym (DexShare.token s) (DexShare.erc20 b) e = refl
share_beq_sym (DexShare.erc20 a) (DexShare.token t) e = refl
share_beq_sym (DexShare.erc20 a) (DexShare.erc20 b) e = ground arith

number_irreflexive : (m : ℕ) → ltb m m ≡ false
number_irreflexive m = ground arith

irreflexive : (x : DexShare) → share_gtb x x ≡ false
irreflexive (DexShare.token s) = number_irreflexive (into_u8 s)
irreflexive (DexShare.erc20 x) = number_irreflexive x

dex_share-Trichotomy :
    (a b c d : DexShare)
    → Trichotomy share_gtb a c
    → Trichotomy share_gtb b d
    → Trichotomy currency_gtb (CurrencyId.dex_share a b) (CurrencyId.dex_share c d)
dex_share-Trichotomy a b c d (inl (p, q)) _ =
    inl (rw p, rw (q, share_beq_sym a c (share_gtb_ne a c p)))
dex_share-Trichotomy a b c d (inr (inl (p, q))) _ =
    inr (inl (rw (p, share_beq_sym c a (share_gtb_ne c a q)), rw q))
dex_share-Trichotomy a b c d (inr (inr e)) (inl (p, q)) =
    rw e (inl (rw (irreflexive c, share_beq_refl c, p), rw (irreflexive c, share_beq_refl c, q)))
dex_share-Trichotomy a b c d (inr (inr e)) (inr (inl (p, q))) =
    rw e
      (inr (inl (rw (irreflexive c, share_beq_refl c, p), rw (irreflexive c, share_beq_refl c, q))))
dex_share-Trichotomy a b c d (inr (inr e)) (inr (inr f)) = inr (inr (cc))

pub currency-Trichotomy : (c d : CurrencyId) → Trichotomy currency_gtb c d
currency-Trichotomy (CurrencyId.token s) (CurrencyId.token t) =
    map_eq (λ x y. ltb (into_u8 y) (into_u8 x)) currency_gtb s t (CurrencyId.token s)
      (CurrencyId.token t) refl refl (ap CurrencyId.token) (token-Trichotomy s t)
currency-Trichotomy (CurrencyId.dex_share a b) (CurrencyId.dex_share c d) =
    dex_share-Trichotomy a b c d (share-Trichotomy a c) (share-Trichotomy b d)
currency-Trichotomy (CurrencyId.erc20 a) (CurrencyId.erc20 b) =
    map_eq (λ x y. ltb y x) currency_gtb a b (CurrencyId.erc20 a) (CurrencyId.erc20 b) refl refl
      (ap CurrencyId.erc20) (number-Trichotomy a b)
currency-Trichotomy (CurrencyId.chain_bridge a) (CurrencyId.chain_bridge b) =
    map_eq (λ x y. ltb y x) currency_gtb a b (CurrencyId.chain_bridge a) (CurrencyId.chain_bridge b)
      refl refl (ap CurrencyId.chain_bridge) (number-Trichotomy a b)
currency-Trichotomy (CurrencyId.token _) (CurrencyId.dex_share _ _) = inr (inl (refl, refl))
currency-Trichotomy (CurrencyId.token _) (CurrencyId.erc20 _) = inr (inl (refl, refl))
currency-Trichotomy (CurrencyId.token _) (CurrencyId.chain_bridge _) = inr (inl (refl, refl))
currency-Trichotomy (CurrencyId.dex_share _ _) (CurrencyId.token _) = inl (refl, refl)
currency-Trichotomy (CurrencyId.dex_share _ _) (CurrencyId.erc20 _) = inr (inl (refl, refl))
currency-Trichotomy (CurrencyId.dex_share _ _) (CurrencyId.chain_bridge _) = inr (inl (refl, refl))
currency-Trichotomy (CurrencyId.erc20 _) (CurrencyId.token _) = inl (refl, refl)
currency-Trichotomy (CurrencyId.erc20 _) (CurrencyId.dex_share _ _) = inl (refl, refl)
currency-Trichotomy (CurrencyId.erc20 _) (CurrencyId.chain_bridge _) = inr (inl (refl, refl))
currency-Trichotomy (CurrencyId.chain_bridge _) (CurrencyId.token _) = inl (refl, refl)
currency-Trichotomy (CurrencyId.chain_bridge _) (CurrencyId.dex_share _ _) = inl (refl, refl)
currency-Trichotomy (CurrencyId.chain_bridge _) (CurrencyId.erc20 _) = inl (refl, refl)
