-- ===== src/Dex/Liquidity/Fairness.antt =====
-- The holders of shares lose nothing when liquidity is added or removed: each side of the pool,
-- per share, does not fall.
use native.Mathlib.Nat.{mul-le-mul, le_refl}
use native.Mathlib.Decide.{dec_le}
use mathlib.Core.Option.{some-injective}
use setheum.Common.{
  ℕ, suc, ◌+◌, ◌-◌, ◌*◌, ◌≤◌, ◌<◌, ◌≡◌, ◌≢◌, sym, ap, subst, ◌∙◌, Bool, ok, some, arith,
  saturating_add, saturating_sub, update_self, u128_max,
}
use setheum.Primitives.Currency.{CurrencyId, TradingPair, new_pair, get_dex_share_currency_id}
use setheum.Primitives.Order.{pair_eq}
use setheum.Primitives.Pairs.{from_token_currency_ids-eq_some}
use setheum.Runtime.Numbers.{IsRounded, accuracy}
use setheum.Dex.Types.{Balances, Config, Dex}
use setheum.Dex.Price.{in_order}
use setheum.Dex.Liquidity.{
  liquidity_increments, liquidity_decrements, do_add_liquidity, do_remove_liquidity,
}
use setheum.Dex.Liquidity.Shares.{
  IncrementsFit, liquidity_increments-fair, liquidity_decrements-fair,
}
use setheum.Dex.Liquidity.Effects.{do_add_liquidity-Added}
use setheum.Dex.Liquidity.Removal.{Removed, do_remove_liquidity-Removed}

-- Before, `total` shares stand for `pool`; after, `total'` shares for `pool'`. No share stands
-- for less of either side.
pub record PerShare (total : ℕ) (pool : Balances) (total' : ℕ) (pool' : Balances) : Type 0 where
  pub left_ge : pool.0 * total' ≤ pool'.0 * total
  pub right_ge : pool.1 * total' ≤ pool'.1 * total

grown_ge :
    (pool inc total sh : ℕ)
    → pool + inc ≤ u128_max
    → sh * pool ≤ inc * total
    → pool * (total + sh) ≤ saturating_add pool inc * total
grown_ge pool inc total sh fits h =
    let e : saturating_add pool inc ≡ pool + inc = omega arith in rw e (omega arith)

shrunk_exact :
    (dec r removed k : ℕ)
    → dec * (removed + k) ≤ removed * (dec + r)
    → (dec + r) * k ≤ r * (removed + k)
shrunk_exact dec r removed k h = omega arith

no_shares :
    (pool dec total removed : ℕ)
    → removed ≤ total
    → pool < dec
    → dec * total ≤ removed * pool
    → total ≡ 0
no_shares pool dec total removed le lt h =
    omega (arith, mul-le-mul {n₁ = suc pool} lt (le_refl total), mul-le-mul le (le_refl pool))

shrunk_ge :
    (pool dec total removed : ℕ)
    → removed ≤ total
    → dec * total ≤ removed * pool
    → pool * (total - removed) ≤ saturating_sub pool dec * total
shrunk_ge pool dec total removed le h = elim (dec_le dec pool) [
  | yes q ↦
      let split : dec + (pool - dec) ≡ pool = omega arith in
      let split' : removed + (total - removed) ≡ total = omega arith in
      subst (λ p. p * (total - removed) ≤ (pool - dec) * total) split
        (subst (λ n. (dec + (pool - dec)) * (total - removed) ≤ (pool - dec) * n) split'
          (shrunk_exact dec (pool - dec) removed (total - removed) (
            subst (λ p. dec * (removed + (total - removed)) ≤ removed * p) (sym split)
              (subst (λ n. dec * n ≤ removed * pool) (sym split') h))))
  | no q ↦
      let z : total - removed ≡ 0 =
        omega (arith, no_shares pool dec total removed le (omega arith) h) in
      rw z (omega arith)
]

module _ {O W : Type 0} (T : Config O W) (rounded : IsRounded T.fixed) where
  Removed-PerShare :
      (who : ℕ) (p : TradingPair) (lp' lp : CurrencyId) (removed : ℕ) (least : Balances)
      (withdrawn : Bool) (s t : Dex W)
      → Removed T who p lp' removed least withdrawn s t
      → get_dex_share_currency_id p ≡ some lp
      → removed ≤ T.total_issuance lp s.world
      → removed * accuracy ≤ u128_max
      → (s.liquidity_pool p).0 * accuracy ≤ u128_max
      → (s.liquidity_pool p).1 * accuracy ≤ u128_max
      → let total = T.total_issuance lp s.world in
        PerShare total (s.liquidity_pool p) (total - removed) (t.liquidity_pool p)
  Removed-PerShare who p lp' lp removed least withdrawn s t done lp_eq le fits fits₀ fits₁ =
      let pool = s.liquidity_pool p in
      let total = T.total_issuance lp s.world in
      let same : lp' ≡ lp = some-injective _ _ (sym done.share_currency ∙ lp_eq) in
      let dec = liquidity_decrements T.fixed total pool removed in
      let shrunk : Balances → Balances =
        λ d. (saturating_sub pool.0 d.0, saturating_sub pool.1 d.1) in
      let after : t.liquidity_pool p ≡ shrunk dec =
        ap (λ m. m p) done.pools
        ∙ update_self s.liquidity_pool p (shrunk done.dec)
        ∙ ap shrunk (
            done.priced
            ∙ ap (λ c. liquidity_decrements T.fixed (T.total_issuance c s.world) pool removed)
                same) in
      let (f₀, f₁) =
        liquidity_decrements-fair T.fixed rounded total pool removed le fits fits₀ fits₁ in
      rw after (record {
        left_ge = shrunk_ge pool.0 dec.0 total removed le f₀;
        right_ge = shrunk_ge pool.1 dec.1 total removed le f₁;
      })

  -- A successful addition to a pair that has shares takes nothing from the holders of its shares:
  -- neither side of the pool is lower per share, if the balances of the pool do not overflow and the
  -- products of the fixed-point numbers fit a u128.
  pub do_add_liquidity-PerShare :
      (who : ℕ) (a b : CurrencyId) (max_a max_b least : ℕ) (deposited : Bool) (s : Dex W)
      {u : Unit {0}} {t : Dex W}
      → do_add_liquidity T who a b max_a max_b least deposited s ≡ ok (u, t)
      → (lp : CurrencyId) → get_dex_share_currency_id (new_pair a b) ≡ some lp
      → T.total_issuance lp s.world ≢ 0
      → let total = T.total_issuance lp s.world in
        let pool = s.liquidity_pool (new_pair a b) in
        let inc =
          liquidity_increments T.fixed total pool (in_order a (new_pair a b) (max_a, max_b)) in
        IncrementsFit T.fixed total pool (in_order a (new_pair a b) (max_a, max_b))
        → pool.0 + inc.0 ≤ u128_max
        → pool.1 + inc.1 ≤ u128_max
        → PerShare total pool (total + inc.2) (t.liquidity_pool (new_pair a b))
  do_add_liquidity-PerShare who a b max_a max_b least deposited s {u} {t} e lp lp_eq ne fit fits₀
        fits₁ =
      let p = new_pair a b in
      let pool = s.liquidity_pool p in
      let total = T.total_issuance lp s.world in
      let largest = in_order a p (max_a, max_b) in
      let (lp', added) = do_add_liquidity-Added T who a b max_a max_b least deposited s e in
      let same : lp' ≡ lp = some-injective _ _ (sym added.share_currency ∙ lp_eq) in
      let q : added.inc ≡ liquidity_increments T.fixed total pool largest =
        added.priced
        ∙ ap (λ c. liquidity_increments T.fixed (T.total_issuance c s.world) pool largest) same in
      let (f₀, f₁) = liquidity_increments-fair T.fixed rounded total pool largest ne fit in
      let grown : ℕ × ℕ × ℕ → Balances =
        λ i. (saturating_add pool.0 i.0, saturating_add pool.1 i.1) in
      let after : t.liquidity_pool p ≡ grown (liquidity_increments T.fixed total pool largest) =
        ap (λ m. m p) added.pools ∙ update_self s.liquidity_pool p (grown added.inc) ∙ ap grown q in
      let inc = liquidity_increments T.fixed total pool largest in
      rw after (record {
        left_ge = grown_ge pool.0 inc.0 total inc.2 fits₀ f₀;
        right_ge = grown_ge pool.1 inc.1 total inc.2 fits₁ f₁;
      })

  -- A successful removal of a share that is not zero takes nothing from the holders of the other
  -- shares: neither side of the pool is lower per share, if no more shares are removed than there
  -- are, and the shares removed and both balances of the pool fit a fixed-point number.
  pub do_remove_liquidity-PerShare :
      (who : ℕ) (a b : CurrencyId) (removed min_a min_b : ℕ) (withdrawn : Bool) (s : Dex W)
      {u : Unit {0}} {t : Dex W}
      → removed ≢ 0
      → do_remove_liquidity T who a b removed min_a min_b withdrawn s ≡ ok (u, t)
      → (lp : CurrencyId) → get_dex_share_currency_id (new_pair a b) ≡ some lp
      → removed ≤ T.total_issuance lp s.world
      → removed * accuracy ≤ u128_max
      → (s.liquidity_pool (new_pair a b)).0 * accuracy ≤ u128_max
      → (s.liquidity_pool (new_pair a b)).1 * accuracy ≤ u128_max
      → let total = T.total_issuance lp s.world in
        PerShare total
          (s.liquidity_pool (new_pair a b))
          (total - removed)
          (t.liquidity_pool (new_pair a b))
  do_remove_liquidity-PerShare who a b removed min_a min_b withdrawn s {u} {t} ne e lp lp_eq le fits
        fits₀ fits₁ =
      let (p, lp', from, done) =
        do_remove_liquidity-Removed T who a b removed min_a min_b withdrawn s ne e in
      rw (← (from_token_currency_ids-eq_some a b from).2) (
        Removed-PerShare who p lp' lp removed (in_order a p (min_a, min_b)) withdrawn s t done
          (rw (← (from_token_currency_ids-eq_some a b from).2) at lp_eq) le fits
          (rw (← (from_token_currency_ids-eq_some a b from).2) at fits₀)
          (rw (← (from_token_currency_ids-eq_some a b from).2) at fits₁))
