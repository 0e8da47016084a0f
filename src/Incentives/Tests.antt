-- ===== src/Incentives/Tests.antt =====
-- The incentives at concrete inputs, with a ledger and a rewards pallet that keep what they are
-- told.
use setheum.Common.{
  List, true, All, ◌↔◌, ℕ, ◌+◌, ◌≡◌, ◌≢◌, refl, ap, [], ◌∷◌, some, Result, ok, err, arith, min,
  u128_max, is_zero, update, update_self, update_ne,
}
use setheum.Primitives.Token.{TokenSymbol}
use setheum.Primitives.Currency.{CurrencyId, DexShare, is_dex_share_currency_id}
use setheum.Primitives.Order.{currency_eq}
use setheum.Incentives.{
  PoolId, Error, Config, Incentives, push_reward, accumulate_reward, do_deposit_dex_share,
  do_withdraw_dex_share, update_dex_incentive_rewards,
}
use setheum.Incentives.Rewards.{IsIssuance, accumulate_reward-issued}
use setheum.Incentives.Updates.{with_incentives, update_dex_incentive_rewards_iff}
use setheum.Incentives.Shares.{IsKeeping, do_withdraw_dex_share-deposited}

-- the issuance of each currency, and the shares in the two pools of each share currency
pub record World : Type 0 where
  pub issuance : CurrencyId → ℕ
  pub incentive_shares : CurrencyId → ℕ
  pub premium_shares : CurrencyId → ℕ

abbrev dirham : CurrencyId
dirham = CurrencyId.token TokenSymbol.dram

abbrev setter : CurrencyId
setter = CurrencyId.token TokenSymbol.sett

abbrev lp : CurrencyId
lp = CurrencyId.dex_share (DexShare.token TokenSymbol.dnar) (DexShare.token TokenSymbol.sett)

abbrev share : PoolId → ℕ → World → ℕ
share (PoolId.dex_incentive c) who w = w.incentive_shares c
share (PoolId.dex_premium c) who w = w.premium_shares c

abbrev add_share : ℕ → PoolId → ℕ → World → World
add_share who (PoolId.dex_incentive c) n w = record w {
  incentive_shares = update w.incentive_shares c (w.incentive_shares c + n);
}
add_share who (PoolId.dex_premium c) n w = record w {
  premium_shares = update w.premium_shares c (w.premium_shares c + n);
}

abbrev config : Config ℕ World
config = record {
  ensure_signed = λ o. some o;
  update_origin = λ o. is_zero o;
  dex_incentive_pool = 50;
  dex_premium_pool = 51;
  stable_currency_ids = CurrencyId.token TokenSymbol.usdj ∷ [];
  incentive_currency_id = dirham;
  premium_currency_id = setter;
  account_id = 99;
  transfer = λ _ _ _ _ w. ok w;
  deposit = λ c _ n w. ok (record w { issuance = update w.issuance c (w.issuance c + n) });
  pools = λ _. (PoolId.dex_incentive lp, 10) ∷ (PoolId.dex_premium lp, 10) ∷ [];
  share = share;
  add_share = add_share;
  remove_share = λ _ _ _ w. w;
  claim_rewards = λ _ _ w. w;
}

abbrev callback : PoolId → ℕ → World → World
callback p n w = w

abbrev incentives : Incentives World
incentives = record {
  dex_incentive_rewards = λ _. 7;
  dex_premium_rewards = λ _. 0;
  accumulate_period = 10;
  events = [];
  world = record { issuance = λ _. 100; incentive_shares = λ _. 10; premium_shares = λ _. 10 };
}

abbrev after : {A : Type 0} → Result Error (A × Incentives World) → Incentives World
after (ok (_, t)) = t
after (err _) = incentives

config-IsIssuance : IsIssuance config callback (λ c w. w.issuance c)
config-IsIssuance = record {
  deposit_own = λ c who n w {w'} e. issued_own c n w w' e;
  deposit_other = λ c d who n w {w'} ne e. issued_other c d n w w' ne e;
  callback_none = λ d p n w. refl;
}
  where
    issued_own :
        (c : CurrencyId) (n : ℕ) (w w' : World)
        → ◌≡◌ {A = Result ℕ World}
            (ok (record w { issuance = update w.issuance c (w.issuance c + n) }))
            (ok w')
        → w'.issuance c ≡ w.issuance c + n
    issued_own c n w w' e =
        let same : record w { issuance = update w.issuance c (w.issuance c + n) } ≡ w' = cc in
        rw (← same) (update_self w.issuance c (w.issuance c + n))

    issued_other :
        (c d : CurrencyId) (n : ℕ) (w w' : World)
        → d ≢ c
        → ◌≡◌ {A = Result ℕ World}
            (ok (record w { issuance = update w.issuance c (w.issuance c + n) }))
            (ok w')
        → w'.issuance d ≡ w.issuance d
    issued_other c d n w w' ne e =
        let same : record w { issuance = update w.issuance c (w.issuance c + n) } ≡ w' = cc in
        rw (← same) (update_ne w.issuance c d (w.issuance c + n) ne)

accumulate_reward-issued_example :
    (t : Incentives World) × (i p : ℕ) × (accumulate_reward config callback 30 incentives
      ≡ ok (
        push_reward config callback setter
            (min p u128_max)
            (push_reward config callback dirham (min i u128_max) []),
        t,
      ))
    × (t.world.issuance dirham ≡ 100 + i)
    × (t.world.issuance setter ≡ 100 + p)
    × (t ≡ record incentives { world = t.world })
accumulate_reward-issued_example =
    accumulate_reward-issued config callback (λ c w. w.issuance c) config-IsIssuance (λ e. cc) 30
      incentives (omega arith) refl

-- The second update of a currency counts.
abbrev updates : List (CurrencyId × ℕ)
updates = (lp, 5) ∷ (lp, 7) ∷ []

updates_test : (with_incentives config updates incentives).dex_incentive_rewards lp ≡ 7
updates_test = refl

update_dex_incentive_rewards_iff_example :
    (update_dex_incentive_rewards config 0 updates incentives
      ≡ ok (tt, with_incentives config updates incentives))
    ↔ ((config.update_origin 0 ≡ true)
        × All (λ (c, _). is_dex_share_currency_id c ≡ true) updates
        × (with_incentives config updates incentives ≡ with_incentives config updates incentives))
update_dex_incentive_rewards_iff_example =
    update_dex_incentive_rewards_iff config 0 updates incentives
      (with_incentives config updates incentives)

abbrev listing : Config ℕ World
listing = record config { stable_currency_ids = lp ∷ [] }

config-IsKeeping : IsKeeping config
config-IsKeeping = record { add_own = own; add_other = other }
  where
    own :
        (who : ℕ) (p : PoolId) (n : ℕ) (w : World)
        → share p who (add_share who p n w) ≡ share p who w + n
    own who (PoolId.dex_incentive c) n w =
        update_self w.incentive_shares c (w.incentive_shares c + n)
    own who (PoolId.dex_premium c) n w = update_self w.premium_shares c (w.premium_shares c + n)

    other :
        (who : ℕ) (p q : PoolId) (n : ℕ) (w : World)
        → q ≢ p
        → share q who (add_share who p n w) ≡ share q who w
    other who (PoolId.dex_incentive c) (PoolId.dex_incentive d) n w ne =
        update_ne w.incentive_shares c d (w.incentive_shares c + n)
          (λ e. ne (ap (λ c. PoolId.dex_incentive c) e))
    other who (PoolId.dex_incentive c) (PoolId.dex_premium d) n w ne = refl
    other who (PoolId.dex_premium c) (PoolId.dex_incentive d) n w ne = refl
    other who (PoolId.dex_premium c) (PoolId.dex_premium d) n w ne =
        update_ne w.premium_shares c d (w.premium_shares c + n)
          (λ e. ne (ap (λ c. PoolId.dex_premium c) e))

abbrev deposited : Incentives World
deposited = after (do_deposit_dex_share config 7 lp 5 incentives)

do_withdraw_dex_share-deposited_example :
    (v : Incentives World) × (do_withdraw_dex_share config 7 lp 5 deposited ≡ ok (tt, v))
unfolding do_deposit_dex_share
do_withdraw_dex_share-deposited_example =
    do_withdraw_dex_share-deposited config 7 lp 5 incentives config-IsKeeping refl refl
