-- ===== src/Dex/Tests/Refunds.antt =====
-- The refunds of a disabled pair, in a runtime that is a ledger.
use setheum.Dex.Calls.{disable_trading_pair}
use setheum.Common.{
  ℕ, ◌+◌, ◌-◌, ◌≡◌, ◌≢◌, refl, inl, false, none, some, [], ◌∷◌, Result, ok, err, arith,
  if◌then◌else◌, leb, is_zero, ◌==◌, ==_refl, inr, Bool-cases,
}
use setheum.Primitives.Currency.{CurrencyId, new_pair, from_token_currency_ids, currency_beq}
use setheum.Runtime.Numbers.{rounded, wide}
use setheum.Dex.Types.{TradingPairStatus, Error, Config, Dex}
use setheum.Primitives.Order.{currency_beq_iff}
use setheum.Dex.Calls.{disable_trading_pair}
use setheum.Dex.Calls.Refunds.{IsLedger, disable_trading_pair-contributed}
use setheum.Dex.Tests.{dinar, setter, pair, parameters}

-- What each account has of each currency.
abbrev Ledger : Type 0
Ledger = CurrencyId → ℕ → ℕ

abbrev moved : CurrencyId → ℕ → ℕ → ℕ → Ledger → Ledger
moved c from to n w d k =
    if currency_beq d c
    then (if k == to then w d k + n else (if k == from then w d k - n else w d k))
    else w d k

abbrev ledger_transfer : CurrencyId → ℕ → ℕ → ℕ → Ledger → Result ℕ Ledger
ledger_transfer c from to n w = if leb n (w c from) then ok (moved c from to n w) else err 1

abbrev ledger : Config ℕ Ledger
ledger = record {
  fixed = rounded;
  u256 = wide;
  ensure_signed = λ o. some o;
  listing_origin = λ o. is_zero o;
  trading_path_limit = 3;
  account_id = 99;
  transfer = ledger_transfer;
  deposit = λ _ _ _ w. ok w;
  withdraw = λ _ _ _ w. ok w;
  total_issuance = λ _ _. 0;
  do_deposit_dex_share = λ _ _ _ w. ok w;
  do_withdraw_dex_share = λ _ _ _ w. ok w;
  set_erc20_mapping = λ _ w. ok w;
  encode_evm_address = λ _ _. none;
  block_number = λ _. 20;
  inc_consumers = λ _ w. ok w;
  dec_consumers = λ _ w. w;
}

ledger_transfer-moved :
    (c : CurrencyId) (from to n : ℕ) (w : Ledger) {w' : Ledger}
    → ledger_transfer c from to n w ≡ ok w'
    → moved c from to n w ≡ w'
ledger_transfer-moved c from to n w {w'} e = elim (Bool-cases (leb n (w c from))) [
  | inl b ↦ done (rw b at e)
  | inr b ↦ failed (rw b at e)
]
  where
    done : ◌≡◌ {A = Result ℕ Ledger} (ok (moved c from to n w)) (ok w') → moved c from to n w ≡ w'
    done h = cc

    failed : ◌≡◌ {A = Result ℕ Ledger} (err 1) (ok w') → moved c from to n w ≡ w'
    failed h = absurd (cc)

key_apart : (j k : ℕ) → j ≢ k → (j == k) ≡ false
key_apart j k ne = ground arith

currency_apart : (d c : CurrencyId) → d ≢ c → currency_beq d c ≡ false
currency_apart d c ne = elim (Bool-cases (currency_beq d c)) [
  | inl b ↦ absurd (ne ((currency_beq_iff d c).0 b))
  | inr b ↦ b
]

ledger-IsLedger : IsLedger ledger (λ c k w. w c k)
ledger-IsLedger = record {
  received = λ c from to n w e ne.
      rw (← ledger_transfer-moved c from to n w e, (currency_beq_iff c c).1 refl, ==_refl to) refl;
  other_account = λ c from to n k w e nf nt.
      rw
        (
          ← ledger_transfer-moved c from to n w e,
          (currency_beq_iff c c).1 refl,
          key_apart k to nt,
          key_apart k from nf,
        )
        refl;
  other_currency = λ c d from to n k w e ne.
      rw (← ledger_transfer-moved c from to n w e, currency_apart d c ne) refl;
  counted = λ c k who w. refl;
}

abbrev open_pair : Dex Ledger
open_pair = record {
  liquidity_pool = λ _. (0, 0);
  trading_pair_statuses = λ _. TradingPairStatus.provisioning parameters;
  provisioning_pool = λ _. (7, (8, 5)) ∷ (3, (4, 0)) ∷ [];
  get_exchange_fee = (3, 1000);
  events = [];
  world = λ _ k. if k == 99 then 50 else 1;
}

abbrev refunded : Dex Ledger
refunded = by_result (disable_trading_pair ledger 0 setter dinar open_pair)
  where
    by_result : Result Error (Unit {0} × Dex Ledger) → Dex Ledger
    by_result (ok (_, t)) = t
    by_result (err _) = open_pair

disable_trading_pair-contributed_example :
    (refunded.world dinar 7 ≡ 1 + 8) × (refunded.world setter 7 ≡ 1 + 5)
unfolding from_token_currency_ids new_pair disable_trading_pair
disable_trading_pair-contributed_example =
    disable_trading_pair-contributed ledger (λ c k w. w c k) ledger-IsLedger pair (λ e. cc) 7
      (omega arith) 0 setter dinar parameters open_pair refl refl refl
