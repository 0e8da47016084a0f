-- ===== src/Currencies/Tests.antt =====
-- The currencies at concrete inputs: one contract, whose balances are the whole world, an account
-- whose address is its number, and a hash that adds 1000.
use setheum.Common.{
  ℕ, ◌+◌, ◌-◌, ◌*◌, ◌%◌, ◌^◌, ◌≤◌, ◌≡◌, refl, sym, ap, Bool, true, false, none, some, [], Result,
  ok, err, arith, ◌==◌, ==_refl, leb, other_key, if◌then◌else◌,
}
use setheum.Primitives.Token.{TokenSymbol}
use setheum.Primitives.Currency.{CurrencyId}
use setheum.Currencies.Types.{Error, BalanceStatus, Basic, Config, Currencies}
use setheum.Currencies.Pallet.{contract_balance, free_balance}
use setheum.Currencies.Reserves.{reserved_balance, reserve, unreserve, repatriate_reserved}
use setheum.Currencies.Reserves.Contracts.{IsErc20, in_reserve}
use setheum.Currencies.Reserves.RoundTrip.{unreserve-reserve}
use setheum.Currencies.Reserves.Repatriation.{Repatriated, repatriate_reserved-Repatriated}

abbrev idle : Basic (ℕ → ℕ)
idle = record {
  minimum_balance = λ _. 0;
  total_issuance = λ _. 0;
  total_balance = λ _ _. 0;
  free_balance = λ _ _. 0;
  ensure_can_withdraw = λ _ _ _. ok tt;
  transfer = λ _ _ _ w. ok w;
  deposit = λ _ _ w. ok w;
  withdraw = λ _ _ w. ok w;
  can_slash = λ _ _ _. true;
  slash = λ _ _ w. (0, w);
  update_balance = λ _ _ w. ok w;
  set_lock = λ _ _ _ w. ok w;
  extend_lock = λ _ _ _ w. ok w;
  remove_lock = λ _ _ w. ok w;
  can_reserve = λ _ _ _. true;
  slash_reserved = λ _ _ w. (0, w);
  reserved_balance = λ _ _. 0;
  reserve = λ _ _ w. ok w;
  unreserve = λ _ _ w. (0, w);
  repatriate_reserved = λ _ _ _ _ w. ok (0, w);
}

-- the balances after a transfer
abbrev paid : ℕ → ℕ → ℕ → (ℕ → ℕ) → ℕ → ℕ
paid from to x w j =
    if j == to then (if j == from then w j else w j + x) else (if j == from then w j - x else w j)

abbrev pay : ℕ → ℕ → ℕ → (ℕ → ℕ) → Result Error (ℕ → ℕ)
pay from to x w = if leb x (w from) then ok (paid from to x w) else err Error.balance_too_low

abbrev config : Config ℕ (ℕ → ℕ)
config = record {
  ensure_signed = λ o. some o;
  is_root = λ _. false;
  lookup_account = λ a. ok a;
  native = idle;
  multi = λ _. idle;
  transfer_all_tokens = λ _ _ w. ok w;
  native_currency_id = CurrencyId.token TokenSymbol.dnar;
  get_evm_address = λ who _. some who;
  get_or_create_evm_address = λ who w. (who, w);
  get_origin = λ _. none;
  total_supply = λ _ _. ok 0;
  balance_of = λ _ a w. ok (w a);
  bridge_transfer = λ c to x w. pay c.sender to x w;
  blake2_256 = λ n. (n % 2 ^ 160 + 1000) * 2 ^ 96;
}

pay-eq_ok :
    (from to x : ℕ) (w : ℕ → ℕ) {w' : ℕ → ℕ}
    → pay from to x w ≡ ok w'
    → (x ≤ w from) × (paid from to x w ≡ w')
pay-eq_ok from to x w {w'} e = split (leb x (w from)) refl e
  where
    split :
        (b : Bool)
        → leb x (w from) ≡ b
        → ◌≡◌ {A = Result Error (ℕ → ℕ)}
            (if b then ok (paid from to x w) else err Error.balance_too_low)
            (ok w')
        → (x ≤ w from) × (paid from to x w ≡ w')
    split true p h = (ground arith, cc)
    split false p h = absurd (cc)

paid_ok : (from to x : ℕ) (w : ℕ → ℕ) → x ≤ w from → pay from to x w ≡ ok (paid from to x w)
paid_ok from to x w le = let fits : leb x (w from) ≡ true = ground arith in rw fits refl

config-IsErc20 : IsErc20 config 5
config-IsErc20 = record {
  sent = λ from _ to x w {w'} ne e.
      let (le, q) = pay-eq_ok from to x w e in
      let at : paid from to x w from ≡ w' from = ap (λ w. w from) q in
      let here : paid from to x w from ≡ w from - x =
        rw (other_key to from (λ r. ne (sym r)), ==_refl from) refl in
      omega arith;
  received = λ from _ to x w {w'} ne e.
      let (_, q) = pay-eq_ok from to x w e in
      let at : paid from to x w to ≡ w' to = ap (λ w. w to) q in
      let there : paid from to x w to ≡ w to + x = rw (==_refl to, other_key from to ne) refl in
      omega arith;
  others = λ from _ to x w {w'} a nf nt e.
      let (_, q) = pay-eq_ok from to x w e in
      let at : paid from to x w a ≡ w' a = ap (λ w. w a) q in
      let other : paid from to x w a ≡ w a =
        rw (other_key to a (λ r. nt (sym r)), other_key from a (λ r. nf (sym r))) refl in
      omega arith;
  mapped = λ _ _ _ _ _ _ _. refl;
  made = λ who w {a} e. cc;
  made_kept = λ _ _ _ _ e. e;
  made_balance = λ who w {a} {w'} b e. let q : w ≡ w' = cc in ap (λ w. w b) (sym q);
}

-- Account 3 has 50.
abbrev start : Currencies (ℕ → ℕ)
start = record { events = []; world = λ j. if j == 3 then 50 else 0 }

abbrev after : Result Error (Currencies (ℕ → ℕ)) → Currencies (ℕ → ℕ)
after (ok t) = t
after (err _) = start

abbrev after_number : Result Error (ℕ × Currencies (ℕ → ℕ)) → ℕ × Currencies (ℕ → ℕ)
after_number (ok r) = r
after_number (err _) = (0, start)

abbrev contract : CurrencyId
contract = CurrencyId.erc20 5

abbrev held : Currencies (ℕ → ℕ)
held = after (reserve config contract 3 20 start)

held_test :
    (free_balance config contract 3 held.world ≡ 30)
    × (reserved_balance config contract 3 held.world ≡ 20)
unfolding reserve free_balance reserved_balance
held_test = (refl, refl)

abbrev given : ℕ × Currencies (ℕ → ℕ)
given = unreserve config contract 3 25 held

given_test : given.0 ≡ 5
unfolding reserve unreserve
given_test = refl

abbrev undone : ℕ × Currencies (ℕ → ℕ)
undone = unreserve config contract 3 20 held

unreserve-reserve_example :
    (undone.0 ≡ 0)
    × ((b : ℕ)
        → contract_balance config 5 b undone.1.world ≡ contract_balance config 5 b start.world)
    × ((j : ℕ) → config.get_evm_address j undone.1.world ≡ config.get_evm_address j start.world)
    × (undone.1.events ≡ [])
unfolding reserve
unreserve-reserve_example =
    unreserve-reserve config 5 config-IsErc20 3 3 20 start refl (omega arith) refl refl

abbrev sent_on : ℕ × Currencies (ℕ → ℕ)
sent_on = after_number (repatriate_reserved config contract 3 4 30 BalanceStatus.free held)

repatriate_reserved-Repatriated_example :
    Repatriated config 5 3 3 4 30 (in_reserve config 5 3 30 held.world) sent_on.0 held sent_on.1
unfolding repatriate_reserved reserve
repatriate_reserved-Repatriated_example =
    repatriate_reserved-Repatriated config 5 config-IsErc20 3 3 4 4 30 BalanceStatus.free held refl
      refl (omega arith) (omega arith) refl
