-- ===== src/Chainbridge/Tests.antt =====
-- The bridge at concrete inputs: balances are the whole world, origin 0 registers, origin 7 is the
-- bridge, and this chain has the number 1.
use setheum.Common.{
  ℕ, ◌+◌, ◌-◌, ◌≤◌, ◌≡◌, refl, sym, Bool, true, false, none, some, List, [], ◌∷◌, Result, ok, err,
  arith, ◌==◌, ==_iff, leb, leb→le, Bool-cases, inl, inr, if◌then◌else◌,
}
use setheum.Primitives.Token.{TokenSymbol}
use setheum.Primitives.Currency.{CurrencyId, currency_beq}
use setheum.Primitives.Order.{currency_beq_iff}
use setheum.Chainbridge.Types.{Config, Chainbridge}
use setheum.Chainbridge.Pallet.{
  register_resource_id, do_transfer_to_bridge, transfer_to_bridge, transfer_from_bridge,
}
use setheum.Chainbridge.Registry.{BridgeCall, run, HasRegistry, run-HasRegistry}
use setheum.Chainbridge.Transfers.{
  amount_at, MovesBalances, transfer_from_bridge-transfer_to_bridge,
}

abbrev Balances : Type 0
Balances = CurrencyId → ℕ → ℕ

abbrev when_covered : Bool → Balances → Result ℕ Balances
when_covered true w = ok w
when_covered false w = err 0

abbrev less : CurrencyId → ℕ → ℕ → Balances → Balances
less c a n w d i = w d i - amount_at c a n d i

abbrev more : CurrencyId → ℕ → ℕ → Balances → Balances
more c a n w d i = w d i + amount_at c a n d i

abbrev config : Config ℕ Balances
config = record {
  ensure_signed = λ o. some o;
  registor_origin = λ o. o == 0;
  bridge_origin = λ o. if o == 7 then some 7 else none;
  native_currency_id = CurrencyId.token TokenSymbol.dnar;
  transfer = λ c from to n w. when_covered (leb n (w c from)) (more c to n (less c from n w));
  deposit = λ c to n w. ok (more c to n w);
  withdraw = λ c from n w. when_covered (leb n (w c from)) (less c from n w);
  chain_id = 1;
  account_id = 7;
  chain_whitelisted = λ chain _. chain == 2;
  transfer_fungible = λ _ _ _ _ w. ok w;
}

ok_eq : {w w' : Balances} → ◌≡◌ {A = Result ℕ Balances} (ok w) (ok w') → w ≡ w'
ok_eq e = cc

covered :
    (b : Bool) (w : Balances) {w' : Balances} → when_covered b w ≡ ok w' → (b ≡ true) × (w ≡ w')
covered true w e = (refl, ok_eq e)
covered false w e = absurd (cc)

within :
    (c : CurrencyId) (a n : ℕ) (w : Balances) (d : CurrencyId) (i : ℕ)
    → leb n (w c a) ≡ true
    → amount_at c a n d i ≤ w d i
within c a n w d i enough = elim (Bool-cases (currency_beq d c)) [
  | inl same ↦ elim (Bool-cases (i == a)) [
    | inl here ↦
        let le = leb→le n (w c a) enough in
        rw (same, here, (currency_beq_iff d c).0 same, (==_iff i a).0 here) le
    | inr other ↦ rw (same, other) (omega arith)
  ]
  | inr other ↦ rw other (omega arith)
]

config-MovesBalances : MovesBalances config (λ c a w. w c a)
config-MovesBalances = record {
  transferred = λ c from to n w w' e d i.
      let (enough, q) = covered (leb n (w c from)) (more c to n (less c from n w)) e in
      let value : w d i - amount_at c from n d i + amount_at c to n d i ≡ w' d i = λ k. q k d i in
      omega (arith, within c from n w d i enough, value);
  deposited = λ c to n w w' e d i. λ k. ok_eq (sym e) k d i;
  withdrawn = λ c from n w w' e d i.
      let (enough, q) = covered (leb n (w c from)) (less c from n w) e in
      let value : w d i - amount_at c from n d i ≡ w' d i = λ k. q k d i in
      omega (arith, within c from n w d i enough, value);
  sent = λ chain r n to w w' e d i. λ k. ok_eq (sym e) k d i;
}

abbrev dram_token : CurrencyId
dram_token = CurrencyId.token TokenSymbol.dram

-- Account 3 has 50 of the token.
abbrev start : Chainbridge Balances
start = record {
  resource_ids = λ _. none;
  currency_ids = λ _. none;
  events = [];
  world = λ d i. amount_at dram_token 3 50 d i;
}

-- A token of this chain is registered twice, and a foreign one for a resource that does not fit.
abbrev calls : List (BridgeCall ℕ)
calls =
    BridgeCall.registration 0 257 dram_token
    ∷ BridgeCall.registration 0 513 dram_token
    ∷ BridgeCall.registration 0 258 (CurrencyId.token TokenSymbol.sett)
    ∷ BridgeCall.to_bridge 3 dram_token 2 [] 20
    ∷ BridgeCall.from_bridge 7 3 20 257
    ∷ BridgeCall.removal 0 257
    ∷ BridgeCall.registration 0 258 (CurrencyId.chain_bridge 258)
    ∷ []

start-HasRegistry : HasRegistry config start
start-HasRegistry = record {
  inverse = record { forward = λ c r e. absurd (cc); backward = λ r c e. absurd (cc) };
  matching = λ r c e. absurd (cc);
}

run-HasRegistry_example : HasRegistry config (run config calls start)
run-HasRegistry_example = run-HasRegistry config calls start start-HasRegistry

-- After the first of the calls.
abbrev listed : Chainbridge Balances
listed = run config (BridgeCall.registration 0 257 dram_token ∷ []) start

-- Account 3 sends 20 to the other chain, and they come back.
abbrev away : Chainbridge Balances
away = record listed { world = more dram_token 7 20 (less dram_token 3 20 start.world) }

abbrev home : Chainbridge Balances
home = record away { world = more dram_token 3 20 (less dram_token 7 20 away.world) }

listed_lem : listed.resource_ids dram_token ≡ some 257
unfolding register_resource_id
listed_lem = refl

sent : transfer_to_bridge config 3 dram_token 2 [] 20 listed ≡ ok (tt, away)
unfolding register_resource_id transfer_to_bridge do_transfer_to_bridge
sent = refl

returned : transfer_from_bridge config 7 3 20 257 away ≡ ok (tt, home)
unfolding register_resource_id transfer_from_bridge
returned = refl

-- the account of the bridge holds them in between
locked : away.world dram_token 7 ≡ 20
locked = refl

transfer_from_bridge-transfer_to_bridge_example : home.world dram_token 3 ≡ 50
unfolding register_resource_id
transfer_from_bridge-transfer_to_bridge_example =
    transfer_from_bridge-transfer_to_bridge config config-MovesBalances 3 7 3 257 20 2 [] dram_token
      listed away home
      (run-HasRegistry config (BridgeCall.registration 0 257 dram_token ∷ []) start
        start-HasRegistry)
      refl refl listed_lem sent returned dram_token 3
