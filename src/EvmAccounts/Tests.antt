-- ===== src/EvmAccounts/Tests.antt =====
-- The pallet at concrete inputs: accounts below 100, a hash that keeps the account, and signatures
-- that name the address whose key has made them.
use setheum.Common.{
  ℕ, suc, ◌+◌, ◌*◌, ◌%◌, ◌^◌, ◌<◌, ◌≡◌, refl, true, Option, none, some, List, [], ◌∷◌, ok, arith,
  All, ◌⊎◌, update, nat_eq,
}
use setheum.EvmAccounts.Types.{Event, Config, EvmAccounts}
use setheum.EvmAccounts.Message.{
  ethereum_signable_message, spelled, IsDigit, rev_digits, rev_digits-spelled, to_ascii_hex,
}
use setheum.EvmAccounts.Mapping.{
  be_bytes, link, underlying_address, get_account_id, get_evm_address,
  account_to_default_evm_address, get_or_create_evm_address, is_linked, eth_recover, claim_account,
  claim_default_account, on_killed_account,
}
use setheum.EvmAccounts.Links.Claims.{claim_account-maps}
use setheum.EvmAccounts.Links.Histories.{
  EvmCall, run, AreLinked, IsProper, NoCollision, run-AreLinked,
}
use setheum.EvmAccounts.Links.Lookups.{
  get_evm_address-get_account_id, get_or_create_evm_address-get,
}

abbrev hash : List ℕ → ℕ
hash (key ∷ []) = key
hash _ = 7

abbrev config : Config (Option ℕ) ℕ ℕ
config = record {
  ensure_signed = λ o. o;
  secp256k1_ecdsa_recover = λ g _. some (g ∷ []);
  keccak_256 = hash;
  blake2_256 = λ n. (n % 2 ^ 64 + 2 ^ 70) * 2 ^ 96;
  account_exists = λ _ _. true;
  transfer_all = λ _ _ w. ok (suc w);
  on_claim = λ _ w. ok w;
}

abbrev Live : ℕ → Type 0
Live i = i < 100

abbrev start : EvmAccounts ℕ
start = record { accounts = λ _. none; evm_addresses = λ _. none; events = []; world = 0 }

default_of : (i : ℕ) → Live i → account_to_default_evm_address config i ≡ i + 2 ^ 70
default_of i le = omega arith

config-NoCollision : NoCollision config Live
config-NoCollision i j le le' e = omega arith

-- Account 3 claims address 42, others get their default addresses, account 3 ends, account 7 claims
-- its address and account 8 cannot.
abbrev calls : List (EvmCall (Option ℕ) ℕ)
calls =
    EvmCall.claim (some 3) 42 42
    ∷ EvmCall.create 5
    ∷ EvmCall.claim_default (some 6)
    ∷ EvmCall.killed 3
    ∷ EvmCall.claim (some 7) 42 42
    ∷ EvmCall.claim (some 8) 42 42
    ∷ []

some_eq : {x y : ℕ} → some x ≡ some y → x ≡ y
some_eq e = cc

below : (k : ℕ) → Live k → (j : ℕ) → some k ≡ some j → Live j
below k lt j e = let q : k ≡ j = some_eq e in omega arith

other_address : {A : Type 0} (j : ℕ) → Live j → account_to_default_evm_address config j ≡ 42 → A
other_address j lt e = absurd (omega arith)

calls-IsProper : All (IsProper config Live) calls
calls-IsProper = (
  λ j lt e. other_address j lt e,
  (
    omega arith,
    (
      below 6 (omega arith),
      (omega arith, (λ j lt e. other_address j lt e, (λ j lt e. other_address j lt e, tt))),
    ),
  ),
)

start-AreLinked : AreLinked config Live start
start-AreLinked = record {
  forward = λ a who e. absurd cc;
  backward = λ who a e. absurd cc;
  owned = λ who v lt e. absurd cc;
}

run-AreLinked_example : AreLinked config Live (run config calls start)
run-AreLinked_example =
    run-AreLinked config Live config-NoCollision calls start start-AreLinked calls-IsProper

after_run : (run config calls start).accounts 42 ≡ some 7
unfolding claim_account eth_recover claim_default_account on_killed_account get_account_id
    get_or_create_evm_address get_evm_address ethereum_signable_message
after_run = refl

rev_digits-spelled_example :
    (spelled (rev_digits 100 76) ≡ 76)
    × All IsDigit (rev_digits 100 76)
    × (rev_digits 100 76 ≡ rev_digits 76 76)
rev_digits-spelled_example = rev_digits-spelled 100 76 (omega arith)

-- 5 has got its default address
abbrev after_create : ℕ × EvmAccounts ℕ
after_create = (5 + 2 ^ 70, link 5 (5 + 2 ^ 70) start)

created : get_or_create_evm_address config 5 start ≡ after_create
unfolding get_or_create_evm_address get_evm_address
created = refl

get_or_create_evm_address-get_example :
    (get_evm_address 5 after_create.1 ≡ some after_create.0)
    × (is_linked config 5 after_create.0 after_create.1 ≡ true)
    × (get_or_create_evm_address config 5 after_create.1 ≡ after_create)
    × (((after_create.1.evm_addresses 5 ≡ some after_create.0)
          × (get_account_id after_create.0 after_create.1 ≡ 5))
        ⊎ ((after_create.1 ≡ start)
            × (start.evm_addresses 5 ≡ none)
            × (underlying_address 5 ≡ some after_create.0)))
get_or_create_evm_address-get_example =
    get_or_create_evm_address-get config Live 5 (5 + 2 ^ 70) start (link 5 (5 + 2 ^ 70) start)
      start-AreLinked created

address_42 : get_evm_address (get_account_id 42 start) start ≡ some 42
address_42 = get_evm_address-get_account_id config Live 42 start start-AreLinked (omega arith) refl

-- 3 has claimed 42
abbrev after_claim : EvmAccounts ℕ
after_claim = record (link 3 42 start) { events = Event.claim_account 3 42 ∷ []; world = 1 }

claimed : claim_account config (some 3) 42 42 start ≡ ok (tt, after_claim)
unfolding claim_account eth_recover get_account_id ethereum_signable_message
claimed = refl

claim_account-maps_example :
    (who : ℕ) × (some 3 ≡ some who)
    × (start.evm_addresses who ≡ none)
    × (start.accounts 42 ≡ none)
    × (eth_recover config 42 (to_ascii_hex (be_bytes 32 who)) [] ≡ some 42)
    × (after_claim.accounts ≡ update start.accounts 42 (some who))
    × (after_claim.evm_addresses ≡ update start.evm_addresses who (some 42))
claim_account-maps_example = claim_account-maps config (some 3) 42 42 start claimed
