-- ===== src/Currencies/Reserves/Contracts.antt =====
-- What the reserves rely on of an ERC20 contract and of the mapping of accounts to addresses, and
-- the balances that they read.
use setheum.Common.{ℕ, ◌+◌, ◌≡◌, ◌≢◌, refl, min, some, ok}
use setheum.Primitives.Currency.{CurrencyId}
use setheum.Currencies.Types.{Config}
use setheum.Currencies.Pallet.{contract_balance, free_balance, reserve_address}
use setheum.Currencies.Reserves.{reserved_balance}

module _ {O W : Type 0} (T : Config O W) (contract : ℕ) where
  -- A transfer that succeeds moves its amount from the sender to another address and changes no
  -- other balance of the contract (it may fail for any reason). The address of an account, once it
  -- has one, stays, and making one moves nothing.
  pub record IsErc20 : Type 0 where
    pub sent :
        (sender origin to x : ℕ) (w : W) {w' : W}
        → sender ≢ to
        → T.bridge_transfer
            (record { contract = contract; sender = sender; origin = origin })
            to
            x
            w
          ≡ ok w'
        → contract_balance T contract sender w ≡ contract_balance T contract sender w' + x
    pub received :
        (sender origin to x : ℕ) (w : W) {w' : W}
        → sender ≢ to
        → T.bridge_transfer
            (record { contract = contract; sender = sender; origin = origin })
            to
            x
            w
          ≡ ok w'
        → contract_balance T contract to w' ≡ contract_balance T contract to w + x
    pub others :
        (sender origin to x : ℕ) (w : W) {w' : W} (a : ℕ)
        → a ≢ sender
        → a ≢ to
        → T.bridge_transfer
            (record { contract = contract; sender = sender; origin = origin })
            to
            x
            w
          ≡ ok w'
        → contract_balance T contract a w' ≡ contract_balance T contract a w
    pub mapped :
        (sender origin to x : ℕ) (w : W) {w' : W} (who : ℕ)
        → T.bridge_transfer
            (record { contract = contract; sender = sender; origin = origin })
            to
            x
            w
          ≡ ok w'
        → T.get_evm_address who w' ≡ T.get_evm_address who w
    pub made :
        (who : ℕ) (w : W) {a : ℕ} {w' : W}
        → T.get_or_create_evm_address who w ≡ (a, w')
        → T.get_evm_address who w' ≡ some a
    pub made_kept :
        (who : ℕ) (w : W) {a : ℕ} {w' : W} (other : ℕ) {b : ℕ}
        → T.get_or_create_evm_address who w ≡ (a, w')
        → T.get_evm_address other w ≡ some b
        → T.get_evm_address other w' ≡ some b
    pub made_balance :
        (who : ℕ) (w : W) {a : ℕ} {w' : W} (b : ℕ)
        → T.get_or_create_evm_address who w ≡ (a, w')
        → contract_balance T contract b w' ≡ contract_balance T contract b w

  -- The part of a value that the reserve of an account has.
  abbrev pub in_reserve : ℕ → ℕ → W → ℕ
  in_reserve who value w = min (reserved_balance T (CurrencyId.erc20 contract) who w) value

  module _ {who a : ℕ} {w : W} (e : T.get_evm_address who w ≡ some a) where
    pub free_balance_at :
        free_balance T (CurrencyId.erc20 contract) who w ≡ contract_balance T contract a w
    unfolding free_balance
    free_balance_at = rw e refl

    pub reserved_balance_at :
        reserved_balance T (CurrencyId.erc20 contract) who w
        ≡ contract_balance T contract (reserve_address T a) w
    unfolding reserved_balance
    reserved_balance_at = rw e refl
