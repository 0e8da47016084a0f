-- ===== src/Lib.antt =====
-- Setheum: the core of the runtime's pallets for trading and for stable currencies.
--
-- The program is a Substrate runtime. Each pallet keeps its storage, is called by extrinsics with
-- an origin, and calls other pallets through the traits of its `Config`. The dex holds pools of
-- two currencies and prices swaps by their constant product, and the incentives reward those who
-- leave their shares of a pool with them; Settmint keeps the reserves and the standards behind the
-- stable currencies, and its gateway lets an account act for another; the SERP auctions sell native
-- currency, setter or serplus for what the treasury wants back.
--
-- Files and code:
--   Common: Boolean tests, `u128` and `i128` arithmetic, results and state passing, maps.
--   Primitives/Token, Primitives/Currency: primitives/src/currency.rs (`TokenSymbol`, `DexShare`,
--     `CurrencyId`) and `TradingPair` of primitives/src/lib.rs; Order and Pairs have their lemmas,
--     Addresses the EVM addresses.
--   Runtime/Numbers: `FixedU128` and `U256` of external libraries, as interfaces with what the code
--     relies on (of a fixed-point operation only where its product fits a `u128`, since the library
--     rounds larger ones to the nearest), and values of them that meet that.
--   Dex: lib-serml/dex/dex/src/lib.rs. Types has the storage, errors, events and `Config`; Price
--     the pricing functions; Route the paths and the swaps (`get_target_amounts`, `_swap_by_path`,
--     `do_swap_with_exact_supply`, `do_swap_with_exact_target`); Liquidity `do_add_liquidity` and
--     `do_remove_liquidity`; Provision `do_add_provision` and `convert_to_enabled_if_possible`;
--     Calls the extrinsics; Genesis the genesis build; Manager the functions for other pallets.
--   Incentives: lib-serml/dex/incentives/src/lib.rs, with the theorems in Rewards,
--     Updates and Shares.
--   Settmint/Manager: lib-serml/settmint/settmint-manager/src/lib.rs (`update_reserve`,
--     `adjust_position`, `transfer_reserve`).
--   Settmint/Gateway: lib-serml/settmint/settmint-gateway/src/lib.rs, with the calls about
--     authorizations as requests in History.
--   Auction: lib-serml/serp/serp-auction/src/lib.rs. Types has the storage, errors, events and
--     `Config`; Pricing the amounts for sale, the increments and the time to close; Bids the handlers
--     of a bid and `on_new_bid`; Calls the creation, cancellation and end of auctions; Totals the
--     totals of the active auctions.
--   Currencies: lib-serml/tokens/currencies/src/lib.rs. Types has the interface of one currency,
--     errors, events and `Config`; Pallet the balances, transfers and locks; Reserves the reserves,
--     which for an ERC20 contract are balances of a derived address; Interface the calls, `Currency`
--     and `BasicCurrencyAdapter`.
--   EvmAccounts: lib-serml/evm/evm-accounts/src/lib.rs. Types has the storage, error, event and
--     `Config`; Message the message that a wallet signs; Mapping the two maps between accounts and
--     addresses with the claims and the end of an account; Links what the maps say of each other.
--   EvmManager: lib-serml/evm/evm-manager/src/lib.rs. Mapping has the numbers of contracts, and the
--     addresses and decimals of currencies.
--   Chainbridge: lib-serml/bridges/chainbridge/src/lib.rs. Types has the storage, errors, events and
--     `Config`; Pallet the calls; Registry all calls in any order; Transfers a transfer and its return.
--   RenvmBridge: lib-serml/bridges/renvm-bridge/src/lib.rs. Types has the storage, errors, events, calls
--     and `Config`; Pallet the calls, the messages that RenVM signs and `validate_unsigned`; Signatures
--     the histories of transactions, as a block applies them: an unsigned one is validated before it is
--     dispatched; Burns the record of the burns.
-- A child module of one of these has the theorems about it; the modules Tests have examples.
--
-- State and effects. A pallet's storage is a record, a storage map is a function from keys (with
-- the default value where there is no entry) or, under one first key of a double map, a list of
-- entries. An operation is a function from the storage to a result and the new storage, or to an
-- error; an error has no storage, as every call and `do_` function of the dex and of the gateway is
-- a storage transaction, and as `mint` and `burn` of the RenVM bridge, which are none, store nothing
-- before the last step that can fail. `claim_default_account` and, in the auctions, the creations and
-- `cancel_auction`, which are no storage transactions and write before they may fail, give the storage
-- with their error. What the other pallets keep is one value `world`, and each call of them is a field
-- of `Config` that may change it, or fail and leave it; nothing more is assumed of these fields but
-- what a theorem names. A panic
-- (`expect`, an assertion, an index out of range) is an error of its own.
--
-- Numbers. Balances are `u128` as natural numbers, with saturation and checks written out; `U256`
-- operations saturate at 2 ^ 256 - 1; an amount is an `i128` as an integer. Loops are recursion on
-- the path, on the provisions or on the list of calls, so no fuel is needed, but for the digits of
-- a length in EvmAccounts/Message, where the length is enough.
--
-- Not modelled: `update_exchange_fee` of the dex and `update_accumulate_period` of the incentives,
-- which are not Rust programs; the names and symbols of currencies in the EVM manager; the key
-- functions of the EVM accounts for tests; the weights; the engine of Settmint, which is the
-- validator that the manager takes; and the other pallets (treasury, staking, democracy, prices,
-- NFT, execution of EVM code, calls of contracts), the runtimes and the node. The exchange fee is read as a
-- pair of a numerator and a denominator, as the pricing functions read it. What a call of another
-- pallet changes through callbacks stands in its `world`. Provisions are drained in the order in which
-- they were first made, where the code has the order of hashed keys.
pub mod Common
pub mod Primitives
pub mod Runtime
pub mod Dex
pub mod Incentives
pub mod Settmint
pub mod Auction
pub mod Currencies
pub mod EvmAccounts
pub mod EvmManager
pub mod Chainbridge
pub mod RenvmBridge
