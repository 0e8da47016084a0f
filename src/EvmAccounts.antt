-- ===== src/EvmAccounts.antt =====
-- lib-serml/evm/evm-accounts/src/lib.rs: which account has which EVM address.
pub mod Types
pub mod Message
pub mod Mapping
pub mod Links
pub mod Tests
