-- ===== src/Currencies.antt =====
-- The currencies (lib-serml/tokens/currencies): one interface to the native currency, to the other
-- tokens and to ERC20 contracts.
pub mod Types
pub mod Pallet
pub mod Reserves
pub mod Interface
mod Tests
