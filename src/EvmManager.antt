-- ===== src/EvmManager.antt =====
-- lib-serml/evm/evm-manager/src/lib.rs: which ERC20 contract has which currency number, and the
-- addresses of currencies.
pub mod Mapping
pub mod Addresses
pub mod Numbers
pub mod Tests
