-- ===== src/Chainbridge.antt =====
-- lib-serml/bridges/chainbridge/src/lib.rs: the currencies that are registered at the bridge, and
-- the transfers to other chains and from them. A resource identifier is the number that its 32
-- bytes spell.
pub mod Types
pub mod Pallet
pub mod Registry
pub mod Transfers
pub mod Tests
