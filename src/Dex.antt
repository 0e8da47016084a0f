-- ===== src/Dex.antt =====
-- The dex pallet (lib-serml/dex/dex/src/lib.rs).
pub mod Types
pub mod Price
pub mod Steps
pub mod Route
pub mod Liquidity
pub mod Provision
pub mod Calls
pub mod Genesis
pub mod Manager
mod Tests
