-- ===== src/RenvmBridge.antt =====
-- lib-serml/bridges/renvm-bridge/src/lib.rs: assets that RenVM mints here and that are burnt to
-- leave again.
pub mod Types
pub mod Pallet
pub mod Signatures
pub mod Burns
pub mod Tests
