-- ===== src/Settmint.antt =====
-- Settmint: the reserves and standards behind the stable currencies (lib-serml/settmint).
pub mod Manager
pub mod Gateway
mod Tests
