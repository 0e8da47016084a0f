-- ===== src/Primitives.antt =====
-- Currencies, token symbols and trading pairs (primitives/src).
pub mod Token
pub mod Currency
pub mod Order
pub mod Pairs
pub mod Addresses
mod Tests
