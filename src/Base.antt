-- ===== src/Base.antt =====
-- linera-base: quantities, time and identifiers.
pub mod Arithmetic
pub mod Amount
pub mod Timestamp
pub mod Identifiers
pub mod Maps
