-- ===== src/Price.antt =====
-- crates/price: which price ticks are worth trading on.
pub mod Gates
pub mod Filtered
