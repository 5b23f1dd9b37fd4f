-- ===== src/Cetus.antt =====
-- crates/cetus: the swap computation of a concentrated-liquidity pool.
pub mod Words
pub mod Delta
pub mod Step
pub mod Swap
