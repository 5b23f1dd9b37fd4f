-- ===== src/Uniswap.antt =====
-- crates/uniswap: the conversions of amounts.
pub mod Amount
pub mod Fields
pub mod Validate
pub mod Venue
