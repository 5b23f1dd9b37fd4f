-- ===== src/Strategy.antt =====
-- crates/strategy: markets, price levels, and the orders that fired levels become.
pub mod Level
pub mod Order
