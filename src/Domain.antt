-- ===== src/Domain.antt =====
-- crates/domain: venues, chains, plans and transactions, decimal amounts and coin types.
pub mod Model
pub mod Chain
pub mod Tx
pub mod Units
pub mod CoinType
