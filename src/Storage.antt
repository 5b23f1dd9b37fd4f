-- ===== src/Storage.antt =====
-- crates/storage: the tables of the daemon's database.
pub mod Rows
pub mod Strategy
pub mod Audit
