-- ===== src/Trigger.antt =====
-- crates/trigger: from price ticks to orders.
pub mod Resolver
pub mod Fired
pub mod Runtime
pub mod QuoteGuard
pub mod Authoring
pub mod Run
