-- ===== src/Orchestrator.antt =====
-- crates/orchestrator: the state machine of an order and the loop that drives it.
pub mod Machine
pub mod World
pub mod Io
pub mod Run
pub mod Table
pub mod Operator
