-- ===== src/Mcp.antt =====
-- The tools that an operator has on a running daemon (crates/mcp/src).
pub mod Admin
