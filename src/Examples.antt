-- ===== src/Examples.antt =====
-- The properties on concrete inputs.
mod Orders
mod Sweeps
mod Swaps
mod Prices
mod Triggers
mod Amounts
mod Venue
mod Tables
mod Audit
mod Operator
