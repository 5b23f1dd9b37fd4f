-- ===== src/Lib.antt =====
-- A model of nofomo, a daemon that trades on standing price levels, and theorems about it.
--
-- Parts and how they interact. A price source sends ticks, which a filter cleans of stale and
-- implausible ones. The trigger compares each tick with the stored levels, asks a venue for a
-- quote, checks it against the tick and stores an order. The orchestrator sweeps over the open
-- orders and drives each through its states: sign, store the signed bytes, broadcast, await the
-- receipt. The Cetus venue computes what a swap over concentrated liquidity gives; the Uniswap
-- venue asks an API for quotes and transactions and checks what it answers. An operator's tools
-- write strategies and levels to the same tables; the audit trail keeps the quotes and their
-- executions.
--
-- Files and the code that they model:
--   Prelude          shared helpers: texts as lists of bytes, i64 as an integer type with wrap-around,
--                    f64 as the parameter `Float`, results with an error text (anyhow::Result)
--   Domain           crates/domain/src: Chain (chain.rs), CoinType (normalize_coin_type), Model
--                    (model.rs, venue.rs), Tx (tx.rs), Units (the decimal conversions of model.rs)
--   Strategy         crates/strategy/src: Level (level.rs), Order (order.rs)
--   Storage          crates/storage: Rows, Strategy (strategy.rs and its tables of schema.sql), Audit
--                    (lib.rs: sessions, quotes and execution attempts)
--   Orchestrator     crates/orchestrator/src: Machine (machine.rs), Io (io.rs), Run (run.rs),
--                    Operator (operator.rs); World is its ports, Table the specification of the order
--                    table
--   Cetus            crates/cetus/src/swap_math.rs: Words, Delta (amounts and prices), Step
--                    (compute_swap_step), Swap (compute_swap)
--   Price            crates/price/src: Gates (gates.rs, lib.rs), Filtered (filtered.rs)
--   Config           crates/config/src/lib.rs: the records of a configuration, Validate
--   Uniswap          crates/uniswap/src: Amount and Fields (amount.rs), Validate (validate.rs), Venue
--                    and Venue.Quote (lib.rs)
--   Trigger          crates/trigger/src: Resolver, Fired, Runtime, QuoteGuard, Authoring, Run, each
--                    the file of that name
--   Mcp              crates/mcp/src/admin.rs: Admin, Admin.Market (dashboard_market)
--   Examples         concrete inputs
--
-- Definitions keep the names of the code; a method of a type has the type's prefix where two types
-- share its name (order_tx_hash, venue_name). A function that the code writes inline is a helper
-- beside it (settle, wait_or_retry, after_step).
--
-- State. The orchestrator's state is the order in memory and the history of the calls made, latest
-- first; the order table is read off the successful writes in that history. Each port (venue, chain
-- client, signer, store, clock) is a function of the history before the call, so that it may answer
-- every call differently and fail at any of them. The trigger's state is the record
-- `Trigger.Run.World`. A price stream is the list of its items. A table of the database is the list
-- of its rows, and a statement either succeeds or leaves it as it was. Locks, tasks and logging are
-- left out: an operation under a lock is one function.
--
-- Numbers. u64, u128 and U256 are natural numbers with `% 2 ^ w` wherever the code's operation may
-- wrap; a checked operation is a test. `<<` on U256 drops high bits. An i128 is kept as its
-- residue. i64 additions wrap. Prices are of the parameter `Float`, of which no law is assumed.
--
-- Bounds. A pass over an order takes at most 12 rounds, as in the code (max_transitions_per_pass);
-- the other loops run over the list that they read, by structural recursion. The printing of a
-- number takes the number itself as fuel, a loop `while carry > 0` its carry, and the conversion to
-- hexadecimal the number that is left, each of which is no less than the count of rounds. White
-- space that is trimmed from an amount is ASCII.
--
-- Parameters: what sui_sdk_types, bcs and serde_json do with a Sui transaction (`SuiSdk`, with
-- their documented round trips as `IsFaithful`), what serde_json does with a JSON value (`Json`),
-- what the Uniswap API, the nodes and the liquidity research answer to a request, what a column's
-- text reads as (`Codec`), how a URL is read and what the key files hold (`Outside`), how a decimal
-- text becomes a U256, and whether a price source quotes a pair.
--
-- Not modelled: opening the database, its locks, its health query and the listing of recent rows,
-- chain clients and vault (RPC and cryptography, which are ports here), the graph and price clients
-- over HTTP, reading a configuration, the HTTP server of crates/mcp, the daemon's command line and
-- dashboard, the subscriptions of crates/trigger/src/prices.rs, and the interleaving of the
-- trigger's writes with the orchestrator's.
pub mod Prelude
pub mod Domain
pub mod Storage
pub mod Strategy
pub mod Orchestrator
pub mod Cetus
pub mod Config
pub mod Price
pub mod Trigger
pub mod Uniswap
pub mod Mcp
pub mod Examples
