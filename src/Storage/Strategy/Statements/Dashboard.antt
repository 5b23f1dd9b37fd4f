-- ===== src/Storage/Strategy/Statements/Dashboard.antt =====
-- The tables as the dashboard reads them (crates/storage/src/strategy.rs, `dashboard_data`).
use nofomo.Prelude.{List, Text, msg, Option, Result, ok, ◌>>=◌, ◌>>◌, context}
use nofomo.Strategy.Level.{Strategy, StrategyLevel}
use nofomo.Strategy.Order.{Order}
use nofomo.Storage.Rows.{execute, collect, text_le, sort_rows}
use nofomo.Storage.Strategy.{Tables, Codec, strategy_from_row, into_entry, into_order, by_creation}
use nofomo.Storage.Strategy.Statements.{join_rows, sorted_levels}

pub record DashboardData (V F : Type 0) : Type 0 where
  pub strategies : List Strategy
  pub levels : List (StrategyLevel F)
  pub orders : List (Order V)

-- The errors of the database, if it has any, at each of the calls.
pub record Faults : Type 0 where
  pub begin : Option Text
  pub strategies : Option Text
  pub levels : Option Text
  pub orders : Option Text
  pub commit : Option Text

module _ {V F : Type 0} (codec : Codec V F) where
  -- One transaction: the three listings are of the same tables.
  pub dashboard_data : Faults → Tables F → Result (DashboardData V F)
  dashboard_data faults t = do
    execute faults.begin (ok tt)
    strategy_rows ←
        context (msg "cannot list dashboard strategies")
          (execute faults.strategies (ok (sort_rows (λ a b. text_le a.id b.id) t.strategies)))
    strategies ← collect strategy_from_row strategy_rows
    level_rows ←
        context (msg "cannot list dashboard levels")
          (execute faults.levels (ok (join_rows codec t.strategies (sorted_levels codec t))))
    levels ← collect (into_entry codec) level_rows
    order_rows ←
        context (msg "cannot list dashboard orders")
          (execute faults.orders (ok (sort_rows by_creation t.orders)))
    orders ← collect (into_order codec) order_rows
    execute faults.commit (ok tt)
    ok (record { strategies = strategies; levels = levels; orders = orders })
