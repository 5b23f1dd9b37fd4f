-- ===== src/Orchestrator/Operator.antt =====
-- The release of a quarantined order (crates/orchestrator/src/operator.rs).
pub mod Release
use nofomo.Prelude.{◌++◌, Text, msg, Option, none, some, Result, ok, err, some_or}
use nofomo.Domain.Tx.{SuiSdk}
use nofomo.Strategy.Order.{Order, OrderState}
use nofomo.Orchestrator.Machine.{quarantine_resolved, Transition, moved, unchanged, invalid, apply}
use nofomo.Orchestrator.World.{History, OrderStore, Exec, ◌>>=◌, lift, call, orders_read, upsert}

abbrev pub released : Text → Transition → Result OrderState
released order_id (moved next) = ok next
released order_id unchanged = err (msg "releasing a quarantine has to change the state")
released order_id (invalid id state outcome) = err (
    msg "order "
    ++ order_id
    ++ msg " is not quarantined: order "
    ++ id
    ++ msg ": outcome "
    ++ outcome
    ++ msg " is invalid in state "
    ++ state)

-- The order as an operator's release leaves it.
abbrev pub release : {V : Type 0} → Order V → OrderState → Order V
release order state = record order { state = state; swap_attempts = 0; swap_retry_after_ts = none }

-- `operator::resolve_quarantine`: the level that is freed.
unfoldable pub resolve_quarantine :
    {V : Type 0} {sdk : SuiSdk} → OrderStore V sdk → Text → Exec V sdk Text
resolve_quarantine orders order_id = do
  found ← call (orders.get_order order_id) orders_read
  order ← lift (some_or (msg "no order " ++ order_id) found)
  state ← lift (released order_id (apply order quarantine_resolved))
  written ← upsert orders (release order state)
  lift (ok order.level_id)
