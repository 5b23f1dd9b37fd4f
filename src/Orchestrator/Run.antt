-- ===== src/Orchestrator/Run.antt =====
-- The loop that drives open orders (crates/orchestrator/src/run.rs).
-- Logging is left out.
pub mod Progress
pub mod Induction
pub mod Durability
pub mod Blocked
pub mod Sweep
pub mod Lifecycle
use Prim.Native.Nat.{min}
use nofomo.Prelude.{
  ℕ, zero, suc, ◌+◌, ◌≡◌, Bool, true, false, not, List, [], ◌∷◌, ◌++◌, Text, msg, Option, none,
  some, filter, Result, ok, err, some_or, context, if◌then◌else◌,
}
use nofomo.Prelude.Int.{ℤ, pos, add_i64, ltb_ℤ}
use nofomo.Domain.Tx.{SuiSdk}
use nofomo.Strategy.Order.{Order, OrderState, is_terminal}
use nofomo.Orchestrator.Machine.{
  Action, done, Outcome, still_pending, quarantine_resolved, Transition, moved, unchanged, invalid,
  next_action, apply, swap_retry_backoff_secs,
}
use nofomo.Orchestrator.World.{
  History, ExecDeps, OrderStore, Exec, ◌>>=◌, lift, call, in_context, clock_read, orders_read,
  upsert,
}
use nofomo.Orchestrator.Io.{perform}

-- What one round of the loop leaves: a `return`, or the order for the next round.
pub data Round (V : Type 0) : Type 0 where
  returned : Result (Unit {0}) → Order V → Round V
  again : Order V → Round V

abbrev is_done : Action → Bool
is_done done = true
is_done _ = false

abbrev is_still_pending : Outcome → Bool
is_still_pending still_pending = true
is_still_pending _ = false

abbrev pub max_transitions_per_pass : ℕ
max_transitions_per_pass = 12

-- `u32::saturating_add(1)`
abbrev one_more : ℕ → ℕ
one_more n = min (n + 1) 4294967295

module _ {V : Type 0} {sdk : SuiSdk} (deps : ExecDeps V sdk) (orders : OrderStore V sdk) where
  -- Whether the retry delay is still running; the clock is read only if there is one.
  backing_off : Option ℤ → History V sdk → Bool × History V sdk
  backing_off none h = (false, h)
  backing_off (some at) h = (ltb_ℤ (deps.now_unix h) at, clock_read ∷ h)

  -- After the write of a changed state. A state changes only on an outcome that is not pending, so
  -- the loop's last test matters only where nothing changed.
  after_write : Result (Unit {0}) → Order V → Bool → Round V
  after_write (err e) order pending = returned (context (msg "persist transition") (err e)) order
  after_write (ok _) order pending = if pending then returned (ok tt) order else again order

  -- The order with one more attempt and a new retry time.
  pub retry_later : Order V → ℤ → Order V
  retry_later order now =
      let attempts = one_more order.swap_attempts in
      record order {
        swap_attempts = attempts;
        swap_retry_after_ts = some (add_i64 now (pos (swap_retry_backoff_secs attempts)));
      }

  -- An unchanged state: a pending one waits, any other is retried after a delay.
  wait_or_retry : Bool → Order V → History V sdk → Round V × History V sdk
  unfolding upsert
  wait_or_retry true order h = (returned (ok tt) order, h)
  wait_or_retry false order h =
      let order' = retry_later order (deps.now_unix h) in
      let (r, h') = upsert orders order' (clock_read ∷ h) in
      (returned (context (msg "persist retry schedule") r) order', h')

  -- The `match apply(order, outcome)`.
  unfoldable pub settle : Order V → Outcome → Transition → History V sdk → Round V × History V sdk
  unfolding wait_or_retry after_write
  settle order outcome (moved next) h =
      let order' = record order { state = next; swap_retry_after_ts = none } in
      let (r, h') = upsert orders order' h in (after_write r order' (is_still_pending outcome), h')
  settle order outcome unchanged h = wait_or_retry (is_still_pending outcome) order h
  settle order outcome (invalid id state name) h = (returned (ok tt) order, h)

  -- The round once the delay is over; `over` says that nothing is left to do.
  act : Bool → Order V → Action → History V sdk → Round V × History V sdk
  act true order action h = (returned (ok tt) order, h)
  act false order action h =
      let (outcome, h') = perform deps order action h in
      settle order outcome (apply order outcome) h'

  -- The round once the delay was looked at.
  proceed : Bool → Order V → History V sdk → Round V × History V sdk
  unfolding act
  proceed true order h = (returned (ok tt) order, h)
  proceed false order h = let action = next_action order in act (is_done action) order action h

  unfoldable pub round : Order V → History V sdk → Round V × History V sdk
  unfolding backing_off proceed
  round order h =
      let (waiting, h') = backing_off order.swap_retry_after_ts h in proceed waiting order h'

  abbrev pub Pass : Type 0
  Pass = Result (Unit {0}) × Order V × History V sdk

  -- What follows a round: its `return`, or the rest of the rounds.
  resume : (Order V → History V sdk → Pass) → Round V → History V sdk → Pass
  resume rest (returned result order) h = (result, order, h)
  resume rest (again order) h = rest order h

  -- `for _ in 0..n`; the loop's state is the order, which the caller sees too.
  pub rounds : ℕ → Order V → History V sdk → Pass
  unfolding resume
  rounds zero order h = (ok tt, order, h)
  rounds (suc n) order h = let (q, k) = round order h in resume (rounds n) q k

  unfoldable pub drive_order : Order V → History V sdk → Pass
  unfolding rounds
  drive_order order h = rounds max_transitions_per_pass order h

  -- The body of the `for` over the open orders: a failure is logged and the next order follows.
  pub drive_all : List (Order V) → History V sdk → History V sdk
  drive_all [] h = h
  drive_all (order ∷ open_orders) h =
      let (result, order', h') = drive_order order h in drive_all open_orders h'

  -- Every open order of the listing, in its order; a listing that failed ends the sweep.
  drive_open : Result (List (Order V)) → Exec V sdk (Unit {0})
  unfolding drive_all
  drive_open (ok stored) h = (ok tt, drive_all (filter (λ o. not (is_terminal o)) stored) h)
  drive_open (err e) h = (err e, h)

  unfoldable pub sweep : Exec V sdk (Unit {0})
  unfolding drive_open
  sweep h =
      let (listed, h') = in_context (msg "list orders") (call orders.list_orders orders_read) h in
      drive_open listed h'
