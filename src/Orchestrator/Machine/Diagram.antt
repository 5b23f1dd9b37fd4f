-- ===== src/Orchestrator/Machine/Diagram.antt =====
-- The diagram of an order's states, against `apply` (crates/orchestrator/src/machine.rs).
use nofomo.Prelude.{ℕ, ◌≤◌, ◌≡◌, ◌≢◌, ◌↔◌, refl, arith, Text, Option, none, some}
use nofomo.Prelude.Int.{ℤ}
use nofomo.Domain.Model.{ExecStep, swap}
use nofomo.Strategy.Order.{
  Order, OrderState, swap_ready_state, broadcasting_state, submitted_state, filled_state,
  failed_state, quarantined_state,
}
use nofomo.Orchestrator.Machine.{
  Outcome, signed, broadcast_done, confirmed, reverted, exec_failed, quarantine_resolved,
  broadcast_blocked, receipt_timed_out, moved, apply, reverted_reason, timeout_reason,
  blocked_reason, resolved_reason,
}

-- One edge: `Edge n s o t` leads on the outcome `o` from `s` to `t`, for an order that has burned `n`
-- attempts.
pub data Edge (n : ℕ) : OrderState → Outcome → OrderState → Type 0 where
  sign_edge :
      {step step' : ExecStep} {amount_in : ℕ} {signed_tx tx_hash : Text} {w : Option Text}
      → Edge n
          (swap_ready_state step amount_in w)
          (signed step' signed_tx tx_hash)
          (broadcasting_state step' amount_in signed_tx tx_hash w)
  build_failed_edge :
      {step : ExecStep} {amount_in : ℕ} {w : Option Text} {reason : Text}
      → Edge n (swap_ready_state step amount_in w) (exec_failed reason) (failed_state none reason)
  sent_edge :
      {step : ExecStep} {amount_in : ℕ} {signed_tx tx_hash sent_hash : Text} {w : Option Text}
      {at : ℤ}
      → Edge n
          (broadcasting_state step amount_in signed_tx tx_hash w)
          (broadcast_done sent_hash at)
          (submitted_state step amount_in sent_hash w at)
  gave_up_edge :
      {step : ExecStep} {amount_in : ℕ} {signed_tx tx_hash reason : Text} {w : Option Text}
      → 8 ≤ n
      → Edge n
          (broadcasting_state step amount_in signed_tx tx_hash w)
          (exec_failed reason)
          (quarantined_state amount_in (some tx_hash) reason)
  blocked_edge :
      {step : ExecStep} {amount_in : ℕ} {signed_tx tx_hash : Text} (note : Text) {w : Option Text}
      → Edge n
          (broadcasting_state step amount_in signed_tx tx_hash w)
          (broadcast_blocked note)
          (failed_state none (blocked_reason note))
  fill_edge :
      {amount_in : ℕ} {tx_hash : Text} {w : Option Text} {at : ℤ}
      → Edge n (submitted_state swap amount_in tx_hash w at) confirmed (filled_state tx_hash)
  allowed_edge :
      {step : ExecStep} {amount_in : ℕ} {tx_hash : Text} {w : Option Text} {at : ℤ}
      → step ≢ swap
      → Edge n
          (submitted_state step amount_in tx_hash w at)
          confirmed
          (swap_ready_state swap amount_in w)
  reverted_edge :
      {step : ExecStep} {amount_in : ℕ} {tx_hash : Text} {w : Option Text} {at : ℤ}
      → Edge n
          (submitted_state step amount_in tx_hash w at)
          reverted
          (failed_state (some tx_hash) reverted_reason)
  timeout_edge :
      {step : ExecStep} {amount_in : ℕ} {tx_hash : Text} {w : Option Text} {at : ℤ}
      → Edge n
          (submitted_state step amount_in tx_hash w at)
          receipt_timed_out
          (failed_state (some tx_hash) timeout_reason)
  resolved_edge :
      {amount_in : ℕ} {tx_hash : Option Text} {reason : Text}
      → Edge n
          (quarantined_state amount_in tx_hash reason)
          quarantine_resolved
          (failed_state tx_hash resolved_reason)

ruleset edges = (
  sign_edge, build_failed_edge, sent_edge, gave_up_edge, blocked_edge, fill_edge, allowed_edge,
  reverted_edge, timeout_edge, resolved_edge,
)

pub apply-Edge :
    {V : Type 0} (order : Order V) (outcome : Outcome) {next : OrderState}
    → apply order outcome ≡ moved next
    → Edge order.swap_attempts order.state outcome next
unfolding apply
apply-Edge order outcome h = grind (arith, edges)

Edge-apply :
    {V : Type 0} (order : Order V) {s t : OrderState} {outcome : Outcome}
    → Edge order.swap_attempts s outcome t
    → order.state ≡ s
    → apply order outcome ≡ moved t
unfolding apply
Edge-apply order sign_edge e = ground arith
Edge-apply order build_failed_edge e = ground arith
Edge-apply order sent_edge e = ground arith
Edge-apply order (gave_up_edge h) e = ground arith
Edge-apply order (blocked_edge note) e = ground arith
Edge-apply order fill_edge e = ground arith
Edge-apply order (allowed_edge h) e = ground arith
Edge-apply order reverted_edge e = ground arith
Edge-apply order timeout_edge e = ground arith
Edge-apply order resolved_edge e = ground arith

-- On an outcome, `apply` moves an order to a state exactly if the diagram has that edge: a confirmed
-- swap fills the order and a confirmed allowance goes back to signing, a revert or a timeout fails it,
-- and an execution that fails quarantines it once 8 attempts are burned, with no edge before.
pub apply-Edge_iff :
    {V : Type 0} (order : Order V) (outcome : Outcome) (next : OrderState)
    → (apply order outcome ≡ moved next) ↔ Edge order.swap_attempts order.state outcome next
apply-Edge_iff order outcome next =
    (λ h. apply-Edge order outcome h, λ edge. Edge-apply order edge refl)
