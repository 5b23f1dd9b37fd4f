-- ===== src/Orchestrator/Machine.antt =====
-- The transitions of an order (crates/orchestrator/src/machine.rs).
pub mod Diagram
pub mod Backoff
pub mod Reach
use Prim.Native.Nat.{min}
use nofomo.Prelude.{
  ℕ, ◌-◌, ◌*◌, ◌^◌, ◌++◌, Text, codes, msg, Option, none, some, ltb, if◌then◌else◌,
}
use nofomo.Prelude.Int.{ℤ, pos}
use nofomo.Domain.Model.{ExecStep, swap}
use nofomo.Strategy.Order.{
  Order, OrderState, withdrawing_state, swap_ready_state, broadcasting_state, submitted_state,
  depositing_state, filled_state, failed_state, quarantined_state,
}

pub data Action : Type 0 where
  sign : Action
  -- signed_tx, tx_hash
  broadcast : Text → Text → Action
  check_receipt : Text → Action
  done : Action

pub data Outcome : Type 0 where
  -- step, signed_tx, tx_hash
  signed : ExecStep → Text → Text → Outcome
  -- tx_hash, at
  broadcast_done : Text → ℤ → Outcome
  confirmed : Outcome
  still_pending : Outcome
  reverted : Outcome
  exec_failed : Text → Outcome
  quarantine_resolved : Outcome
  broadcast_blocked : Text → Outcome
  receipt_timed_out : Outcome

abbrev pub receipt_deadline_secs : ℤ
receipt_deadline_secs = pos 1800

abbrev pub swap_retry_cap : ℕ
swap_retry_cap = 8

abbrev pub swap_retry_max_backoff_secs : ℕ
swap_retry_max_backoff_secs = 600

abbrev pub swap_retry_initial_backoff_secs : ℕ
swap_retry_initial_backoff_secs = 2

-- `i64::checked_shl`: none from a shift of 64 on; no shift below loses a bit of 2 here, since the
-- caller's is at most 20.
abbrev checked_shl : ℕ → ℕ → Option ℕ
checked_shl n shift = if ltb shift 64 then some (n * 2 ^ shift) else none

abbrev unwrap_or : Option ℕ → ℕ → ℕ
unwrap_or none d = d
unwrap_or (some n) d = n

unfoldable pub swap_retry_backoff_secs : ℕ → ℕ
swap_retry_backoff_secs attempts =
    let shift = min (attempts - 1) 20 in
    min (unwrap_or (checked_shl swap_retry_initial_backoff_secs shift) swap_retry_max_backoff_secs)
      swap_retry_max_backoff_secs

-- `Ok(Some(next))`, `Ok(None)` and `Err(TransitionError)`.
pub data Transition : Type 0 where
  moved : OrderState → Transition
  unchanged : Transition
  -- order_id, state, outcome
  invalid : Text → Text → Text → Transition

abbrev pub state_action : OrderState → Action
state_action (withdrawing_state amount_in action_id) = done
state_action (swap_ready_state step amount_in withdraw) = sign
state_action (broadcasting_state step amount_in signed_tx tx_hash withdraw) =
    broadcast signed_tx tx_hash
state_action (submitted_state step amount_in tx_hash withdraw submitted_at) = check_receipt tx_hash
state_action (depositing_state tx_hash amount action_id) = done
state_action (filled_state tx_hash) = done
state_action (failed_state tx_hash reason) = done
state_action (quarantined_state amount_in tx_hash reason) = done

unfoldable pub next_action : {V : Type 0} → Order V → Action
next_action order = state_action order.state

unfoldable pub reverted_reason : Text
reverted_reason = codes "reverted on-chain"

unfoldable pub timeout_reason : Text
timeout_reason = codes "no receipt within 30 minutes; the transaction may still land"

unfoldable pub blocked_reason : Text → Text
blocked_reason note = msg "broadcast blocked; set MAINNET_SWAP=1 to allow (" ++ note ++ msg ")"

unfoldable pub resolved_reason : Text
resolved_reason = codes "quarantine resolved by operator"

-- A confirmed swap finishes; a confirmed allowance returns to step discovery.
abbrev confirm : ExecStep → ℕ → Text → Option Text → OrderState
confirm swap amount_in tx_hash withdraw = filled_state tx_hash
confirm _ amount_in tx_hash withdraw = swap_ready_state swap amount_in withdraw

pub state_name : OrderState → Text
state_name (withdrawing_state amount_in action_id) = codes "Withdrawing"
state_name (swap_ready_state step amount_in withdraw) = codes "SwapReady"
state_name (broadcasting_state step amount_in signed_tx tx_hash withdraw) = codes "Broadcasting"
state_name (submitted_state step amount_in tx_hash withdraw submitted_at) = codes "Submitted"
state_name (depositing_state tx_hash amount action_id) = codes "Depositing"
state_name (filled_state tx_hash) = codes "Filled"
state_name (failed_state tx_hash reason) = codes "Failed"
state_name (quarantined_state amount_in tx_hash reason) = codes "SwapQuarantined"

pub outcome_name : Outcome → Text
outcome_name (signed step signed_tx tx_hash) = codes "Signed"
outcome_name (broadcast_done tx_hash at) = codes "Broadcast"
outcome_name confirmed = codes "Confirmed"
outcome_name still_pending = codes "StillPending"
outcome_name reverted = codes "Reverted"
outcome_name (exec_failed reason) = codes "ExecFailed"
outcome_name quarantine_resolved = codes "QuarantineResolved"
outcome_name (broadcast_blocked note) = codes "BroadcastBlocked"
outcome_name receipt_timed_out = codes "ReceiptTimedOut"

-- The `match (&order.state, outcome)` of `apply`, with the order's id and `swap_attempts`.
transition : OrderState → Text → ℕ → Outcome → Transition
transition _ id attempts still_pending = unchanged
transition (swap_ready_state step amount_in withdraw) id attempts (signed step' signed_tx tx_hash) =
    moved (broadcasting_state step' amount_in signed_tx tx_hash withdraw)
transition (swap_ready_state step amount_in withdraw) id attempts (exec_failed reason) =
    moved (failed_state none reason)
transition (broadcasting_state step amount_in signed_tx tx_hash withdraw) id attempts
      (broadcast_done hash' at) =
    moved (submitted_state step amount_in hash' withdraw at)
transition (broadcasting_state step amount_in signed_tx tx_hash withdraw) id attempts
      (exec_failed reason) =
    if ltb attempts swap_retry_cap
    then unchanged
    else moved (quarantined_state amount_in (some tx_hash) reason)
transition (submitted_state step amount_in tx_hash withdraw submitted_at) id attempts confirmed =
    moved (confirm step amount_in tx_hash withdraw)
transition (submitted_state step amount_in tx_hash withdraw submitted_at) id attempts reverted =
    moved (failed_state (some tx_hash) reverted_reason)
transition (submitted_state step amount_in tx_hash withdraw submitted_at) id attempts
      receipt_timed_out =
    moved (failed_state (some tx_hash) timeout_reason)
transition (broadcasting_state step amount_in signed_tx tx_hash withdraw) id attempts
      (broadcast_blocked note) =
    moved (failed_state none (blocked_reason note))
transition (quarantined_state amount_in tx_hash reason) id attempts quarantine_resolved =
    moved (failed_state tx_hash resolved_reason)
transition state id attempts outcome = invalid id (state_name state) (outcome_name outcome)

unfoldable pub apply : {V : Type 0} → Order V → Outcome → Transition
unfolding transition
apply order outcome = transition order.state order.id order.swap_attempts outcome
