-- ===== src/Strategy/Order.antt =====
-- Orders and their restart-safe progress (crates/strategy/src/order.rs). `V` is the type of the
-- quote that a plan carries.
use nofomo.Prelude.{ℕ, Bool, true, false, Text, Option, none, some}
use nofomo.Prelude.Int.{ℤ}
use nofomo.Domain.Model.{VenueName, ExecutionPlan, ExecStep, swap}
use nofomo.Strategy.Level.{StrategyLevel, trade_direction}

pub data OrderStatus : Type 0 where
  pending submitted filled failed quarantined : OrderStatus

abbrev pub status_eq : OrderStatus → OrderStatus → Bool
status_eq pending pending = true
status_eq submitted submitted = true
status_eq filled filled = true
status_eq failed failed = true
status_eq quarantined quarantined = true
status_eq _ _ = false

pub data OrderState : Type 0 where
  -- amount_in, action_id
  withdrawing_state : ℕ → Text → OrderState
  -- step, amount_in, withdraw_action_id
  swap_ready_state : ExecStep → ℕ → Option Text → OrderState
  -- step, amount_in, signed_tx, tx_hash, withdraw_action_id
  broadcasting_state : ExecStep → ℕ → Text → Text → Option Text → OrderState
  -- step, amount_in, tx_hash, withdraw_action_id, submitted_at
  submitted_state : ExecStep → ℕ → Text → Option Text → ℤ → OrderState
  -- tx_hash, amount, action_id
  depositing_state : Text → ℕ → Text → OrderState
  -- tx_hash
  filled_state : Text → OrderState
  -- tx_hash, reason
  failed_state : Option Text → Text → OrderState
  -- amount_in, tx_hash, reason
  quarantined_state : ℕ → Option Text → Text → OrderState

pub record Order (V : Type 0) : Type 0 where
  pub id : Text
  pub level_id : Text
  pub venue : VenueName
  pub chain : Text
  pub token_in : Text
  pub token_out : Text
  pub reserved_amount : ℕ
  pub plan : ExecutionPlan V
  pub state : OrderState
  pub swap_attempts : ℕ  -- u32
  pub swap_retry_after_ts : Option ℤ
  pub created_at : ℤ

-- `Order::new`
unfoldable pub new_order : {V F : Type 0} → Text → StrategyLevel F → ExecutionPlan V → ℤ → Order V
new_order id entry plan created_at =
    let direction = trade_direction entry.strategy entry.level.side in
    record {
      id = id;
      level_id = entry.level.id;
      venue = entry.strategy.venue;
      chain = entry.strategy.chain;
      token_in = direction.token_in;
      token_out = direction.token_out;
      reserved_amount = entry.level.amount;
      plan = plan;
      state = swap_ready_state swap entry.level.amount none;
      swap_attempts = 0;
      swap_retry_after_ts = none;
      created_at = created_at;
    }

abbrev pub state_status : OrderState → OrderStatus
state_status (withdrawing_state amount_in action_id) = pending
state_status (swap_ready_state step amount_in withdraw) = pending
state_status (broadcasting_state step amount_in signed_tx tx_hash withdraw) = pending
state_status (submitted_state step amount_in tx_hash withdraw submitted_at) = submitted
state_status (depositing_state tx_hash amount action_id) = submitted
state_status (filled_state tx_hash) = filled
state_status (failed_state tx_hash reason) = failed
state_status (quarantined_state amount_in tx_hash reason) = quarantined

-- `Order::status`
unfoldable pub status : {V : Type 0} → Order V → OrderStatus
status order = state_status order.state

abbrev pub state_tx_hash : OrderState → Option Text
state_tx_hash (withdrawing_state amount_in action_id) = none
state_tx_hash (swap_ready_state step amount_in withdraw) = none
state_tx_hash (broadcasting_state step amount_in signed_tx tx_hash withdraw) = some tx_hash
state_tx_hash (submitted_state step amount_in tx_hash withdraw submitted_at) = some tx_hash
state_tx_hash (depositing_state tx_hash amount action_id) = some tx_hash
state_tx_hash (filled_state tx_hash) = some tx_hash
state_tx_hash (failed_state tx_hash reason) = tx_hash
state_tx_hash (quarantined_state amount_in tx_hash reason) = tx_hash

-- `Order::tx_hash`
unfoldable pub order_tx_hash : {V : Type 0} → Order V → Option Text
order_tx_hash order = state_tx_hash order.state

abbrev pub state_is_terminal : OrderState → Bool
state_is_terminal (filled_state tx_hash) = true
state_is_terminal (failed_state tx_hash reason) = true
state_is_terminal (quarantined_state amount_in tx_hash reason) = true
state_is_terminal _ = false

-- `Order::is_terminal`
unfoldable pub is_terminal : {V : Type 0} → Order V → Bool
is_terminal order = state_is_terminal order.state
