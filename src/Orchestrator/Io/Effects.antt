-- ===== src/Orchestrator/Io/Effects.antt =====
-- What an action adds to the history (crates/orchestrator/src/io.rs).
use nofomo.Prelude.{
  ℕ, ◌≡◌, refl, ◌∙◌, Bool, true, false, ◌∷◌, Text, Option, none, some, Result, ok, err,
}
use nofomo.Prelude.Int.{ℤ}
use nofomo.Domain.Model.{ExecStep}
use nofomo.Domain.Tx.{SuiSdk, SignedTx, ReceiptStatus, pending, success, reverted}
use nofomo.Strategy.Order.{
  Order, OrderState, withdrawing_state, swap_ready_state, broadcasting_state, submitted_state,
  depositing_state, filled_state, failed_state, quarantined_state,
}
use nofomo.Orchestrator.Machine
use nofomo.Orchestrator.Machine.{Action, Outcome, next_action, state_action}
use nofomo.Orchestrator.World.{
  History, ChainClient, ExecDeps, continue, ◌>>=◌, lift, call, clock_read, receipt_read, sent,
}
use nofomo.Orchestrator.Io.{
  sign, simulate, dry_run, broadcast, past_deadline, deadline_of, check_with, check_receipt,
  send_or_block, perform, chain, restore_signed,
}
use nofomo.Orchestrator.Table.{
  Quietly, silent, heard, Quietly-trans, IsQuiet, quiet_rules, IsSafe, stored, Quietly-stored,
  Quietly-IsSafe,
}

module _ {V : Type 0} {sdk : SuiSdk} (deps : ExecDeps V sdk) where
  sign-IsQuiet : (order : Order V) → IsQuiet (sign deps order)
  unfolding sign
  sign-IsQuiet order = search quiet_rules depth 30

  simulate-IsQuiet :
      (order : Order V) (signed_tx tx_hash : Text) → IsQuiet (simulate deps order signed_tx tx_hash)
  unfolding simulate
  simulate-IsQuiet order signed_tx tx_hash = search quiet_rules depth 12

  dry_run-Quietly :
      (order : Order V) (signed_tx tx_hash : Text) (h : History V sdk)
      → Quietly h (dry_run deps order signed_tx tx_hash h).1
  unfolding dry_run
  dry_run-Quietly order signed_tx tx_hash h = (simulate-IsQuiet order signed_tx tx_hash).at h

  past_deadline-Quietly : (d : Option ℤ) (h : History V sdk) → Quietly h (past_deadline deps d h).1
  unfolding past_deadline
  past_deadline-Quietly none h = silent
  past_deadline-Quietly (some d) h = heard clock_read refl silent

  check_with-Quietly :
      (order : Order V) (tx_hash : Text) (c : Result (ChainClient V sdk)) (h : History V sdk)
      → Quietly h (check_with deps order tx_hash c h).1
  unfolding check_with
  check_with-Quietly order tx_hash (err e) h = silent
  check_with-Quietly order tx_hash (ok c) h = go (c.confirmation tx_hash h) refl
    where
      heard_receipt : Quietly h (receipt_read ∷ h)
      heard_receipt = heard receipt_read refl silent

      go :
          (r : Result ReceiptStatus)
          → c.confirmation tx_hash h ≡ r
          → Quietly h (check_with deps order tx_hash (ok c) h).1
      go (ok pending) e =
          rw (e, check_with)
            (Quietly-trans heard_receipt (past_deadline-Quietly (deadline_of order.state) _))
      go (ok success) e = rw (e, check_with) heard_receipt
      go (ok reverted) e = rw (e, check_with) heard_receipt
      go (err x) e = rw (e, check_with) heard_receipt

  check_receipt-Quietly :
      (order : Order V) (tx_hash : Text) (h : History V sdk)
      → Quietly h (check_receipt deps order tx_hash h).1
  unfolding check_receipt
  check_receipt-Quietly order tx_hash h = check_with-Quietly order tx_hash (chain deps order.plan) h

  -- What an action of an order may do to the history.
  pub data Effect (order : Order V) (signed_tx tx_hash : Text) (h : History V sdk)
      : History V sdk → Type 0 where
    -- It neither sent nor wrote.
    quietly : {k : History V sdk} → Quietly h k → Effect order signed_tx tx_hash h k
    -- Broadcasting is allowed, and it sent what the bytes decode to.
    by_sending :
        {m k : History V sdk} (tx : SignedTx sdk)
        → Quietly h m
        → deps.allow_broadcast ≡ true
        → restore_signed order.plan signed_tx tx_hash ≡ ok tx
        → Quietly (sent tx ∷ m) k
        → Effect order signed_tx tx_hash h k

  broadcast-Effect :
      (order : Order V) (signed_tx tx_hash : Text) (h : History V sdk)
      → deps.allow_broadcast ≡ true
      → Effect order signed_tx tx_hash h (broadcast deps order signed_tx tx_hash h).1
  unfolding broadcast
  broadcast-Effect order signed_tx tx_hash h allowed =
      go (restore_signed order.plan signed_tx tx_hash) refl (chain deps order.plan) refl
    where
      after_send :
          (c : ChainClient V sdk) (tx : SignedTx sdk) (k : History V sdk)
          → (r : Result Text)
          → Quietly
              (sent tx ∷ k)
              (continue r
                (λ sent_hash. do
                  at ← call (λ g. ok (deps.now_unix g)) clock_read
                  lift (ok (Machine.broadcast_done sent_hash at)))
                (sent tx ∷ k)).1
      after_send c tx k (ok x) = heard clock_read refl silent
      after_send c tx k (err x) = silent

      go :
          (r : Result (SignedTx sdk))
          → restore_signed order.plan signed_tx tx_hash ≡ r
          → (c : Result (ChainClient V sdk)) → chain deps order.plan ≡ c
          → Effect order signed_tx tx_hash h (broadcast deps order signed_tx tx_hash h).1
      go (err x) e c f = rw (e, broadcast) (quietly silent)
      go (ok tx) e (err x) f = rw (e, f, broadcast) (quietly silent)
      go (ok tx) e (ok c) f =
          rw (e, f, broadcast)
            (by_sending tx silent allowed e (after_send c tx h (c.broadcast tx h)))

  -- What the next action of an order may do to the history.
  pub data PerformEffect (order : Order V) (h k : History V sdk) : Type 0 where
    nothing : Quietly h k → PerformEffect order h k
    sending :
        (step : ExecStep) (amount_in : ℕ) (signed_tx tx_hash : Text) (w : Option Text)
        → order.state ≡ broadcasting_state step amount_in signed_tx tx_hash w
        → Effect order signed_tx tx_hash h k
        → PerformEffect order h k

  send_or_block-effect :
      (allowed : Bool) (order : Order V) (h : History V sdk) (step : ExecStep) (amount_in : ℕ)
      (raw hash : Text) (w : Option Text)
      → deps.allow_broadcast ≡ allowed
      → order.state ≡ broadcasting_state step amount_in raw hash w
      → PerformEffect order h (send_or_block deps allowed order raw hash h).1
  unfolding send_or_block
  send_or_block-effect true order h a b raw hash w allowed e =
      sending a b raw hash w e (broadcast-Effect order raw hash h allowed)
  send_or_block-effect false order h a b raw hash w blocked e =
      nothing (dry_run-Quietly order raw hash h)

  state_action-effect :
      (order : Order V) (h : History V sdk) (s : OrderState)
      → order.state ≡ s
      → PerformEffect order h (perform deps order (state_action s) h).1
  unfolding perform
  state_action-effect order h (withdrawing_state a b) e = nothing silent
  state_action-effect order h (swap_ready_state a b c) e = nothing ((sign-IsQuiet order).at h)
  state_action-effect order h (broadcasting_state a b raw hash w) e =
      send_or_block-effect deps.allow_broadcast order h a b raw hash w refl e
  state_action-effect order h (submitted_state a b hash w at) e =
      nothing (check_receipt-Quietly order hash h)
  state_action-effect order h (depositing_state a b c) e = nothing silent
  state_action-effect order h (filled_state a) e = nothing silent
  state_action-effect order h (failed_state a b) e = nothing silent
  state_action-effect order h (quarantined_state a b c) e = nothing silent

  pub perform-PerformEffect :
      (order : Order V) (h : History V sdk)
      → PerformEffect order h (perform deps order (next_action order) h).1
  unfolding next_action
  perform-PerformEffect order h = state_action-effect order h order.state refl

  -- What an action does keeps the table.
  pub PerformEffect-stored :
      {order : Order V} {h k : History V sdk}
      → PerformEffect order h k
      → (id : Text) → stored k id ≡ stored h id
  PerformEffect-stored (nothing q) id = Quietly-stored q id
  PerformEffect-stored (sending a b raw hash w e (quietly q)) id = Quietly-stored q id
  PerformEffect-stored (sending a b raw hash w e (by_sending tx b' allowed f q)) id =
      Quietly-stored q id ∙ Quietly-stored b' id

  -- What an action of a stored order sends is what its row holds.
  pub PerformEffect-IsSafe :
      {order : Order V} {h k : History V sdk}
      → PerformEffect order h k
      → stored h order.id ≡ some order
      → IsSafe h
      → IsSafe k
  PerformEffect-IsSafe (nothing q) row s = Quietly-IsSafe q s
  PerformEffect-IsSafe (sending a b raw hash w e (quietly q)) row s = Quietly-IsSafe q s
  PerformEffect-IsSafe {order} (sending a b raw hash w e (by_sending tx b' allowed f q)) row s =
      Quietly-IsSafe q (
        record {
          order = order;
          row = Quietly-stored b' order.id ∙ row;
          step = a;
          amount_in = b;
          signed_tx = raw;
          tx_hash = hash;
          withdraw = w;
          ready = e;
          decoded = f;
        },
        Quietly-IsSafe b' s,
      )
