-- ===== src/Orchestrator/Io/Receipt.antt =====
-- What is behind a confirmed outcome (crates/orchestrator/src/io.rs, `check_receipt`).
use nofomo.Prelude.{
  ◌≡◌, refl, ap, ◌⊎◌, inl, true, false, [], ◌∷◌, Text, Option, some, Result, ok, err, some_or-ok,
  if◌then◌else◌, Bool,
}
use nofomo.Prelude.Int.{ℤ}
use nofomo.Domain.Model.{ExecutionPlan, ExecStep, plan_chain}
use nofomo.Domain.Tx.{SuiSdk, ReceiptStatus, pending, success, reverted}
use nofomo.Strategy.Order.{Order, submitted_state}
use nofomo.Orchestrator.Machine
use nofomo.Orchestrator.Machine.{Outcome, next_action}
use nofomo.Orchestrator.World.{History, ChainClient, ExecDeps, receipt_read}
use nofomo.Orchestrator.Io.{chain, check_with, check_receipt, perform}

module _ {V : Type 0} {sdk : SuiSdk} (deps : ExecDeps V sdk) where
  -- The chain client of the plan, asked after the history `h`, answers that the transaction succeeded.
  pub record Succeeded (plan : ExecutionPlan V) (tx_hash : Text) (h : History V sdk) : Type 0 where
    pub client : ChainClient V sdk
    pub found : deps.chains (plan_chain plan) ≡ some client
    pub answer : client.confirmation tx_hash h ≡ ok success

  -- One of the receipts read in a history had that answer.
  abbrev pub HasReceipt : ExecutionPlan V → Text → History V sdk → Type 0
  HasReceipt plan tx_hash [] = ⊥
  HasReceipt plan tx_hash (receipt_read ∷ h) = Succeeded plan tx_hash h ⊎ HasReceipt plan tx_hash h
  HasReceipt plan tx_hash (_ ∷ h) = HasReceipt plan tx_hash h

  timed_out :
      (past : Bool)
      → (if past then Machine.receipt_timed_out else Machine.still_pending) ≡ Machine.confirmed
      → ⊥
  timed_out true h = cc
  timed_out false h = cc

  check_with-confirmed :
      (order : Order V) (tx_hash : Text) (c : Result (ChainClient V sdk)) (h : History V sdk)
      → chain deps order.plan ≡ c
      → (check_with deps order tx_hash c h).0 ≡ Machine.confirmed
      → HasReceipt order.plan tx_hash (check_with deps order tx_hash c h).1
  unfolding check_with chain
  check_with-confirmed order tx_hash (err e) h which k = cc
  check_with-confirmed order tx_hash (ok c) h which k = go (c.confirmation tx_hash h) refl k
    where
      go :
          (r : Result ReceiptStatus)
          → c.confirmation tx_hash h ≡ r
          → (check_with deps order tx_hash (ok c) h).0 ≡ Machine.confirmed
          → HasReceipt order.plan tx_hash (check_with deps order tx_hash (ok c) h).1
      go (ok success) e k =
          rw (e, check_with) (inl (record { client = c; found = some_or-ok _ _ which; answer = e }))
      go (ok pending) e k = absurd (timed_out _ (rw (e, check_with) at k))
      go (ok reverted) e k = absurd (cc (rw (e, check_with) at k))
      go (err x) e k = absurd (cc (rw (e, check_with) at k))

  checks :
      (order : Order V) {step : ExecStep} {amount_in : _} {tx_hash : Text} {w : Option Text}
      {at : ℤ}
      → order.state ≡ submitted_state step amount_in tx_hash w at
      → next_action order ≡ Machine.check_receipt tx_hash
  unfolding next_action
  checks order e = ap Machine.state_action e

  -- A submitted order's round has a confirmed outcome only by such a receipt.
  pub perform-confirmed :
      (order : Order V) (h : History V sdk) {step : ExecStep} {amount_in : _} {tx_hash : Text}
      {w : Option Text} {at : ℤ}
      → order.state ≡ submitted_state step amount_in tx_hash w at
      → (perform deps order (next_action order) h).0 ≡ Machine.confirmed
      → HasReceipt order.plan tx_hash (perform deps order (next_action order) h).1
  unfolding perform check_receipt
  perform-confirmed order h {tx_hash = tx} e k =
      let next = checks order e in
      rw next (check_with-confirmed order tx (chain deps order.plan) h refl (rw next at k))
