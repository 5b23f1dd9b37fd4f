-- ===== src/Orchestrator/Io.antt =====
-- What running an action does (crates/orchestrator/src/io.rs).
pub mod Effects
pub mod RoundTrip
pub mod Receipt
use nofomo.Prelude.{
  ℕ, ◌≡◌, Bool, true, false, not, List, [], ◌∷◌, ◌++◌, Text, msg, text_eq, Option, none, some,
  find?, first?, Result, ok, err, some_or, if◌then◌else◌,
}
use nofomo.Prelude.Int.{ℤ, add_i64, ltb_ℤ}
use nofomo.Domain.Chain.{
  ChainId, evm_chain, sui_chain, family, chain_name, DryRun, succeeded, failed, unsupported, note,
}
use nofomo.Domain.Model.{ExecutionPlan, plan_chain, venue_name, ExecStep}
use nofomo.Domain.Tx.{
  SuiSdk, SignedTx, evm_signed, sui_signed, to_wire, hash, sui_from_wire, ReceiptStatus, pending,
  success, reverted,
}
use nofomo.Strategy.Order.{Order, OrderState, submitted_state}
use nofomo.Orchestrator.Machine
use nofomo.Orchestrator.Machine.{Action, Outcome, receipt_deadline_secs}
use nofomo.Orchestrator.World.{
  History, TradeVenue, ChainClient, ExecDeps, Exec, ◌>>=◌, lift, call, in_context, steps_read,
  context_read, tx_built, tx_signed, simulated, receipt_read, clock_read, sent,
}

module _ {V : Type 0} {sdk : SuiSdk} (deps : ExecDeps V sdk) where
  pub venue : Text → Result (TradeVenue V sdk)
  venue name =
      some_or (msg "unsupported trade venue " ++ name)
        (find? (λ v. text_eq v.name name) deps.venues)

  unfoldable pub chain : ExecutionPlan V → Result (ChainClient V sdk)
  chain plan =
      some_or (msg "no chain client configured for " ++ chain_name (plan_chain plan))
        (deps.chains (plan_chain plan))

  pub sign : Order V → Exec V sdk Outcome
  sign order = do
    v ← lift (venue (venue_name order.venue))
    c ← lift (chain order.plan)
    steps ←
        in_context (msg "read the plan's remaining steps") (call (v.steps order.plan) steps_read)
    step ←
        lift
          (some_or (msg "venue reports no remaining steps for an unfinished plan") (first? steps))
    from ← lift (deps.signer.address (family (plan_chain order.plan)))
    ctx ← call (c.tx_context from) context_read
    unsigned ← call (v.build order.plan step ctx) tx_built
    tx ← call (deps.signer.sign unsigned) tx_signed
    wire ← lift (to_wire sdk tx)
    lift (ok (Machine.signed step wire (hash sdk tx)))

-- Decode according to the plan's chain family.
restore_at : {sdk : SuiSdk} → ChainId → Text → Text → Result (SignedTx sdk)
restore_at (evm_chain n) signed_tx tx_hash =
    ok (evm_signed (record { raw = signed_tx; hash = tx_hash }))
restore_at {sdk} sui_chain signed_tx tx_hash = elim (sui_from_wire sdk signed_tx) [
  | ok tx ↦ ok (sui_signed tx)
  | err e ↦ err e
]

unfoldable pub restore_signed :
    {V : Type 0} {sdk : SuiSdk} → ExecutionPlan V → Text → Text → Result (SignedTx sdk)
unfolding restore_at
restore_signed plan signed_tx tx_hash = restore_at (plan_chain plan) signed_tx tx_hash

abbrev deadline_of : OrderState → Option ℤ
deadline_of (submitted_state step amount_in tx_hash w submitted_at) =
    some (add_i64 submitted_at receipt_deadline_secs)
deadline_of _ = none

module _ {V : Type 0} {sdk : SuiSdk} (deps : ExecDeps V sdk) where
  abbrev dry_run_or : Result DryRun → DryRun
  dry_run_or (ok outcome) = outcome
  dry_run_or (err e) = unsupported

  simulate : Order V → Text → Text → Exec V sdk DryRun
  simulate order signed_tx tx_hash = do
    tx ← lift (restore_signed order.plan signed_tx tx_hash)
    c ← lift (chain deps order.plan)
    call (c.dry_run tx) simulated

  -- Reaching the node is best-effort: a failure to ask reads as nothing learned.
  pub dry_run : Order V → Text → Text → History V sdk → DryRun × History V sdk
  unfolding simulate
  dry_run order signed_tx tx_hash h =
      let (r, h') = simulate order signed_tx tx_hash h in (dry_run_or r, h')

  -- The clock is read only for the answer of a broadcast that went through.
  unfoldable pub broadcast : Order V → Text → Text → Exec V sdk Outcome
  broadcast order signed_tx tx_hash = do
    tx ← lift (restore_signed order.plan signed_tx tx_hash)
    c ← lift (chain deps order.plan)
    sent_hash ← call (c.broadcast tx) (sent tx)
    at ← call (λ h. ok (deps.now_unix h)) clock_read
    lift (ok (Machine.broadcast_done sent_hash at))

  -- Whether the deadline of a submitted order has passed; the clock is read only then.
  past_deadline : Option ℤ → History V sdk → Bool × History V sdk
  past_deadline none h = (false, h)
  past_deadline (some deadline) h = (ltb_ℤ deadline (deps.now_unix h), clock_read ∷ h)

  check_with : Order V → Text → Result (ChainClient V sdk) → History V sdk → Outcome × History V sdk
  check_with order tx_hash (err e) h = (Machine.still_pending, h)
  check_with order tx_hash (ok c) h =
      let answer = c.confirmation tx_hash h in
      let h' : History V sdk = receipt_read ∷ h in
      elim answer [
        | ok pending ↦
            let (past, h'') = past_deadline (deadline_of order.state) h' in
            (if past then Machine.receipt_timed_out else Machine.still_pending, h'')
        | ok success ↦ (Machine.confirmed, h')
        | ok reverted ↦ (Machine.reverted, h')
        | err e ↦ (Machine.still_pending, h')
      ]

  unfoldable pub check_receipt : Order V → Text → History V sdk → Outcome × History V sdk
  unfolding past_deadline check_with
  check_receipt order tx_hash h = check_with order tx_hash (chain deps order.plan) h

  -- Every failure becomes an outcome.
  abbrev recorded : Result Outcome → Outcome
  recorded (ok outcome) = outcome
  recorded (err e) = Machine.exec_failed e

  -- A signed transaction is sent only if that is allowed; otherwise it is only simulated.
  send_or_block : Bool → Order V → Text → Text → History V sdk → Outcome × History V sdk
  send_or_block true order signed_tx tx_hash h =
      let (r, h') = broadcast order signed_tx tx_hash h in (recorded r, h')
  send_or_block false order signed_tx tx_hash h =
      let (d, h') = dry_run order signed_tx tx_hash h in (Machine.broadcast_blocked (note d), h')

  unfoldable pub perform : Order V → Action → History V sdk → Outcome × History V sdk
  unfolding send_or_block
  perform order Machine.sign h = let (r, h') = sign deps order h in (recorded r, h')
  perform order (Machine.broadcast signed_tx tx_hash) h =
      send_or_block deps.allow_broadcast order signed_tx tx_hash h
  perform order (Machine.check_receipt tx_hash) h = check_receipt order tx_hash h
  perform order Machine.done h = (Machine.still_pending, h)
