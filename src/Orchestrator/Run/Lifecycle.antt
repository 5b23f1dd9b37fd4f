-- ===== src/Orchestrator/Run/Lifecycle.antt =====
-- How a pass ends an order, and what it does to one that has ended (crates/orchestrator/src/run.rs,
-- `drive_order`).
use nofomo.Prelude.{
  ℕ, zero, suc, ◌≡◌, refl, sym, ap, ◌∙◌, ◌⊎◌, inl, inr, Bool, true, false, ◌∷◌, Text, Option, none,
  some, Result, ok, err, arith,
}
use mathlib.Core.Path.{subst}
use nofomo.Prelude.Int.{ℤ}
use nofomo.Domain.Model.{ExecutionPlan, ExecStep, swap}
use nofomo.Domain.Tx.{SuiSdk}
use nofomo.Strategy.Order.{
  Order, OrderState, submitted_state, filled_state, state_is_terminal, is_terminal,
}
use nofomo.Orchestrator.Machine.{
  state_action, Outcome, confirmed, Transition, moved, unchanged, invalid, next_action, apply,
}
use nofomo.Orchestrator.Machine.Diagram.{apply-Edge}
use nofomo.Orchestrator.Machine.Reach.{stake, Reach-stake, fill_source}
use nofomo.Orchestrator.World.{History, ExecDeps, OrderStore, clock_read, upsert}
use nofomo.Orchestrator.Io.{perform}
use nofomo.Orchestrator.Io.Receipt.{HasReceipt, perform-confirmed}
use nofomo.Orchestrator.Run.{
  Round, returned, again, is_done, is_still_pending, backing_off, after_write, retry_later,
  wait_or_retry, settle, act, proceed, round, resume, rounds, drive_order, max_transitions_per_pass,
}
use nofomo.Orchestrator.Run.Durability.{round_order, drive_order-Continues}
use nofomo.Orchestrator.Run.Progress.{Progress, rested, wrote, lost, round-Progress}

module _ {V : Type 0} {sdk : SuiSdk} (deps : ExecDeps V sdk) (orders : OrderStore V sdk) where
  -- Whatever the ports answer, a pass leaves the amount to spend and the withdrawal behind it what
  -- they were, or the order terminal.
  pub drive_order-stake :
      (order : Order V) (h : History V sdk)
      → let next = (drive_order deps orders order h).1 in
        (stake next.state ≡ stake order.state) ⊎ (state_is_terminal next.state ≡ true)
  drive_order-stake order h = Reach-stake (drive_order-Continues deps orders order h).state

  terminal-done : (order : Order V) → is_terminal order ≡ true → is_done (next_action order) ≡ true
  unfolding is_terminal next_action
  terminal-done order h = ground arith

  proceed-terminal :
      (waiting : Bool) (order : Order V) (m : History V sdk)
      → is_terminal order ≡ true
      → proceed deps orders waiting order m ≡ (returned (ok tt) order, m)
  unfolding proceed act
  proceed-terminal true order m over = refl
  proceed-terminal false order m over = rw (terminal-done order over) refl

  rounds-terminal :
      (n : ℕ) (order : Order V) (h : History V sdk)
      → is_terminal order ≡ true
      → rounds deps orders (suc n) order h
        ≡ (ok tt, order, (backing_off deps orders order.swap_retry_after_ts h).1)
  unfolding rounds round resume
  rounds-terminal n order h over =
      let (waiting, m) = backing_off deps orders order.swap_retry_after_ts h in
      rw (proceed-terminal waiting order m over) refl

  backing_off-calls :
      (at : Option ℤ) (h : History V sdk)
      → ((backing_off deps orders at h).1 ≡ h) ⊎ ((backing_off deps orders at h).1 ≡ clock_read ∷ h)
  unfolding backing_off
  backing_off-calls none h = inl refl
  backing_off-calls (some at) h = inr refl

  -- A pass over a terminal order succeeds, leaves the order as it is, and makes no call but at most one
  -- reading of the clock.
  pub drive_order-terminal :
      (order : Order V) (h : History V sdk)
      → is_terminal order ≡ true
      → let (r, next, k) = drive_order deps orders order h in
        (r ≡ ok tt) × (next ≡ order) × ((k ≡ h) ⊎ (k ≡ clock_read ∷ h))
  unfolding drive_order
  drive_order-terminal order h over =
      rw (rounds-terminal 11 order h over)
        (refl, refl, backing_off-calls order.swap_retry_after_ts h)

  -- An order is filled only by a receipt.
  abbrev ByReceipt : ExecutionPlan V → Order V → History V sdk → Type 0
  ByReceipt plan o k = (t : Text) → o.state ≡ filled_state t → HasReceipt deps plan t k

  busy_not_filled :
      (order : Order V) (t : Text)
      → is_done (next_action order) ≡ false
      → order.state ≡ filled_state t
      → ⊥
  unfolding next_action
  busy_not_filled order t busy e =
      let over : is_done (next_action order) ≡ true =
        ap (λ (s : OrderState). is_done (state_action s)) e in
      cc

  after_write-order :
      (r : Result (Unit {0})) (order : Order V) (pending : Bool)
      → round_order (after_write deps orders r order pending) ≡ order
  unfolding after_write
  after_write-order (err e) order pending = refl
  after_write-order (ok u) order true = refl
  after_write-order (ok u) order false = refl

  wait_or_retry-state :
      (pending : Bool) (order : Order V) (m : History V sdk)
      → (round_order (wait_or_retry deps orders pending order m).0).state ≡ order.state
  unfolding wait_or_retry retry_later
  wait_or_retry-state true order m = refl
  wait_or_retry-state false order m = refl

  -- What a round does with an outcome: the order is filled only if a receipt is behind it.
  settle-ByReceipt :
      (order : Order V) (outcome : Outcome) (m : History V sdk) (t : Transition)
      → is_done (next_action order) ≡ false
      → ((step : ExecStep) (amount_in : ℕ) (tx : Text) (w : Option Text) (at : ℤ)
          → order.state ≡ submitted_state step amount_in tx w at
          → outcome ≡ confirmed
          → HasReceipt deps order.plan tx m)
      → apply order outcome ≡ t
      → let (q, k) = settle deps orders order outcome t m in ByReceipt order.plan (round_order q) k
  unfolding settle upsert
  settle-ByReceipt order outcome m (moved next) busy behind e t filled =
      let order' : Order V = record order { state = next; swap_retry_after_ts = none } in
      let (r, k) = upsert orders order' m in
      let state : next ≡ filled_state t =
        sym (ap (λ (o : Order V). o.state) (after_write-order r order' (is_still_pending outcome)))
        ∙ filled in
      let (outcome_is, a, w, at, from) = fill_source (apply-Edge order outcome e) state in
      behind swap a t w at from outcome_is
  settle-ByReceipt order outcome m unchanged busy behind e t filled = absurd (
      busy_not_filled order t busy
        (sym (wait_or_retry-state (is_still_pending outcome) order m) ∙ filled))
  settle-ByReceipt order outcome m (invalid a b c) busy behind e t filled =
      absurd (busy_not_filled order t busy filled)

  act-ByReceipt :
      (over : Bool) (order : Order V) (m : History V sdk)
      → is_done (next_action order) ≡ over
      → ByReceipt order.plan order m
      → let (q, k) = act deps orders over order (next_action order) m in
        ByReceipt order.plan (round_order q) k
  unfolding act
  act-ByReceipt true order m e before = before
  act-ByReceipt false order m busy before =
      let (outcome, k) = perform deps order (next_action order) m in
      settle-ByReceipt order outcome k (apply order outcome) busy
        (λ step a tx w at from is. perform-confirmed deps order m from is) refl

  backing_off-ByReceipt :
      (plan : ExecutionPlan V) (order : Order V) (at : Option ℤ) (h : History V sdk)
      → ByReceipt plan order h
      → ByReceipt plan order (backing_off deps orders at h).1
  unfolding backing_off
  backing_off-ByReceipt plan order none h before = before
  backing_off-ByReceipt plan order (some at) h before = before

  proceed-ByReceipt :
      (waiting : Bool) (order : Order V) (m : History V sdk)
      → ByReceipt order.plan order m
      → let (q, k) = proceed deps orders waiting order m in ByReceipt order.plan (round_order q) k
  unfolding proceed
  proceed-ByReceipt true order m before = before
  proceed-ByReceipt false order m before =
      act-ByReceipt (is_done (next_action order)) order m refl before

  round-ByReceipt :
      (order : Order V) (h : History V sdk)
      → ByReceipt order.plan order h
      → let (q, k) = round deps orders order h in ByReceipt order.plan (round_order q) k
  unfolding round
  round-ByReceipt order h before =
      let (waiting, m) = backing_off deps orders order.swap_retry_after_ts h in
      proceed-ByReceipt waiting order m
        (backing_off-ByReceipt order.plan order order.swap_retry_after_ts h before)

  Progress-plan :
      {order : Order V} {h k : History V sdk} {q : Round V}
      → Progress deps orders order h q k
      → (round_order q).plan ≡ order.plan
  Progress-plan (rested p e) = ap (λ (q : Round V). (round_order q).plan) e
  Progress-plan (wrote m next p f e (inl c)) = ap (λ (q : Round V). (round_order q).plan) c ∙ f.plan
  Progress-plan (wrote m next p f e (inr c)) = ap (λ (q : Round V). (round_order q).plan) c ∙ f.plan
  Progress-plan (lost m next x y p f e c) = ap (λ (q : Round V). (round_order q).plan) c ∙ f.plan

  resume-ByReceipt :
      (plan : ExecutionPlan V) (n : ℕ) (q : Round V) (k : History V sdk)
      → ((order : Order V) (h : History V sdk)
          → order.plan ≡ plan
          → ByReceipt plan order h
          → let (r, next, l) = rounds deps orders n order h in ByReceipt plan next l)
      → (round_order q).plan ≡ plan
      → ByReceipt plan (round_order q) k
      → let (r, next, l) = resume deps orders (rounds deps orders n) q k in ByReceipt plan next l
  unfolding resume
  resume-ByReceipt plan n (returned r o) k onwards same before = before
  resume-ByReceipt plan n (again o) k onwards same before = onwards o k same before

  rounds-ByReceipt :
      (plan : ExecutionPlan V) (n : ℕ) (order : Order V) (h : History V sdk)
      → order.plan ≡ plan
      → ByReceipt plan order h
      → let (r, next, k) = rounds deps orders n order h in ByReceipt plan next k
  unfolding rounds
  rounds-ByReceipt plan zero order h same before = before
  rounds-ByReceipt plan (suc n) order h same before =
      let (q, k) = round deps orders order h in
      resume-ByReceipt plan n q k (λ o g e b. rounds-ByReceipt plan n o g e b)
        (Progress-plan (round-Progress deps orders order h) ∙ same)
        (subst (λ (p : ExecutionPlan V). ByReceipt p (round_order q) k) same
          (round-ByReceipt order h
            (subst (λ (p : ExecutionPlan V). ByReceipt p order h) (sym same) before)))

  -- A pass ends an order that was not terminal as filled only if the chain client of the order's plan
  -- answered, at a receipt check in the history that the pass leaves, that the transaction of that hash
  -- succeeded.
  pub drive_order-filled :
      (order : Order V) (h : History V sdk) {tx_hash : Text}
      → is_terminal order ≡ false
      → (drive_order deps orders order h).1.state ≡ filled_state tx_hash
      → HasReceipt deps order.plan tx_hash (drive_order deps orders order h).2
  unfolding drive_order is_terminal
  drive_order-filled order h {tx_hash = tx} live filled =
      rounds-ByReceipt order.plan max_transitions_per_pass order h refl (λ t e. absurd (never t e))
        tx filled
    where
      never : (t : Text) → order.state ≡ filled_state t → ⊥
      never t e = let over : state_is_terminal order.state ≡ true = ap state_is_terminal e in cc
