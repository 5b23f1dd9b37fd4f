-- ===== src/Orchestrator/Run/Induction.antt =====
-- The invariant rule of the loop over rounds (crates/orchestrator/src/run.rs, `drive_order`).
use nofomo.Prelude.{ℕ, zero, suc, Result, ok}
use nofomo.Domain.Tx.{SuiSdk}
use nofomo.Strategy.Order.{Order}
use nofomo.Orchestrator.World.{History, ExecDeps, OrderStore}
use nofomo.Orchestrator.Run.{
  Round, returned, again, Pass, round, resume, rounds, drive_order, max_transitions_per_pass,
}
use nofomo.Orchestrator.Run.Progress.{Progress, round-Progress}

module _ {V : Type 0} {sdk : SuiSdk} (deps : ExecDeps V sdk) (orders : OrderStore V sdk)
    (P : Order V → History V sdk → Type 0)
    (Q : Result (Unit {0}) → Order V → History V sdk → Type 0)
    (on_return : (order next : Order V) (h k : History V sdk) (r : Result (Unit {0}))
      → P order h
      → Progress deps orders order h (returned r next) k
      → Q r next k)
    (on_again : (order next : Order V) (h k : History V sdk)
      → P order h
      → Progress deps orders order h (again next) k
      → P next k)
    (on_stop : (order : Order V) (h : History V sdk) → P order h → Q (ok tt) order h) where
  abbrev Ends : Pass deps orders → Type 0
  Ends pass = Q pass.0 pass.1 pass.2

  resume-Ends :
      (rest : Order V → History V sdk → Pass deps orders) (order : Order V) (q : Round V)
      (h k : History V sdk)
      → ((next : Order V) (l : History V sdk) → P next l → Ends (rest next l))
      → P order h
      → Progress deps orders order h q k
      → Ends (resume deps orders rest q k)
  unfolding resume
  resume-Ends rest order (returned r next) h k f p g = on_return order next h k r p g
  resume-Ends rest order (again next) h k f p g = f next k (on_again order next h k p g)

  rounds-Ends :
      (n : ℕ) (order : Order V) (h : History V sdk)
      → P order h
      → Ends (rounds deps orders n order h)
  unfolding rounds
  rounds-Ends zero order h p = on_stop order h p
  rounds-Ends (suc n) order h p =
      let (q, k) = round deps orders order h in
      resume-Ends (rounds deps orders n) order q h k (λ next l. rounds-Ends n next l) p
        (round-Progress deps orders order h)

  -- An invariant of the rounds holds when the loop has ended.
  pub drive_order_inv :
      (order : Order V) (h : History V sdk)
      → P order h
      → let (r, next, k) = drive_order deps orders order h in Q r next k
  unfolding drive_order
  drive_order_inv order h p = rounds-Ends max_transitions_per_pass order h p
