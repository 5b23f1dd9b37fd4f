-- ===== src/Orchestrator/Run/Blocked.antt =====
-- Sweeps with broadcasting off (crates/orchestrator/src/run.rs, crates/orchestrator/src/io.rs).
use nofomo.Prelude.{
  ◌≡◌, refl, ap, ◌∙◌, true, false, not, filter, List, [], ◌∷◌, Result, ok, err, context, msg,
}
use nofomo.Domain.Tx.{SuiSdk, SignedTx}
use nofomo.Strategy.Order.{Order, is_terminal}
use nofomo.Orchestrator.World.{History, Event, ExecDeps, OrderStore, sent, orders_read}
use nofomo.Orchestrator.Table.{Quietly, silent, heard, quiet}
use nofomo.Orchestrator.Io.Effects.{PerformEffect, nothing, sending, quietly, by_sending}
use nofomo.Orchestrator.Run.{Round, drive_order, drive_all, drive_open, sweep}
use nofomo.Orchestrator.Run.Progress.{Progress, rested, wrote, lost}
use nofomo.Orchestrator.Run.Induction.{drive_order_inv}

module _ {V : Type 0} {sdk : SuiSdk} where
  -- The transactions that were handed to a node for good, the latest first.
  abbrev pub sent_txs : History V sdk → List (SignedTx sdk)
  sent_txs [] = []
  sent_txs (sent tx ∷ h) = tx ∷ sent_txs h
  sent_txs (_ ∷ h) = sent_txs h

  quiet-sent_txs :
      (e : Event V sdk) (h : History V sdk) → quiet e ≡ true → sent_txs (e ∷ h) ≡ sent_txs h
  quiet-sent_txs (sent tx) h q = cc
  quiet-sent_txs _ h q = refl

  Quietly-sent_txs : {h k : History V sdk} → Quietly h k → sent_txs k ≡ sent_txs h
  Quietly-sent_txs silent = refl
  Quietly-sent_txs (heard {k = k} e q r) = quiet-sent_txs e k q ∙ Quietly-sent_txs r

module _ {V : Type 0} {sdk : SuiSdk} (deps : ExecDeps V sdk) (orders : OrderStore V sdk)
    (off : deps.allow_broadcast ≡ false) where
  effect-sent_txs :
      {order : Order V} {h k : History V sdk}
      → PerformEffect deps order h k
      → sent_txs k ≡ sent_txs h
  effect-sent_txs (nothing q) = Quietly-sent_txs q
  effect-sent_txs (sending a b raw hash w e (quietly q)) = Quietly-sent_txs q
  effect-sent_txs (sending a b raw hash w e (by_sending tx r allowed f q)) = cc

  Progress-sent_txs :
      {order : Order V} {h k : History V sdk} {q : Round V}
      → Progress deps orders order h q k
      → sent_txs k ≡ sent_txs h
  Progress-sent_txs (rested p e) = effect-sent_txs p
  Progress-sent_txs (wrote m next p f e c) = ap sent_txs e ∙ effect-sent_txs p
  Progress-sent_txs (lost m next x y p f e c) = ap sent_txs e ∙ effect-sent_txs p

  drive_order-sent_txs :
      (order : Order V) (h : History V sdk)
      → sent_txs (drive_order deps orders order h).2 ≡ sent_txs h
  drive_order-sent_txs order h =
      drive_order_inv deps orders (λ o g. sent_txs g ≡ sent_txs h)
        (λ r o g. sent_txs g ≡ sent_txs h) (λ o next g k r p step. Progress-sent_txs step ∙ p)
        (λ o next g k p step. Progress-sent_txs step ∙ p) (λ o g p. p) order h refl

  drive_all-sent_txs :
      (open_orders : List (Order V)) (h : History V sdk)
      → sent_txs (drive_all deps orders open_orders h) ≡ sent_txs h
  unfolding drive_all
  drive_all-sent_txs [] h = refl
  drive_all-sent_txs (order ∷ rest) h =
      drive_all-sent_txs rest (drive_order deps orders order h).2 ∙ drive_order-sent_txs order h

  drive_open-sent_txs :
      (listed : Result (List (Order V))) (h : History V sdk)
      → sent_txs (drive_open deps orders listed h).1 ≡ sent_txs h
  unfolding drive_open
  drive_open-sent_txs (ok stored) h =
      drive_all-sent_txs (filter (λ o. not (is_terminal o)) stored) h
  drive_open-sent_txs (err e) h = refl

  -- A whole sweep with broadcasting off calls `broadcast` of no chain client, whatever the ports
  -- answer and whatever orders are stored; a dry run is not counted.
  pub sweep-sent_txs : (h : History V sdk) → sent_txs (sweep deps orders h).1 ≡ sent_txs h
  unfolding sweep
  sweep-sent_txs h =
      drive_open-sent_txs (context (msg "list orders") (orders.list_orders h)) (orders_read ∷ h)
