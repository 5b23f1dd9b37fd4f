-- ===== src/Orchestrator/Run/Sweep.antt =====
-- The order table over a sweep of all open orders (crates/orchestrator/src/run.rs, `sweep`).
use nofomo.Prelude.{
  ◌≡◌, refl, ap, ◌∙◌, false, not, filter, All, List, [], ◌∷◌, Text, text_eq, some, Result, ok, err,
  context, msg, inl, inr,
}
use nofomo.Prelude.Keys.{Distinct, Distinct-filter, All-filter}
use nofomo.Domain.Tx.{SuiSdk}
use nofomo.Strategy.Order.{Order, is_terminal}
use nofomo.Orchestrator.World.{History, ExecDeps, OrderStore, upserted, orders_read}
use nofomo.Orchestrator.Table.{stored, IsSafe}
use nofomo.Orchestrator.Io.Effects.{PerformEffect, PerformEffect-stored}
use nofomo.Orchestrator.Run.{Round, drive_order, drive_all, drive_open, sweep}
use nofomo.Orchestrator.Run.Progress.{Progress, rested, wrote, lost}
use nofomo.Orchestrator.Run.Induction.{drive_order_inv}
use nofomo.Orchestrator.Run.Durability.{drive_order-durable, round_order}

-- The ids of the listed orders differ: the id is the table's key.
abbrev pub Keyed : {V : Type 0} → List (Order V) → Type 0
Keyed {V} os = Distinct (λ (o : Order V). o.id) os

module _ {V : Type 0} {sdk : SuiSdk} (deps : ExecDeps V sdk) (orders : OrderStore V sdk) where
  written_other :
      {order : Order V} {h m k : History V sdk} (next : Order V) (r : Result (Unit {0})) (id : Text)
      → text_eq order.id id ≡ false
      → PerformEffect deps order h m
      → next.id ≡ order.id
      → k ≡ upserted next r ∷ m
      → stored k id ≡ stored h id
  written_other {m = m} next (ok u) id ne p same e =
      rw (e, same, ne) (PerformEffect-stored deps p id)
  written_other {m = m} next (err x) id ne p same e = rw e (PerformEffect-stored deps p id)

  Progress-other :
      {order : Order V} {h k : History V sdk} {q : Round V} (id : Text)
      → text_eq order.id id ≡ false
      → Progress deps orders order h q k
      → (stored k id ≡ stored h id) × ((round_order q).id ≡ order.id)
  Progress-other id ne (rested p e) = (PerformEffect-stored deps p id, rw e)
  Progress-other id ne (wrote m next p f e (inl c)) =
      (written_other next (ok tt) id ne p f.id e, rw c f.id)
  Progress-other id ne (wrote m next p f e (inr c)) =
      (written_other next (ok tt) id ne p f.id e, rw c f.id)
  Progress-other id ne (lost m next x y p f e c) =
      (written_other next (err x) id ne p f.id e, rw c f.id)

  -- A pass over one order leaves the rows of all other ids as they were.
  pub drive_order-other :
      (order : Order V) (h : History V sdk) (id : Text)
      → text_eq order.id id ≡ false
      → stored (drive_order deps orders order h).2 id ≡ stored h id
  drive_order-other order h id ne =
      drive_order_inv deps orders (λ o g. (stored g id ≡ stored h id) × (o.id ≡ order.id))
        (λ r o g. stored g id ≡ stored h id)
        (λ o next g k r p step. (Progress-other id (ap (λ t. text_eq t id) p.1 ∙ ne) step).0 ∙ p.0)
        (λ o next g k p step.
          kept o next g k p (Progress-other id (ap (λ t. text_eq t id) p.1 ∙ ne) step))
        (λ o g p. p.0) order h (refl, refl)
    where
      kept :
          (o next : Order V) (g k : History V sdk)
          → (stored g id ≡ stored h id) × (o.id ≡ order.id)
          → (stored k id ≡ stored g id) × (next.id ≡ o.id)
          → (stored k id ≡ stored h id) × (next.id ≡ order.id)
      kept o next g k p q = (q.0 ∙ p.0, q.1 ∙ p.1)

  rows_kept :
      (order : Order V) (h : History V sdk) (os : List (Order V))
      → All (λ (p : Order V). text_eq order.id p.id ≡ false) os
      → All (λ (o : Order V). stored h o.id ≡ some o) os
      → All (λ (o : Order V). stored (drive_order deps orders order h).2 o.id ≡ some o) os
  rows_kept order h [] ne rows = tt
  rows_kept order h (o ∷ os) ne rows =
      (drive_order-other order h o.id ne.0 ∙ rows.0, rows_kept order h os ne.1 rows.1)

  drive_all-IsSafe :
      (os : List (Order V)) (h : History V sdk)
      → Keyed os
      → All (λ (o : Order V). stored h o.id ≡ some o) os
      → IsSafe h
      → IsSafe (drive_all deps orders os h)
  unfolding drive_all
  drive_all-IsSafe [] h d rows s = s
  drive_all-IsSafe (o ∷ os) h d rows s =
      drive_all-IsSafe os (drive_order deps orders o h).2 d.1 (rows_kept o h os d.0 rows.1)
        (drive_order-durable deps orders o h rows.0 s).0

  -- What the store's listing promises: the stored rows, each id once.
  abbrev pub ListsRows : Type 0
  ListsRows =
      (h : History V sdk) (os : List (Order V))
      → orders.list_orders h ≡ ok os
      → Keyed os × All (λ (o : Order V). stored h o.id ≡ some o) os

  drive_open-IsSafe :
      (r : Result (List (Order V))) (h : History V sdk)
      → ((os : List (Order V))
          → r ≡ ok os
          → Keyed os × All (λ (o : Order V). stored h o.id ≡ some o) os)
      → IsSafe h
      → IsSafe (drive_open deps orders (context (msg "list orders") r) (orders_read ∷ h)).1
  unfolding drive_open
  drive_open-IsSafe (ok os) h lists s =
      drive_all-IsSafe (filter (λ o. not (is_terminal o)) os) (orders_read ∷ h)
        (Distinct-filter _ _ os (lists os refl).0) (All-filter _ _ os (lists os refl).1) (tt, s)
  drive_open-IsSafe (err e) h lists s = (tt, s)

  -- A sweep sends only what a stored row, ready to broadcast, decodes to at the time of the call, if
  -- the store lists the rows that were written and the history before was so.
  pub sweep-IsSafe : (h : History V sdk) → ListsRows → IsSafe h → IsSafe (sweep deps orders h).1
  unfolding sweep
  sweep-IsSafe h lists s = drive_open-IsSafe (orders.list_orders h) h (λ os e. lists h os e) s
