-- ===== src/Orchestrator/Run/Durability.antt =====
-- The order table against what the loop sends and leaves (crates/orchestrator/src/run.rs, `drive_order`).
use nofomo.Prelude.{◌≡◌, refl, sym, ap, ◌∙◌, ◌∷◌, text_eq_refl, some, Result, ok, inl, inr}
use mathlib.Core.Path.{subst}
use nofomo.Domain.Tx.{SuiSdk}
use nofomo.Strategy.Order.{Order, OrderState}
use nofomo.Orchestrator.Machine.Reach.{Reach, here, then}
use nofomo.Orchestrator.World.{History, ExecDeps, OrderStore, upserted}
use nofomo.Orchestrator.Table.{stored, IsSafe}
use nofomo.Orchestrator.Io.Effects.{PerformEffect-stored, PerformEffect-IsSafe}
use nofomo.Orchestrator.Run.{Round, returned, again, drive_order}
use nofomo.Orchestrator.Run.Progress.{Progress, rested, wrote, lost, Follows}
use nofomo.Orchestrator.Run.Induction.{drive_order_inv}

abbrev pub round_order : {V : Type 0} → Round V → Order V
round_order (returned r o) = o
round_order (again o) = o

stored-upserted :
    {V : Type 0} {sdk : SuiSdk} (o : Order V) (h : History V sdk)
    → stored (upserted o (ok tt) ∷ h) o.id ≡ some o
stored-upserted o h = rw (text_eq_refl o.id)

Follows-Reach :
    {V : Type 0} {a b : Order V} {c : OrderState} → Reach c a.state → Follows a b → Reach c b.state
Follows-Reach {b = b} {c = c} p f = elim f.state [
  | inl same ↦ subst (λ s. Reach c s) (sym same) p
  | inr (o, e) ↦ then _ p e
]

-- What a pass keeps of an order.
pub record Continues {V : Type 0} (a b : Order V) : Type 0 where
  pub id : b.id ≡ a.id
  pub level_id : b.level_id ≡ a.level_id
  pub plan : b.plan ≡ a.plan
  pub reserved_amount : b.reserved_amount ≡ a.reserved_amount
  pub created_at : b.created_at ≡ a.created_at
  pub state : Reach a.state b.state

Continues-Follows : {V : Type 0} {a b c : Order V} → Continues a b → Follows b c → Continues a c
Continues-Follows p f = record {
  id = f.id ∙ p.id;
  level_id = f.level_id ∙ p.level_id;
  plan = f.plan ∙ p.plan;
  reserved_amount = f.reserved_amount ∙ p.reserved_amount;
  created_at = f.created_at ∙ p.created_at;
  state = Follows-Reach p.state f;
}

module _ {V : Type 0} {sdk : SuiSdk} (deps : ExecDeps V sdk) (orders : OrderStore V sdk) where
  Progress-IsSafe :
      {order : Order V} {h k : History V sdk} {q : Round V}
      → stored h order.id ≡ some order
      → IsSafe h
      → Progress deps orders order h q k
      → IsSafe k
  Progress-IsSafe row s (rested p e) = PerformEffect-IsSafe deps p row s
  Progress-IsSafe row s (wrote m next p f e c) = rw e (tt, PerformEffect-IsSafe deps p row s)
  Progress-IsSafe row s (lost m next x y p f e c) = rw e (tt, PerformEffect-IsSafe deps p row s)

  wrote-stored :
      {m k : History V sdk} (o next : Order V)
      → k ≡ upserted o (ok tt) ∷ m
      → next ≡ o
      → stored k next.id ≡ some next
  wrote-stored {m} {k} o next e same =
      subst (λ n. stored k n.id ≡ some n) (sym same) (rw e (stored-upserted o m))

  -- The order that a round passes on is the stored one.
  again-stored :
      {order : Order V} {h k : History V sdk} (next : Order V)
      → Progress deps orders order h (again next) k
      → stored k next.id ≡ some next
  again-stored next (rested p e) = cc
  again-stored next (wrote m o p f e (inl c)) = cc
  again-stored next (wrote m o p f e (inr c)) = wrote-stored o next e (ap round_order c)
  again-stored next (lost m o x y p f e c) = cc

  -- So is the order that a round returns, unless its write failed.
  returned-stored :
      {order : Order V} {h k : History V sdk} (next : Order V) (r : Result (Unit {0}))
      → stored h order.id ≡ some order
      → Progress deps orders order h (returned r next) k
      → r ≡ ok tt
      → stored k next.id ≡ some next
  returned-stored {order} {h} {k} next r row (rested p e) good =
      let same : next ≡ order = ap round_order e in
      subst (λ n. stored k n.id ≡ some n) (sym same) (PerformEffect-stored deps p order.id ∙ row)
  returned-stored next r row (wrote m o p f e (inl c)) good =
      wrote-stored o next e (ap round_order c)
  returned-stored next r row (wrote m o p f e (inr c)) good = cc
  returned-stored next r row (lost m o x y p f e c) good = cc

  -- For an order read from the table, in a history where whatever was sent had been stored before:
  -- the same holds of the history that the pass leaves, and the order that it leaves in memory is
  -- the stored one unless a write failed.
  pub drive_order-durable :
      (order : Order V) (h : History V sdk)
      → stored h order.id ≡ some order
      → IsSafe h
      → let (r, next, k) = drive_order deps orders order h in
        IsSafe k × (r ≡ ok tt → stored k next.id ≡ some next)
  drive_order-durable order h row safe =
      drive_order_inv deps orders (λ o g. (stored g o.id ≡ some o) × IsSafe g)
        (λ r o g. IsSafe g × (r ≡ ok tt → stored g o.id ≡ some o))
        (λ o next g k r p step.
          (Progress-IsSafe p.0 p.1 step, λ good. returned-stored next r p.0 step good))
        (λ o next g k p step. (again-stored next step, Progress-IsSafe p.0 p.1 step))
        (λ o g p. (p.1, λ good. p.0)) order h (row, safe)

  Progress-Continues :
      {a order : Order V} {h k : History V sdk} {q : Round V}
      → Continues a order
      → Progress deps orders order h q k
      → Continues a (round_order q)
  Progress-Continues {a} c (rested p e) = rw e c
  Progress-Continues {a} c (wrote m next p f e (inl w)) = rw w (Continues-Follows c f)
  Progress-Continues {a} c (wrote m next p f e (inr w)) = rw w (Continues-Follows c f)
  Progress-Continues {a} c (lost m next x y p f e w) = rw w (Continues-Follows c f)

  -- Whatever the ports answer, a pass keeps the order's id, level, plan, amount and creation time,
  -- and takes its state along a path of the diagram.
  pub drive_order-Continues :
      (order : Order V) (h : History V sdk) → Continues order (drive_order deps orders order h).1
  drive_order-Continues order h =
      drive_order_inv deps orders (λ o g. Continues order o) (λ r o g. Continues order o)
        (λ o next g k r p step. Progress-Continues p step)
        (λ o next g k p step. Progress-Continues p step) (λ o g p. p) order h
        (record {
          id = refl;
          level_id = refl;
          plan = refl;
          reserved_amount = refl;
          created_at = refl;
          state = here;
        })
