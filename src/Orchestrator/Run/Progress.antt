-- ===== src/Orchestrator/Run/Progress.antt =====
-- What one round of the loop does to an order and to the history (crates/orchestrator/src/run.rs).
use nofomo.Prelude.{
  ◌≡◌, refl, Bool, true, false, ◌∷◌, Text, Option, none, some, Result, ok, err, context, ◌⊎◌, inl,
  inr,
}
use nofomo.Prelude.Int.{ℤ}
use nofomo.Domain.Tx.{SuiSdk}
use nofomo.Strategy.Order.{Order}
use nofomo.Orchestrator.Machine.{Outcome, Transition, moved, unchanged, invalid, next_action, apply}
use nofomo.Orchestrator.Machine.Diagram.{Edge, apply-Edge}
use nofomo.Orchestrator.World.{History, ExecDeps, OrderStore, clock_read, upserted}
use nofomo.Orchestrator.Table.{Quietly, silent, heard, Quietly-trans}
use nofomo.Orchestrator.Io.{perform}
use nofomo.Orchestrator.Io.Effects.{
  PerformEffect, nothing, sending, quietly, by_sending, perform-PerformEffect,
}
use nofomo.Orchestrator.Run.{
  Round, returned, again, is_done, is_still_pending, backing_off, after_write, retry_later,
  wait_or_retry, settle, act, proceed, round,
}

-- The same order, at most one edge further.
pub record Follows {V : Type 0} (a b : Order V) : Type 0 where
  pub id : b.id ≡ a.id
  pub level_id : b.level_id ≡ a.level_id
  pub venue : b.venue ≡ a.venue
  pub chain : b.chain ≡ a.chain
  pub token_in : b.token_in ≡ a.token_in
  pub token_out : b.token_out ≡ a.token_out
  pub reserved_amount : b.reserved_amount ≡ a.reserved_amount
  pub plan : b.plan ≡ a.plan
  pub created_at : b.created_at ≡ a.created_at
  pub state : (b.state ≡ a.state) ⊎ ((o : Outcome) × Edge a.swap_attempts a.state o b.state)

module _ {V : Type 0} {sdk : SuiSdk} (deps : ExecDeps V sdk) (orders : OrderStore V sdk) where
  -- The result `q` and the history `k` of a round from the order and the history `h`.
  pub data Progress (order : Order V) (h : History V sdk) (q : Round V) (k : History V sdk)
      : Type 0 where
    -- Nothing was written, and the order is as it was.
    rested : PerformEffect deps order h k → q ≡ returned (ok tt) order → Progress order h q k
    -- The order that goes on was written.
    wrote :
        (m : History V sdk) (next : Order V)
        → PerformEffect deps order h m
        → Follows order next
        → k ≡ upserted next (ok tt) ∷ m
        → (q ≡ returned (ok tt) next) ⊎ (q ≡ again next)
        → Progress order h q k
    -- A write failed, and the pass stops.
    lost :
        (m : History V sdk) (next : Order V) (e e' : Text)
        → PerformEffect deps order h m
        → Follows order next
        → k ≡ upserted next (err e) ∷ m
        → q ≡ returned (err e') next
        → Progress order h q k

  more_quiet :
      {order : Order V} {h k l : History V sdk}
      → PerformEffect deps order h k
      → Quietly k l
      → PerformEffect deps order h l
  more_quiet (nothing q) r = nothing (Quietly-trans q r)
  more_quiet (sending a b raw hash w e (quietly q)) r =
      sending a b raw hash w e (quietly (Quietly-trans q r))
  more_quiet (sending a b raw hash w e (by_sending tx b' allowed f q)) r =
      sending a b raw hash w e (by_sending tx b' allowed f (Quietly-trans q r))

  quietly_first :
      {order : Order V} {h k l : History V sdk}
      → Quietly h k
      → PerformEffect deps order k l
      → PerformEffect deps order h l
  quietly_first r (nothing q) = nothing (Quietly-trans r q)
  quietly_first r (sending a b raw hash w e (quietly q)) =
      sending a b raw hash w e (quietly (Quietly-trans r q))
  quietly_first r (sending a b raw hash w e (by_sending tx b' allowed f q)) =
      sending a b raw hash w e (by_sending tx (Quietly-trans r b') allowed f q)

  after_move :
      {order : Order V} {h m : History V sdk} (next : Order V) (pending : Bool)
      → PerformEffect deps order h m
      → Follows order next
      → (r : Result (Unit {0}))
      → Progress order h (after_write deps orders r next pending) (upserted next r ∷ m)
  unfolding after_write
  after_move {m = m} next true p f (ok u) = wrote m next p f refl (inl refl)
  after_move {m = m} next false p f (ok u) = wrote m next p f refl (inr refl)
  after_move {m = m} next pending p f (err e) = lost m next e _ p f refl refl

  after_retry :
      {order : Order V} {h m : History V sdk} (next : Order V) (c : Text)
      → PerformEffect deps order h m
      → Follows order next
      → (r : Result (Unit {0}))
      → Progress order h (returned (context c r) next) (upserted next r ∷ m)
  after_retry {m = m} next c p f (ok u) = wrote m next p f refl (inl refl)
  after_retry {m = m} next c p f (err e) = lost m next e _ p f refl refl

  wait_or_retry-Progress :
      (pending : Bool) (order : Order V) (h m : History V sdk)
      → PerformEffect deps order h m
      → let (q, k) = wait_or_retry deps orders pending order m in Progress order h q k
  unfolding wait_or_retry retry_later
  wait_or_retry-Progress true order h m p = rested p refl
  wait_or_retry-Progress false order h m p =
      after_retry (retry_later deps orders order (deps.now_unix m)) _
        (more_quiet p (heard clock_read refl silent))
        (record {
          id = refl;
          level_id = refl;
          venue = refl;
          chain = refl;
          token_in = refl;
          token_out = refl;
          reserved_amount = refl;
          plan = refl;
          created_at = refl;
          state = inl refl;
        })
        _

  settle-Progress :
      (order : Order V) (outcome : Outcome) (h m : History V sdk) (t : Transition)
      → PerformEffect deps order h m
      → apply order outcome ≡ t
      → let (q, k) = settle deps orders order outcome t m in Progress order h q k
  unfolding settle
  settle-Progress order outcome h m (moved next) p e =
      after_move (record order { state = next; swap_retry_after_ts = none })
        (is_still_pending outcome) p
        (record {
          id = refl;
          level_id = refl;
          venue = refl;
          chain = refl;
          token_in = refl;
          token_out = refl;
          reserved_amount = refl;
          plan = refl;
          created_at = refl;
          state = inr (outcome, apply-Edge order outcome e);
        })
        _
  settle-Progress order outcome h m unchanged p e =
      wait_or_retry-Progress (is_still_pending outcome) order h m p
  settle-Progress order outcome h m (invalid a b c) p e = rested p refl

  act-Progress :
      (over : Bool) (order : Order V) (h m : History V sdk)
      → Quietly h m
      → let (q, k) = act deps orders over order (next_action order) m in Progress order h q k
  unfolding act
  act-Progress true order h m q = rested (nothing q) refl
  act-Progress false order h m q =
      let (outcome, k) = perform deps order (next_action order) m in
      settle-Progress order outcome h k (apply order outcome)
        (quietly_first q (perform-PerformEffect deps order m)) refl

  backing_off-Quietly :
      (at : Option ℤ) (h : History V sdk) → Quietly h (backing_off deps orders at h).1
  unfolding backing_off
  backing_off-Quietly none h = silent
  backing_off-Quietly (some at) h = heard clock_read refl silent

  proceed-Progress :
      (waiting : Bool) (order : Order V) (h m : History V sdk)
      → Quietly h m
      → let (q, k) = proceed deps orders waiting order m in Progress order h q k
  unfolding proceed
  proceed-Progress true order h m q = rested (nothing q) refl
  proceed-Progress false order h m q = act-Progress (is_done (next_action order)) order h m q

  -- Every round makes progress in this sense.
  pub round-Progress :
      (order : Order V) (h : History V sdk)
      → let (q, k) = round deps orders order h in Progress order h q k
  unfolding round
  round-Progress order h =
      let (waiting, m) = backing_off deps orders order.swap_retry_after_ts h in
      proceed-Progress waiting order h m (backing_off-Quietly order.swap_retry_after_ts h)
