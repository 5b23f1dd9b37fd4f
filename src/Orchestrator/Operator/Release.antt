-- ===== src/Orchestrator/Operator/Release.antt =====
-- The release of a quarantined order (crates/orchestrator/src/operator.rs).
use nofomo.Prelude.{
  ℕ, ◌≡◌, refl, sym, ap, ◌∷◌, Text, Option, none, some, Result, ok, err, ok-injective, err-ne-ok,
}
use nofomo.Domain.Tx.{SuiSdk}
use nofomo.Strategy.Order.{
  Order, OrderState, withdrawing_state, swap_ready_state, broadcasting_state, submitted_state,
  depositing_state, filled_state, failed_state, quarantined_state,
}
use nofomo.Orchestrator.Machine.{apply, quarantine_resolved, resolved_reason}
use nofomo.Orchestrator.World.{History, OrderStore, continue, lift, orders_read, upserted, upsert}
use nofomo.Orchestrator.Operator.{released, release, resolve_quarantine}

-- What the release of a state has found.
record WasQuarantined (state next : OrderState) : Type 0 where
  amount_in : ℕ
  tx_hash : Option Text
  reason : Text
  before : state ≡ quarantined_state amount_in tx_hash reason
  after : next ≡ failed_state tx_hash resolved_reason

released-WasQuarantined :
    {V : Type 0} (order_id : Text) (order : Order V) {next : OrderState}
    → released order_id (apply order quarantine_resolved) ≡ ok next
    → WasQuarantined order.state next
unfolding apply
released-WasQuarantined order_id order {next} h = go order.state refl h
  where
    go :
        (s : OrderState)
        → order.state ≡ s
        → released order_id (apply order quarantine_resolved) ≡ ok next
        → WasQuarantined order.state next
    go (quarantined_state a t r) e k = record {
      amount_in = a;
      tx_hash = t;
      reason = r;
      before = e;
      after = sym (ok-injective (rw (e, apply) at k));
    }
    go (withdrawing_state a b) e k = absurd (err-ne-ok (rw (e, apply) at k))
    go (swap_ready_state a b c) e k = absurd (err-ne-ok (rw (e, apply) at k))
    go (broadcasting_state a b c d f) e k = absurd (err-ne-ok (rw (e, apply) at k))
    go (submitted_state a b c d f) e k = absurd (err-ne-ok (rw (e, apply) at k))
    go (depositing_state a b c) e k = absurd (err-ne-ok (rw (e, apply) at k))
    go (filled_state a) e k = absurd (err-ne-ok (rw (e, apply) at k))
    go (failed_state a b) e k = absurd (err-ne-ok (rw (e, apply) at k))

-- What a release that succeeded has read and written.
pub record Freed {V : Type 0} {sdk : SuiSdk} (orders : OrderStore V sdk) (order_id level_id : Text)
    (h k : History V sdk) : Type 0 where
  pub order : Order V
  pub amount_in : ℕ
  pub tx_hash : Option Text
  pub reason : Text
  pub found : orders.get_order order_id h ≡ ok (some order)
  pub quarantined : order.state ≡ quarantined_state amount_in tx_hash reason
  pub level : level_id ≡ order.level_id
  pub written :
      k
      ≡ upserted
          (record order {
            state = failed_state tx_hash resolved_reason;
            swap_attempts = 0;
            swap_retry_after_ts = none;
          })
          (ok tt)
        ∷ orders_read
        ∷ h

module _ {V : Type 0} {sdk : SuiSdk} (orders : OrderStore V sdk) (order_id : Text)
    (h : History V sdk) where
  written_release :
      (order : Order V) (next : OrderState) (r : Result (Unit {0})) {level_id : Text}
      → orders.get_order order_id h ≡ ok (some order)
      → WasQuarantined order.state next
      → (continue r
          (λ u. lift (ok order.level_id))
          (upserted (release order next) r ∷ orders_read ∷ h)).0
        ≡ ok level_id
      → Freed orders order_id level_id h
          (continue r
            (λ u. lift (ok order.level_id))
            (upserted (release order next) r ∷ orders_read ∷ h)).1
  written_release order next (err e) found was k = absurd (err-ne-ok k)
  written_release order next (ok u) found was k = record {
    order = order;
    amount_in = was.amount_in;
    tx_hash = was.tx_hash;
    reason = was.reason;
    found = found;
    quarantined = was.before;
    level = sym (ok-injective k);
    written =
        ap (λ (s : OrderState). upserted (release order s) (ok tt) ∷ orders_read ∷ h) was.after;
  }

  -- A release that succeeds found a quarantined order under the id, wrote it once, as failed with the
  -- operator's reason, the same hash and no retries, and returns its level.
  pub resolve_quarantine-Freed :
      {level_id : Text}
      → (resolve_quarantine orders order_id h).0 ≡ ok level_id
      → Freed orders order_id level_id h (resolve_quarantine orders order_id h).1
  unfolding resolve_quarantine upsert
  resolve_quarantine-Freed {level_id} good = go (orders.get_order order_id h) refl good
    where
      with_state :
          (order : Order V) (r : Result OrderState)
          → orders.get_order order_id h ≡ ok (some order)
          → released order_id (apply order quarantine_resolved) ≡ r
          → (resolve_quarantine orders order_id h).0 ≡ ok level_id
          → Freed orders order_id level_id h (resolve_quarantine orders order_id h).1
      with_state order (err e) found step k =
          absurd (err-ne-ok (rw (found, step, resolve_quarantine) at k))
      with_state order (ok next) found step k =
          rw (found, step, resolve_quarantine)
            (written_release order next (orders.upsert_order (release order next) (orders_read ∷ h))
              found (released-WasQuarantined order_id order step)
              (rw (found, step, resolve_quarantine) at k))

      go :
          (r : Result (Option (Order V)))
          → orders.get_order order_id h ≡ r
          → (resolve_quarantine orders order_id h).0 ≡ ok level_id
          → Freed orders order_id level_id h (resolve_quarantine orders order_id h).1
      go (err e) found k = absurd (err-ne-ok (rw (found, resolve_quarantine) at k))
      go (ok none) found k = absurd (err-ne-ok (rw (found, resolve_quarantine) at k))
      go (ok (some order)) found k =
          with_state order (released order_id (apply order quarantine_resolved)) found refl k
