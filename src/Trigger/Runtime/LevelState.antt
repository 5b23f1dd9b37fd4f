-- ===== src/Trigger/Runtime/LevelState.antt =====
-- The state that is shown of a level (crates/trigger/src/runtime.rs) and the tests of the trigger
-- (crates/trigger/src/fired.rs).
use nofomo.Prelude.{◌≡◌, ◌↔◌, refl, Bool, false, not, ◌||◌, List, [], ◌∷◌, Text, any, arith}
use nofomo.Prelude.Int.{ℤ}
use nofomo.Strategy.Order.{
  Order, OrderStatus, pending, submitted, filled, failed, quarantined, status, status_eq,
}
use nofomo.Trigger.Fired.{is_spent, cooling_down, of_level}
use nofomo.Trigger.Runtime.{RuntimeStatus, armed, is_quiet, level_state, snapshot_level_state}
use nofomo.Trigger.Runtime.Quiet.{HasKeys, quiet_of-later}

status_split :
    (s : OrderStatus)
    → not (status_eq s failed) ≡ (
        status_eq s quarantined
        || ((status_eq s pending || status_eq s submitted) || status_eq s filled))
status_split pending = refl
status_split submitted = refl
status_split filled = refl
status_split failed = refl
status_split quarantined = refl

module _ {V : Type 0} where
  abbrev unfailed : Order V → Bool
  unfailed o = not (status_eq (status o) failed)

  any_split :
      (os : List (Order V))
      → any unfailed os ≡ (
          any (λ o. status_eq (status o) quarantined) os
          || (any (λ o. status_eq (status o) pending || status_eq (status o) submitted) os
              || any (λ o. status_eq (status o) filled) os))
  any_split [] = refl
  any_split (o ∷ os) = ground (arith, any_split os, status_split (status o))

  -- A level shows as armed exactly if no order has spent it, it is not resting and no failed order is
  -- recent, where the table of resting levels has each level once.
  pub level_state-armed_iff :
      {F : Type 0} (s : RuntimeStatus F) (level_id : Text) (orders : List (Order V)) (now : ℤ)
      → HasKeys s.quiet_until
      → (level_state s level_id orders now ≡ armed) ↔ (
          (is_spent level_id orders ≡ false)
          × (is_quiet s level_id now ≡ false)
          × (cooling_down level_id orders now ≡ false))
  unfolding level_state snapshot_level_state is_spent is_quiet
  level_state-armed_iff s level_id orders now keys =
      let shown = quiet_of-later s.quiet_until now level_id keys in
      let split = any_split (of_level level_id orders) in (λ h. ground arith, λ h. ground arith)
