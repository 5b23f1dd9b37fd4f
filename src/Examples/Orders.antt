-- ===== src/Examples/Orders.antt =====
-- Orders and their states on concrete inputs (crates/orchestrator/src/machine.rs).
use Prim.Native.Nat.{min}
use nofomo.Prelude.{ℕ, ◌^◌, ◌≡◌, ◌↔◌, refl, true, codes, none, some}
use nofomo.Prelude.Int.{pos}
use nofomo.Domain.Model.{swap, cetus, cetus_plan}
use nofomo.Strategy.Order.{Order, OrderState, broadcasting_state, quarantined_state}
use nofomo.Orchestrator.Machine.{exec_failed, moved, unchanged, apply, swap_retry_backoff_secs}
use nofomo.Orchestrator.Machine.Backoff.{backoff_doubles}
use nofomo.Orchestrator.Machine.Diagram.{Edge, apply-Edge_iff}

abbrev sending : OrderState
sending = broadcasting_state swap 1000 (codes "raw") (codes "0x1") none

abbrev in_state : OrderState → ℕ → Order ℕ
in_state state attempts = record {
  id = codes "buy-1700000000";
  level_id = codes "buy";
  venue = cetus;
  chain = codes "sui";
  token_in = codes "usdc";
  token_out = codes "sui";
  reserved_amount = 1000;
  plan = cetus_plan (codes "0xpool") true 1000 990;
  state = state;
  swap_attempts = attempts;
  swap_retry_after_ts = none;
  created_at = pos 1700000000;
}

-- The eighth attempt gives up, and the seventh does not.
given_up :
    apply (in_state sending 8) (exec_failed (codes "offline"))
    ≡ moved (quarantined_state 1000 (some (codes "0x1")) (codes "offline"))
unfolding apply
given_up = refl

goes_on : apply (in_state sending 7) (exec_failed (codes "offline")) ≡ unchanged
unfolding apply
goes_on = refl

apply-Edge_iff_example :
    (apply (in_state sending 8) (exec_failed (codes "offline"))
      ≡ moved (quarantined_state 1000 (some (codes "0x1")) (codes "offline")))
    ↔ Edge 8 sending
        (exec_failed (codes "offline"))
        (quarantined_state 1000 (some (codes "0x1")) (codes "offline"))
apply-Edge_iff_example =
    apply-Edge_iff (in_state sending 8) (exec_failed (codes "offline"))
      (quarantined_state 1000 (some (codes "0x1")) (codes "offline"))

backoff_doubles_example : swap_retry_backoff_secs 4 ≡ min (2 ^ 4) 600
backoff_doubles_example = backoff_doubles 3
