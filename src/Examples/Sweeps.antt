-- ===== src/Examples/Sweeps.antt =====
-- A sweep over a table with one row (crates/orchestrator/src/run.rs).
use mathlib.Core.Path.{subst}
use nofomo.Prelude.{
  ℕ, ◌≡◌, refl, sym, ap, arith, ◌∙◌, Bool, true, false, List, [], ◌∷◌, All, Text, codes, text_eq,
  text_eq_iff, Option, none, some, Result, ok, err, if◌then◌else◌, Bool-cases, inl, inr,
  ok-injective,
}
use nofomo.Prelude.Int.{pos}
use nofomo.Domain.Chain.{family}
use nofomo.Domain.Model.{ExecutionPlan, plan_chain, swap, cetus, cetus_plan}
use nofomo.Domain.Tx.{
  SuiSdk, SuiWire, IsFaithful, sui_context, sui_tx, SignedTx, sui_signed, success, to_wire, hash,
}
use nofomo.Strategy.Order.{Order, broadcasting_state}
use nofomo.Orchestrator.World.{
  History, upserted, TradeVenue, ChainClient, Signer, ExecDeps, OrderStore,
}
use nofomo.Orchestrator.Table.{stored, IsSafe}
use nofomo.Orchestrator.Io.{restore_signed}
use nofomo.Orchestrator.Io.RoundTrip.{restore_signed-to_wire}
use nofomo.Orchestrator.Run.{drive_order, sweep, round, settle}
use nofomo.Orchestrator.Machine.{next_action}
use nofomo.Orchestrator.Io
use nofomo.Orchestrator.Io.{perform}
use nofomo.Strategy.Order.{quarantined_state}
use nofomo.Orchestrator.World.{upsert}
use nofomo.Orchestrator.Machine.{apply}
use nofomo.Strategy.Order.{filled_state, is_terminal, state_is_terminal}
use nofomo.Prelude.{◌⊎◌, inl, inr}
use nofomo.Domain.Tx.{sui_from_wire}
use nofomo.Orchestrator.World.{clock_read}
use nofomo.Orchestrator.Operator.{resolve_quarantine}
use nofomo.Orchestrator.Operator.Release.{Freed, resolve_quarantine-Freed}
use nofomo.Orchestrator.Run.Durability.{Continues, drive_order-durable, drive_order-Continues}
use nofomo.Orchestrator.Run.Lifecycle.{drive_order-stake, drive_order-terminal, drive_order-filled}
use nofomo.Orchestrator.Machine.Reach.{stake}
use nofomo.Orchestrator.Io.Receipt.{HasReceipt}
use nofomo.Orchestrator.Run.Blocked.{sent_txs, sweep-sent_txs}
use nofomo.Orchestrator.Run.Sweep.{Keyed, ListsRows, drive_order-other, sweep-IsSafe}

-- A transaction is its own encoding, and no signature is needed.
abbrev json_of : SuiWire → Result Text
json_of w = elim w.signature [ [] ↦ ok w.transaction | _ ↦ err [] ]

abbrev sdk : SuiSdk
sdk = record {
  Transaction = Text;
  Signature = Unit;
  digest = λ t. t;
  bcs_to_bytes = λ t. ok t;
  bcs_from_bytes = λ t. ok t;
  signature_to_bytes = λ s. [];
  signature_from_bytes = λ t. ok tt;
  json_to_string = json_of;
  json_from_str = λ t. ok (record { transaction = t; signature = [] });
}

json_of_lem : (w : SuiWire) (t : Text) → json_of w ≡ ok t → sdk.json_from_str t ≡ ok w
json_of_lem w t h = ground arith

sdk-IsFaithful : IsFaithful sdk
sdk-IsFaithful = record { bcs = λ t b e. sym e; signatures = λ s. refl; json = json_of_lem }

abbrev pool_plan : ExecutionPlan ℕ
pool_plan = cetus_plan (codes "0xpool") true 1000 990

abbrev signed_swap : SignedTx sdk
signed_swap = sui_signed (record { transaction = codes "swap"; signature = tt })

wired : to_wire sdk signed_swap ≡ ok (codes "swap")
unfolding to_wire
wired = refl

restore_signed-to_wire_example :
    restore_signed pool_plan (codes "swap") (hash sdk signed_swap) ≡ ok signed_swap
unfolding family plan_chain
restore_signed-to_wire_example =
    restore_signed-to_wire sdk-IsFaithful pool_plan signed_swap refl wired

abbrev cetus_venue : TradeVenue ℕ sdk
cetus_venue = record {
  name = codes "cetus";
  steps = λ plan h. ok (swap ∷ []);
  build = λ plan step ctx h. ok (sui_tx (codes "swap"));
}

abbrev client : ChainClient ℕ sdk
client = record {
  tx_context = λ from h. ok (sui_context 750 1000000);
  broadcast = λ tx h. ok (codes "0x1");
  confirmation = λ tx_hash h. ok success;
  dry_run = λ tx h. err [];
}

abbrev signer : Signer ℕ sdk
signer = record { address = λ family. ok (codes "0xme"); sign = λ tx h. ok signed_swap }

abbrev deps_with : Bool → ExecDeps ℕ sdk
deps_with allow = record {
  venues = cetus_venue ∷ [];
  chains = λ chain. some client;
  signer = signer;
  allow_broadcast = allow;
  now_unix = λ h. pos 1700000000;
}

abbrev order : Order ℕ
order = record {
  id = codes "buy-1";
  level_id = codes "buy";
  venue = cetus;
  chain = codes "sui";
  token_in = codes "usdc";
  token_out = codes "sui";
  reserved_amount = 1000;
  plan = pool_plan;
  state = broadcasting_state swap 1000 (codes "swap") (codes "swap") none;
  swap_attempts = 0;
  swap_retry_after_ts = none;
  created_at = pos 1700000000;
}

-- The table's one row.
abbrev rows_of : Option (Order ℕ) → List (Order ℕ)
rows_of none = []
rows_of (some o) = if text_eq o.id (codes "buy-1") then o ∷ [] else []

abbrev table : OrderStore ℕ sdk
table = record {
  upsert_order = λ o h. ok tt;
  get_order = λ id h. ok (stored h id);
  list_orders = λ h. ok (rows_of (stored h (codes "buy-1")));
}

rows_of_lem :
    (h : History ℕ sdk) (r : Option (Order ℕ))
    → stored h (codes "buy-1") ≡ r
    → Keyed (rows_of r) × All (λ (o : Order ℕ). stored h o.id ≡ some o) (rows_of r)
rows_of_lem h none e = (tt, tt)
rows_of_lem h (some o) e = elim (Bool-cases (text_eq o.id (codes "buy-1"))) [
  | inl same ↦
      let id : o.id ≡ codes "buy-1" = (text_eq_iff o.id (codes "buy-1")).0 same in
      rw same ((tt, tt), (ap (stored h) id ∙ e, tt))
  | inr other ↦ rw other (tt, tt)
]

table-ListsRows : ListsRows (deps_with true) table
table-ListsRows h os e =
    subst (λ l. Keyed l × All (λ (o : Order ℕ). stored h o.id ≡ some o) l) (ok-injective e)
      (rows_of_lem h (stored h (codes "buy-1")) refl)

abbrev history : History ℕ sdk
history = upserted order (ok tt) ∷ []

has_row : stored history order.id ≡ some order
unfolding text_eq
has_row = refl

abbrev after : History ℕ sdk
after = (drive_order (deps_with true) table order history).2

drive_order-durable_example :
    let (r, next, k) = drive_order (deps_with true) table order history in
    IsSafe k × (r ≡ ok tt → stored k next.id ≡ some next)
drive_order-durable_example =
    drive_order-durable (deps_with true) table order history has_row (tt, tt)

drive_order-Continues_example : Continues order (drive_order (deps_with true) table order history).1
drive_order-Continues_example = drive_order-Continues (deps_with true) table order history

different : text_eq order.id (codes "sell-1") ≡ false
unfolding text_eq
different = refl

drive_order-other_example : stored after (codes "sell-1") ≡ stored history (codes "sell-1")
drive_order-other_example =
    drive_order-other (deps_with true) table order history (codes "sell-1") different

sweep-IsSafe_example : IsSafe (sweep (deps_with true) table history).1
sweep-IsSafe_example = sweep-IsSafe (deps_with true) table history table-ListsRows (tt, tt)

sweep-sent_txs_example : sent_txs (sweep (deps_with false) table history).1 ≡ []
sweep-sent_txs_example = sweep-sent_txs (deps_with false) table refl history

abbrev stuck_order : Order ℕ
stuck_order = record order {
  state = quarantined_state 1000 (some (codes "swap")) (codes "offline");
  swap_attempts = 8;
}

abbrev stuck_history : History ℕ sdk
stuck_history = upserted stuck_order (ok tt) ∷ []

has_stuck : table.get_order (codes "buy-1") stuck_history ≡ ok (some stuck_order)
unfolding text_eq
has_stuck = refl

frees : (resolve_quarantine table (codes "buy-1") stuck_history).0 ≡ ok (codes "buy")
unfolding resolve_quarantine text_eq apply upsert
frees = refl

resolve_quarantine-Freed_example :
    Freed table
      (codes "buy-1")
      (codes "buy")
      stuck_history
      (resolve_quarantine table (codes "buy-1") stuck_history).1
resolve_quarantine-Freed_example =
    resolve_quarantine-Freed table (codes "buy-1") stuck_history frees

drive_order-stake_example :
    (stake (drive_order (deps_with true) table order history).1.state ≡ stake order.state)
    ⊎ (state_is_terminal (drive_order (deps_with true) table order history).1.state ≡ true)
drive_order-stake_example = drive_order-stake (deps_with true) table order history

fills : (drive_order (deps_with true) table order history).1.state ≡ filled_state (codes "0x1")
unfolding drive_order round settle perform Io.broadcast Io.check_receipt Io.chain next_action apply
    upsert restore_signed plan_chain sui_from_wire
fills = refl

live : is_terminal order ≡ false
unfolding is_terminal
live = refl

drive_order-filled_example :
    HasReceipt
      (deps_with true)
      pool_plan
      (codes "0x1")
      (drive_order (deps_with true) table order history).2
drive_order-filled_example = drive_order-filled (deps_with true) table order history live fills

-- A filled order whose retry time was left behind.
abbrev filled_order : Order ℕ
filled_order = record order {
  state = filled_state (codes "0x1");
  swap_retry_after_ts = some (pos 1800000000);
}

ended : is_terminal filled_order ≡ true
unfolding is_terminal
ended = refl

drive_order-terminal_example :
    let (r, next, k) = drive_order (deps_with true) table filled_order history in
    (r ≡ ok tt) × (next ≡ filled_order) × ((k ≡ history) ⊎ (k ≡ clock_read ∷ history))
drive_order-terminal_example =
    drive_order-terminal (deps_with true) table filled_order history ended
