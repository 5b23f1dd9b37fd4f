-- ===== src/Orchestrator/World.antt =====
-- The outside of the orchestrator: the ports that it calls, and the history of those calls.
-- A port is a function of the history before the call, so it may answer each call differently.
-- (crates/domain/src/venue.rs, chain.rs, ports.rs; crates/strategy/src/store.rs)
use nofomo.Prelude.{Bool, List, ◌∷◌, Text, Option, Result, ok, err, context}
use nofomo.Prelude.Int.{ℤ}
use nofomo.Domain.Chain.{ChainFamily, ChainId, DryRun}
use nofomo.Domain.Model.{ExecutionPlan, ExecStep}
use nofomo.Domain.Tx.{SuiSdk, TxContext, UnsignedTx, SignedTx, ReceiptStatus}
use nofomo.Strategy.Order.{Order}

-- One call of a port, with the part of its answer that later statements read.
pub data Event (V : Type 0) (sdk : SuiSdk) : Type 0 where
  clock_read : Event V sdk
  steps_read : Event V sdk
  context_read : Event V sdk
  tx_built : Event V sdk
  tx_signed : Event V sdk
  simulated : Event V sdk
  receipt_read : Event V sdk
  orders_read : Event V sdk
  sent : SignedTx sdk → Event V sdk
  upserted : Order V → Result (Unit {0}) → Event V sdk

-- The latest call first.
abbrev pub History : Type 0 → SuiSdk → Type 0
History V sdk = List (Event V sdk)

pub record TradeVenue (V : Type 0) (sdk : SuiSdk) : Type 0 where
  pub name : Text
  pub steps : ExecutionPlan V → History V sdk → Result (List ExecStep)
  pub build : ExecutionPlan V → ExecStep → TxContext → History V sdk → Result (UnsignedTx sdk)

pub record ChainClient (V : Type 0) (sdk : SuiSdk) : Type 0 where
  pub tx_context : Text → History V sdk → Result TxContext
  pub broadcast : SignedTx sdk → History V sdk → Result Text
  pub confirmation : Text → History V sdk → Result ReceiptStatus
  pub dry_run : SignedTx sdk → History V sdk → Result DryRun

pub record Signer (V : Type 0) (sdk : SuiSdk) : Type 0 where
  pub address : ChainFamily → Result Text
  pub sign : UnsignedTx sdk → History V sdk → Result (SignedTx sdk)

-- `ExecDeps`, with the clock that `now_unix` reads.
pub record ExecDeps (V : Type 0) (sdk : SuiSdk) : Type 0 where
  pub venues : List (TradeVenue V sdk)
  pub chains : ChainId → Option (ChainClient V sdk)
  pub signer : Signer V sdk
  pub allow_broadcast : Bool
  pub now_unix : History V sdk → ℤ

pub record OrderStore (V : Type 0) (sdk : SuiSdk) : Type 0 where
  pub upsert_order : Order V → History V sdk → Result (Unit {0})
  pub get_order : Text → History V sdk → Result (Option (Order V))
  pub list_orders : History V sdk → Result (List (Order V))

-- An operation that calls ports and may fail.
abbrev pub Exec : Type 0 → SuiSdk → Type 0 → Type 0
Exec V sdk A = History V sdk → Result A × History V sdk

module _ {V : Type 0} {sdk : SuiSdk} where
  abbrev pub continue : {A B : Type 0} → Result A → (A → Exec V sdk B) → Exec V sdk B
  continue (ok a) f h = f a h
  continue (err e) f h = (err e, h)

  infixl 5 ◌>>=◌
  abbrev pub ◌>>=◌ : {A B : Type 0} → Exec V sdk A → (A → Exec V sdk B) → Exec V sdk B
  ◌>>=◌ m f h = let (r, h') = m h in continue r f h'

  abbrev pub lift : {A : Type 0} → Result A → Exec V sdk A
  lift r h = (r, h)

  -- Call a port, and record the event.
  abbrev pub call : {A : Type 0} → (History V sdk → Result A) → Event V sdk → Exec V sdk A
  call port event h = (port h, event ∷ h)

  abbrev pub in_context : {A : Type 0} → Text → Exec V sdk A → Exec V sdk A
  in_context c m h = let (r, h') = m h in (context c r, h')

  -- `orders.upsert_order(order).await`
  unfoldable pub upsert : OrderStore V sdk → Order V → Exec V sdk (Unit {0})
  upsert orders order h = let r = orders.upsert_order order h in (r, upserted order r ∷ h)
