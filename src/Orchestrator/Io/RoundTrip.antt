-- ===== src/Orchestrator/Io/RoundTrip.antt =====
-- Signed transactions and their stored text (crates/domain/src/tx.rs, crates/orchestrator/src/io.rs).
use nofomo.Prelude.{
  ◌≡◌, refl, sym, ap, Text, msg, Result, ok, err, context, bind-eq-ok, ok-injective, err-ne-ok,
}
use nofomo.Domain.Chain.{ChainFamily, evm, sui, ChainId, evm_chain, sui_chain, family}
use nofomo.Domain.Model.{ExecutionPlan, plan_chain}
use nofomo.Domain.Tx.{
  SuiSdk, IsFaithful, SignedTx, SignedSuiTx, evm_signed, sui_signed, sui_to_wire, sui_from_wire,
  to_wire, hash,
}
use nofomo.Orchestrator.Io.{restore_at, restore_signed}

context_ok : {A : Type 0} (c : Text) (r : Result A) {a : A} → context c r ≡ ok a → r ≡ ok a
context_ok c (ok a) h = h
context_ok c (err e) h = absurd (err-ne-ok h)

module _ {sdk : SuiSdk} where
  -- The family whose chains a transaction is for.
  abbrev pub tx_family : SignedTx sdk → ChainFamily
  tx_family (evm_signed tx) = evm
  tx_family (sui_signed tx) = sui

  sui_from_wire-sui_to_wire :
      IsFaithful sdk
      → (tx : SignedSuiTx sdk) {raw : Text} → sui_to_wire sdk tx ≡ ok raw
      → sui_from_wire sdk raw ≡ ok tx
  unfolding sui_to_wire sui_from_wire
  sui_from_wire-sui_to_wire f tx {raw} h =
      let (bytes, e1, h1) =
        bind-eq-ok
          (context (msg "cannot encode the Sui transaction") (sdk.bcs_to_bytes tx.transaction)) _
          h in
      let json = f.json _ raw (context_ok _ _ h1) in
      let back = f.bcs tx.transaction bytes (context_ok _ _ e1) in
      rw (json, back, f.signatures tx.signature) refl

  restore_at-to_wire :
      IsFaithful sdk
      → (chain : ChainId) (tx : SignedTx sdk) {raw : Text} → tx_family tx ≡ family chain
      → to_wire sdk tx ≡ ok raw
      → restore_at {sdk = sdk} chain raw (hash sdk tx) ≡ ok tx
  unfolding to_wire hash restore_at family
  restore_at-to_wire f (evm_chain n) (evm_signed tx) same h =
      ap (λ (r : Text). ok (evm_signed (record { raw = r; hash = tx.hash }))) (ok-injective (sym h))
  restore_at-to_wire f (evm_chain n) (sui_signed tx) same h = cc
  restore_at-to_wire f sui_chain (evm_signed tx) same h = cc
  restore_at-to_wire f sui_chain (sui_signed tx) same h =
      rw (sui_from_wire-sui_to_wire f tx h, restore_at) refl

  -- What an order stores of a signed transaction, its text and its hash, decodes to the same
  -- transaction, for a plan on a chain of the transaction's family, if the encodings of the Sui
  -- libraries read back what they wrote.
  pub restore_signed-to_wire :
      {V : Type 0}
      → IsFaithful sdk
      → (plan : ExecutionPlan V) (tx : SignedTx sdk) {raw : Text}
      → tx_family tx ≡ family (plan_chain plan)
      → to_wire sdk tx ≡ ok raw
      → restore_signed plan raw (hash sdk tx) ≡ ok tx
  unfolding restore_signed
  restore_signed-to_wire f plan tx same h = restore_at-to_wire f (plan_chain plan) tx same h
