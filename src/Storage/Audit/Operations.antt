-- ===== src/Storage/Audit/Operations.antt =====
-- Sequences of the operations on the audit trail (crates/storage/src/lib.rs).
use nofomo.Prelude.{ℕ, List, [], ◌∷◌, Text, Option, Result, ok, err}
use nofomo.Prelude.Int.{ℤ}
use nofomo.Storage.Audit.{
  Audit, ExecuteTradeRequest, QuoteView, claim_quote, open_session, record_quote, record_research,
}
use nofomo.Storage.Audit.Settle.{
  TransactionReference, record_execution_success, record_execution_failure, prune,
}

-- The operations of the callers, each with the error of the database if it has one.
pub data Operation : Type 0 where
  -- session, version, now
  opening : Option Text → Text → Text → ℤ → Operation
  -- session, request, result, now
  recording_research : Option Text → Text → Text → Text → ℤ → Operation
  -- session, quote, request, view, digest, now
  recording_quote : Option Text → Text → QuoteView → Text → Text → Text → ℤ → Operation
  -- session, request, now
  claiming : Option Text → Text → ExecuteTradeRequest → ℕ → Operation
  -- attempt, chain, transactions, now
  succeeding : Option Text → ℕ → Text → List TransactionReference → ℤ → Operation
  -- attempt, now
  failing : Option Text → ℕ → ℤ → Operation
  -- older_than
  pruning : Option Text → ℤ → Operation

-- An operation that fails leaves what was stored, but for a claim, which answers for itself.
abbrev pub kept : Audit → Result Audit → Audit
kept db (ok db') = db'
kept db (err e) = db

abbrev pub second : Result (ℕ × Audit) → Result Audit
second (ok (n, db)) = ok db
second (err e) = err e

unfoldable pub perform : Operation → Audit → Audit
unfolding record_research
perform (opening fault session version now) db = kept db (open_session fault session version now db)
perform (recording_research fault session request result now) db =
    kept db (record_research fault session request result now db)
perform (recording_quote fault session quote request view digest now) db =
    kept db (record_quote fault session quote request view digest now db)
perform (claiming fault session request now) db = (claim_quote fault session request now db).1
perform (succeeding fault attempt chain transactions now) db =
    kept db (record_execution_success fault attempt chain transactions now db)
perform (failing fault attempt now) db = kept db (record_execution_failure fault attempt now db)
perform (pruning fault older_than) db = kept db (second (prune fault older_than db))

unfoldable pub run : List Operation → Audit → Audit
run [] db = db
run (operation ∷ operations) db = run operations (perform operation db)
