-- ===== src/Storage/Audit/Settle.antt =====
-- The end of an execution, and what an administrator deletes (crates/storage/src/lib.rs,
-- `record_execution_success`, `record_execution_failure`, `prune`).
use nofomo.Prelude.{
  ℕ, Bool, not, ◌&&◌, ◌==◌, List, [], ◌∷◌, Text, codes, msg, text_eq, Option, some, Result, ok,
  ◌>>=◌, ◌>>◌, bail_if, any, filter, is_none, if◌then◌else◌, length,
}
use mathlib.Core.List.{map}
use mathlib.Core.Option
use nofomo.Prelude.Int.{ℤ, ltb_ℤ}
use nofomo.Storage.Rows.{execute, find_row}
use nofomo.Storage.Audit.{
  AttemptRow, Audit, QuoteRow, QuoteStatus, ReferenceRow, ResearchRow, confirmed, failed, quote_key,
}

-- `WHERE id = (SELECT quote_id FROM execution_attempts WHERE id = ?)`
abbrev pub is_quote_of : List AttemptRow → ℕ → Text → Bool
is_quote_of attempts attempt_id quote_id =
    any (λ row. row.id == attempt_id && text_eq row.quote_id quote_id) attempts

unfoldable pub settle_quote : List AttemptRow → ℕ → QuoteStatus → QuoteRow → QuoteRow
settle_quote attempts attempt_id outcome row =
    if is_quote_of attempts attempt_id row.id then record row { status = outcome } else row

unfoldable pub confirm_attempt : ℕ → ℤ → AttemptRow → AttemptRow
confirm_attempt attempt_id now row =
    if row.id == attempt_id then record row { status = confirmed; finished_at = some now } else row

unfoldable pub fail_attempt : ℕ → ℤ → AttemptRow → AttemptRow
fail_attempt attempt_id now row =
    if row.id == attempt_id
    then record row {
      status = failed;
      error_class = some (codes "execution_failed");
      finished_at = some now;
    }
    else row

pub record TransactionReference : Type 0 where
  pub kind : Text
  pub id : Text

abbrev pub same_reference : ReferenceRow → ReferenceRow → Bool
same_reference a b =
    a.attempt_id == b.attempt_id && text_eq a.kind b.kind && text_eq a.tx_id b.tx_id

-- The loop over the transactions of an execution.
unfoldable pub insert_references :
    List AttemptRow
    → ℕ
    → Text
    → List TransactionReference
    → List ReferenceRow
    → Result (List ReferenceRow)
insert_references attempts attempt_id chain [] rows = ok rows
insert_references attempts attempt_id chain (reference ∷ references) rows = do
  let row : ReferenceRow = record {
    attempt_id = attempt_id;
    kind = reference.kind;
    chain = chain;
    tx_id = reference.id;
  }
  bail_if (not (any (λ attempt. attempt.id == attempt_id) attempts))
      (msg "FOREIGN KEY constraint failed")
  bail_if (any (same_reference row) rows) (msg "UNIQUE constraint failed")
  insert_references attempts attempt_id chain references (row ∷ rows)

unfoldable pub record_execution_success :
    Option Text → ℕ → Text → List TransactionReference → ℤ → Audit → Result Audit
unfolding insert_references confirm_attempt settle_quote
record_execution_success fault attempt_id chain transactions now db = execute fault (do
  references ← insert_references db.attempts attempt_id chain transactions db.references
  ok (record db {
    references = references;
    attempts = map (confirm_attempt attempt_id now) db.attempts;
    quotes = map (settle_quote db.attempts attempt_id confirmed) db.quotes;
  }))

unfoldable pub record_execution_failure : Option Text → ℕ → ℤ → Audit → Result Audit
unfolding fail_attempt settle_quote
record_execution_failure fault attempt_id now db = execute fault (
    ok (record db {
      attempts = map (fail_attempt attempt_id now) db.attempts;
      quotes = map (settle_quote db.attempts attempt_id failed) db.quotes;
    }))

abbrev pub keeps_quote : ℤ → QuoteRow → Bool
keeps_quote older_than row = not (ltb_ℤ row.created_at older_than)

-- `ON DELETE CASCADE`: the attempts of the quotes that are left, and the references of the attempts.
abbrev pub attempts_left : List QuoteRow → List AttemptRow → List AttemptRow
attempts_left quotes attempts =
    filter (λ attempt. not (is_none (find_row quote_key attempt.quote_id quotes))) attempts

abbrev pub references_left : List AttemptRow → List ReferenceRow → List ReferenceRow
references_left attempts references =
    filter (λ row. any (λ attempt. attempt.id == row.attempt_id) attempts) references

-- The count of the deleted quotes, and what is left.
unfoldable pub prune : Option Text → ℤ → Audit → Result (ℕ × Audit)
prune fault older_than db =
    let quotes = filter (keeps_quote older_than) db.quotes in
    let attempts = attempts_left quotes db.attempts in
    execute fault (
      ok (
        length (filter (λ row. not (keeps_quote older_than row)) db.quotes),
        record db {
          research_runs =
              filter (λ (row : ResearchRow). not (ltb_ℤ row.created_at older_than))
                db.research_runs;
          quotes = quotes;
          attempts = attempts;
          references = references_left attempts db.references;
        },
      ))

unfoldable pub quote_status : Option Text → Text → Audit → Result (Option QuoteStatus)
quote_status fault quote_id db =
    execute fault
      (ok (Option.map (λ (row : QuoteRow). row.status) (find_row quote_key quote_id db.quotes)))
