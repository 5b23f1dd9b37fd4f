-- ===== src/Storage/Audit.antt =====
-- Sessions, quotes and execution attempts (crates/storage/src/lib.rs and crates/storage/schema.sql).
-- An operation is one transaction, so that any interleaving of callers is a sequence of operations.
-- `fault` is the error of the database, if it has one: nothing is written then. The serialized
-- requests, views and results are texts.
pub mod Settle
pub mod Operations
pub mod Attempts
pub mod Claims
pub mod Once
pub mod Always
use nofomo.Prelude.{
  ℕ, Bool, true, false, not, ◌&&◌, ◌||◌, ◌+◌, ◌++◌, ◌==◌, List, [], ◌∷◌, Text, codes, msg, text_eq,
  Option, none, some, Result, ok, err, ◌>>=◌, ◌>>◌, bail_if, some_or, any, filter, is_none,
  if◌then◌else◌, ltb, length,
}
use mathlib.Core.List.{map}
use mathlib.Core.Option
use nofomo.Prelude.Int.{ℤ, pos, ltb_ℤ}
use nofomo.Storage.Rows.{execute, find_row, put_row}

-- `quotes.status`
pub data QuoteStatus : Type 0 where
  quoted claimed expired rejected_unconfirmed invalidated_restart confirmed failed : QuoteStatus

abbrev pub is_quoted : QuoteStatus → Bool
is_quoted quoted = true
is_quoted _ = false

pub record SessionRow : Type 0 where
  pub id : Text
  pub version : Text
  pub started_at : ℤ
  pub ended_at : Option ℤ

pub record ResearchRow : Type 0 where
  pub session_id : Text
  pub request_json : Text
  pub result_json : Text
  pub created_at : ℤ

pub record QuoteRow : Type 0 where
  pub id : Text
  pub session_id : Text
  pub venue : Text
  pub chain : Text
  pub request_json : Text
  pub view_json : Text
  pub plan_digest : Text
  pub expires_at : ℤ
  pub status : QuoteStatus
  pub created_at : ℤ
  pub consumed_at : Option ℤ

pub record AttemptRow : Type 0 where
  pub id : ℕ
  pub quote_id : Text
  pub status : QuoteStatus
  pub error_class : Option Text
  pub created_at : ℤ
  pub finished_at : Option ℤ

pub record ReferenceRow : Type 0 where
  pub attempt_id : ℕ
  pub kind : Text
  pub chain : Text
  pub tx_id : Text

pub record Audit : Type 0 where
  pub sessions : List SessionRow
  pub research_runs : List ResearchRow
  pub quotes : List QuoteRow
  pub attempts : List AttemptRow
  pub references : List ReferenceRow
  -- `AUTOINCREMENT`: no id is used twice.
  pub next_attempt : ℕ

-- What the schema creates.
abbrev pub nothing_stored : Audit
nothing_stored = record {
  sessions = [];
  research_runs = [];
  quotes = [];
  attempts = [];
  references = [];
  next_attempt = 1;
}

abbrev pub quote_key : QuoteRow → Text
quote_key row = row.id

abbrev session_key : SessionRow → Text
session_key row = row.id

-- `EXISTS (SELECT 1 FROM process_sessions WHERE id = ? AND ended_at IS NULL)`
abbrev pub is_active : Audit → Text → Bool
is_active db id = any (λ row. text_eq row.id id && is_none row.ended_at) db.sessions

abbrev invalidate : ℤ → QuoteRow → QuoteRow
invalidate now row =
    if is_quoted row.status
    then record row { status = invalidated_restart; consumed_at = some now }
    else row

end_session : Text → ℤ → SessionRow → SessionRow
end_session session_id now row =
    if is_none row.ended_at && not (text_eq row.id session_id)
    then record row { ended_at = some now }
    else row

-- `SqliteAuditStore::open`, with the id that it makes for its session.
unfoldable pub open_session : Option Text → Text → Text → ℤ → Audit → Result Audit
unfolding end_session
open_session fault session_id version now db = execute fault (do
  bail_if (not (is_none (find_row session_key session_id db.sessions)))
      (msg "UNIQUE constraint failed")
  ok (record db {
    quotes = map (invalidate now) db.quotes;
    sessions =
        record { id = session_id; version = version; started_at = now; ended_at = none }
        ∷ map (end_session session_id now) db.sessions;
  }))

-- `record_research`; `result_json` leaves out the reason of a guard that did not pass.
unfoldable pub record_research : Option Text → Text → Text → Text → ℤ → Audit → Result Audit
record_research fault session_id request_json result_json now db = execute fault (do
  bail_if (not (is_active db session_id)) (msg "process session is no longer active")
  ok (record db {
    research_runs =
        record {
          session_id = session_id;
          request_json = request_json;
          result_json = result_json;
          created_at = now;
        }
        ∷ db.research_runs;
  }))

pub record QuoteView : Type 0 where
  pub quote_id : Text
  pub venue : Text
  pub chain : Text
  pub token_in : Text
  pub token_out : Text
  pub amount_in : Text
  pub expected_amount_out : Text
  pub minimum_amount_out : Text
  pub expires_at_unix : ℕ  -- u64
  pub graph_guard : Text
  pub requires_confirmation : Bool

-- `i64::try_from` of a u64
abbrev try_i64 : Text → ℕ → Result ℤ
try_i64 e n = if ltb n 9223372036854775808 then ok (pos n) else err e

abbrev new_quote : Text → QuoteView → Text → Text → Text → ℤ → ℤ → QuoteRow
new_quote session_id quote request_json view_json plan_digest expires_at now = record {
  id = quote.quote_id;
  session_id = session_id;
  venue = quote.venue;
  chain = quote.chain;
  request_json = request_json;
  view_json = view_json;
  plan_digest = plan_digest;
  expires_at = expires_at;
  status = quoted;
  created_at = now;
  consumed_at = none;
}

insert_quote : Text → QuoteRow → Audit → Result Audit
insert_quote session_id row db = do
  bail_if (not (is_active db session_id)) (msg "process session is no longer active")
  bail_if (not (is_none (find_row quote_key row.id db.quotes))) (msg "UNIQUE constraint failed")
  ok (record db { quotes = row ∷ db.quotes })

unfoldable pub record_quote :
    Option Text → Text → QuoteView → Text → Text → Text → ℤ → Audit → Result Audit
unfolding insert_quote
record_quote fault session_id quote request_json view_json plan_digest now db = do
  expires_at ← try_i64 (msg "quote expiry exceeds i64") quote.expires_at_unix
  execute fault (
      insert_quote session_id
        (new_quote session_id quote request_json view_json plan_digest expires_at now) db)

pub record ExecuteTradeRequest : Type 0 where
  pub quote_id : Text
  pub confirmed : Bool

-- What a claim makes of a quote.
abbrev pub next_status : Bool → ℤ → ℤ → QuoteStatus
next_status is_confirmed now expires_at =
    if not (ltb_ℤ now expires_at)
    then expired
    else if not is_confirmed
    then rejected_unconfirmed
    else claimed

-- An attempt that is not claimed is over.
abbrev finished : QuoteStatus → ℤ → Option ℤ
finished claimed now = none
finished _ now = some now

abbrev consume : QuoteRow → QuoteStatus → ℤ → QuoteRow
consume row status now = record row { status = status; consumed_at = some now }

abbrev new_attempt : Audit → QuoteRow → QuoteStatus → ℤ → AttemptRow
new_attempt db row status now = record {
  id = db.next_attempt;
  quote_id = row.id;
  status = status;
  error_class = none;
  created_at = now;
  finished_at = finished status now;
}

-- `UPDATE quotes … WHERE id = ?`; the row was read before in the same transaction, with the status and
-- the session that the statement asks for.
unfoldable pub consume_row : Text → QuoteStatus → ℤ → QuoteRow → QuoteRow
consume_row id status now row = if text_eq row.id id then consume row status now else row

-- The writes of a claim.
unfoldable pub write_claim : QuoteRow → QuoteStatus → ℤ → Audit → Audit
unfolding consume_row
write_claim row status now db = record db {
  quotes = map (consume_row row.id status now) db.quotes;
  attempts = new_attempt db row status now ∷ db.attempts;
  next_attempt = db.next_attempt + 1;
}

-- The transaction of a claim: the status that it wrote.
claim_row : Text → ExecuteTradeRequest → ℤ → Audit → Result (QuoteStatus × Audit)
unfolding write_claim
claim_row session_id request now db = do
  row ←
      some_or (msg "quote " ++ request.quote_id ++ msg " was not found")
        (find_row quote_key request.quote_id db.quotes)
  bail_if (not (text_eq row.session_id session_id) || not (is_quoted row.status))
      (msg "quote was invalidated, consumed, or belongs to another process session")
  let status = next_status request.confirmed now row.expires_at
  bail_if (not (is_active db session_id)) (msg "quote was claimed concurrently")
  ok (status, write_claim row status now db)

-- The answer to the caller once the transaction is committed.
abbrev answer_claim : QuoteStatus → ℕ → Result ℕ
answer_claim claimed attempt_id = ok attempt_id
answer_claim expired attempt_id = err (msg "quote expired; request a fresh quote")
answer_claim _ attempt_id =
    err (msg "execution requires confirmed=true after the user reviews the quote")

after_claim : Audit → Result (QuoteStatus × Audit) → Result ℕ × Audit
after_claim db (err e) = (err e, db)
after_claim db (ok (status, db')) = (answer_claim status db.next_attempt, db')

after_now : Option Text → Text → ExecuteTradeRequest → Audit → Result ℤ → Result ℕ × Audit
unfolding claim_row after_claim
after_now fault session_id request db (err e) = (err e, db)
after_now fault session_id request db (ok now) =
    after_claim db (execute fault (claim_row session_id request now db))

unfoldable pub claim_quote : Option Text → Text → ExecuteTradeRequest → ℕ → Audit → Result ℕ × Audit
unfolding after_now
claim_quote fault session_id request now db =
    after_now fault session_id request db (try_i64 (msg "current time exceeds i64") now)
