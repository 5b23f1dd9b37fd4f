-- ===== src/Storage/Audit/Always.antt =====
-- Every operation on the audit trail (crates/storage/src/lib.rs).
use nofomo.Prelude.{
  ℕ, true, false, not, ◌≡◌, refl, sym, ◌∙◌, List, [], ◌∷◌, Text, Option, none, some, Result, ok,
  err, msg, bind-eq-ok, ok-injective, err-ne-ok, bail_if, bail_if-ok, is_none, Bool-cases, inl, inr,
  ◌==◌,
}
use mathlib.Core.List.{map, map-id}
use mathlib.Core.Path.{subst}
use nofomo.Prelude.Int.{ℤ}
use nofomo.Storage.Rows.{find_row}
use nofomo.Storage.Audit.{
  QuoteStatus, is_quoted, QuoteRow, AttemptRow, Audit, quote_key, invalidate, open_session,
  session_key, is_active, record_research, insert_quote, record_quote, new_quote, try_i64,
  QuoteView, confirmed, failed,
}
use nofomo.Storage.Audit.Settle.{
  TransactionReference, is_quote_of, settle_quote, confirm_attempt, fail_attempt,
  record_execution_success, record_execution_failure, insert_references, keeps_quote, prune,
}
use nofomo.Storage.Audit.Operations.{
  Operation, opening, recording_research, recording_quote, claiming, succeeding, failing, pruning,
  kept, second, perform, run,
}
use nofomo.Storage.Audit.Attempts.{IsSound, insert-IsSound, update-IsSound, prune-IsSound}
use nofomo.Storage.Audit.Claims.{execute-ok, Sound, claim_quote-Sound}

kept-Sound :
    (db : Audit) (r : Result Audit)
    → ((db' : Audit) → r ≡ ok db' → Sound db')
    → Sound db
    → Sound (kept db r)
kept-Sound db (ok db') made h = made db' refl
kept-Sound db (err e) made h = h

invalidate-id : (now : ℤ) (q : QuoteRow) → (invalidate now q).id ≡ q.id
invalidate-id now q = elim (Bool-cases (is_quoted q.status)) [
  | inl waits ↦ rw waits refl
  | inr over ↦ rw over refl
]

invalidate-older :
    (now : ℤ) (q : QuoteRow)
    → is_quoted (invalidate now q).status ≡ true
    → is_quoted q.status ≡ true
invalidate-older now q h = elim (Bool-cases (is_quoted q.status)) [
  | inl waits ↦ waits
  | inr over ↦ rw over at h
]

open_session-Sound :
    (fault : Option Text) (session_id version : Text) (now : ℤ) (db : Audit) {db' : Audit}
    → open_session fault session_id version now db ≡ ok db'
    → Sound db
    → Sound db'
unfolding open_session
open_session-Sound fault session_id version now db run h =
    let inner = execute-ok fault _ run in
    let (u, e, run1) =
      bind-eq-ok (bail_if (not (is_none (find_row session_key session_id db.sessions))) _) _
        inner in
    subst Sound (ok-injective run1) (
      subst (IsSound (map (invalidate now) db.quotes)) (map-id db.attempts) (
        update-IsSound db (invalidate now) (λ a. a) (invalidate-id now) (invalidate-older now)
          (λ a. refl) h))

record_research-Sound :
    (fault : Option Text) (session_id request_json result_json : Text) (now : ℤ) (db : Audit)
    {db' : Audit}
    → record_research fault session_id request_json result_json now db ≡ ok db'
    → Sound db
    → Sound db'
unfolding record_research
record_research-Sound fault session_id request_json result_json now db run h =
    let inner = execute-ok fault _ run in
    let (u, e, run1) = bind-eq-ok (bail_if (not (is_active db session_id)) _) _ inner in
    subst Sound (ok-injective run1) h

insert_quote-Sound :
    (session_id : Text) (row : QuoteRow) (db : Audit) {db' : Audit}
    → insert_quote session_id row db ≡ ok db'
    → Sound db
    → Sound db'
unfolding insert_quote
insert_quote-Sound session_id row db run h =
    let (u1, e1, run1) = bind-eq-ok (bail_if (not (is_active db session_id)) _) _ run in
    let (u2, e2, run2) =
      bind-eq-ok (bail_if (not (is_none (find_row quote_key row.id db.quotes))) _) _ run1 in
    subst Sound (ok-injective run2) (insert-IsSound db row (no_row _ (bail_if-ok _ _ e2)) h)
  where
    no_row : (o : Option QuoteRow) → not (is_none o) ≡ false → o ≡ none
    no_row none e = refl
    no_row (some q) e = cc

record_quote-Sound :
    (fault : Option Text) (session_id : Text) (quote : QuoteView) (request view digest : Text)
    (now : ℤ) (db : Audit) {db' : Audit}
    → record_quote fault session_id quote request view digest now db ≡ ok db'
    → Sound db
    → Sound db'
unfolding record_quote
record_quote-Sound fault session_id quote request view digest now db run h =
    let (expires, e1, run1) =
      bind-eq-ok (try_i64 (msg "quote expiry exceeds i64") quote.expires_at_unix) _ run in
    insert_quote-Sound session_id (new_quote session_id quote request view digest expires now) db
      (execute-ok fault _ run1) h

settle_quote-id :
    (attempts : List AttemptRow) (attempt : ℕ) (outcome : QuoteStatus) (q : QuoteRow)
    → (settle_quote attempts attempt outcome q).id ≡ q.id
unfolding settle_quote
settle_quote-id attempts attempt outcome q = elim (Bool-cases (is_quote_of attempts attempt q.id)) [
  | inl it ↦ rw it refl
  | inr other ↦ rw other refl
]

settle_quote-older :
    (attempts : List AttemptRow) (attempt : ℕ) (outcome : QuoteStatus)
    → is_quoted outcome ≡ false
    → (q : QuoteRow) → is_quoted (settle_quote attempts attempt outcome q).status ≡ true
    → is_quoted q.status ≡ true
unfolding settle_quote
settle_quote-older attempts attempt outcome over q h =
    elim (Bool-cases (is_quote_of attempts attempt q.id)) [
      | inl it ↦ absurd (clash (sym (rw it at h) ∙ over))
      | inr other ↦ rw other at h
    ]
  where
    clash : true ≡ false → ⊥
    clash e = cc

confirm_attempt-quote :
    (attempt : ℕ) (now : ℤ) (a : AttemptRow) → (confirm_attempt attempt now a).quote_id ≡ a.quote_id
unfolding confirm_attempt
confirm_attempt-quote attempt now a = elim (Bool-cases (a.id == attempt)) [
  | inl it ↦ rw it refl
  | inr other ↦ rw other refl
]

fail_attempt-quote :
    (attempt : ℕ) (now : ℤ) (a : AttemptRow) → (fail_attempt attempt now a).quote_id ≡ a.quote_id
unfolding fail_attempt
fail_attempt-quote attempt now a = elim (Bool-cases (a.id == attempt)) [
  | inl it ↦ rw it refl
  | inr other ↦ rw other refl
]

record_execution_success-Sound :
    (fault : Option Text) (attempt : ℕ) (chain : Text) (transactions : List TransactionReference)
    (now : ℤ) (db : Audit) {db' : Audit}
    → record_execution_success fault attempt chain transactions now db ≡ ok db'
    → Sound db
    → Sound db'
unfolding record_execution_success
record_execution_success-Sound fault attempt chain transactions now db run h =
    let inner = execute-ok fault _ run in
    let (references, e, run1) =
      bind-eq-ok (insert_references db.attempts attempt chain transactions db.references) _ inner in
    subst Sound (ok-injective run1) (
      update-IsSound db (settle_quote db.attempts attempt confirmed) (confirm_attempt attempt now)
        (settle_quote-id db.attempts attempt confirmed)
        (settle_quote-older db.attempts attempt confirmed refl) (confirm_attempt-quote attempt now)
        h)

record_execution_failure-Sound :
    (fault : Option Text) (attempt : ℕ) (now : ℤ) (db : Audit) {db' : Audit}
    → record_execution_failure fault attempt now db ≡ ok db'
    → Sound db
    → Sound db'
unfolding record_execution_failure
record_execution_failure-Sound fault attempt now db run h =
    subst Sound (ok-injective (execute-ok fault _ run)) (
      update-IsSound db (settle_quote db.attempts attempt failed) (fail_attempt attempt now)
        (settle_quote-id db.attempts attempt failed)
        (settle_quote-older db.attempts attempt failed refl) (fail_attempt-quote attempt now) h)

prune-Sound :
    (fault : Option Text) (older_than : ℤ) (db : Audit) {db' : Audit}
    → second (prune fault older_than db) ≡ ok db'
    → Sound db
    → Sound db'
unfolding prune
prune-Sound none older_than db run h =
    subst Sound (ok-injective run) (prune-IsSound db (keeps_quote older_than) h)
prune-Sound (some e) older_than db run h = absurd (err-ne-ok run)

perform-Sound : (operation : Operation) (db : Audit) → Sound db → Sound (perform operation db)
unfolding perform
perform-Sound (opening fault session version now) db h =
    kept-Sound db _ (λ db' made. open_session-Sound fault session version now db made h) h
perform-Sound (recording_research fault session request result now) db h =
    kept-Sound db _ (λ db' made. record_research-Sound fault session request result now db made h) h
perform-Sound (recording_quote fault session quote request view digest now) db h =
    kept-Sound db _
      (λ db' made. record_quote-Sound fault session quote request view digest now db made h) h
perform-Sound (claiming fault session request now) db h =
    claim_quote-Sound fault session request now db h
perform-Sound (succeeding fault attempt chain transactions now) db h =
    kept-Sound db _
      (λ db' made. record_execution_success-Sound fault attempt chain transactions now db made h) h
perform-Sound (failing fault attempt now) db h =
    kept-Sound db _ (λ db' made. record_execution_failure-Sound fault attempt now db made h) h
perform-Sound (pruning fault older_than) db h =
    kept-Sound db _ (λ db' made. prune-Sound fault older_than db made h) h

-- Whatever sessions open, record, claim, settle and prune, in whatever order and whichever operation
-- fails, no quote has more than one attempt, every attempt is on a stored quote, and a quote that
-- waits for a claim has none.
pub run-IsSound :
    (operations : List Operation) (db : Audit)
    → IsSound db.quotes db.attempts
    → IsSound (run operations db).quotes (run operations db).attempts
unfolding run
run-IsSound [] db h = h
run-IsSound (operation ∷ operations) db h =
    run-IsSound operations (perform operation db) (perform-Sound operation db h)
