-- ===== src/Storage/Audit/Claims.antt =====
-- The claims of quotes (crates/storage/src/lib.rs, `claim_quote` and what runs beside it).
use nofomo.Prelude.{
  ℕ, Bool, true, false, not, ◌||◌, ◌+◌, ◌≤◌, ◌≡◌, refl, sym, ap, ◌∙◌, List, ◌∷◌, Text, text_eq,
  text_eq_iff, Option, none, some, Result, ok, err, msg, bind-eq-ok, ok-injective, bail_if,
  bail_if-ok, some_or, some_or-ok, is_none, if◌then◌else◌, arith, Bool-cases, Result-cases, inl,
  inr,
}
use mathlib.Core.Path.{subst}
use nofomo.Prelude.Int.{ℤ}
use nofomo.Storage.Rows.{execute, find_row}
use nofomo.Storage.Rows.Laws.{text_eq_sym, find_row-All, find_row-key}
use nofomo.Storage.Audit.{
  QuoteStatus, is_quoted, QuoteRow, AttemptRow, Audit, quote_key, is_active, try_i64,
  ExecuteTradeRequest, next_status, consume_row, new_attempt, write_claim, claim_row, after_claim,
  after_now, claim_quote,
}
use nofomo.Storage.Audit.Operations.{run}
use nofomo.Storage.Audit.Attempts.{
  attempts_on, IsFresh, IsSound, Stored-map, Distinct-map, All-map_rows, find_row-map,
}

abbrev pub Sound : Audit → Type 0
Sound db = IsSound db.quotes db.attempts

pub execute-ok :
    {A : Type 0} (fault : Option Text) (r : Result A) {a : A} → execute fault r ≡ ok a → r ≡ ok a
execute-ok none r h = h
execute-ok (some e) r h = cc

-- Nothing is left to wait by a claim.
pub next_status-is_quoted : (c : Bool) (now e : ℤ) → is_quoted (next_status c now e) ≡ false
next_status-is_quoted c now e = ground arith

consume_row-id :
    (id : Text) (status : QuoteStatus) (now : ℤ) (q : QuoteRow)
    → (consume_row id status now q).id ≡ q.id
unfolding consume_row
consume_row-id id status now q = elim (Bool-cases (text_eq q.id id)) [
  | inl here ↦ rw here refl
  | inr elsewhere ↦ rw elsewhere refl
]

one_more :
    (row : QuoteRow) (id : Text) (attempts : List AttemptRow)
    → attempts_on row.id attempts ≡ 0
    → attempts_on id attempts ≤ 1
    → (if text_eq row.id id then 1 else 0) + attempts_on id attempts ≤ 1
one_more row id attempts free one = elim (Bool-cases (text_eq row.id id)) [
  | inl here ↦
      let at_id : attempts_on id attempts ≡ 0 =
        subst (λ (k : Text). attempts_on k attempts ≡ 0) ((text_eq_iff row.id id).0 here) free in
      rw (here, at_id) (omega arith)
  | inr elsewhere ↦ rw elsewhere (omega arith)
]

consume_row-IsFresh :
    (row : QuoteRow) (status : QuoteStatus) (now : ℤ) (db : Audit)
    → is_quoted status ≡ false
    → (q : QuoteRow) → IsFresh db.attempts q
    → IsFresh (new_attempt db row status now ∷ db.attempts) (consume_row row.id status now q)
unfolding consume_row
consume_row-IsFresh row status now db over q none_yet = elim (Bool-cases (text_eq q.id row.id)) [
  | inl here ↦ rw here (λ waits. absurd (true_false (sym waits ∙ over)))
  | inr elsewhere ↦
      let untouched : consume_row row.id status now q ≡ q = rw (elsewhere, consume_row) refl in
      subst (IsFresh (new_attempt db row status now ∷ db.attempts)) (sym untouched)
        (λ waits. rw (text_eq_sym q.id row.id elsewhere) (omega (arith, none_yet waits)))
]
  where
    true_false : true ≡ false → ⊥
    true_false e = cc

write_claim-Sound :
    (row : QuoteRow) (status : QuoteStatus) (now : ℤ) (db : Audit)
    → find_row quote_key row.id db.quotes ≡ some row
    → is_quoted row.status ≡ true
    → is_quoted status ≡ false
    → Sound db
    → Sound (write_claim row status now db)
unfolding write_claim
write_claim-Sound row status now db found waits over h =
    let f = consume_row row.id status now in
    let same = consume_row-id row.id status now in
    let no_attempt : attempts_on row.id db.attempts ≡ 0 =
      find_row-All quote_key (IsFresh db.attempts) row.id db.quotes h.fresh found waits in
    record {
      quote_ids = Distinct-map f same db.quotes h.quote_ids;
      attempt_quote = (
        find_row-map f same row.id db.quotes ∙ ap is_none found,
        Stored-map f same db.quotes db.attempts h.attempt_quote,
      );
      one_attempt = λ id. one_more row id db.attempts no_attempt (h.one_attempt id);
      fresh =
          All-map_rows (IsFresh db.attempts) (IsFresh (new_attempt db row status now ∷ db.attempts))
            f db.quotes (λ q. consume_row-IsFresh row status now db over q) h.fresh;
    }

claim_row-Sound :
    (session_id : Text) (request : ExecuteTradeRequest) (now : ℤ) (db : Audit)
    {answer : QuoteStatus × Audit}
    → claim_row session_id request now db ≡ ok answer
    → Sound db
    → Sound answer.1
unfolding claim_row
claim_row-Sound session_id request now db run h =
    let (row, e1, run1) =
      bind-eq-ok (some_or _ (find_row quote_key request.quote_id db.quotes)) _ run in
    let (u2, e2, run2) =
      bind-eq-ok (bail_if (not (text_eq row.session_id session_id) || not (is_quoted row.status)) _)
        _ run1 in
    let (u3, e3, run3) = bind-eq-ok (bail_if (not (is_active db session_id)) _) _ run2 in
    let status = next_status request.confirmed now row.expires_at in
    let found = some_or-ok _ _ e1 in
    let named =
      (text_eq_iff row.id request.quote_id).0
        (find_row-key quote_key request.quote_id db.quotes found) in
    let found_row : find_row quote_key row.id db.quotes ≡ some row =
      subst (λ (k : Text). find_row quote_key k db.quotes ≡ some row) (sym named) found in
    subst (λ (a : QuoteStatus × Audit). Sound a.1) (ok-injective run3)
      (write_claim-Sound row status now db found_row (waits _ _ (bail_if-ok _ _ e2))
        (next_status-is_quoted request.confirmed now row.expires_at) h)
  where
    waits : (a b : Bool) → (not a || not b) ≡ false → b ≡ true
    waits a b e = ground arith

after_claim-Sound :
    (db : Audit) (r : Result (QuoteStatus × Audit))
    → ((a : QuoteStatus × Audit) → r ≡ ok a → Sound a.1)
    → Sound db
    → Sound (after_claim db r).1
unfolding after_claim
after_claim-Sound db (err e) made h = h
after_claim-Sound db (ok (status, db')) made h = made (status, db') refl

pub claim_quote-Sound :
    (fault : Option Text) (session_id : Text) (request : ExecuteTradeRequest) (now : ℕ) (db : Audit)
    → Sound db
    → Sound (claim_quote fault session_id request now db).1
unfolding claim_quote after_now
claim_quote-Sound fault session_id request now db h =
    elim (Result-cases (try_i64 (msg "current time exceeds i64") now)) [
      | inr (e, wrong) ↦ rw wrong h
      | inl (n, e) ↦ rw e (
          after_claim-Sound db (execute fault (claim_row session_id request n db))
            (λ a made. claim_row-Sound session_id request n db (execute-ok fault _ made) h) h)
    ]
