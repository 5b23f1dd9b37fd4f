-- ===== src/Storage/Audit/Once.antt =====
-- A claim that succeeds, and what a second one meets (crates/storage/src/lib.rs, `claim_quote`).
use nofomo.Prelude.{
  ◌+◌, ℕ, Bool, true, false, not, ◌||◌, ◌≡◌, refl, sym, ap, ◌∙◌, List, [], ◌∷◌, Text, text_eq,
  text_eq_iff, Option, none, some, Result, ok, err, bind-eq-ok, ok-injective, err-ne-ok, bail_if,
  bail_if-ok, some_or, some_or-ok, msg, arith, ltb, Bool-cases, inl, inr,
}
use mathlib.Core.Path.{subst}
use nofomo.Prelude.Int.{ℤ, pos, ltb_ℤ}
use nofomo.Storage.Rows.{execute, find_row}
use nofomo.Storage.Rows.Laws.{find_row-key}
use nofomo.Storage.Audit.{
  QuoteStatus, is_quoted, claimed, QuoteRow, Audit, quote_key, is_active, ExecuteTradeRequest,
  next_status, answer_claim, consume, consume_row, write_claim, claim_row, after_claim, after_now,
  claim_quote,
}
use nofomo.Storage.Audit.Claims.{execute-ok}
use mathlib.Core.List.{map}

-- What a claim that succeeds has found, and what it leaves.
pub record IsClaim (session_id : Text) (request : ExecuteTradeRequest) (now : ℕ) (db : Audit)
    (attempt : ℕ) (left : Audit) : Type 0 where
  pub row : QuoteRow
  pub found : find_row quote_key request.quote_id db.quotes ≡ some row
  pub own : text_eq row.session_id session_id ≡ true
  pub waits : is_quoted row.status ≡ true
  pub was_confirmed : request.confirmed ≡ true
  pub in_time : ltb_ℤ (pos now) row.expires_at ≡ true
  pub active : is_active db session_id ≡ true
  pub new_attempt : attempt ≡ db.next_attempt
  -- The quote is claimed and consumed, and every other one is as it was.
  pub taken :
      find_row quote_key request.quote_id left.quotes
      ≡ some (record row { status = claimed; consumed_at = some (pos now) })
  pub others :
      (id : Text)
      → text_eq request.quote_id id ≡ false
      → find_row quote_key id left.quotes ≡ find_row quote_key id db.quotes
  -- One new attempt, on that quote, that is not over.
  pub attempts :
      left.attempts
      ≡ record {
        id = db.next_attempt;
        quote_id = request.quote_id;
        status = claimed;
        error_class = none;
        created_at = pos now;
        finished_at = none;
      }
        ∷ db.attempts
  pub numbered : left.next_attempt ≡ db.next_attempt + 1
  pub same_sessions : left.sessions ≡ db.sessions
  pub same_research : left.research_runs ≡ db.research_runs
  pub same_references : left.references ≡ db.references

claimed_status :
    (c : Bool) (now e : ℤ) (n : ℕ) {a : ℕ}
    → answer_claim (next_status c now e) n ≡ ok a
    → (c ≡ true) × (ltb_ℤ now e ≡ true) × (next_status c now e ≡ claimed) × (a ≡ n)
claimed_status c now e n h = elim (Bool-cases (ltb_ℤ now e)) [
  | inr late ↦ absurd (err-ne-ok (rw late at h))
  | inl timely ↦ elim (Bool-cases c) [
    | inr no_consent ↦ absurd (err-ne-ok (rw (timely, no_consent) at h))
    | inl consent ↦
        (consent, timely, rw (timely, consent) refl, sym (ok-injective (rw (timely, consent) at h)))
  ]
]

session_and_status :
    (own waits : Bool) → (not own || not waits) ≡ false → (own ≡ true) × (waits ≡ true)
session_and_status own waits h = (ground arith, ground arith)

is_true : (b : Bool) → not b ≡ false → b ≡ true
is_true b h = ground arith

find_row-consume_row :
    (id : Text) (status : QuoteStatus) (now : ℤ) (quotes : List QuoteRow) {row : QuoteRow}
    → find_row quote_key id quotes ≡ some row
    → find_row quote_key id (map (consume_row id status now) quotes) ≡ some (consume row status now)
unfolding find_row consume_row
find_row-consume_row id status now [] h = cc
find_row-consume_row id status now (q ∷ qs) h = elim (Bool-cases (text_eq q.id id)) [
  | inl here ↦
      rw (here, here)
        (ap (λ (r : QuoteRow). some (consume r status now)) (some-same (rw here at h)))
  | inr elsewhere ↦
      rw (elsewhere, elsewhere) (find_row-consume_row id status now qs (rw elsewhere at h))
]
  where
    some-same : {r : QuoteRow} → some q ≡ some r → q ≡ r
    some-same e = cc

find_row-others :
    (id k : Text) (status : QuoteStatus) (now : ℤ) (quotes : List QuoteRow)
    → text_eq id k ≡ false
    → find_row quote_key k (map (consume_row id status now) quotes) ≡ find_row quote_key k quotes
unfolding find_row consume_row
find_row-others id k status now [] h = refl
find_row-others id k status now (q ∷ qs) h = elim (Bool-cases (text_eq q.id id)) [
  | inl same ↦
      let e : text_eq q.id k ≡ false =
        subst (λ (i : Text). text_eq i k ≡ false) (sym ((text_eq_iff q.id id).0 same)) h in
      rw (same, e) (find_row-others id k status now qs h)
  | inr differs ↦ rw differs (elim (Bool-cases (text_eq q.id k)) [
    | inl here ↦ rw here refl
    | inr elsewhere ↦ rw elsewhere (find_row-others id k status now qs h)
  ])
]

-- The writes of a claim of the quote under an id, field by field.
write_claim-IsClaim :
    (session_id : Text) (request : ExecuteTradeRequest) (now : ℕ) (db : Audit) (row : QuoteRow)
    → find_row quote_key request.quote_id db.quotes ≡ some row
    → text_eq row.session_id session_id ≡ true
    → is_quoted row.status ≡ true
    → request.confirmed ≡ true
    → ltb_ℤ (pos now) row.expires_at ≡ true
    → is_active db session_id ≡ true
    → IsClaim session_id request now db db.next_attempt (write_claim row claimed (pos now) db)
unfolding write_claim
write_claim-IsClaim session_id request now db row found own waits consent timely active =
    let id : row.id ≡ request.quote_id =
      (text_eq_iff _ _).0 (find_row-key quote_key request.quote_id db.quotes found) in
    record {
      row = row;
      found = found;
      own = own;
      waits = waits;
      was_confirmed = consent;
      in_time = timely;
      active = active;
      new_attempt = refl;
      taken =
          ap
            (λ (i : Text).
              find_row quote_key request.quote_id (map (consume_row i claimed (pos now)) db.quotes))
            id
          ∙ find_row-consume_row request.quote_id claimed (pos now) db.quotes found;
      others = λ k other.
          find_row-others row.id k claimed (pos now) db.quotes
            (subst (λ (i : Text). text_eq i k ≡ false) (sym id) other);
      attempts = rw id refl;
      numbered = refl;
      same_sessions = refl;
      same_research = refl;
      same_references = refl;
    }

claim_row-IsClaim :
    (session_id : Text) (request : ExecuteTradeRequest) (now : ℕ) (db : Audit)
    {status : QuoteStatus} {left : Audit} {attempt : ℕ}
    → claim_row session_id request (pos now) db ≡ ok (status, left)
    → answer_claim status db.next_attempt ≡ ok attempt
    → IsClaim session_id request now db attempt left
unfolding claim_row
claim_row-IsClaim session_id request now db {status} {left} {attempt} run answer =
    let (row, e1, run1) =
      bind-eq-ok (some_or _ (find_row quote_key request.quote_id db.quotes)) _ run in
    let (u2, e2, run2) =
      bind-eq-ok (bail_if (not (text_eq row.session_id session_id) || not (is_quoted row.status)) _)
        _ run1 in
    let (u3, e3, run3) = bind-eq-ok (bail_if (not (is_active db session_id)) _) _ run2 in
    let wrote = ok-injective run3 in
    let answered =
      subst (λ (p : QuoteStatus × Audit). answer_claim p.0 db.next_attempt ≡ ok attempt) (sym wrote)
        answer in
    let (consent, timely, is_claimed, numbered) =
      claimed_status request.confirmed (pos now) row.expires_at db.next_attempt answered in
    let (own, waits) = session_and_status _ _ (bail_if-ok _ _ e2) in
    let made =
      write_claim-IsClaim session_id request now db row (some_or-ok _ _ e1) own waits consent timely
        (is_true _ (bail_if-ok _ _ e3)) in
    let written : write_claim row claimed (pos now) db ≡ left =
      sym (ap (λ (s : QuoteStatus). write_claim row s (pos now) db) is_claimed)
      ∙ ap (λ (p : QuoteStatus × Audit). p.1) wrote in
    subst (λ (u : Audit). IsClaim session_id request now db attempt u) written
      (subst (λ (n : ℕ). IsClaim session_id request now db n (write_claim row claimed (pos now) db))
        (sym numbered) made)

after_claim-IsClaim :
    (session_id : Text) (request : ExecuteTradeRequest) (now : ℕ) (db : Audit)
    (r : Result (QuoteStatus × Audit)) {attempt : ℕ}
    → ((a : QuoteStatus × Audit) → r ≡ ok a → claim_row session_id request (pos now) db ≡ ok a)
    → (after_claim db r).0 ≡ ok attempt
    → IsClaim session_id request now db attempt (after_claim db r).1
unfolding after_claim
after_claim-IsClaim session_id request now db (err e) made h = absurd (err-ne-ok h)
after_claim-IsClaim session_id request now db (ok (status, left)) made h =
    claim_row-IsClaim session_id request now db (made (status, left) refl) h

-- A claim succeeds only on a quote of the same session that waits for a claim, before it expires, with
-- the user's confirmation, while the session is active; it marks the quote as claimed, adds one
-- unfinished attempt on it, whose new number it returns, and changes nothing else.
pub claim_quote-IsClaim :
    (fault : Option Text) (session_id : Text) (request : ExecuteTradeRequest) (now : ℕ) (db : Audit)
    {attempt : ℕ}
    → (claim_quote fault session_id request now db).0 ≡ ok attempt
    → IsClaim session_id request now db attempt (claim_quote fault session_id request now db).1
unfolding claim_quote after_now
claim_quote-IsClaim fault session_id request now db h =
    elim (Bool-cases (ltb now 9223372036854775808)) [
      | inr late ↦ absurd (err-ne-ok (rw late at h))
      | inl fits ↦
          let claim = execute fault (claim_row session_id request (pos now) db) in
          let run : (after_claim db claim).0 ≡ ok _ = rw fits at h in
          rw fits (
            after_claim-IsClaim session_id request now db claim (λ a made. execute-ok fault _ made)
              run)
    ]

abbrev unavailable : Text
unavailable = msg "quote was invalidated, consumed, or belongs to another process session"

claim_row-spent :
    (session_id : Text) (request : ExecuteTradeRequest) (now : ℤ) (db : Audit) {row : QuoteRow}
    → find_row quote_key request.quote_id db.quotes ≡ some row
    → is_quoted row.status ≡ false
    → (e : Text) × (claim_row session_id request now db ≡ err e)
unfolding claim_row
claim_row-spent session_id request now db {row} found spent =
    elim (Bool-cases (text_eq row.session_id session_id)) [
      | inl own ↦ (unavailable, rw (found, own, spent) refl)
      | inr other ↦ (unavailable, rw (found, other) refl)
    ]

execute-refused :
    (f : Option Text) {A : Type 0} {r : Result A}
    → (e : Text) × (r ≡ err e)
    → (e : Text) × (execute f r ≡ err e)
execute-refused none h = h
execute-refused (some e) h = (e, refl)

-- A quote that waits for no claim is claimed by nobody.
claim_quote-spent :
    (fault : Option Text) (session_id : Text) (request : ExecuteTradeRequest) (now : ℕ) (db : Audit)
    {row : QuoteRow}
    → find_row quote_key request.quote_id db.quotes ≡ some row
    → is_quoted row.status ≡ false
    → (e : Text) × (claim_quote fault session_id request now db ≡ (err e, db))
unfolding claim_quote after_now after_claim
claim_quote-spent fault session_id request now db found spent =
    elim (Bool-cases (ltb now 9223372036854775808)) [
      | inr late ↦ (msg "current time exceeds i64", rw late refl)
      | inl fits ↦
          let (e, refused) =
            execute-refused fault (claim_row-spent session_id request (pos now) db found spent) in
          (e, rw (fits, refused) refl)
    ]

-- After a claim that succeeded, any claim of the quote fails and writes nothing, whichever session
-- makes it.
pub claim_quote-claim_quote :
    (fault : Option Text) (session_id : Text) (request : ExecuteTradeRequest) (now : ℕ) (db : Audit)
    {attempt : ℕ} (fault' : Option Text) (session_id' : Text) (request' : ExecuteTradeRequest)
    (now' : ℕ)
    → (claim_quote fault session_id request now db).0 ≡ ok attempt
    → request'.quote_id ≡ request.quote_id
    → (e : Text) × (claim_quote fault' session_id' request' now'
          (claim_quote fault session_id request now db).1
        ≡ (err e, (claim_quote fault session_id request now db).1))
claim_quote-claim_quote fault session_id request now db fault' session_id' request' now' h same =
    let first = claim_quote-IsClaim fault session_id request now db h in
    claim_quote-spent fault' session_id' request' now' _ {row = consume first.row claimed (pos now)}
      (rw same first.taken) refl
