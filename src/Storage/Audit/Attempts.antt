-- ===== src/Storage/Audit/Attempts.antt =====
-- The attempts on a quote (crates/storage/src/lib.rs).
use nofomo.Prelude.{
  ℕ, Bool, true, false, not, ◌+◌, ◌≤◌, ◌≡◌, refl, sym, ap, ◌∙◌, List, [], ◌∷◌, Text, text_eq,
  text_eq_iff, none, some, filter, is_none, if◌then◌else◌, All, arith, Bool-cases, inl, inr,
}
use mathlib.Core.List.{map}
use mathlib.Core.Path.{subst}
use nofomo.Prelude.Keys.{Distinct, All-map, All-filter, All-passed, Distinct-filter}
use nofomo.Storage.Rows.{find_row}
use nofomo.Storage.Rows.Laws.{text_eq_sym}
use nofomo.Storage.Audit.{is_quoted, QuoteRow, AttemptRow, Audit, quote_key}
use nofomo.Storage.Audit.Settle.{attempts_left}

-- How many attempts a quote has.
abbrev pub attempts_on : Text → List AttemptRow → ℕ
attempts_on id [] = 0
attempts_on id (a ∷ rest) = (if text_eq a.quote_id id then 1 else 0) + attempts_on id rest

abbrev pub Stored : List QuoteRow → AttemptRow → Type 0
Stored quotes a = is_none (find_row quote_key a.quote_id quotes) ≡ false

-- A quote that waits for a claim has no attempt.
abbrev pub IsFresh : List AttemptRow → QuoteRow → Type 0
IsFresh attempts q = is_quoted q.status ≡ true → attempts_on q.id attempts ≡ 0

-- Ids of quotes are unique, an attempt is on a stored quote, no quote has two attempts, and one that
-- waits for a claim has none.
pub record IsSound (quotes : List QuoteRow) (attempts : List AttemptRow) : Type 0 where
  pub quote_ids : Distinct quote_key quotes
  pub attempt_quote : All (Stored quotes) attempts
  pub one_attempt : (id : Text) → attempts_on id attempts ≤ 1
  pub fresh : All (IsFresh attempts) quotes

-- An update of quotes that keeps their ids.
module _ (f : QuoteRow → QuoteRow) (same : (q : QuoteRow) → (f q).id ≡ q.id) where
  pub find_row-map :
      (k : Text) (quotes : List QuoteRow)
      → is_none (find_row quote_key k (map f quotes)) ≡ is_none (find_row quote_key k quotes)
  unfolding find_row
  find_row-map k [] = refl
  find_row-map k (q ∷ qs) = elim (Bool-cases (text_eq q.id k)) [
    | inl here ↦ rw (same q, here) refl
    | inr elsewhere ↦ rw (same q, elsewhere) (find_row-map k qs)
  ]

  All-differs :
      (k : Text) (quotes : List QuoteRow)
      → All (λ (q : QuoteRow). text_eq k q.id ≡ false) quotes
      → All (λ (q : QuoteRow). text_eq k q.id ≡ false) (map f quotes)
  All-differs k [] h = tt
  All-differs k (q ∷ qs) h =
      (subst (λ (i : Text). text_eq k i ≡ false) (sym (same q)) h.0, All-differs k qs h.1)

  pub Distinct-map :
      (quotes : List QuoteRow) → Distinct quote_key quotes → Distinct quote_key (map f quotes)
  Distinct-map [] h = tt
  Distinct-map (q ∷ qs) h = (
    subst (λ (i : Text). All (λ (r : QuoteRow). text_eq i r.id ≡ false) (map f qs)) (sym (same q))
        (All-differs q.id qs h.0),
    Distinct-map qs h.1,
  )

  pub Stored-map :
      (quotes : List QuoteRow) (attempts : List AttemptRow)
      → All (Stored quotes) attempts
      → All (Stored (map f quotes)) attempts
  Stored-map quotes attempts h =
      All-map (Stored quotes) (Stored (map f quotes)) attempts
        (λ a s. find_row-map a.quote_id quotes ∙ s) h

pub All-map_rows :
    (P Q : QuoteRow → Type 0) (f : QuoteRow → QuoteRow) (quotes : List QuoteRow)
    → ((q : QuoteRow) → P q → Q (f q))
    → All P quotes
    → All Q (map f quotes)
All-map_rows P Q f [] keep h = tt
All-map_rows P Q f (q ∷ qs) keep h = (keep q h.0, All-map_rows P Q f qs keep h.1)

-- An update of attempts that keeps their quotes.
module _ (g : AttemptRow → AttemptRow) (same : (a : AttemptRow) → (g a).quote_id ≡ a.quote_id) where
  pub attempts_on-map :
      (id : Text) (attempts : List AttemptRow)
      → attempts_on id (map g attempts) ≡ attempts_on id attempts
  attempts_on-map id [] = refl
  attempts_on-map id (a ∷ rest) = rw (same a, attempts_on-map id rest) refl

  pub Stored-map_attempts :
      (quotes : List QuoteRow) (attempts : List AttemptRow)
      → All (Stored quotes) attempts
      → All (Stored quotes) (map g attempts)
  Stored-map_attempts quotes [] h = tt
  Stored-map_attempts quotes (a ∷ rest) h = (
    subst (λ (k : Text). is_none (find_row quote_key k quotes) ≡ false) (sym (same a)) h.0,
    Stored-map_attempts quotes rest h.1,
  )

none_differs :
    (k : Text) (quotes : List QuoteRow)
    → find_row quote_key k quotes ≡ none
    → All (λ (q : QuoteRow). text_eq k q.id ≡ false) quotes
unfolding find_row
none_differs k [] h = tt
none_differs k (q ∷ qs) h = elim (Bool-cases (text_eq q.id k)) [
  | inl here ↦ absurd (some_none (rw here at h))
  | inr elsewhere ↦ (text_eq_sym q.id k elsewhere, none_differs k qs (rw elsewhere at h))
]
  where
    some_none : some q ≡ none → ⊥
    some_none e = cc

-- No attempt is on a quote that is not stored.
attempts_on-missing :
    (k : Text) (quotes : List QuoteRow) (attempts : List AttemptRow)
    → find_row quote_key k quotes ≡ none
    → All (Stored quotes) attempts
    → attempts_on k attempts ≡ 0
attempts_on-missing k quotes [] gone h = refl
attempts_on-missing k quotes (a ∷ rest) gone h = elim (Bool-cases (text_eq a.quote_id k)) [
  | inl here ↦
      let found : is_none (find_row quote_key k quotes) ≡ false =
        subst (λ (i : Text). is_none (find_row quote_key i quotes) ≡ false)
          ((text_eq_iff a.quote_id k).0 here) h.0 in
      absurd (ground (arith, gone, found))
  | inr elsewhere ↦ rw (elsewhere, attempts_on-missing k quotes rest gone h.1) refl
]

attempts_on-filter :
    (p : AttemptRow → Bool) (id : Text) (attempts : List AttemptRow)
    → attempts_on id (filter p attempts) ≤ attempts_on id attempts
attempts_on-filter p id [] = omega arith
attempts_on-filter p id (a ∷ rest) = elim (Bool-cases (p a)) [
  | inl stays ↦ rw stays (omega (arith, attempts_on-filter p id rest))
  | inr goes ↦ rw goes (omega (arith, attempts_on-filter p id rest))
]

-- A new quote waits for a claim.
pub insert-IsSound :
    (db : Audit) (row : QuoteRow)
    → find_row quote_key row.id db.quotes ≡ none
    → IsSound db.quotes db.attempts
    → IsSound (row ∷ db.quotes) db.attempts
unfolding find_row
insert-IsSound db row gone h = record {
  quote_ids = (none_differs row.id db.quotes gone, h.quote_ids);
  attempt_quote =
      All-map (Stored db.quotes) (Stored (row ∷ db.quotes)) db.attempts (λ a s. ground (arith, s))
        h.attempt_quote;
  one_attempt = h.one_attempt;
  fresh = (λ waits. attempts_on-missing row.id db.quotes db.attempts gone h.attempt_quote, h.fresh);
}

-- Quotes and attempts that are updated in place, no quote to one that waits.
pub update-IsSound :
    (db : Audit) (f : QuoteRow → QuoteRow) (g : AttemptRow → AttemptRow)
    → ((q : QuoteRow) → (f q).id ≡ q.id)
    → ((q : QuoteRow) → is_quoted (f q).status ≡ true → is_quoted q.status ≡ true)
    → ((a : AttemptRow) → (g a).quote_id ≡ a.quote_id)
    → IsSound db.quotes db.attempts
    → IsSound (map f db.quotes) (map g db.attempts)
update-IsSound db f g same_id older same_quote h = record {
  quote_ids = Distinct-map f same_id db.quotes h.quote_ids;
  attempt_quote =
      Stored-map_attempts g same_quote (map f db.quotes) db.attempts
        (Stored-map f same_id db.quotes db.attempts h.attempt_quote);
  one_attempt = λ id. omega (arith, attempts_on-map g same_quote id db.attempts, h.one_attempt id);
  fresh =
      All-map_rows (IsFresh db.attempts) (IsFresh (map g db.attempts)) f db.quotes
        (λ q none_yet waits.
          attempts_on-map g same_quote (f q).id db.attempts
          ∙ (ap (λ (i : Text). attempts_on i db.attempts) (same_id q) ∙ none_yet (older q waits)))
        h.fresh;
}

passed-Stored :
    (quotes : List QuoteRow) (a : AttemptRow)
    → not (is_none (find_row quote_key a.quote_id quotes)) ≡ true
    → Stored quotes a
passed-Stored quotes a h = ground (arith, h)

-- Fewer quotes, with the attempts on them alone.
pub prune-IsSound :
    (db : Audit) (p : QuoteRow → Bool)
    → IsSound db.quotes db.attempts
    → IsSound (filter p db.quotes) (attempts_left (filter p db.quotes) db.attempts)
prune-IsSound db p h =
    let quotes = filter p db.quotes in
    let stays = λ (a : AttemptRow). not (is_none (find_row quote_key a.quote_id quotes)) in
    record {
      quote_ids = Distinct-filter quote_key p db.quotes h.quote_ids;
      attempt_quote =
          All-map (λ (a : AttemptRow). stays a ≡ true) (Stored quotes) (filter stays db.attempts)
            (passed-Stored quotes) (All-passed stays db.attempts);
      one_attempt = λ id. omega (arith, attempts_on-filter stays id db.attempts, h.one_attempt id);
      fresh = All-filter (IsFresh (filter stays db.attempts)) p db.quotes (
          All-map (IsFresh db.attempts) (IsFresh (filter stays db.attempts)) db.quotes
            (λ q none_yet waits.
              omega (arith, none_yet waits, attempts_on-filter stays q.id db.attempts))
            h.fresh);
    }
