-- ===== src/Examples/Audit.antt =====
-- The audit trail on concrete rows (crates/storage/src/lib.rs).
use nofomo.Prelude.{true, ◌≡◌, refl, List, [], ◌∷◌, Text, codes, text_eq, none, ok, err, arith}
use nofomo.Prelude.Int.{pos}
use nofomo.Storage.Rows.{find_row}
use nofomo.Storage.Audit.{
  nothing_stored, QuoteView, ExecuteTradeRequest, open_session, record_quote, claim_quote,
}
use nofomo.Storage.Audit.Settle.{record_execution_failure, prune}
use nofomo.Storage.Audit.Operations.{
  Operation, opening, recording_quote, claiming, failing, pruning, run, perform,
}
use nofomo.Storage.Audit.Attempts.{IsSound, attempts_on}
use nofomo.Storage.Audit.Always.{run-IsSound}
use nofomo.Storage.Audit.Once.{IsClaim, claim_quote-IsClaim, claim_quote-claim_quote}

abbrev session : Text
session = codes "s-1"

abbrev one_quote : QuoteView
one_quote = record {
  quote_id = codes "q-1";
  venue = codes "uniswap";
  chain = codes "base";
  token_in = codes "ETH";
  token_out = codes "USDC";
  amount_in = codes "1";
  expected_amount_out = codes "3000";
  minimum_amount_out = codes "2985";
  expires_at_unix = 160;
  graph_guard = codes "passed";
  requires_confirmation = true;
}

abbrev confirmed_request : ExecuteTradeRequest
confirmed_request = record { quote_id = codes "q-1"; confirmed = true }

-- A session opens and records a quote.
abbrev opened : List Operation
opened =
    opening none session (codes "0.1") (pos 100)
    ∷ recording_quote none session one_quote (codes "{}") (codes "{}") (codes "d") (pos 110)
    ∷ []

-- The quote is claimed twice, its execution fails, and a restart and a pruning follow.
abbrev a_day : List Operation
a_day =
    opening none session (codes "0.1") (pos 100)
    ∷ recording_quote none session one_quote (codes "{}") (codes "{}") (codes "d") (pos 110)
    ∷ claiming none session confirmed_request 120
    ∷ claiming none session confirmed_request 121
    ∷ failing none 1 (pos 130)
    ∷ opening none (codes "s-2") (codes "0.1") (pos 140)
    ∷ pruning none (pos 105)
    ∷ []

nothing_stored-IsSound : IsSound nothing_stored.quotes nothing_stored.attempts
nothing_stored-IsSound = record {
  quote_ids = tt;
  attempt_quote = tt;
  one_attempt = λ id. omega arith;
  fresh = tt;
}

one_attempt_left : attempts_on (codes "q-1") (run a_day nothing_stored).attempts ≡ 1
unfolding run perform prune open_session find_row record_execution_failure claim_quote record_quote
    text_eq
one_attempt_left = refl

run-IsSound_example : IsSound (run a_day nothing_stored).quotes (run a_day nothing_stored).attempts
run-IsSound_example = run-IsSound a_day nothing_stored nothing_stored-IsSound

claimed_once : (claim_quote none session confirmed_request 120 (run opened nothing_stored)).0 ≡ ok 1
unfolding claim_quote run perform find_row record_quote open_session text_eq
claimed_once = refl

claim_quote-IsClaim_example :
    IsClaim session confirmed_request 120
      (run opened nothing_stored)
      1
      (claim_quote none session confirmed_request 120 (run opened nothing_stored)).1
claim_quote-IsClaim_example =
    claim_quote-IsClaim none session confirmed_request 120 (run opened nothing_stored) claimed_once

claim_quote-claim_quote_example :
    (e : Text) × (claim_quote none
        (codes "s-2")
        confirmed_request
        130
        (claim_quote none session confirmed_request 120 (run opened nothing_stored)).1
      ≡ (err e, (claim_quote none session confirmed_request 120 (run opened nothing_stored)).1))
claim_quote-claim_quote_example =
    claim_quote-claim_quote none session confirmed_request 120 (run opened nothing_stored) none
      (codes "s-2") confirmed_request 130 claimed_once refl
