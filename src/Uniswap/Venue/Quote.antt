-- ===== src/Uniswap/Venue/Quote.antt =====
-- Quotes of the Uniswap venue (crates/uniswap/src/lib.rs, `candidate` and `quote`). The text of a
-- chain's failure keeps its causes.
pub mod Floor
pub mod Best
use Prim.Native.Nat.{Ordering}
use nofomo.Prelude.{
  ℕ, Bool, true, false, not, List, [], ◌∷◌, ◌++◌, Text, codes, msg, Result, ok, err, ◌>>=◌, ◌>>◌,
  context, some_or, bail_if, Option, none, some, ◌==◌, if◌then◌else◌, ltb, leb, ◌&&◌, ◌-◌, all, any,
  filter, text_eq, eq_ignore_ascii_case,
}
use mathlib.Core.Option
use mathlib.Core.List.{map}
use nofomo.Prelude.Json.{Json}
use nofomo.Config.{EvmToken, EvmChain, EvmConfig}
use nofomo.Domain.Model.{uniswap_plan, QuoteTradeRequest, QuoteDraft}
use nofomo.Domain.Units.{
  trim, is_empty, parse_units_string, format_units_string, apply_slippage_string,
}
use nofomo.Uniswap.Amount.{
  compare_decimal_integers, compare_scaled_amounts, validate_decimal_integer,
}
use nofomo.Uniswap.Fields.{get_str, slippage_percent_json}
use nofomo.Uniswap.Validate.{validate_quote}
use nofomo.Uniswap.Venue.{
  EvmNode, GraphResearch, UniswapVenue, find_token, names_chain, chain_requested, api_post,
  chain_client, no_texts,
}

pub record Candidate (V : Type 0) : Type 0 where
  pub raw_output : Text
  pub output_decimals : ℕ
  pub draft : QuoteDraft V

-- `str::to_ascii_uppercase`
abbrev to_ascii_uppercase : Text → Text
to_ascii_uppercase s = map (λ c. if leb b'a' c && leb c b'z' then c - 32 else c) s

abbrev pub is_less : Ordering → Bool
is_less Ordering.lt = true
is_less Ordering.eq = false
is_less Ordering.gt = false

abbrev all_zeros : Text → Bool
all_zeros raw = all (λ byte. byte == b'0') raw

abbrev token_or : EvmChain → Text → Result EvmToken
token_or chain symbol =
    some_or (chain.name ++ msg " does not configure " ++ symbol) (find_token chain symbol)

passed_reason : GraphResearch → Result Text
passed_reason research =
    if research.guard_passed then ok research.guard_reason else err research.guard_reason

-- The liquidity research, on chains that have a subgraph.
graph_guard : {V : Type 0} → UniswapVenue V → QuoteTradeRequest → EvmChain → Result Text
unfolding passed_reason
graph_guard venue request chain =
    if is_empty (trim chain.graph_subgraph_id)
    then ok (msg "graph guard skipped: no subgraph configured for " ++ chain.name)
    else do
      research ← venue.research request.token_in request.token_out chain
      passed_reason research

module _ (json : Json) where
  open json use {Value, get, pointer, as_str, string, number, array, object}

  quote_body : UniswapVenue Value → EvmChain → EvmToken → EvmToken → Text → Value → Value
  quote_body venue chain input output amount slippage = object (
      (codes "type", string (codes "EXACT_INPUT"))
      ∷ (codes "amount", string amount)
      ∷ (codes "tokenInChainId", number chain.chain_id)
      ∷ (codes "tokenOutChainId", number chain.chain_id)
      ∷ (codes "tokenIn", string input.address)
      ∷ (codes "tokenOut", string output.address)
      ∷ (codes "swapper", string venue.wallet_address)
      ∷ (codes "slippageTolerance", slippage)
      ∷ (codes "routingPreference", string (codes "BEST_PRICE"))
      ∷ (
        codes "protocols",
        array (string (codes "V2") ∷ string (codes "V3") ∷ string (codes "V4") ∷ []),
      )
      ∷ [])

  abbrev pub pointer_str : Text → Value → Option Text
  pointer_str path quote_value = Option.bind (pointer path quote_value) as_str

  -- From the balance to the quote of the API.
  ask :
      UniswapVenue Value → QuoteTradeRequest → EvmChain → EvmToken → EvmToken → Text → Result Value
  unfolding quote_body
  ask venue request chain input output amount = do
    slippage ← slippage_percent_json json request.slippage_bps
    response ←
        api_post json venue (codes "quote") (quote_body venue chain input output amount slippage)
    routing ← some_or (msg "Uniswap quote has no routing") (get_str json (codes "routing") response)
    bail_if (not (text_eq routing (codes "CLASSIC"))) (
        msg "rejected Uniswap route "
        ++ routing
        ++ msg "; tempo-agentic only executes same-chain AMM swaps")
    quote_value ← some_or (msg "Uniswap response has no quote") (get (codes "quote") response)
    validate_quote json quote_value chain.chain_id venue.wallet_address input.address output.address
        amount
    ok quote_value

  -- The output of a quote and its minimum, which is no lower than the slippage allows.
  outputs : Value → ℕ → Result (Text × Text)
  outputs quote_value slippage_bps = do
    raw_out ←
        some_or (msg "Uniswap quote has no output amount")
          (pointer_str (codes "/output/amount") quote_value)
    context (msg "invalid Uniswap output amount") (validate_decimal_integer raw_out)
    bail_if (all_zeros raw_out) (msg "Uniswap quote returned zero output")
    minimum_out ←
        some_or (msg "Uniswap quote has no minimum output")
          (pointer_str (codes "/output/minimumAmount") quote_value)
    context (msg "invalid Uniswap minimum output") (validate_decimal_integer minimum_out)
    local_minimum ← apply_slippage_string raw_out slippage_bps
    bail_if (is_less (compare_decimal_integers minimum_out local_minimum))
        (msg "Uniswap minimum output is below the requested slippage floor")
    ok (raw_out, minimum_out)

  unfoldable pub candidate :
      UniswapVenue Value → QuoteTradeRequest → EvmChain → Result (Candidate Value)
  unfolding ask outputs graph_guard
  candidate venue request chain = do
    input ← token_or chain request.token_in
    output ← token_or chain request.token_out
    amount ← parse_units_string request.amount input.decimals
    node ← chain_client json venue chain.chain_id
    balance ← node.balance_of input.address venue.wallet_address
    bail_if (is_less (compare_decimal_integers balance amount)) (
        chain.name
        ++ msg " has insufficient "
        ++ request.token_in
        ++ msg " balance for "
        ++ request.amount)
    reason ← graph_guard venue request chain
    quote_value ← ask venue request chain input output amount
    out ← outputs quote_value request.slippage_bps
    expected ← format_units_string out.0 output.decimals
    minimum ← format_units_string out.1 output.decimals
    ok (record {
      raw_output = out.0;
      output_decimals = output.decimals;
      draft = record {
        venue = codes "uniswap";
        chain = chain.name;
        token_in = to_ascii_uppercase request.token_in;
        token_out = to_ascii_uppercase request.token_out;
        amount_in = request.amount;
        expected_amount_out = expected;
        minimum_amount_out = minimum;
        graph_guard = reason;
        plan = uniswap_plan chain.name chain.chain_id input.address amount quote_value;
      };
    })

  abbrev pub better : Candidate Value → Candidate Value → Ordering
  better left right =
      compare_scaled_amounts left.raw_output left.output_decimals right.raw_output
        right.output_decimals

  -- `Iterator::max_by`: of equal candidates the last.
  abbrev pick_by : Ordering → Candidate Value → Candidate Value → Candidate Value
  pick_by Ordering.gt left right = left
  pick_by Ordering.eq left right = right
  pick_by Ordering.lt left right = right

  abbrev pick : Candidate Value → Candidate Value → Candidate Value
  pick left right = pick_by (better left right) left right

  max_from : Candidate Value → List (Candidate Value) → Candidate Value
  max_from best [] = best
  max_from best (c ∷ cs) = max_from (pick best c) cs

  -- The loop over the chains: the candidates and the failures, each in order.
  abbrev add_answer :
      EvmChain
      → Result (Candidate Value)
      → List (Candidate Value) × List Text
      → List (Candidate Value) × List Text
  add_answer chain (ok c) (candidates, failures) = (c ∷ candidates, failures)
  add_answer chain (err e) (candidates, failures) =
      (candidates, (chain.name ++ msg ": " ++ e) ∷ failures)

  collect :
      UniswapVenue Value → QuoteTradeRequest → List EvmChain → List (Candidate Value) × List Text
  collect venue request [] = ([], [])
  collect venue request (chain ∷ chains) =
      add_answer chain (candidate venue request chain) (collect venue request chains)

  -- The first requested chain that is not configured.
  check_chains : UniswapVenue Value → List Text → Result (Unit {0})
  check_chains venue [] = ok tt
  check_chains venue (value ∷ values) = do
    bail_if (not (any (λ chain. names_chain chain value) venue.evm.chains))
        (msg "requested EVM chain " ++ value ++ msg " is not configured")
    check_chains venue values

  abbrev no_chains : List EvmChain → Bool
  no_chains [] = true
  no_chains (c ∷ cs) = false

  -- `failures.join("; ")`
  join : List Text → Text
  join [] = []
  join (f ∷ []) = f
  join (f ∷ g ∷ fs) = f ++ msg "; " ++ join (g ∷ fs)

  best_draft : List (Candidate Value) × List Text → Result (QuoteDraft Value)
  unfolding max_from join
  best_draft ([], failures) = err (msg "no executable same-chain quote: " ++ join failures)
  best_draft (c ∷ cs, failures) = ok (max_from c cs).draft

  abbrev pub requested_chains : UniswapVenue Value → QuoteTradeRequest → List EvmChain
  requested_chains venue request =
      filter (λ chain. chain_requested chain request.chains) venue.evm.chains

  unfoldable pub quote : UniswapVenue Value → QuoteTradeRequest → Result (QuoteDraft Value)
  unfolding check_chains collect best_draft
  quote venue request = do
    bail_if (eq_ignore_ascii_case request.token_in request.token_out)
        (msg "token_in and token_out must differ")
    bail_if (ltb venue.max_slippage_bps request.slippage_bps)
        (msg "slippage_bps must not exceed configured maximum")
    check_chains venue request.chains
    bail_if (no_chains (requested_chains venue request))
        (msg "none of the requested chains is configured")
    best_draft (collect venue request (requested_chains venue request))
