-- ===== src/Uniswap/Venue.antt =====
-- Quotes, steps and transactions of the Uniswap venue (crates/uniswap/src/lib.rs). What the venue's
-- API, the nodes and the research of crates/graph answer is a function of the request: within one
-- operation no request is made twice. The headers of a request are left out but for the key.
pub mod Checked
pub mod Bound
pub mod Quote
use Prim.Native.Nat.{Ordering}
use nofomo.Prelude.{
  ℕ, Bool, true, false, not, ◌||◌, List, [], ◌∷◌, ◌++◌, Text, codes, msg, Result, ok, err, ◌>>=◌,
  ◌>>◌, context, some_or, bail_if, Option, none, some, ◌==◌, if◌then◌else◌, ltb, leb, length, all,
  any, filter, find?, take, text_eq, eq_ignore_ascii_case,
}
use mathlib.Core.Option
use mathlib.Core.List.{map}
use nofomo.Prelude.Json.{Json}
use nofomo.Prelude.Decimal.{to_decimal}
use nofomo.Config.{EvmToken, EvmChain, EvmConfig}
use nofomo.Domain.Chain.{is_native_token}
use nofomo.Domain.Model.{
  ExecutionPlan, uniswap_plan, cetus_plan, ExecStep, cancel, approval, swap, step_name,
  QuoteTradeRequest, QuoteDraft,
}
use nofomo.Domain.Tx.{TxContext, evm_context, sui_context, EvmTx}
use nofomo.Domain.Units.{
  trim, is_empty, parse_units_string, format_units_string, apply_slippage_string,
}
use nofomo.Uniswap.Amount.{
  compare_decimal_integers, compare_scaled_amounts, validate_decimal_integer,
}
use nofomo.Uniswap.Fields.{
  get_str, string_field, decimal_value, api_gas_limit, slippage_percent_json,
}
use nofomo.Uniswap.Validate.{validate_transaction, validate_quote, validate_approval_calldata}

-- The spender that swaps go through.
abbrev pub proxy_approval_address : Text
proxy_approval_address = codes "0x02E5be68D46DAc0B524905bfF209cf47EE6dB2a9"

-- The calls of a node that the venue makes.
pub record EvmNode : Type 0 where
  -- token, owner
  pub balance_of : Text → Text → Result Text
  -- from, to, value, data
  pub estimate_gas : Text → Text → Text → Text → Result ℕ

-- `GraphResearch`: what the venue reads of it.
pub record GraphResearch : Type 0 where
  pub guard_passed : Bool
  pub guard_reason : Text

-- What a request over HTTP comes to.
pub data HttpAnswer (V : Type 0) : Type 0 where
  unsent : Text → HttpAnswer V
  no_json : Text → HttpAnswer V
  -- is_success, status, body
  answered : Bool → Text → V → HttpAnswer V

pub record UniswapVenue (V : Type 0) : Type 0 where
  pub api_url : Text
  pub api_key : Text
  pub evm : EvmConfig
  pub wallet_address : Text
  pub chains : ℕ → Option EvmNode
  pub max_slippage_bps : ℕ  -- u16
  -- `reqwest`: URL, key, body
  pub post : Text → Text → V → HttpAnswer V
  -- `GraphClient::research`: token in, token out, the chain
  pub research : Text → Text → EvmChain → Result GraphResearch

unfoldable pub find_token : EvmChain → Text → Option EvmToken
find_token chain symbol =
    Option.map (λ (entry : Text × EvmToken). entry.1)
      (find? (λ (entry : Text × EvmToken). eq_ignore_ascii_case entry.0 symbol) chain.tokens)

-- Whether a requested chain is this one, by its name or its id.
unfoldable pub names_chain : EvmChain → Text → Bool
names_chain chain value =
    eq_ignore_ascii_case value chain.name || text_eq value (to_decimal chain.chain_id)

abbrev no_texts : List Text → Bool
no_texts [] = true
no_texts (t ∷ ts) = false

unfoldable pub chain_requested : EvmChain → List Text → Bool
unfolding names_chain
chain_requested chain requested = no_texts requested || any (names_chain chain) requested

-- What a swap of this token has to send along.
abbrev pub swap_value : Text → Text → Text
swap_value input_token input_amount =
    if is_native_token input_token then input_amount else codes "0"

module _ (json : Json) where
  open json use {
    Value, get, pointer, as_str, is_null, print, string, number, boolean, array, object,
  }

  -- For a text of one-byte characters up to the cut.
  compact : Value → Text
  compact value =
      if ltb 500 (length (print value)) then take 500 (print value) ++ msg "…" else print value

  api_result : Text → HttpAnswer Value → Result Value
  unfolding compact
  api_result endpoint (unsent cause) =
      err (msg "Uniswap /" ++ endpoint ++ msg " request failed: " ++ cause)
  api_result endpoint (no_json cause) =
      err (msg "Uniswap /" ++ endpoint ++ msg " returned invalid JSON: " ++ cause)
  api_result endpoint (answered is_success status body) =
      if is_success
      then ok body
      else err
          (msg "Uniswap /" ++ endpoint ++ msg " returned " ++ status ++ msg ": " ++ compact body)

  unfoldable pub api_post : UniswapVenue Value → Text → Value → Result Value
  unfolding api_result
  api_post venue endpoint body =
      api_result endpoint (venue.post (venue.api_url ++ (b'/' ∷ endpoint)) venue.api_key body)

  check_approval : UniswapVenue Value → ℕ → Text → Text → Result Value
  unfolding api_post
  check_approval venue chain_id input_token input_amount = api_post venue (codes "check_approval") (
      object (
        (codes "walletAddress", string venue.wallet_address)
        ∷ (codes "token", string input_token)
        ∷ (codes "amount", string input_amount)
        ∷ (codes "chainId", number chain_id)
        ∷ []))

  unfoldable pub chain_client : UniswapVenue Value → ℕ → Result EvmNode
  chain_client venue chain_id =
      some_or (msg "no chain client configured for chain " ++ to_decimal chain_id)
        (venue.chains chain_id)

  -- The field of an answer, if it is there and not null.
  present : Text → Value → Option Value
  present field value = Option.bind (get field value) (λ v. if is_null v then none else some v)

  steps_from : Value → List (Text × ExecStep) → List ExecStep
  unfolding present
  steps_from approval_value [] = swap ∷ []
  steps_from approval_value ((field, step) ∷ fields) =
      let rest = steps_from approval_value fields in
      elim (present field approval_value) [ none ↦ rest | some v ↦ step ∷ rest ]

  unfoldable pub steps_from_check_approval : Value → List ExecStep
  unfolding steps_from
  steps_from_check_approval approval_value =
      steps_from approval_value ((codes "cancel", cancel) ∷ (codes "approval", approval) ∷ [])

  unfoldable pub steps : UniswapVenue Value → ExecutionPlan Value → Result (List ExecStep)
  unfolding check_approval
  steps venue (cetus_plan pool a2b amount min_out) =
      err (msg "Uniswap received a DeepBook execution plan")
  steps venue (uniswap_plan name chain_id input_token input_amount quote_value) =
      if is_native_token input_token then ok (swap ∷ []) else do
        approval_value ← check_approval venue chain_id input_token input_amount
        ok (steps_from_check_approval approval_value)

  -- The gas limit that the API gave, or else the node's estimate.
  gas_limit_or_estimate : UniswapVenue Value → ℕ → Text → Text → Text → Option ℕ → Result ℕ
  unfolding chain_client
  gas_limit_or_estimate venue chain_id to value calldata (some gas_limit) = ok gas_limit
  gas_limit_or_estimate venue chain_id to value calldata none = do
    node ← chain_client venue chain_id
    node.estimate_gas venue.wallet_address to value calldata

  unfoldable pub build_unsigned :
      UniswapVenue Value → Value → TxContext → Text → Text → Result EvmTx
  unfolding gas_limit_or_estimate
  build_unsigned venue transaction (sui_context gas_price gas_budget) expected_to expected_value =
      err (msg "Uniswap needs EVM chain state, not another family's")
  build_unsigned venue transaction (evm_context chain_id nonce max_fee max_priority) expected_to
        expected_value =
      do
        validate_transaction json transaction venue.wallet_address chain_id expected_to
            expected_value
        to ← string_field json transaction (codes "to")
        calldata ← string_field json transaction (codes "data")
        value ← decimal_value json transaction
        given ← api_gas_limit json transaction
        gas_limit ← gas_limit_or_estimate venue chain_id to value calldata given
        ok (record {
          chain_id = chain_id;
          nonce = nonce;
          gas_limit = gas_limit;
          max_fee_per_gas = max_fee;
          max_priority_fee_per_gas = max_priority;
          to = to;
          value = value;
          calldata = calldata;
        })

  -- An approval, or the reset of one, fetched anew.
  build_approval : UniswapVenue Value → ℕ → Text → Text → ExecStep → TxContext → Result EvmTx
  unfolding check_approval present
  build_approval venue chain_id input_token input_amount step ctx = do
    answer ← check_approval venue chain_id input_token input_amount
    let field = step_name step
    transaction ←
        some_or (msg "Uniswap no longer requires a " ++ field ++ msg " transaction")
          (present field answer)
    validate_approval_calldata json transaction proxy_approval_address
    build_unsigned venue transaction ctx input_token (codes "0")

  build_swap : UniswapVenue Value → Text → Text → Value → TxContext → Result EvmTx
  unfolding api_post
  build_swap venue input_token input_amount quote_value ctx = do
    answer ← api_post venue (codes "swap") (
        object (
          (codes "quote", quote_value)
          ∷ (codes "simulateTransaction", boolean true)
          ∷ (codes "safetyMode", string (codes "SAFE"))
          ∷ []))
    transaction ← some_or (msg "Uniswap /swap has no transaction") (get (codes "swap") answer)
    build_unsigned venue transaction ctx proxy_approval_address
        (swap_value input_token input_amount)

  -- The transaction of a step, on the chain of the context.
  build_step : UniswapVenue Value → ℕ → Text → Text → Value → ExecStep → TxContext → Result EvmTx
  unfolding build_approval build_swap
  build_step venue chain_id input_token input_amount quote_value cancel ctx =
      build_approval venue chain_id input_token input_amount cancel ctx
  build_step venue chain_id input_token input_amount quote_value approval ctx =
      build_approval venue chain_id input_token input_amount approval ctx
  build_step venue chain_id input_token input_amount quote_value swap ctx =
      build_swap venue input_token input_amount quote_value ctx

  -- `UnsignedTx::Evm` of the result is left out.
  unfoldable pub build :
      UniswapVenue Value → ExecutionPlan Value → ExecStep → TxContext → Result EvmTx
  unfolding build_step
  build venue (cetus_plan pool a2b amount min_out) step ctx =
      err (msg "Uniswap received a DeepBook execution plan")
  build venue (uniswap_plan name chain_id input_token input_amount quote_value) step
        (sui_context gas_price gas_budget) =
      err (msg "Uniswap needs EVM chain state, not another family's")
  build venue (uniswap_plan name chain_id input_token input_amount quote_value) step
        (evm_context ctx_chain_id nonce max_fee max_priority) =
      do
        bail_if (not (chain_id == ctx_chain_id)) (
            msg "transaction context is for chain "
            ++ to_decimal ctx_chain_id
            ++ msg " but the plan targets "
            ++ to_decimal chain_id)
        build_step venue chain_id input_token input_amount quote_value step
            (evm_context ctx_chain_id nonce max_fee max_priority)
