-- ===== src/Domain/Model.antt =====
-- Venue names and execution plans (crates/domain/src/model.rs, crates/domain/src/venue.rs).
-- A plan of Uniswap carries the quote as a `serde_json::Value`, whose type is the parameter `V`.
use nofomo.Prelude.{ℕ, Bool, List, ◌++◌, Text, codes, msg, text_eq, Result, ok, err, if◌then◌else◌}
use nofomo.Domain.Chain.{ChainFamily, evm, sui, ChainId, evm_chain, sui_chain}

pub data VenueName : Type 0 where
  uniswap cetus : VenueName

unfoldable pub venue_name : VenueName → Text
venue_name uniswap = codes "uniswap"
venue_name cetus = codes "cetus"

unfoldable pub venue_family : VenueName → ChainFamily
venue_family uniswap = evm
venue_family cetus = sui

unfoldable pub venue_of_name : Text → Result VenueName
venue_of_name value =
    if text_eq value (codes "uniswap")
    then ok uniswap
    else if text_eq value (codes "cetus")
    then ok cetus
    else err (msg "unknown venue '" ++ value ++ msg "'")

pub data ExecutionPlan (V : Type 0) : Type 0 where
  -- chain_name, chain_id, input_token, input_amount, quote
  uniswap_plan : Text → ℕ → Text → Text → V → ExecutionPlan V
  -- pool_id, a2b, input_amount, min_amount_out
  cetus_plan : Text → Bool → ℕ → ℕ → ExecutionPlan V

-- The chain used for node lookup and signing.
unfoldable pub plan_chain : {V : Type 0} → ExecutionPlan V → ChainId
plan_chain (uniswap_plan name chain_id token amount quote) = evm_chain chain_id
plan_chain (cetus_plan pool a2b amount min_out) = sui_chain

pub data ExecStep : Type 0 where
  cancel approval swap : ExecStep

unfoldable pub step_name : ExecStep → Text
step_name cancel = codes "cancel"
step_name approval = codes "approval"
step_name swap = codes "swap"

pub record QuoteTradeRequest : Type 0 where
  pub venue : VenueName
  pub token_in : Text
  pub token_out : Text
  pub amount : Text
  pub slippage_bps : ℕ  -- u16
  pub chains : List Text

pub record QuoteDraft (V : Type 0) : Type 0 where
  pub venue : Text
  pub chain : Text
  pub token_in : Text
  pub token_out : Text
  pub amount_in : Text
  pub expected_amount_out : Text
  pub minimum_amount_out : Text
  pub graph_guard : Text
  pub plan : ExecutionPlan V
