-- ===== src/Examples/Venue.antt =====
-- The Uniswap venue on concrete answers (crates/uniswap/src/lib.rs).
use nofomo.Prelude.{
  ℕ, ◌++◌, Bool, true, false, ◌≡◌, refl, List, [], ◌∷◌, Text, codes, msg, Option, none, some, ok,
  err, text_eq, if◌then◌else◌, ◌==◌, strip_prefix, eq_ignore_ascii_case, to_ascii_lowercase,
}
use nofomo.Prelude.Json.{Json}
use nofomo.Prelude.Decimal.{to_decimal}
use nofomo.Config.{EvmChain}
use nofomo.Domain.Chain.{is_native_token}
use nofomo.Domain.Units.{
  trim, parse_units_string, format_units_string, apply_slippage_string, trim_zeros,
}
use nofomo.Domain.Model.{uniswap_plan, swap, VenueName, QuoteTradeRequest, QuoteDraft}
use nofomo.Domain.Tx.{evm_context, EvmTx}
use nofomo.Uniswap.Amount.{
  same_quantity, hex_to_decimal, validate_decimal_integer, compare_decimal_integers,
}
use nofomo.Uniswap.Fields.{
  decimal_value, string_field, get_str, api_gas_limit, decimal_of, slippage_percent_json,
  slippage_percent,
}
use nofomo.Uniswap.Validate.{
  validate_transaction, validate_quote, validate_evm_address, numeric_chain,
}
use nofomo.Uniswap.Venue.{
  find_token, names_chain, api_post, chain_client, UniswapVenue, EvmNode, HttpAnswer, answered,
  build, build_unsigned, proxy_approval_address, chain_requested,
}
use nofomo.Uniswap.Venue.Bound.{IsBound, CallsApprove, target, sent, build-IsBound}
use nofomo.Uniswap.Venue.Quote.{Candidate, candidate, quote, requested_chains}
use nofomo.Uniswap.Venue.Quote.Floor.{IsOffer}
use nofomo.Uniswap.Venue.Quote.Best.{Some, Offered, Beats, quote-Beats, quote-IsOffer}
use mathlib.Core.Option

mutual
  data Value : Type 0 where
    null : Value
    str : Text → Value
    num : ℕ → Value
    obj : Fields → Value

  data Fields : Type 0 where
    end : Fields
    field : Text → Value → Fields → Fields

abbrev lookup : Text → Fields → Option Value
lookup k end = none
lookup k (field j v fields) = if text_eq j k then some v else lookup k fields

abbrev get_field : Text → Value → Option Value
get_field k (obj fields) = lookup k fields
get_field k _ = none

abbrev next_key : Text → Text × Text
next_key [] = ([], [])
next_key (c ∷ s) = if c == 47 then ([], s) else (c ∷ (next_key s).0, (next_key s).1)

abbrev walk : ℕ → Text → Value → Option Value
walk ℕ.zero path v = some v
walk (ℕ.suc n) [] v = some v
walk (ℕ.suc n) (c ∷ path) v =
    Option.bind (get_field (next_key (c ∷ path)).0 v) (walk n (next_key (c ∷ path)).1)

abbrev text_of : Value → Option Text
text_of (str s) = some s
text_of _ = none

abbrev number_of : Value → Option ℕ
number_of (num n) = some n
number_of _ = none

abbrev null_value : Value → Bool
null_value null = true
null_value _ = false

abbrev fields_of : List (Text × Value) → Fields
fields_of [] = end
fields_of ((k, v) ∷ entries) = field k v (fields_of entries)

abbrev toy : Json
toy = record {
  Value = Value;
  get = get_field;
  pointer = λ path v. walk 9 (Option.get_or (strip_prefix (codes "/") path) []) v;
  as_str = text_of;
  as_u64 = number_of;
  is_null = null_value;
  print = λ v. [];
  string = str;
  number = num;
  boolean = λ b. null;
  array = λ vs. null;
  object = λ entries. obj (fields_of entries);
  parse_number = λ s. some (str s);
}

abbrev wallet : Text
wallet = codes "0x1111111111111111111111111111111111111111"

abbrev usdc : Text
usdc = codes "0x2222222222222222222222222222222222222222"

abbrev weth : Text
weth = codes "0x3333333333333333333333333333333333333333"

abbrev swap_transaction : Value
swap_transaction = obj (
    field (codes "from") (str wallet) (
      field (codes "to") (str proxy_approval_address) (
        field (codes "chainId") (num 8453) (
          field (codes "data") (str (codes "0x12345678")) (
            field (codes "value") (str (codes "0x0"))
              (field (codes "gasLimit") (num 21000) end))))))

abbrev quote_answer : Value
quote_answer = obj (
    field (codes "chainId") (num 8453) (
      field (codes "swapper") (str wallet) (
        field (codes "tradeType") (str (codes "EXACT_INPUT")) (
          field (codes "input")
            (obj (
              field (codes "token") (str usdc)
                (field (codes "amount") (str (codes "25000000")) end)))
            (field (codes "output")
              (obj (
                field (codes "token") (str weth) (
                  field (codes "amount") (str (codes "10000"))
                    (field (codes "minimumAmount") (str (codes "9950")) end))))
              end)))))

abbrev answer : Text → Text → Value → HttpAnswer Value
answer url key body =
    if text_eq url (codes "api/swap")
    then answered true (codes "200") (obj (field (codes "swap") swap_transaction end))
    else answered true (codes "200") (
        obj (
          field (codes "routing") (str (codes "CLASSIC")) (field (codes "quote") quote_answer end)))

abbrev node : EvmNode
node = record {
  balance_of = λ token owner. ok (codes "30000000");
  estimate_gas = λ from to value calldata. ok 1;
}

abbrev base_chain : EvmChain
base_chain = record {
  name = codes "base";
  chain_id = 8453;
  rpc_url = codes "https://node";
  graph_subgraph_id = [];
  tokens =
      (codes "USDC", record { address = usdc; decimals = 6; usd_peg = true })
      ∷ (codes "WETH", record { address = weth; decimals = 18; usd_peg = false })
      ∷ [];
}

abbrev venue : UniswapVenue Value
venue = record {
  api_url = codes "api";
  api_key = codes "key";
  evm = record { chains = base_chain ∷ [] };
  wallet_address = wallet;
  chains = λ chain_id. if chain_id == 8453 then some node else none;
  max_slippage_bps = 500;
  post = answer;
  research = λ token_in token_out chain. err (codes "none");
}

abbrev built : EvmTx
built = record {
  chain_id = 8453;
  nonce = 7;
  gas_limit = 21000;
  max_fee_per_gas = 2;
  max_priority_fee_per_gas = 1;
  to = proxy_approval_address;
  value = codes "0";
  calldata = codes "0x12345678";
}

swap_builds :
    build toy venue
      (uniswap_plan (codes "base") 8453 usdc (codes "25000000") quote_answer)
      swap
      (evm_context 8453 7 2 1)
    ≡ ok built
unfolding build build_unsigned is_native_token eq_ignore_ascii_case validate_transaction
    string_field get_str numeric_chain validate_evm_address strip_prefix same_quantity decimal_value
    decimal_of hex_to_decimal trim_zeros api_gas_limit text_eq Option.bind
swap_builds = refl

build-IsBound_example :
    (◌≡◌ {A = ℕ} 8453 8453)
    × IsBound 8453 7 2 1 (target swap usdc) (sent swap usdc (codes "25000000")) built
    × CallsApprove swap built
build-IsBound_example =
    build-IsBound toy venue (codes "base") 8453 usdc (codes "25000000") quote_answer swap 8453 7 2 1
      swap_builds

abbrev request : QuoteTradeRequest
request = record {
  venue = VenueName.uniswap;
  token_in = codes "usdc";
  token_out = codes "weth";
  amount = codes "25";
  slippage_bps = 50;
  chains = codes "Base" ∷ [];
}

abbrev quoted : QuoteDraft Value
quoted = record {
  venue = codes "uniswap";
  chain = codes "base";
  token_in = codes "USDC";
  token_out = codes "WETH";
  amount_in = codes "25";
  expected_amount_out = codes "0.00000000000001";
  minimum_amount_out = codes "0.00000000000000995";
  graph_guard = msg "graph guard skipped: no subgraph configured for " ++ codes "base";
  plan = uniswap_plan (codes "base") 8453 usdc (codes "25000000") quote_answer;
}

quote_runs : quote toy venue request ≡ ok quoted
unfolding quote candidate find_token names_chain api_post chain_client eq_ignore_ascii_case
    chain_requested text_eq parse_units_string compare_decimal_integers trim_zeros strip_prefix trim
    Option.bind Option.map validate_quote slippage_percent_json slippage_percent get_str
    numeric_chain validate_decimal_integer apply_slippage_string format_units_string to_decimal
    same_quantity to_ascii_lowercase
quote_runs = refl

quote-Beats_example :
    (c : Candidate Value) × Offered toy venue request (requested_chains toy venue request) c
    × (c.draft ≡ quoted)
    × Beats toy venue request (requested_chains toy venue request) c
quote-Beats_example = quote-Beats toy venue request quote_runs

quote-IsOffer_example :
    (c : Candidate Value) × (c.draft ≡ quoted)
    × Some
        (λ (chain : EvmChain). IsOffer toy venue request chain c)
        (requested_chains toy venue request)
quote-IsOffer_example = quote-IsOffer toy venue request quote_runs
