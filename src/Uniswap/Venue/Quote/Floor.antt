-- ===== src/Uniswap/Venue/Quote/Floor.antt =====
-- What a candidate has shown (crates/uniswap/src/lib.rs, `candidate`).
use Prim.Native.Nat.{compare}
use nofomo.Prelude.{
  not, text_eq, text_eq_iff, ℕ, true, false, [], ◌∷◌, ◌+◌, ◌-◌, ◌*◌, ◌/◌, ◌≤◌, ◌<◌, ◌≡◌, refl, sym,
  ap, ◌∙◌, Text, codes, ok, bind-eq-ok, some_or-ok, ok-injective, bail_if, bail_if-ok, some_or,
  some, context, all, ◌==◌, is_ascii_digit, arith, Bool-cases, inl, inr,
}
use mathlib.Core.Path.{subst}
use nofomo.Prelude.Json.{Json}
use nofomo.Config.{EvmChain, EvmToken}
use nofomo.Uniswap.Fields.{get_str, slippage_percent_json}
use nofomo.Uniswap.Validate.{validate_quote}
use nofomo.Uniswap.Venue.Checked.{checked}
use nofomo.Domain.Model.{QuoteTradeRequest, uniswap_plan}
use nofomo.Domain.Units.{is_empty, parse_units_string, format_units_string, apply_slippage_string}
use nofomo.Domain.Units.Digits.{read_from, read_decimal}
use nofomo.Domain.Units.Ascii.{apply_slippage_string-ok}
use nofomo.Uniswap.Amount.{compare_decimal_integers, validate_decimal_integer}
use nofomo.Uniswap.Amount.Compare.{read_from_least, compare_decimal_integers_lem}
use nofomo.Uniswap.Venue.{UniswapVenue, chain_client, api_post, find_token}
use nofomo.Uniswap.Venue.Quote.{
  quote_body, Candidate, candidate, outputs, ask, graph_guard, token_or, pointer_str, is_less,
  all_zeros,
}

validate_decimal_integer-ok :
    (s e : Text) {u : Unit {0}}
    → context e (validate_decimal_integer s) ≡ ok u
    → (is_empty s ≡ false) × (all is_ascii_digit s ≡ true)
unfolding validate_decimal_integer
validate_decimal_integer-ok s e h = (ground arith, ground arith)

-- A text of digits of which one is not 0 writes a positive number.
read_from-positive :
    (n : ℕ) (s : Text) → all is_ascii_digit s ≡ true → all_zeros s ≡ false → 0 < read_from n s
read_from-positive n [] h k = cc
read_from-positive n (c ∷ s) h k =
    let rest : all is_ascii_digit s ≡ true = ground arith in
    elim (Bool-cases (c == 48)) [
      | inl z ↦ read_from-positive (n * 10 + (c - 48)) s rest (ground arith)
      | inr nz ↦
          let first : 0 < n * 10 + (c - 48) = ground arith in
          omega (arith, read_from_least (n * 10 + (c - 48)) s)
    ]

not_less : (a b : ℕ) → is_less (compare a b) ≡ false → b ≤ a
not_less a b h = ground arith

module _ (json : Json) where
  -- The two outputs of a quote, as texts of digits: the first is not zero and the second no lower
  -- than the slippage allows.
  pub record IsFloored (quote_value : json.Value) (slippage_bps : ℕ) (raw_out minimum_out : Text)
      : Type 0 where
    pub has_output : pointer_str json (codes "/output/amount") quote_value ≡ some raw_out
    pub has_minimum :
        pointer_str json (codes "/output/minimumAmount") quote_value ≡ some minimum_out
    pub digits : all is_ascii_digit raw_out ≡ true
    pub minimum_digits : all is_ascii_digit minimum_out ≡ true
    pub positive : 0 < read_decimal raw_out
    pub floor : (read_decimal raw_out * (10000 - slippage_bps)) / 10000 ≤ read_decimal minimum_out

  outputs-IsFloored :
      (quote_value : json.Value) (slippage_bps : ℕ) {out : Text × Text}
      → outputs json quote_value slippage_bps ≡ ok out
      → IsFloored quote_value slippage_bps out.0 out.1
  unfolding outputs
  outputs-IsFloored quote_value bps h =
      let (raw, e1, h1) =
        bind-eq-ok (some_or _ (pointer_str json (codes "/output/amount") quote_value)) _ h in
      let (u2, e2, h2) = bind-eq-ok (context _ (validate_decimal_integer raw)) _ h1 in
      let (u3, e3, h3) = bind-eq-ok (bail_if (all_zeros raw) _) _ h2 in
      let (low, e4, h4) =
        bind-eq-ok (some_or _ (pointer_str json (codes "/output/minimumAmount") quote_value)) _
          h3 in
      let (u5, e5, h5) = bind-eq-ok (context _ (validate_decimal_integer low)) _ h4 in
      let (local, e6, h6) = bind-eq-ok (apply_slippage_string raw bps) _ h5 in
      let (u7, e7, h7) =
        bind-eq-ok (bail_if (is_less (compare_decimal_integers low local)) _) _ h6 in
      let (full, raw_digits) = validate_decimal_integer-ok raw _ e2 in
      let (low_full, low_digits) = validate_decimal_integer-ok low _ e5 in
      let (local_digits, value) = apply_slippage_string-ok raw bps full raw_digits e6 in
      let compared = compare_decimal_integers_lem low local low_digits local_digits in
      let above = not_less _ _ (ap is_less (sym compared) ∙ bail_if-ok _ _ e7) in
      subst (λ (out : Text × Text). IsFloored quote_value bps out.0 out.1) (ok-injective h7)
        (record {
          has_output = some_or-ok _ _ e1;
          has_minimum = some_or-ok _ _ e4;
          digits = raw_digits;
          minimum_digits = low_digits;
          positive = read_from-positive 0 raw raw_digits (bail_if-ok _ _ e3);
          floor = omega (arith, value, above);
        })

  -- The body of a request for a quote of an exact input.
  abbrev pub exact_input : Text → ℕ → Text → Text → Text → json.Value → json.Value
  exact_input wallet chain_id token_in token_out amount slippage = json.object (
      (codes "type", json.string (codes "EXACT_INPUT"))
      ∷ (codes "amount", json.string amount)
      ∷ (codes "tokenInChainId", json.number chain_id)
      ∷ (codes "tokenOutChainId", json.number chain_id)
      ∷ (codes "tokenIn", json.string token_in)
      ∷ (codes "tokenOut", json.string token_out)
      ∷ (codes "swapper", json.string wallet)
      ∷ (codes "slippageTolerance", slippage)
      ∷ (codes "routingPreference", json.string (codes "BEST_PRICE"))
      ∷ (
        codes "protocols",
        json.array
            (json.string (codes "V2") ∷ json.string (codes "V3") ∷ json.string (codes "V4") ∷ []),
      )
      ∷ [])

  -- The field `quote` of the API's answer to that request, on a route of one chain.
  pub record IsAnswer (venue : UniswapVenue json.Value) (chain_id : ℕ)
      (token_in token_out amount : Text) (slippage_bps : ℕ) (quote_value : json.Value)
      : Type 0 where
    pub slippage : json.Value
    pub response : json.Value
    pub tolerance : slippage_percent_json json slippage_bps ≡ ok slippage
    pub asked :
        api_post json venue
          (codes "quote")
          (exact_input venue.wallet_address chain_id token_in token_out amount slippage)
        ≡ ok response
    pub classic : get_str json (codes "routing") response ≡ some (codes "CLASSIC")
    pub answered : json.get (codes "quote") response ≡ some quote_value

  ask-IsAnswer :
      (venue : UniswapVenue json.Value) (request : QuoteTradeRequest) (chain : EvmChain)
      (input output : EvmToken) (amount : Text) {quote_value : json.Value}
      → ask json venue request chain input output amount ≡ ok quote_value
      → IsAnswer venue chain.chain_id input.address output.address amount request.slippage_bps
          quote_value
  unfolding ask quote_body
  ask-IsAnswer venue request chain input output amount {quote_value} h =
      let (slippage, e1, h1) = bind-eq-ok (slippage_percent_json json request.slippage_bps) _ h in
      let (response, e2, h2) =
        bind-eq-ok
          (api_post json venue (codes "quote") (
            exact_input venue.wallet_address chain.chain_id input.address output.address amount
              slippage))
          _ h1 in
      let (routing, e3, h3) =
        bind-eq-ok (some_or _ (get_str json (codes "routing") response)) _ h2 in
      let (u4, e4, h4) = bind-eq-ok (bail_if (not (text_eq routing (codes "CLASSIC"))) _) _ h3 in
      let (value, e5, h5) = bind-eq-ok (some_or _ (json.get (codes "quote") response)) _ h4 in
      let (u6, e6, h6) =
        bind-eq-ok
          (validate_quote json value chain.chain_id venue.wallet_address input.address
            output.address amount)
          _ h5 in
      let is_classic : text_eq routing (codes "CLASSIC") ≡ true = checked _ _ e4 in
      record {
        slippage = slippage;
        response = response;
        tolerance = e1;
        asked = e2;
        classic =
            some_or-ok _ _ e3 ∙ ap some ((text_eq_iff routing (codes "CLASSIC")).0 is_classic);
        answered = some_or-ok _ _ e5 ∙ ap some (ok-injective h6);
      }

  -- What a candidate says of its chain and its quote.
  pub record IsOffer (venue : UniswapVenue json.Value) (request : QuoteTradeRequest)
      (chain : EvmChain) (c : Candidate json.Value) : Type 0 where
    pub input : EvmToken
    pub output : EvmToken
    pub amount : Text
    pub quote_value : json.Value
    pub has_input : find_token chain request.token_in ≡ some input
    pub has_output : find_token chain request.token_out ≡ some output
    pub whole : parse_units_string request.amount input.decimals ≡ ok amount
    pub from_api :
        IsAnswer venue chain.chain_id input.address output.address amount request.slippage_bps
          quote_value
    pub minimum_out : Text
    pub planned :
        c.draft.plan ≡ uniswap_plan chain.name chain.chain_id input.address amount quote_value
    pub floored : IsFloored quote_value request.slippage_bps c.raw_output minimum_out
    pub places : c.output_decimals ≡ output.decimals
    pub expected :
        format_units_string c.raw_output c.output_decimals ≡ ok c.draft.expected_amount_out
    pub minimum : format_units_string minimum_out c.output_decimals ≡ ok c.draft.minimum_amount_out

  pub candidate-IsOffer :
      (venue : UniswapVenue json.Value) (request : QuoteTradeRequest) (chain : EvmChain)
      {c : Candidate json.Value}
      → candidate json venue request chain ≡ ok c
      → IsOffer venue request chain c
  unfolding candidate
  candidate-IsOffer venue request chain h =
      let (input, e1, h1) = bind-eq-ok (token_or chain request.token_in) _ h in
      let (output, e2, h2) = bind-eq-ok (token_or chain request.token_out) _ h1 in
      let (amount, e3, h3) = bind-eq-ok (parse_units_string request.amount input.decimals) _ h2 in
      let (node, e4, h4) = bind-eq-ok (chain_client json venue chain.chain_id) _ h3 in
      let (balance, e5, h5) =
        bind-eq-ok (node.balance_of input.address venue.wallet_address) _ h4 in
      let (u6, e6, h6) =
        bind-eq-ok (bail_if (is_less (compare_decimal_integers balance amount)) _) _ h5 in
      let (reason, e7, h7) = bind-eq-ok (graph_guard venue request chain) _ h6 in
      let (quote_value, e8, h8) =
        bind-eq-ok (ask json venue request chain input output amount) _ h7 in
      let (out, e9, h9) = bind-eq-ok (outputs json quote_value request.slippage_bps) _ h8 in
      let (expected, e10, h10) = bind-eq-ok (format_units_string out.0 output.decimals) _ h9 in
      let (minimum, e11, h11) = bind-eq-ok (format_units_string out.1 output.decimals) _ h10 in
      subst (λ (c : Candidate json.Value). IsOffer venue request chain c) (ok-injective h11)
        (record {
          input = input;
          output = output;
          amount = amount;
          has_input = some_or-ok _ _ e1;
          has_output = some_or-ok _ _ e2;
          whole = e3;
          from_api = ask-IsAnswer venue request chain input output amount e8;
          places = refl;
          quote_value = quote_value;
          minimum_out = out.1;
          planned = refl;
          floored = outputs-IsFloored quote_value request.slippage_bps e9;
          expected = e10;
          minimum = e11;
        })
