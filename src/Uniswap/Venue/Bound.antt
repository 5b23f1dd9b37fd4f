-- ===== src/Uniswap/Venue/Bound.antt =====
-- The transactions that the venue builds (crates/uniswap/src/lib.rs, `build`).
use nofomo.Prelude.{
  ℕ, true, not, Text, codes, ok, ◌≡◌, refl, sym, ◌∙◌, strip_prefix, ◌==◌, ==_iff, bind-eq-ok,
  ok-injective, bail_if, some_or, if◌then◌else◌, Bool-cases, inl, inr, take, drop,
  eq_ignore_ascii_case,
}
use mathlib.Core.Path.{subst}
use nofomo.Prelude.Json.{Json}
use nofomo.Domain.Units.Digits.{read_decimal}
use nofomo.Domain.Model.{uniswap_plan, ExecStep, step_name, cancel, approval, swap}
use nofomo.Domain.Chain.{is_native_token}
use nofomo.Domain.Tx.{evm_context, EvmTx}
use nofomo.Uniswap.Amount.Same.{quantity}
use nofomo.Uniswap.Fields.{decimal_value, api_gas_limit, string_field}
use nofomo.Uniswap.Validate.{
  is_bad_approval, validate_transaction, validate_approval_calldata, calldata_of, trim_0x,
}
use nofomo.Uniswap.Venue.{
  UniswapVenue, build, build_unsigned, gas_limit_or_estimate, build_step, build_approval, api_post,
  build_swap, check_approval, present, proxy_approval_address, swap_value,
}
use nofomo.Uniswap.Venue.Checked.{checked, validate_transaction-IsChecked, decimal_value-quantity}

-- What a built transaction has to do with the plan and the context.
pub record IsBound (chain_id : ℕ) (nonce : ℕ) (max_fee max_priority : ℕ) (target : Text)
    (amount : ℕ) (tx : EvmTx) : Type 0 where
  pub same_chain : tx.chain_id ≡ chain_id
  pub same_nonce : tx.nonce ≡ nonce
  pub same_max_fee : tx.max_fee_per_gas ≡ max_fee
  pub same_max_priority : tx.max_priority_fee_per_gas ≡ max_priority
  pub to_target : eq_ignore_ascii_case tx.to target ≡ true
  pub sends : read_decimal tx.value ≡ amount

-- A call of `approve` with the venue's spender.
pub record IsApproval (tx : EvmTx) : Type 0 where
  pub selector : eq_ignore_ascii_case (take 8 (calldata_of tx.calldata)) (codes "095ea7b3") ≡ true
  pub spender :
      eq_ignore_ascii_case
        (take 40 (drop 32 (calldata_of tx.calldata)))
        (trim_0x proxy_approval_address)
      ≡ true

-- The address that stands for the chain's own token.
abbrev pub native_token : Text
native_token = codes "0x0000000000000000000000000000000000000000"

-- Where a step's transaction goes, what it sends along, and what it calls.
abbrev pub target : ExecStep → Text → Text
target cancel input_token = input_token
target approval input_token = input_token
target swap input_token = proxy_approval_address

abbrev pub sent : ExecStep → Text → Text → ℕ
sent cancel input_token input_amount = 0
sent approval input_token input_amount = 0
sent swap input_token input_amount =
    if eq_ignore_ascii_case input_token native_token then quantity input_amount else 0

abbrev pub CallsApprove : ExecStep → EvmTx → Type 0
CallsApprove cancel tx = IsApproval tx
CallsApprove approval tx = IsApproval tx
CallsApprove swap tx = Unit {0}

quantity-swap_value :
    (input_token input_amount : Text)
    → quantity (swap_value input_token input_amount) ≡ sent swap input_token input_amount
unfolding is_native_token strip_prefix
quantity-swap_value token amount = elim (Bool-cases (eq_ignore_ascii_case token native_token)) [
  | inl own ↦ rw own refl
  | inr other ↦ rw other refl
]

module _ (json : Json) where
  build_unsigned-IsBound :
      (venue : UniswapVenue json.Value) (transaction : json.Value)
      (chain_id nonce max_fee max_priority : ℕ) (expected_to expected_value : Text) {tx : EvmTx}
      → build_unsigned json venue transaction
          (evm_context chain_id nonce max_fee max_priority)
          expected_to
          expected_value
        ≡ ok tx
      → IsBound chain_id nonce max_fee max_priority expected_to (quantity expected_value) tx
        × (string_field json transaction (codes "data") ≡ ok tx.calldata)
  unfolding build_unsigned
  build_unsigned-IsBound venue transaction chain_id nonce max_fee max_priority expected_to
        expected_value h =
      let (u1, valid, h1) =
        bind-eq-ok
          (validate_transaction json transaction venue.wallet_address chain_id expected_to
            expected_value)
          _ h in
      let facts =
        validate_transaction-IsChecked json transaction venue.wallet_address chain_id expected_to
          expected_value valid in
      let (to, has_to, h2) = bind-eq-ok (string_field json transaction (codes "to")) _ h1 in
      let (calldata, has_data, h3) =
        bind-eq-ok (string_field json transaction (codes "data")) _ h2 in
      let (value, has_value, h4) = bind-eq-ok (decimal_value json transaction) _ h3 in
      let (given, has_gas, h5) = bind-eq-ok (api_gas_limit json transaction) _ h4 in
      let (gas, has_limit, h6) =
        bind-eq-ok (gas_limit_or_estimate json venue chain_id to value calldata given) _ h5 in
      subst
        (λ (built : EvmTx).
          IsBound chain_id nonce max_fee max_priority expected_to (quantity expected_value) built
          × (string_field json transaction (codes "data") ≡ ok built.calldata))
        (ok-injective h6)
        (
          record {
            same_chain = refl;
            same_nonce = refl;
            same_max_fee = refl;
            same_max_priority = refl;
            to_target =
                subst (λ (t : Text). eq_ignore_ascii_case t expected_to ≡ true)
                  (ok-injective (sym facts.has_to ∙ has_to)) facts.to_expected;
            sends =
                decimal_value-quantity json transaction facts.value expected_value facts.has_value
                  facts.same has_value;
          },
          has_data,
        )

  validate_approval-selector :
      (transaction : json.Value) (expected calldata : Text)
      → validate_approval_calldata json transaction expected ≡ ok tt
      → string_field json transaction (codes "data") ≡ ok calldata
      → (eq_ignore_ascii_case (take 8 (calldata_of calldata)) (codes "095ea7b3") ≡ true)
        × (eq_ignore_ascii_case (take 40 (drop 32 (calldata_of calldata))) (trim_0x expected)
            ≡ true)
  unfolding validate_approval_calldata
  validate_approval-selector transaction expected calldata h has =
      let call = calldata_of calldata in
      let run = rw has at h in
      let (u1, e1, h1) = bind-eq-ok (bail_if (is_bad_approval call) _) _ run in
      let (u2, e2, h2) =
        bind-eq-ok (bail_if (not (eq_ignore_ascii_case (take 8 call) (codes "095ea7b3"))) _) _ h1 in
      (checked _ _ e2, checked _ _ h2)

  build_approval-IsBound :
      (venue : UniswapVenue json.Value) (step : ExecStep) (input_token input_amount : Text)
      (plan_chain chain_id nonce max_fee max_priority : ℕ) {tx : EvmTx}
      → build_approval json venue plan_chain input_token input_amount step
          (evm_context chain_id nonce max_fee max_priority)
        ≡ ok tx
      → IsBound chain_id nonce max_fee max_priority input_token 0 tx × IsApproval tx
  unfolding build_approval strip_prefix
  build_approval-IsBound venue step input_token input_amount plan_chain chain_id nonce max_fee
        max_priority h =
      let (answer, e1, h1) =
        bind-eq-ok (check_approval json venue plan_chain input_token input_amount) _ h in
      let (transaction, e2, h2) =
        bind-eq-ok (some_or _ (present json (step_name step) answer)) _ h1 in
      let (u3, valid, h3) =
        bind-eq-ok (validate_approval_calldata json transaction proxy_approval_address) _ h2 in
      let (bound, has_data) =
        build_unsigned-IsBound venue transaction chain_id nonce max_fee max_priority input_token
          (codes "0") h3 in
      let (selector, spender) =
        validate_approval-selector transaction proxy_approval_address _ valid has_data in
      (bound, record { selector = selector; spender = spender })

  build_swap-IsBound :
      (venue : UniswapVenue json.Value) (input_token input_amount : Text) (quote_value : json.Value)
      (chain_id nonce max_fee max_priority : ℕ) {tx : EvmTx}
      → build_swap json venue input_token input_amount quote_value
          (evm_context chain_id nonce max_fee max_priority)
        ≡ ok tx
      → IsBound chain_id nonce max_fee max_priority proxy_approval_address
          (quantity (swap_value input_token input_amount))
          tx
  unfolding build_swap
  build_swap-IsBound venue input_token input_amount quote_value chain_id nonce max_fee max_priority
        h =
      let (answer, e1, h1) = bind-eq-ok (api_post json venue (codes "swap") _) _ h in
      let (transaction, e2, h2) = bind-eq-ok (some_or _ (json.get (codes "swap") answer)) _ h1 in
      (build_unsigned-IsBound venue transaction chain_id nonce max_fee max_priority
        proxy_approval_address (swap_value input_token input_amount) h2).0

  build_step-IsBound :
      (venue : UniswapVenue json.Value) (step : ExecStep) (input_token input_amount : Text)
      (quote_value : json.Value) (plan_chain chain_id nonce max_fee max_priority : ℕ) {tx : EvmTx}
      → build_step json venue plan_chain input_token input_amount quote_value step
          (evm_context chain_id nonce max_fee max_priority)
        ≡ ok tx
      → IsBound chain_id nonce max_fee max_priority
          (target step input_token)
          (sent step input_token input_amount)
          tx
        × CallsApprove step tx
  unfolding build_step
  build_step-IsBound venue cancel token amount quote_value plan_chain chain_id nonce max_fee
        max_priority h =
      build_approval-IsBound venue cancel token amount plan_chain chain_id nonce max_fee
        max_priority h
  build_step-IsBound venue approval token amount quote_value plan_chain chain_id nonce max_fee
        max_priority h =
      build_approval-IsBound venue approval token amount plan_chain chain_id nonce max_fee
        max_priority h
  build_step-IsBound venue swap token amount quote_value plan_chain chain_id nonce max_fee
        max_priority {tx} h =
      (
        subst (λ (n : ℕ). IsBound chain_id nonce max_fee max_priority proxy_approval_address n tx)
            (quantity-swap_value token amount)
            (build_swap-IsBound venue token amount quote_value chain_id nonce max_fee max_priority
              h),
        tt,
      )

  -- A transaction that is built is for the chain of the plan and has the nonce and the fees of the
  -- context. A swap goes to the venue's spender with the input amount as its value if the input is
  -- the native token, and with none otherwise; an approval, or its reset, goes to the input token,
  -- sends nothing, and its calldata names the venue's spender after the selector of `approve`. The
  -- amounts are compared as numbers; all this holds whatever the API and the node answer.
  pub build-IsBound :
      (venue : UniswapVenue json.Value) (name : Text) (plan_chain : ℕ)
      (input_token input_amount : Text) (quote_value : json.Value) (step : ExecStep)
      (chain_id nonce max_fee max_priority : ℕ) {tx : EvmTx}
      → build json venue
          (uniswap_plan name plan_chain input_token input_amount quote_value)
          step
          (evm_context chain_id nonce max_fee max_priority)
        ≡ ok tx
      → (plan_chain ≡ chain_id)
        × IsBound chain_id nonce max_fee max_priority
            (target step input_token)
            (sent step input_token input_amount)
            tx
        × CallsApprove step tx
  unfolding build
  build-IsBound venue name plan_chain token amount quote_value step chain_id nonce max_fee
        max_priority h =
      let (u, e, h1) = bind-eq-ok (bail_if (not (plan_chain == chain_id)) _) _ h in
      let (bound, calls) =
        build_step-IsBound venue step token amount quote_value plan_chain chain_id nonce max_fee
          max_priority h1 in
      ((==_iff plan_chain chain_id).0 (checked _ _ e), bound, calls)
