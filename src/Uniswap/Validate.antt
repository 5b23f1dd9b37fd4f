-- ===== src/Uniswap/Validate.antt =====
-- The checks of what the venue's API answers (crates/uniswap/src/validate.rs).
use nofomo.Prelude.{
  ℕ, Bool, not, ◌&&◌, ◌||◌, List, [], ◌∷◌, ◌++◌, ◌%◌, Text, codes, msg, Result, ok, ◌>>=◌, ◌>>◌,
  context, some_or, bail_if, Option, none, some, strip_prefix, ◌==◌, if◌then◌else◌, ltb, length,
  all, take, drop, text_eq, eq_ignore_ascii_case,
}
use mathlib.Core.Option
use nofomo.Prelude.Json.{Json}
use nofomo.Prelude.Parse.{parse_below, two_pow_64}
use nofomo.Prelude.Decimal.{to_decimal}
use nofomo.Uniswap.Amount.{is_ascii_hexdigit, same_quantity}
use nofomo.Uniswap.Fields.{get_str, string_field}

unfoldable pub validate_evm_address : Text → Result (Unit {0})
validate_evm_address value =
    let raw = Option.get_or (strip_prefix (codes "0x") value) value in
    bail_if (not (length raw == 40) || not (all is_ascii_hexdigit raw))
      (msg "expected a 20-byte hex address")

-- `trim_start_matches("0x")`: as often as it stands there.
unfoldable pub trim_0x : Text → Text
trim_0x (a ∷ b ∷ s) = let rest = trim_0x s in if a == b'0' && b == b'x' then rest else a ∷ b ∷ s
trim_0x s = s

-- What follows `0x`; nothing without it.
abbrev pub calldata_of : Text → Text
calldata_of calldata = Option.get_or (strip_prefix (codes "0x") calldata) []

abbrev pub is_bad_call : Text → Bool
is_bad_call call =
    ltb (length call) 8 || not (length call % 2 == 0) || not (all is_ascii_hexdigit call)

abbrev pub is_bad_approval : Text → Bool
is_bad_approval call = not (length call == 136) || not (all is_ascii_hexdigit call)

module _ (json : Json) where
  open json use {Value, get, pointer, as_str, as_u64}

  chain_number : Value → Option ℕ → Option ℕ
  chain_number value (some n) = some n
  chain_number value none = Option.bind (as_str value) (parse_below two_pow_64)

  -- A chain id, as a number or as the text of one.
  unfoldable pub numeric_chain : Value → Option ℕ
  unfolding chain_number
  numeric_chain transaction =
      Option.bind (get (codes "chainId") transaction) (λ value. chain_number value (as_u64 value))

  unfoldable pub validate_transaction : Value → Text → ℕ → Text → Text → Result (Unit {0})
  validate_transaction transaction wallet chain_id expected_to expected_value = do
    from ← string_field json transaction (codes "from")
    bail_if (not (eq_ignore_ascii_case from wallet))
        (msg "refusing transaction for unexpected sender " ++ from)
    actual_chain ← some_or (msg "transaction has no numeric chainId") (numeric_chain transaction)
    bail_if (not (actual_chain == chain_id)) (
        msg "refusing transaction for chain "
        ++ to_decimal actual_chain
        ++ msg "; expected "
        ++ to_decimal chain_id)
    to ← string_field json transaction (codes "to")
    context (msg "transaction target") (validate_evm_address to)
    bail_if (not (eq_ignore_ascii_case to expected_to))
        (msg "refusing transaction for unexpected target " ++ to)
    calldata ← string_field json transaction (codes "data")
    let call = calldata_of calldata
    bail_if (is_bad_call call) (msg "refusing transaction with invalid calldata")
    value ← some_or (msg "transaction has no value") (get_str json (codes "value") transaction)
    same ← same_quantity value expected_value
    bail_if (not same) (msg "refusing transaction with unexpected native value " ++ value)

  -- The loop over the fields that a quote must repeat: where, what and its name.
  check_fields : Value → List (Text × Text × Text) → Result (Unit {0})
  check_fields quote [] = ok tt
  check_fields quote ((path, expected, name) ∷ fields) = do
    actual ← some_or (msg "Uniswap quote has no " ++ name) (Option.bind (pointer path quote) as_str)
    matches ←
        if text_eq name (codes "input amount")
        then same_quantity actual expected
        else ok (eq_ignore_ascii_case actual expected)
    bail_if (not matches) (msg "Uniswap quote returned unexpected " ++ name)
    check_fields quote fields

  abbrev quote_fields : Text → Text → Text → Text → List (Text × Text × Text)
  quote_fields wallet input_token output_token input_amount =
      (codes "/swapper", wallet, codes "swapper")
      ∷ (codes "/input/token", input_token, codes "input token")
      ∷ (codes "/output/token", output_token, codes "output token")
      ∷ (codes "/input/amount", input_amount, codes "input amount")
      ∷ []

  abbrev is_exact_input : Option Text → Bool
  is_exact_input none = Bool.false
  is_exact_input (some kind) = text_eq kind (codes "EXACT_INPUT")

  unfoldable pub validate_quote : Value → ℕ → Text → Text → Text → Text → Result (Unit {0})
  unfolding check_fields
  validate_quote quote chain_id wallet input_token output_token input_amount = do
    quote_chain ← some_or (msg "Uniswap quote has no numeric chainId") (numeric_chain quote)
    bail_if (not (quote_chain == chain_id))
        (msg "Uniswap quote returned unexpected chain " ++ to_decimal quote_chain)
    check_fields quote (quote_fields wallet input_token output_token input_amount)
    bail_if (not (is_exact_input (get_str json (codes "tradeType") quote)))
        (msg "Uniswap quote is not exact-input")

  unfoldable pub validate_approval_calldata : Value → Text → Result (Unit {0})
  unfolding trim_0x
  validate_approval_calldata transaction expected_spender = do
    calldata ← string_field json transaction (codes "data")
    let call = calldata_of calldata
    bail_if (is_bad_approval call) (msg "approval calldata has an invalid ABI length")
    bail_if (not (eq_ignore_ascii_case (take 8 call) (codes "095ea7b3")))
        (msg "approval calldata does not call approve(address,uint256)")
    let spender = take 40 (drop 32 call)
    bail_if (not (eq_ignore_ascii_case spender (trim_0x expected_spender))) (
        msg "approval calldata targets 0x"
        ++ spender
        ++ msg ", not the expected "
        ++ expected_spender)
