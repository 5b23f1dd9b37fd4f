-- ===== src/Uniswap/Fields.antt =====
-- What is read of a JSON transaction (crates/uniswap/src/amount.rs and `string_field` of
-- crates/uniswap/src/validate.rs).
use nofomo.Prelude.{
  ℕ, List, [], ◌∷◌, ◌++◌, ◌/◌, ◌%◌, Text, codes, msg, Result, ok, err, ◌>>◌, context, some_or,
  Option, none, some, strip_prefix, ◌==◌, if◌then◌else◌, ltb,
}
use mathlib.Core.Option
use nofomo.Prelude.Json.{Json}
use nofomo.Prelude.Parse.{parse_below, parse_radix, two_pow_64}
use nofomo.Prelude.Decimal.{to_decimal}
use nofomo.Uniswap.Amount.{is_ascii_hexdigit, hex_digit, hex_to_decimal, validate_decimal_integer}

-- `{:02}`
abbrev two_digits : ℕ → Text
two_digits n = if ltb n 10 then b'0' ∷ to_decimal n else to_decimal n

-- The percentage that `slippage_percent_json` writes.
unfoldable pub slippage_percent : ℕ → Text
slippage_percent slippage_bps =
    let whole = slippage_bps / 100 in
    let fraction = slippage_bps % 100 in
    if fraction == 0
    then to_decimal whole
    else if fraction % 10 == 0
    then to_decimal whole ++ (b'.' ∷ to_decimal (fraction / 10))
    else to_decimal whole ++ (b'.' ∷ two_digits fraction)

-- The text of a quantity as a decimal, once the prefix `0x` is looked for.
unfoldable pub decimal_of : Text → Option Text → Result Text
decimal_of raw (some hex) = hex_to_decimal hex
decimal_of raw none = do
  context (msg "transaction value is not a decimal integer") (validate_decimal_integer raw)
  ok raw

-- The number of a gas limit: hexadecimal after `0x`, decimal otherwise.
gas_of : Text → Option Text → Option ℕ
gas_of text (some hex) = parse_radix two_pow_64 16 is_ascii_hexdigit hex_digit hex
gas_of text none = parse_below two_pow_64 text

-- The cause that follows the message is left out.
gas_result : Text → Text → Option ℕ → Result (Option ℕ)
gas_result field text none = err (msg "transaction " ++ field ++ msg " is not a u64: " ++ text)
gas_result field text (some n) = ok (some n)

module _ (json : Json) where
  open json use {Value, get, as_str, as_u64, parse_number}

  -- `value.get(field).and_then(Value::as_str)`
  unfoldable pub get_str : Text → Value → Option Text
  get_str field value = Option.bind (get field value) as_str

  unfoldable pub string_field : Value → Text → Result Text
  unfolding get_str
  string_field value field = some_or (msg "transaction has no " ++ field) (get_str field value)

  unfoldable pub decimal_value : Value → Result Text
  unfolding get_str decimal_of
  decimal_value transaction =
      let raw = Option.get_or (get_str (codes "value") transaction) (codes "0") in
      decimal_of raw (strip_prefix (codes "0x") raw)

  -- A field that is there and no number: `rest` is what the loop does after it.
  gas_text : Text → Option Text → Result (Option ℕ) → Result (Option ℕ)
  unfolding gas_result gas_of
  gas_text field none rest = rest
  gas_text field (some text) rest =
      gas_result field text (gas_of text (strip_prefix (codes "0x") text))

  gas_value : Text → Value → Option ℕ → Result (Option ℕ) → Result (Option ℕ)
  unfolding gas_text
  gas_value field raw (some number) rest = ok (some number)
  gas_value field raw none rest = gas_text field (as_str raw) rest

  gas_field : Text → Option Value → Result (Option ℕ) → Result (Option ℕ)
  unfolding gas_value
  gas_field field none rest = rest
  gas_field field (some raw) rest = gas_value field raw (as_u64 raw) rest

  -- The loop over the names of the field.
  gas_limit_of : List Text → Value → Result (Option ℕ)
  unfolding gas_field
  gas_limit_of [] transaction = ok none
  gas_limit_of (field ∷ fields) transaction =
      gas_field field (get field transaction) (gas_limit_of fields transaction)

  unfoldable pub api_gas_limit : Value → Result (Option ℕ)
  unfolding gas_limit_of
  api_gas_limit transaction = gas_limit_of (codes "gasLimit" ∷ codes "gas" ∷ []) transaction

  unfoldable pub slippage_percent_json : ℕ → Result Value
  slippage_percent_json slippage_bps =
      some_or (msg "cannot encode slippage as JSON number")
        (parse_number (slippage_percent slippage_bps))
