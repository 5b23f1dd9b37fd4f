-- ===== src/Domain/Units.antt =====
-- Decimal amounts as texts of digits (crates/domain/src/model.rs, from `parse_units` on).
pub mod Digits
pub mod Slippage
pub mod Ascii
use nofomo.Prelude.{
  ℕ, zero, suc, ◌+◌, ◌-◌, ◌*◌, ◌/◌, ◌%◌, ◌≡◌, refl, Bool, true, false, not, ◌&&◌, ◌||◌, [], ◌∷◌,
  ◌++◌, Text, codes, msg, Result, ok, ◌>>◌, bail_if, all, length, take, drop, replicate,
  is_ascii_digit, ltb, leb, ◌==◌, if◌then◌else◌,
}
use mathlib.Core.List.{reverse}
use nofomo.Prelude.Decimal.{to_decimal}

-- `char::is_whitespace` on ASCII
pub is_space : ℕ → Bool
is_space c = c == 32 || leb 9 c && leb c 13

trim_start : Text → Text
trim_start [] = []
trim_start (c ∷ s) = let rest = trim_start s in if is_space c then rest else c ∷ s

-- `str::trim`, for texts whose white space is ASCII
unfoldable pub trim : Text → Text
unfolding trim_start is_space
trim s = reverse (trim_start (reverse (trim_start s)))

-- `trim_start_matches('0')`
unfoldable pub trim_zeros : Text → Text
trim_zeros [] = []
trim_zeros (c ∷ s) = let rest = trim_zeros s in if c == b'0' then rest else c ∷ s

-- `trim_end_matches('0')`
unfoldable pub trim_end_zeros : Text → Text
unfolding trim_zeros
trim_end_zeros s = reverse (trim_zeros (reverse s))

starts_with_sign : Text → Bool
starts_with_sign [] = false
starts_with_sign (c ∷ s) = c == b'-' || c == b'+'

-- `split_once('.').unwrap_or((value, ""))`
split_dot : Text → Text × Text
split_dot [] = ([], [])
split_dot (c ∷ s) =
    let (whole, fraction) = split_dot s in if c == b'.' then ([], s) else (c ∷ whole, fraction)

-- `<` on strings of the same length
lex_lt : Text → Text → Bool
lex_lt (a ∷ s) (b ∷ t) = ltb a b || (a == b) && lex_lt s t
lex_lt [] (b ∷ t) = true
lex_lt _ [] = false

abbrev pub or_zero : Text → Text
or_zero [] = b'0' ∷ []
or_zero (c ∷ s) = c ∷ s

abbrev pub is_empty : Text → Bool
is_empty [] = true
is_empty (c ∷ s) = false

-- The largest U256 in decimal.
pub u256_max : Text
u256_max = codes "115792089237316195423570985008687907853269984665640564039457584007913129639935"

exceeds_u256 : Text → Bool
unfolding lex_lt u256_max
exceeds_u256 raw =
    ltb (length u256_max) (length raw) || (length raw == length u256_max) && lex_lt u256_max raw

-- `parse_units_string`, once the value is trimmed
parse_trimmed : Text → ℕ → Result Text
unfolding starts_with_sign split_dot exceeds_u256 trim_zeros
parse_trimmed value decimals = do
  bail_if (is_empty value || starts_with_sign value)
      (msg "amount must be a positive decimal string")
  let (whole, fraction) = split_dot value
  bail_if (not (all is_ascii_digit whole) || not (all is_ascii_digit fraction))
      (msg "amount must be a decimal string")
  bail_if (ltb decimals (length fraction))
      (msg "amount has more than " ++ to_decimal decimals ++ msg " decimal places")
  let raw = trim_zeros (or_zero whole ++ fraction ++ replicate (decimals - length fraction) b'0')
  bail_if (is_empty raw) (msg "amount must be greater than zero")
  bail_if (exceeds_u256 raw) (msg "amount exceeds uint256")
  ok raw

unfoldable pub parse_units_string : Text → ℕ → Result Text
unfolding trim parse_trimmed
parse_units_string value decimals = parse_trimmed (trim value) decimals

-- A text with `0` before it up to the width.
abbrev pad_left : ℕ → Text → Text
pad_left width s = replicate (width - length s) b'0' ++ s

-- The digits split before the last `decimals`, the fraction without its trailing zeros.
split_units : Text → ℕ → Text
unfolding trim_end_zeros
split_units digits decimals =
    let split = length digits - decimals in
    let fraction = trim_end_zeros (drop split digits) in
    if is_empty fraction then take split digits else take split digits ++ (b'.' ∷ fraction)

unfoldable pub format_units_string : Text → ℕ → Result Text
unfolding trim_zeros split_units
format_units_string raw decimals = do
  bail_if (is_empty raw || not (all is_ascii_digit raw))
      (msg "base units must be an unsigned decimal integer")
  let trimmed = or_zero (trim_zeros raw)
  ok (
      if decimals == 0
      then trimmed
      else if leb (length trimmed) decimals
      then split_units (pad_left (decimals + 1) trimmed) decimals
      else split_units trimmed decimals)

-- Slippage on u64 amounts; the product is a u128, which holds it.
unfoldable pub apply_slippage : ℕ → ℕ → Result ℕ
apply_slippage raw slippage_bps = do
  bail_if (ltb 5000 slippage_bps) (msg "slippage_bps must not exceed 5000")
  ok (((raw * (10000 - slippage_bps)) / 10000) % 18446744073709551616)

-- `while carry > 0`: the digits of a carry, the last first. The fuel is at least the carry.
pub carry_digits : ℕ → ℕ → Text
carry_digits zero c = []
carry_digits (suc fuel) c =
    let rest = carry_digits fuel (c / 10) in if c == 0 then [] else (c % 10 + b'0') ∷ rest

-- The digits of `digits * multiplier + carry`; both texts have the last digit first.
pub times_digits : ℕ → Text → ℕ → Text
times_digits multiplier [] carry = carry_digits carry carry
times_digits multiplier (digit ∷ digits) carry =
    let product = (digit - b'0') * multiplier + carry in
    (product % 10 + b'0') ∷ times_digits multiplier digits (product / 10)

-- The text without its last four digits; fewer than five digits leave none.
pub drop_last_four : Text → Text
unfolding trim_zeros
drop_last_four product =
    if leb (length product) 4 then b'0' ∷ [] else trim_zeros (take (length product - 4) product)

unfoldable pub apply_slippage_string : Text → ℕ → Result Text
unfolding times_digits carry_digits drop_last_four
apply_slippage_string raw slippage_bps = do
  bail_if (ltb 10000 slippage_bps) (msg "slippage_bps must not exceed 10000")
  bail_if (is_empty raw || not (all is_ascii_digit raw))
      (msg "base units must be an unsigned decimal integer")
  let product = reverse (times_digits (10000 - slippage_bps) (reverse raw) 0)
  ok (or_zero (drop_last_four product))

runs :
    (apply_slippage_string (codes "1000000") 50 ≡ ok (codes "995000"))
    × (parse_units_string (codes " 1.25") 6 ≡ ok (codes "1250000"))
    × (format_units_string (codes "1250000") 6 ≡ ok (codes "1.25"))
unfolding apply_slippage_string parse_units_string format_units_string
runs = (refl, refl, refl)
