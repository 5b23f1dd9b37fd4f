-- ===== src/Cetus/Delta.antt =====
-- The amounts between two prices and the price after an amount
-- (crates/cetus/src/swap_math.rs, `get_delta_a` to `mul_div_ceil`).
use nofomo.Prelude.{
  ℕ, ◌-◌, ◌*◌, ◌/◌, ◌%◌, Bool, true, false, ◌&&◌, ◌||◌, not, msg, ◌++◌, Result, ok, err, ltb, leb,
  ◌==◌, if◌then◌else◌, ◌>>=◌,
}
use nofomo.Prelude.Decimal.{to_decimal}
use nofomo.Cetus.Words.{
  u64_mod, min_sqrt_price, max_sqrt_price, shl64, add_u256, abs_diff, checked_sub, checked_add,
  to_u128, div_round_up_if,
}

unfoldable pub get_delta_a : ℕ → ℕ → ℕ → Bool → Result ℕ
get_delta_a sqrt_price0 sqrt_price1 liquidity round_up = do
  let diff = abs_diff sqrt_price0 sqrt_price1
  let numerator = shl64 (liquidity * diff)
  let denominator = sqrt_price0 * sqrt_price1
  quotient ← div_round_up_if numerator denominator round_up
  to_u128 quotient (msg "delta_a")

unfoldable pub get_delta_b : ℕ → ℕ → ℕ → Bool → Result ℕ
get_delta_b sqrt_price0 sqrt_price1 liquidity round_up =
    let diff = abs_diff sqrt_price0 sqrt_price1 in
    let product = liquidity * diff in
    let shifted = product / u64_mod in
    let remainder = product % u64_mod in
    if liquidity == 0 || diff == 0
    then ok 0
    else to_u128 (if round_up && ltb 0 remainder then add_u256 shifted 1 else shifted)
        (msg "delta_b")

unfoldable pub check_sqrt_price_bounds : ℕ → Result ℕ
check_sqrt_price_bounds sqrt_price =
    if leb min_sqrt_price sqrt_price && leb sqrt_price max_sqrt_price
    then ok sqrt_price
    else err (msg "next sqrt price " ++ to_decimal sqrt_price ++ msg " is out of CLMM bounds")

-- The denominator of the next price on the side of token A.
a_up_denominator : Bool → ℕ → ℕ → Result ℕ
a_up_denominator true liquidity_shl64 product = ok (add_u256 liquidity_shl64 product)
a_up_denominator false liquidity_shl64 product =
    if leb liquidity_shl64 product
    then err (msg "insufficient liquidity for requested output amount")
    else ok (liquidity_shl64 - product)

unfoldable pub get_next_sqrt_price_a_up : ℕ → ℕ → ℕ → Bool → Result ℕ
unfolding a_up_denominator
get_next_sqrt_price_a_up sqrt_price liquidity amount by_amount_in =
    if amount == 0 then ok sqrt_price else do
      let numerator = shl64 (sqrt_price * liquidity)
      let liquidity_shl64 = shl64 liquidity
      let product = sqrt_price * amount
      denominator ← a_up_denominator by_amount_in liquidity_shl64 product
      quotient ← div_round_up_if numerator denominator true
      next ← to_u128 quotient (msg "next_sqrt_price_a")
      check_sqrt_price_bounds next

unfoldable pub get_next_sqrt_price_b_down : ℕ → ℕ → ℕ → Bool → Result ℕ
get_next_sqrt_price_b_down sqrt_price liquidity amount by_amount_in = do
  let numerator = shl64 amount
  quotient ← div_round_up_if numerator liquidity (not by_amount_in)
  delta ← to_u128 quotient (msg "delta_sqrt_price")
  next ←
      if by_amount_in
      then checked_add sqrt_price delta (msg "sqrt price overflow")
      else checked_sub sqrt_price delta (msg "sqrt price underflow")
  check_sqrt_price_bounds next

unfoldable pub get_next_sqrt_price_from_input : ℕ → ℕ → ℕ → Bool → Result ℕ
get_next_sqrt_price_from_input sqrt_price liquidity amount a_to_b =
    if a_to_b
    then get_next_sqrt_price_a_up sqrt_price liquidity amount true
    else get_next_sqrt_price_b_down sqrt_price liquidity amount true

unfoldable pub get_next_sqrt_price_from_output : ℕ → ℕ → ℕ → Bool → Result ℕ
get_next_sqrt_price_from_output sqrt_price liquidity amount a_to_b =
    if a_to_b
    then get_next_sqrt_price_b_down sqrt_price liquidity amount false
    else get_next_sqrt_price_a_up sqrt_price liquidity amount false

unfoldable pub get_delta_up_from_input : ℕ → ℕ → ℕ → Bool → Result ℕ
get_delta_up_from_input current_sqrt_price target_sqrt_price liquidity a_to_b =
    if liquidity == 0 || current_sqrt_price == target_sqrt_price
    then ok 0
    else if a_to_b
    then get_delta_a current_sqrt_price target_sqrt_price liquidity true
    else get_delta_b current_sqrt_price target_sqrt_price liquidity true

unfoldable pub get_delta_down_from_output : ℕ → ℕ → ℕ → Bool → Result ℕ
get_delta_down_from_output current_sqrt_price target_sqrt_price liquidity a_to_b =
    if liquidity == 0 || current_sqrt_price == target_sqrt_price
    then ok 0
    else if a_to_b
    then get_delta_b current_sqrt_price target_sqrt_price liquidity false
    else get_delta_a current_sqrt_price target_sqrt_price liquidity false

-- `U256::from(a) * U256::from(b) / U256::from(d)`; the callers' `d` is the fee denominator.
unfoldable pub mul_div_floor : ℕ → ℕ → ℕ → Result ℕ
mul_div_floor a b denominator = to_u128 ((a * b) / denominator) (msg "mul_div_floor")

unfoldable pub mul_div_ceil : ℕ → ℕ → ℕ → Result ℕ
mul_div_ceil a b denominator = do
  quotient ← div_round_up_if (a * b) denominator true
  to_u128 quotient (msg "mul_div_ceil")
