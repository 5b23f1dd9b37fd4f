-- ===== src/Cetus/Step.antt =====
-- One step of a swap, to the next initialized tick or to where the amount ends
-- (crates/cetus/src/swap_math.rs, `compute_swap_step`).
pub mod Fees
pub mod Empty
use nofomo.Prelude.{
  ℕ, ◌+◌, ◌-◌, ◌*◌, ◌/◌, ◌%◌, ◌<◌, ◌≡◌, Bool, true, false, ◌&&◌, ◌||◌, not, Text, msg, ◌++◌, Result,
  ok, err, ltb, leb, ◌==◌, if◌then◌else◌, arith, ◌>>=◌, ◌>>◌, bail_if,
}
use nofomo.Cetus.Words.{fee_rate_denominator, checked_sub}
use nofomo.Cetus.Delta.{
  get_next_sqrt_price_from_input, get_next_sqrt_price_from_output, get_delta_up_from_input,
  get_delta_down_from_output, mul_div_floor, mul_div_ceil,
}

pub record StepResult : Type 0 where
  pub amount_in : ℕ
  pub amount_out : ℕ
  pub next_sqrt_price : ℕ
  pub fee_amount : ℕ

-- `FEE_RATE_DENOMINATOR.checked_sub(fee_rate)`
unfoldable pub fee_complement : ℕ → Result ℕ
fee_complement fee_rate =
    checked_sub fee_rate_denominator fee_rate (msg "fee_rate exceeds denominator")

-- The input used, its fee and the next price.
pub record Used : Type 0 where
  pub amount_in : ℕ
  pub fee_amount : ℕ
  pub next_sqrt_price : ℕ

module _ (current target liquidity amount fee_rate : ℕ) (a_to_b : Bool) where
  -- The amount ends before the target.
  stop_short : ℕ → Result Used
  stop_short amount_remain = do
    fee ← checked_sub amount amount_remain (msg "fee amount underflow")
    next ← get_next_sqrt_price_from_input current liquidity amount_remain a_to_b
    ok (record { amount_in = amount_remain; fee_amount = fee; next_sqrt_price = next })

  -- The target is reached.
  reach_target : ℕ → Result Used
  reach_target max_amount_in = do
    complement ← fee_complement fee_rate
    fee ← mul_div_ceil max_amount_in fee_rate complement
    ok (record { amount_in = max_amount_in; fee_amount = fee; next_sqrt_price = target })

  unfoldable pub step_by_input : Result StepResult
  unfolding stop_short reach_target
  step_by_input = do
    complement ← fee_complement fee_rate
    amount_remain ← mul_div_floor amount complement fee_rate_denominator
    max_amount_in ← get_delta_up_from_input current target liquidity a_to_b
    used ←
        if ltb amount_remain max_amount_in
        then stop_short amount_remain
        else reach_target max_amount_in
    amount_out ← get_delta_down_from_output current used.next_sqrt_price liquidity a_to_b
    ok (record {
      amount_in = used.amount_in;
      amount_out = amount_out;
      next_sqrt_price = used.next_sqrt_price;
      fee_amount = used.fee_amount;
    })

  -- The output that ends before the target, and its price.
  output_short : Result (ℕ × ℕ)
  output_short = do
    next ← get_next_sqrt_price_from_output current liquidity amount a_to_b
    ok (amount, next)

  unfoldable pub step_by_output : Result StepResult
  unfolding output_short
  step_by_output = do
    max_amount_out ← get_delta_down_from_output current target liquidity a_to_b
    used ← if ltb amount max_amount_out then output_short else ok (max_amount_out, target)
    amount_in ← get_delta_up_from_input current used.1 liquidity a_to_b
    complement ← fee_complement fee_rate
    fee ← mul_div_ceil amount_in fee_rate complement
    ok (record {
      amount_in = amount_in;
      amount_out = used.0;
      next_sqrt_price = used.1;
      fee_amount = fee;
    })

unfoldable pub compute_swap_step : ℕ → ℕ → ℕ → ℕ → ℕ → Bool → Result StepResult
compute_swap_step current target liquidity amount fee_rate by_amount_in =
    if liquidity == 0
    then ok (record { amount_in = 0; amount_out = 0; next_sqrt_price = target; fee_amount = 0 })
    else (let a_to_b = leb target current in
        if by_amount_in
        then step_by_input current target liquidity amount fee_rate a_to_b
        else step_by_output current target liquidity amount fee_rate a_to_b)
