-- ===== src/Examples/Swaps.antt =====
-- Swaps over a flat pool (crates/cetus/tests/swap_math.rs).
use nofomo.Prelude.{◌+◌, ◌≤◌, ◌≡◌, refl, true, List, [], ◌∷◌, ok, arith}
use nofomo.Prelude.Int.{pos, negsuc}
use nofomo.Cetus.Words.{min_sqrt_price, max_sqrt_price, checked_sub, to_u128, div_round_up_if}
use nofomo.Cetus.Delta.{
  mul_div_floor, get_delta_up_from_input, get_delta_a, get_next_sqrt_price_from_input,
  get_next_sqrt_price_a_up, check_sqrt_price_bounds, get_delta_down_from_output, get_delta_b,
}
use nofomo.Cetus.Step.{StepResult, fee_complement, step_by_input, compute_swap_step}
use nofomo.Cetus.Step.Fees.{compute_swap_step-fits}
use nofomo.Cetus.Step.Empty.{Stuck, Idle, compute_swap_step-empty}
use nofomo.Cetus.Swap.{TickData, PoolState, SwapResult, compute_swap}
use nofomo.Cetus.Swap.Exact.{compute_swap-exact}

abbrev flat_pool : PoolState
flat_pool = record {
  current_sqrt_price = 18446744073709551616;
  current_tick_index = pos 0;
  liquidity = 1000000000000;
  fee_rate = 2500;
}

abbrev wide_open_ticks : List TickData
wide_open_ticks =
    record { index = negsuc 99; sqrt_price = min_sqrt_price; liquidity_net = 0 }
    ∷ record { index = pos 100; sqrt_price = max_sqrt_price; liquidity_net = 0 }
    ∷ []

abbrev golden : SwapResult
golden = record {
  amount_in = 1000000;
  amount_out = 997499;
  fee_amount = 2500;
  next_sqrt_price = 18446725673100692699;
  cross_tick_count = 1;
}

golden_vector : compute_swap true 1000000 flat_pool wide_open_ticks ≡ ok golden
unfolding compute_swap compute_swap_step step_by_input fee_complement checked_sub mul_div_floor
    to_u128 get_delta_up_from_input get_delta_a div_round_up_if get_next_sqrt_price_from_input
    get_next_sqrt_price_a_up check_sqrt_price_bounds get_delta_down_from_output get_delta_b
golden_vector = refl

compute_swap-exact_example : golden.amount_in ≡ 1000000
compute_swap-exact_example =
    compute_swap-exact true 1000000 flat_pool wide_open_ticks (omega arith) golden_vector

abbrev first_step : StepResult
first_step = record {
  amount_in = 997500;
  amount_out = 997499;
  next_sqrt_price = 18446725673100692699;
  fee_amount = 2500;
}

stepped :
    compute_swap_step 18446744073709551616 min_sqrt_price 1000000000000 1000000 2500 true
    ≡ ok first_step
unfolding compute_swap_step step_by_input fee_complement checked_sub mul_div_floor to_u128
    get_delta_up_from_input get_delta_a div_round_up_if get_next_sqrt_price_from_input
    get_next_sqrt_price_a_up check_sqrt_price_bounds get_delta_down_from_output get_delta_b
stepped = refl

compute_swap_step-fits_example : first_step.amount_in + first_step.fee_amount ≤ 1000000
compute_swap_step-fits_example =
    compute_swap_step-fits 18446744073709551616 min_sqrt_price 1000000000000 1000000 2500 stepped

compute_swap_step-empty_example :
    Idle 1000000 2500 first_step.amount_in first_step.fee_amount
    × (Stuck 1000000 2500 → first_step.amount_in ≡ 0)
compute_swap_step-empty_example =
    compute_swap_step-empty 18446744073709551616 min_sqrt_price 1000000000000 1000000 2500 stepped

rounded : div_round_up_if 7 2 true ≡ ok 4
unfolding div_round_up_if
rounded = refl
