-- ===== src/Cetus/Swap.antt =====
-- The walk over the fetched ticks (crates/cetus/src/swap_math.rs, `compute_swap`).
pub mod Exact
use nofomo.Prelude.{
  ℕ, suc, ◌+◌, ◌-◌, ◌*◌, ◌/◌, ◌%◌, ◌<◌, ◌≡◌, Bool, true, false, ◌&&◌, ◌||◌, not, List, [], ◌∷◌,
  Text, msg, ◌++◌, Result, ok, err, ltb, leb, ◌==◌, if◌then◌else◌, arith, ◌>>=◌, ◌>>◌, bail_if,
}
use mathlib.Core.List.{reverse}
use nofomo.Prelude.Int.{ℤ, ltb_ℤ}
use nofomo.Prelude.Decimal.{to_decimal}
use nofomo.Cetus.Words.{u128_mod, min_sqrt_price, max_sqrt_price, add_u128, checked_sub}
use nofomo.Cetus.Step.{StepResult, compute_swap_step}

-- `liquidity_net` is an i128, kept as its residue modulo 2^128.
pub record TickData : Type 0 where
  pub index : ℤ
  pub sqrt_price : ℕ
  pub liquidity_net : ℕ

pub record PoolState : Type 0 where
  pub current_sqrt_price : ℕ
  pub current_tick_index : ℤ
  pub liquidity : ℕ
  pub fee_rate : ℕ

pub record SwapResult : Type 0 where
  pub amount_in : ℕ
  pub amount_out : ℕ
  pub fee_amount : ℕ
  pub next_sqrt_price : ℕ
  pub cross_tick_count : ℕ

-- The variables of the loop.
pub record Walk : Type 0 where
  pub remaining : ℕ
  pub liquidity : ℕ
  pub sqrt_price : ℕ
  pub result : SwapResult

-- How a round of the loop ends.
pub data Flow : Type 0 where
  next_tick : Walk → Flow
  stop : Walk → Flow

-- The liquidity behind a crossed tick: i128 addition and the casts, modulo 2^128.
crossed : Bool → ℕ → ℕ → ℕ
crossed a_to_b liquidity net =
    if a_to_b then (liquidity + net) % u128_mod else (liquidity + u128_mod - net) % u128_mod

-- What is left of the input after a step.
pub spend : ℕ → StepResult → Result ℕ
spend remaining step =
    if step.amount_in == 0
    then ok remaining
    else checked_sub remaining (add_u128 step.amount_in step.fee_amount)
        (msg "swap consumed more than the remaining input amount")

module _ (a_to_b : Bool) (pool : PoolState) where
  -- The price that a step aims at: the tick's, or the limit.
  target_price : ℕ → ℕ
  target_price tick_price =
      let limit = if a_to_b then min_sqrt_price else max_sqrt_price in
      if a_to_b && ltb tick_price limit || not a_to_b && ltb limit tick_price
      then limit
      else tick_price

  -- The loop's variables after a step.
  pub after_step : Walk → TickData → StepResult → ℕ → Walk
  unfolding crossed
  after_step w tick step remaining =
      let at_tick = step.next_sqrt_price == tick.sqrt_price in
      record {
        remaining = remaining;
        liquidity = if at_tick then crossed a_to_b w.liquidity tick.liquidity_net else w.liquidity;
        sqrt_price = if at_tick then tick.sqrt_price else step.next_sqrt_price;
        result = record {
          amount_in = add_u128 w.result.amount_in step.amount_in;
          amount_out = add_u128 w.result.amount_out step.amount_out;
          fee_amount = add_u128 w.result.fee_amount step.fee_amount;
          next_sqrt_price = w.result.next_sqrt_price;
          cross_tick_count = (w.result.cross_tick_count + 1) % 4294967296;
        };
      }

  take_step : Walk → TickData → Result Flow
  unfolding target_price
  take_step w tick = do
    step ←
        compute_swap_step w.sqrt_price (target_price tick.sqrt_price) w.liquidity w.remaining
          pool.fee_rate true
    remaining ← spend w.remaining step
    let w' = after_step w tick step remaining
    ok (if remaining == 0 then stop w' else next_tick w')

  -- Ticks on the far side of the current one are skipped.
  skips : TickData → Bool
  skips tick =
      if a_to_b
      then ltb_ℤ pool.current_tick_index tick.index
      else not (ltb_ℤ pool.current_tick_index tick.index)

  pub visit : Walk → TickData → Result Flow
  unfolding skips take_step
  visit w tick =
      if skips tick
      then ok (next_tick w)
      else if w.remaining == 0
      then ok (stop w)
      else take_step w tick

  follow : (Walk → Result Walk) → Result Flow → Result Walk
  follow rest (ok (next_tick w)) = rest w
  follow rest (ok (stop w)) = ok w
  follow rest (err e) = err e

  pub walk : List TickData → Walk → Result Walk
  unfolding follow
  walk [] w = ok w
  walk (tick ∷ ticks) w = follow (walk ticks) (visit w tick)

abbrev pub start : ℕ → PoolState → Walk
start amount pool = record {
  remaining = amount;
  liquidity = pool.liquidity;
  sqrt_price = pool.current_sqrt_price;
  result = record {
    amount_in = 0;
    amount_out = 0;
    fee_amount = 0;
    next_sqrt_price = pool.current_sqrt_price;
    cross_tick_count = 0;
  };
}

-- The result, once the whole input is spent.
finish : ℕ → Walk → Result SwapResult
finish amount w =
    if w.remaining == 0
    then ok (record {
      amount_in = add_u128 w.result.amount_in w.result.fee_amount;
      amount_out = w.result.amount_out;
      fee_amount = w.result.fee_amount;
      next_sqrt_price = w.sqrt_price;
      cross_tick_count = w.result.cross_tick_count;
    })
    else err (
        msg "insufficient liquidity in fetched tick range: "
        ++ to_decimal w.remaining
        ++ msg " of "
        ++ to_decimal amount
        ++ msg " input unfilled after crossing "
        ++ to_decimal w.result.cross_tick_count
        ++ msg " ticks")

unfoldable pub compute_swap : Bool → ℕ → PoolState → List TickData → Result SwapResult
unfolding walk visit after_step spend finish
compute_swap a_to_b amount pool ticks = do
  w ← walk a_to_b pool (if a_to_b then reverse ticks else ticks) (start amount pool)
  finish amount w
