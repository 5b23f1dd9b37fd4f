-- ===== src/Examples/Tables.antt =====
-- The tables of the database on concrete rows (crates/storage/src/strategy.rs).
use nofomo.Prelude.{
  ℕ, zero, suc, ◌+◌, ◌*◌, ◌/◌, ◌%◌, ◌-◌, ◌≤◌, ◌==◌, true, false, ◌≡◌, refl, sym, ap, ◌∙◌,
  ok-injective, List, [], ◌∷◌, Text, codes, text_eq, none, some, Result, ok, err,
  to_ascii_lowercase, arith, Bool-cases, inl, inr,
}
use nofomo.Prelude.Int.{pos}
use nofomo.Prelude.Decimal.{to_decimal, print_digits}
use nofomo.Domain.Model.{
  cetus, venue_name, venue_of_name, ExecutionPlan, uniswap_plan, cetus_plan, swap,
}
use nofomo.Domain.Units.Digits.{read_from, read_decimal}
use nofomo.Strategy.Level.{buy, side_name, side_of_name, Strategy, Level, StrategyLevel}
use nofomo.Strategy.Order.{Order, OrderState, swap_ready_state}
use nofomo.Trigger.Run.OneLive.{Listed}
use nofomo.Storage.Rows.{text_le, find_row, put_row, sort_rows, collect}
use nofomo.Storage.Strategy.{
  Tables, no_rows, Codec, IsFaithful, strategy_row, into_entry, amount_of,
}
use nofomo.Storage.Strategy.Statements.{
  strategy_key, level_key, order_key, has_levels, upsert_strategy, upsert_level, upsert_order,
  get_level, get_order, list_levels, Statement, put_strategy, put_level, remove_level, put_order,
  perform, after, run_all,
}
use nofomo.Storage.Strategy.Statements.Integrity.{WellFormed, run_all-WellFormed}
use nofomo.Storage.Strategy.Statements.Fixed.{after-Same}
use nofomo.Storage.Strategy.Statements.Listing.{entry_key, list_levels-Listed}
use nofomo.Storage.Rows.Laws.{is_missing}
use nofomo.Storage.Strategy.Statements.Reads.{
  Fits, first_creation, get_level-upsert_level, get_order-upsert_order,
}

read_from-print_digits :
    (fuel n : ℕ) (out : Text) → n ≤ fuel → read_from 0 (print_digits fuel n out) ≡ read_from n out
unfolding print_digits
read_from-print_digits zero n out h = ap (λ (m : ℕ). read_from m out) (omega arith)
read_from-print_digits (suc fuel) n out h = elim (Bool-cases (n == 0)) [
  | inl z ↦ let e : 0 ≡ n = ground arith in rw z (ap (λ (m : ℕ). read_from m out) e)
  | inr nz ↦
      let below : n / 10 ≤ fuel = ground arith in
      let e : n / 10 * 10 + (48 + n % 10 - 48) ≡ n = omega arith in
      rw nz (
        read_from-print_digits fuel (n / 10) ((48 + n % 10) ∷ out) below
        ∙ ap (λ (m : ℕ). read_from m out) e)
]

read_decimal-to_decimal : (n : ℕ) → read_decimal (to_decimal n) ≡ n
unfolding to_decimal
read_decimal-to_decimal n = elim (Bool-cases (n == 0)) [
  | inl z ↦ rw z (ground arith)
  | inr nz ↦ rw nz (read_from-print_digits n n [] (omega arith))
]

-- A codec for the values that stand here: plans of Cetus from one side and orders ready to swap.
abbrev pub plan_text : ExecutionPlan (Unit {0}) → Result Text
plan_text (uniswap_plan name chain_id token amount quote) = err []
plan_text (cetus_plan pool false amount min_out) = err []
plan_text (cetus_plan pool true (suc amount) min_out) = err []
plan_text (cetus_plan pool true zero (suc min_out)) = err []
plan_text (cetus_plan pool true zero zero) = ok pool

abbrev pub state_text : OrderState → Result Text
state_text (swap_ready_state swap amount none) = ok (to_decimal amount)
state_text _ = err []

abbrev pub toy : Codec (Unit {0}) ℕ
toy = record {
  parse_u256 = λ s. ok (read_decimal s);
  plan_to_string = plan_text;
  plan_from_str = λ s. ok (cetus_plan s true 0 0);
  state_to_string = state_text;
  state_from_str = λ s. ok (swap_ready_state swap (read_decimal s) none);
  is_stored = λ price. true;
}

plans_read :
    (p : ExecutionPlan (Unit {0})) (s : Text)
    → plan_text p ≡ ok s
    → ◌≡◌ {A = Result (ExecutionPlan (Unit {0}))} (ok (cetus_plan s true 0 0)) (ok p)
plans_read (uniswap_plan name chain_id token amount quote) s h = cc
plans_read (cetus_plan pool false amount min_out) s h = cc
plans_read (cetus_plan pool true (suc amount) min_out) s h = cc
plans_read (cetus_plan pool true zero (suc min_out)) s h = cc
plans_read (cetus_plan pool true zero zero) s h = cc

states_read :
    (p : OrderState) (s : Text)
    → state_text p ≡ ok s
    → ◌≡◌ {A = Result OrderState} (ok (swap_ready_state swap (read_decimal s) none)) (ok p)
states_read (swap_ready_state swap amount none) s h =
    let e : read_decimal s ≡ amount =
      ap read_decimal (sym (ok-injective h)) ∙ read_decimal-to_decimal amount in
    ap (λ (n : ℕ). ok (swap_ready_state swap n none)) e
states_read _ s h = cc

pub toy-IsFaithful : IsFaithful toy
toy-IsFaithful = record {
  u256 = λ n small. ap ok (read_decimal-to_decimal n);
  states = states_read;
}

abbrev strategy : Strategy
strategy = record {
  id = codes "s";
  venue = cetus;
  chain = codes "sui";
  base_token = codes "SUI";
  quote_token = codes "USDC";
}

abbrev level : Level ℕ
level = record {
  id = codes "l";
  strategy_id = codes "s";
  side = buy;
  trigger_price_usd = 3;
  amount = 500;
  amount_decimals = 6;
  slippage_bps = 50;
}

abbrev order : Order (Unit {0})
order = record {
  id = codes "o";
  level_id = codes "l";
  venue = cetus;
  chain = codes "sui";
  token_in = codes "USDC";
  token_out = codes "SUI";
  reserved_amount = 500;
  plan = cetus_plan (codes "0xpool") true 0 0;
  state = swap_ready_state swap 500 none;
  swap_attempts = 0;
  swap_retry_after_ts = none;
  created_at = pos 100;
}

abbrev other_market : Strategy
other_market = record strategy { base_token = codes "WAL" }

-- The second strategy is refused, and so is the level's removal.
abbrev statements : List (Statement (Unit {0}) ℕ)
statements =
    put_strategy none strategy
    ∷ put_level none level strategy
    ∷ put_strategy none other_market
    ∷ put_order none order
    ∷ remove_level none (codes "l")
    ∷ []

pub no_rows-WellFormed : WellFormed (no_rows {F = ℕ})
no_rows-WellFormed = record {
  strategy_ids = tt;
  level_ids = tt;
  order_ids = tt;
  two_tokens = tt;
  level_strategy = tt;
  order_level = tt;
}

run_all-WellFormed_example : WellFormed (run_all toy statements no_rows)
run_all-WellFormed_example = run_all-WellFormed toy statements no_rows no_rows-WellFormed

abbrev with_strategy : Tables ℕ
with_strategy = run_all toy (put_strategy none strategy ∷ []) no_rows

abbrev with_level : Tables ℕ
with_level = run_all toy (put_strategy none strategy ∷ put_level none level strategy ∷ []) no_rows

with_strategy-WellFormed : WellFormed with_strategy
with_strategy-WellFormed =
    run_all-WellFormed toy (put_strategy none strategy ∷ []) no_rows no_rows-WellFormed

with_level-WellFormed : WellFormed with_level
with_level-WellFormed =
    run_all-WellFormed toy (put_strategy none strategy ∷ put_level none level strategy ∷ []) no_rows
      no_rows-WellFormed

level_held : has_levels with_level (codes "s") ≡ true
unfolding run_all perform upsert_strategy upsert_level find_row put_row text_eq to_ascii_lowercase
    venue_name
level_held = refl

after-Same_example :
    find_row strategy_key
      (codes "s")
      (after toy with_level (perform toy (put_strategy none other_market) with_level)).strategies
    ≡ find_row strategy_key (codes "s") with_level.strategies
after-Same_example =
    after-Same with_level (codes "s") toy (put_strategy none other_market) with_level-WellFormed
      level_held

level_written : upsert_level toy none level strategy with_strategy ≡ ok with_level
unfolding run_all perform upsert_strategy upsert_level find_row put_row text_eq to_ascii_lowercase
    venue_name
level_written = refl

level-Fits : Fits level
level-Fits = record { amount = omega arith; decimals = omega arith; slippage = omega arith }

get_level-upsert_level_example :
    get_level toy none (codes "l") with_level
    ≡ ok (some (record { strategy = strategy; level = level }))
get_level-upsert_level_example =
    get_level-upsert_level toy toy-IsFaithful none level strategy with_strategy
      with_strategy-WellFormed level-Fits level_written

abbrev with_order : Tables ℕ
with_order = after toy with_level (perform toy (put_order none order) with_level)

order_written : upsert_order toy none order with_level ≡ ok with_order
unfolding run_all perform upsert_strategy upsert_level upsert_order find_row put_row text_eq
    to_ascii_lowercase venue_name
order_written = refl

get_order-upsert_order_example :
    get_order toy none (codes "o") with_order
    ≡ ok (
        some (record order {
          created_at = first_creation (find_row order_key (codes "o") with_level.orders) (pos 100);
        }))
get_order-upsert_order_example =
    get_order-upsert_order toy toy-IsFaithful none order with_level (omega arith) (omega arith)
      (plans_read order.plan) order_written

abbrev second_level : Level ℕ
second_level = record level { id = codes "a" }

abbrev two_levels : List (Statement (Unit {0}) ℕ)
two_levels =
    put_strategy none strategy
    ∷ put_level none level strategy
    ∷ put_level none second_level strategy
    ∷ []

abbrev with_levels : Tables ℕ
with_levels = run_all toy two_levels no_rows

abbrev entries : List (StrategyLevel ℕ)
entries =
    record { strategy = strategy; level = second_level }
    ∷ record { strategy = strategy; level = level }
    ∷ []

levels_listed : list_levels toy none with_levels ≡ ok entries
unfolding run_all perform upsert_strategy upsert_level list_levels find_row put_row sort_rows
    collect text_eq to_ascii_lowercase into_entry amount_of strategy_row venue_of_name venue_name
    side_of_name side_name to_decimal text_le
levels_listed = refl

list_levels-Listed_example :
    Listed entries
    × ((id : Text)
        → is_missing (entry_key toy) id entries ≡ is_missing level_key id with_levels.levels)
list_levels-Listed_example =
    list_levels-Listed toy none with_levels
      (run_all-WellFormed toy two_levels no_rows no_rows-WellFormed) levels_listed
