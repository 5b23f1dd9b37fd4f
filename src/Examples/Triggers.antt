-- ===== src/Examples/Triggers.antt =====
-- Levels and quotes on a small configuration (crates/trigger/src).
use nofomo.Prelude.{
  ℕ, ◌≡◌, ◌↔◌, refl, Bool, true, false, List, [], ◌∷◌, Text, codes, text_eq, to_ascii_lowercase,
  eq_ignore_ascii_case, some, Result, ok,
}
use nofomo.Prelude.Int.{pos}
use nofomo.Domain.Chain.{family, evm_chain}
use nofomo.Domain.Model.{venue_family, uniswap, uniswap_plan, QuoteDraft}
use nofomo.Domain.CoinType.{normalize_coin_type}
use nofomo.Domain.Units.{parse_units_string}
use mathlib.Core.Option
use nofomo.Strategy.Level.{buy, side_of_name, trade_direction, Strategy, Level, StrategyLevel}
use nofomo.Strategy.Order.{Order, OrderState, failed_state, filled_state}
use nofomo.Trigger.Resolver.{RegisteredToken, find_token, price_pair, TokenResolver}
use nofomo.Trigger.Fired.{is_spent, cooling_down}
use nofomo.Trigger.Runtime.{RuntimeStatus, armed, quiet_of, is_quiet, level_state}
use nofomo.Trigger.Runtime.Quiet.{HasKeys}
use mathlib.Core.Path.{subst}
use nofomo.Prelude.{ok-injective, arith, none}
use nofomo.Prelude.Int.{ℤ}
use nofomo.Price.Gates.{PriceTick}
use nofomo.Trigger.Run.{TriggerDeps, World, run}
use nofomo.Trigger.Run.OneLive.{Listed, ListsLevels, OnePerLevel, run-OnePerLevel}
use nofomo.Trigger.Runtime.LevelState.{level_state-armed_iff}
use nofomo.Trigger.Authoring.{
  LevelDraft, token, validate_strategy_model, validate_level, validate_stored_level,
}
use nofomo.Trigger.Authoring.Startup.{validate_stored_level-validate_level}
use nofomo.Trigger.QuoteGuard.{amount, check_pegged, check_quote}
use nofomo.Examples.Prices.{whole, whole_value, tick_at}

abbrev status_now : RuntimeStatus ℕ
status_now = record {
  started_at = pos 1000;
  allow_broadcast = false;
  freshness_secs = pos 120;
  feeds = [];
  quiet_until = (codes "buy", pos 1050) ∷ (codes "sell", pos 1200) ∷ [];
}

abbrev order_in : OrderState → Text → Order ℕ
order_in state level_id = record {
  id = level_id;
  level_id = level_id;
  venue = uniswap;
  chain = codes "ethereum";
  token_in = codes "usdc";
  token_out = codes "weth";
  reserved_amount = 1;
  plan = uniswap_plan (codes "ethereum") 1 (codes "usdc") (codes "1") 0;
  state = state;
  swap_attempts = 0;
  swap_retry_after_ts = none;
  created_at = pos 100;
}

-- One that failed long before, and a filled one of another level.
abbrev two_orders : List (Order ℕ)
two_orders =
    order_in (failed_state none []) (codes "buy") ∷ order_in (filled_state []) (codes "sell") ∷ []

resting-HasKeys : HasKeys status_now.quiet_until
unfolding quiet_of text_eq
resting-HasKeys = (refl, (refl, tt))

level_state-armed_iff_example :
    (level_state status_now (codes "buy") two_orders (pos 1100) ≡ armed) ↔ (
      (is_spent (codes "buy") two_orders ≡ false)
      × (is_quiet status_now (codes "buy") (pos 1100) ≡ false)
      × (cooling_down (codes "buy") two_orders (pos 1100) ≡ false))
level_state-armed_iff_example =
    level_state-armed_iff status_now (codes "buy") two_orders (pos 1100) resting-HasKeys

abbrev no_orders : List (Order ℕ)
no_orders = []

abbrev pub token_with : Text → ℕ → Bool → RegisteredToken
token_with name decimals peg = record {
  chain = evm_chain 1;
  chain_name = codes "ethereum";
  id = name;
  price_ref = some (record { chain_id = 1; token_address = codes "0xweth" });
  decimals = decimals;
  usd_peg = peg;
}

abbrev pub tokens : TokenResolver
tokens =
    (
      codes "ethereum",
      (codes "weth", token_with (codes "weth") 18 false)
          ∷ (codes "usdc", token_with (codes "usdc") 6 true)
          ∷ [],
    )
    ∷ []

abbrev pub strategy : Strategy
strategy = record {
  id = codes "s";
  venue = uniswap;
  chain = codes "ethereum";
  base_token = codes "weth";
  quote_token = codes "usdc";
}

abbrev pub draft : LevelDraft ℕ
draft = record {
  id = codes "buy";
  strategy_id = codes "s";
  side = codes "buy";
  trigger_price_usd = 3000;
  amount = codes "1";
  slippage_bps = 50;
}

abbrev level : Level ℕ
level = record {
  id = codes "buy";
  strategy_id = codes "s";
  side = buy;
  trigger_price_usd = 3000;
  amount = 1000000;
  amount_decimals = 6;
  slippage_bps = 50;
}

abbrev u256_of : Text → Result ℕ
u256_of digits = ok (whole_value digits 0)

accepted : validate_level tokens (λ pair. true) u256_of 100 strategy draft ≡ ok level
unfolding validate_level text_eq validate_strategy_model token find_token mathlib.Core.Option.bind
    to_ascii_lowercase normalize_coin_type eq_ignore_ascii_case venue_family family price_pair
    side_of_name trade_direction parse_units_string
accepted = refl

validate_stored_level-validate_level_example :
    validate_stored_level tokens (λ pair. true) 100 (record { strategy = strategy; level = level })
    ≡ ok tt
validate_stored_level-validate_level_example =
    validate_stored_level-validate_level tokens (λ pair. true) u256_of 100 strategy draft level
      accepted

abbrev quoted : QuoteDraft ℕ
quoted = record {
  venue = codes "uniswap";
  chain = codes "ethereum";
  token_in = codes "usdc";
  token_out = codes "weth";
  amount_in = codes "3000";
  expected_amount_out = codes "1";
  minimum_amount_out = codes "1";
  graph_guard = codes "ok";
  plan = uniswap_plan (codes "ethereum") 1 (codes "usdc") (codes "3000") 0;
}

abbrev entry : StrategyLevel ℕ
entry = record { strategy = strategy; level = level }

passes : check_quote whole tokens entry quoted (tick_at 3000 (pos 1000)) 100 ≡ ok tt
unfolding check_quote find_token mathlib.Core.Option.bind text_eq to_ascii_lowercase
    normalize_coin_type trade_direction check_pegged amount
passes = refl

abbrev desk : TriggerDeps ℕ ℕ
desk = record {
  list_levels = λ n. ok (entry ∷ []);
  orders_error = λ n. none;
  venues = record { name = codes "uniswap"; quote = λ request n. ok quoted } ∷ [];
  resolver = tokens;
  max_quote_deviation_bps = 100;
}

abbrev quiet_world : World ℕ ℕ
quiet_world = record { orders = no_orders; runtime = status_now; calls = 0; woken = false }

desk-ListsLevels : ListsLevels whole desk
desk-ListsLevels n levels e = subst (λ l. Listed l) (ok-injective e) (tt, tt)

abbrev ticks : List (PriceTick ℕ × ℤ)
ticks = (tick_at 2990 (pos 1000), pos 1001) ∷ (tick_at 2980 (pos 1003), pos 1004) ∷ []

run-OnePerLevel_example : OnePerLevel (run whole desk ticks quiet_world).orders
run-OnePerLevel_example =
    run-OnePerLevel whole desk ticks quiet_world desk-ListsLevels (λ id. omega arith)
