-- ===== src/Mcp/Admin.antt =====
-- The handlers of the admin tools (crates/mcp/src/admin.rs), over the tables of the database. A tool
-- that fails gives the error that `to_mcp` is given; `fault` and the like are the errors of the
-- database, if it has any, at each of the calls. `version` is that of the package.
pub mod Stored
pub mod Counts
mod Market
use nofomo.Prelude.{
  ℕ, zero, suc, ◌+◌, Bool, ◌++◌, List, [], ◌∷◌, map, Text, codes, msg, text_eq, Option, none, some,
  Result, ok, err, ◌>>=◌, ◌>>◌, context, some_or, take, length, if◌then◌else◌,
}
use mathlib.Core.List.{foldl, reverse}
use nofomo.Prelude.Int.{ℤ}
use nofomo.Prelude.Decimal.{to_decimal}
use nofomo.Domain.Model.{venue_name}
use nofomo.Price.Gates.{PricePair}
use nofomo.Strategy.Level.{Strategy, Level, StrategyLevel, trade_direction, side_name}
use nofomo.Strategy.Order.{
  Order, OrderState, withdrawing_state, swap_ready_state, broadcasting_state, submitted_state,
  depositing_state, filled_state, failed_state, quarantined_state, status, order_tx_hash,
}
use nofomo.Storage.Rows.{text_le, collect}
use nofomo.Storage.Strategy.{Tables, Codec, status_name}
use nofomo.Storage.Strategy.Statements.{
  upsert_strategy, get_strategy, list_strategies, upsert_level, delete_level, list_levels,
  list_orders,
}
use nofomo.Storage.Strategy.Statements.Dashboard.{DashboardData, Faults, dashboard_data}
use nofomo.Trigger.Resolver.{TokenResolver, price_pair}
use nofomo.Trigger.Runtime.{
  RuntimeStatus, RuntimeSnapshot, RuntimeLevelState, FeedSnapshot, snapshot_at,
  snapshot_level_state,
}
use nofomo.Trigger.Authoring.{StrategyDraft, LevelDraft, validate_strategy, validate_level}

pub record StrategyView : Type 0 where
  pub id : Text
  pub venue : Text
  pub chain : Text
  pub base_token : Text
  pub quote_token : Text

pub record LevelView (F : Type 0) : Type 0 where
  pub id : Text
  pub strategy_id : Text
  pub venue : Text
  pub chain : Text
  pub side : Text
  pub token_in : Text
  pub token_out : Text
  pub trigger_price_usd : F
  pub amount : Text
  pub amount_decimals : ℕ  -- u8
  pub slippage_bps : ℕ  -- u16

pub record OrderView : Type 0 where
  pub id : Text
  pub level_id : Text
  pub status : Text
  pub phase : Text
  pub chain : Text
  pub token_in : Text
  pub token_out : Text
  pub tx_hash : Option Text
  pub swap_attempts : ℕ  -- u32
  pub created_at : ℤ

pub record DaemonStatus : Type 0 where
  pub version : Text
  pub allow_broadcast : Bool
  pub levels : ℕ  -- usize
  pub orders : List (Text × ℕ)

pub record DashboardLevelView (F : Type 0) : Type 0 where
  pub id : Text
  pub strategy_id : Text
  pub side : Text
  pub token_in : Text
  pub token_out : Text
  pub trigger_price_usd : F
  pub price_pair : PricePair
  pub amount : Text
  pub amount_decimals : ℕ
  pub slippage_bps : ℕ
  pub runtime_state : RuntimeLevelState

pub record DashboardSnapshot (F : Type 0) : Type 0 where
  pub version : Text
  pub started_at : ℤ
  pub generated_at : ℤ
  pub allow_broadcast : Bool
  pub strategies : List StrategyView
  pub levels : List (DashboardLevelView F)
  pub orders : List OrderView
  pub feeds : List (FeedSnapshot F)

unfoldable pub strategy_view : Strategy → StrategyView
strategy_view strategy = record {
  id = strategy.id;
  venue = venue_name strategy.venue;
  chain = strategy.chain;
  base_token = strategy.base_token;
  quote_token = strategy.quote_token;
}

abbrev state_phase : OrderState → Text
state_phase (withdrawing_state amount_in action_id) = codes "withdrawing"
state_phase (swap_ready_state step amount_in withdraw) = codes "swap_ready"
state_phase (broadcasting_state step amount_in signed_tx tx_hash withdraw) = codes "broadcasting"
state_phase (submitted_state step amount_in tx_hash withdraw submitted_at) = codes "submitted"
state_phase (depositing_state tx_hash amount action_id) = codes "depositing"
state_phase (filled_state tx_hash) = codes "filled"
state_phase (failed_state tx_hash reason) = codes "failed"
state_phase (quarantined_state amount_in tx_hash reason) = codes "quarantined"

unfoldable pub order_view : {V : Type 0} → Order V → OrderView
order_view order = record {
  id = order.id;
  level_id = order.level_id;
  status = status_name (status order);
  phase = state_phase order.state;
  chain = order.chain;
  token_in = order.token_in;
  token_out = order.token_out;
  tx_hash = order_tx_hash order;
  swap_attempts = order.swap_attempts;
  created_at = order.created_at;
}

unfoldable pub level_view : {F : Type 0} → StrategyLevel F → LevelView F
level_view entry =
    let direction = trade_direction entry.strategy entry.level.side in
    record {
      id = entry.level.id;
      strategy_id = entry.strategy.id;
      venue = venue_name entry.strategy.venue;
      chain = entry.strategy.chain;
      side = side_name entry.level.side;
      token_in = direction.token_in;
      token_out = direction.token_out;
      trigger_price_usd = entry.level.trigger_price_usd;
      amount = to_decimal entry.level.amount;
      amount_decimals = entry.level.amount_decimals;
      slippage_bps = entry.level.slippage_bps;
    }

unfoldable pub dashboard_level_view :
    {F : Type 0}
    → StrategyLevel F
    → RuntimeLevelState
    → TokenResolver
    → Result (DashboardLevelView F)
dashboard_level_view entry runtime_state resolver = do
  let direction = trade_direction entry.strategy entry.level.side
  pair ←
      some_or (msg "strategy " ++ entry.strategy.id ++ msg " has no configured price pair")
        (price_pair resolver entry.strategy)
  ok (record {
    id = entry.level.id;
    strategy_id = entry.strategy.id;
    side = side_name entry.level.side;
    token_in = direction.token_in;
    token_out = direction.token_out;
    trigger_price_usd = entry.level.trigger_price_usd;
    price_pair = pair;
    amount = to_decimal entry.level.amount;
    amount_decimals = entry.level.amount_decimals;
    slippage_bps = entry.level.slippage_bps;
    runtime_state = runtime_state;
  })

-- DEFAULT_ORDER_LIMIT
abbrev default_order_limit : ℕ
default_order_limit = 50

abbrev or_default : Option ℕ → ℕ
or_default none = default_order_limit
or_default (some limit) = limit

-- `*counts.entry(name).or_default() += 1` on a BTreeMap, which lists its keys in order.
unfoldable pub count_one : Text → List (Text × ℕ) → List (Text × ℕ)
count_one name [] = (name, 1) ∷ []
count_one name ((key, n) ∷ counts) =
    let rest = count_one name counts in
    if text_eq key name
    then (key, n + 1) ∷ counts
    else if text_le key name
    then (key, n) ∷ rest
    else (name, 1) ∷ (key, n) ∷ counts

-- The loop over the orders.
unfoldable pub count_orders : {V : Type 0} → List (Order V) → List (Text × ℕ) → List (Text × ℕ)
unfolding count_one
count_orders [] counts = counts
count_orders (order ∷ orders) counts =
    count_orders orders (count_one (status_name (status order)) counts)

module _ {V F : Type 0} (codec : Codec V F) where
  unfoldable pub dashboard_snapshot :
      Text → TokenResolver → Faults → RuntimeStatus F → ℤ → Tables F → Result (DashboardSnapshot F)
  dashboard_snapshot version resolver faults runtime_status now t = do
    durable ← dashboard_data codec faults t
    let runtime = snapshot_at runtime_status now
    levels ←
        collect
          (λ (entry : StrategyLevel F).
            dashboard_level_view entry (snapshot_level_state runtime entry.level.id durable.orders)
              resolver)
          durable.levels
    ok (record {
      version = version;
      started_at = runtime.started_at;
      generated_at = runtime.generated_at;
      allow_broadcast = runtime.allow_broadcast;
      strategies = map strategy_view durable.strategies;
      levels = levels;
      orders = map order_view (take default_order_limit (reverse durable.orders));
      feeds = runtime.feeds;
    })

  unfoldable pub strategies : Option Text → Tables F → Result (List StrategyView)
  strategies fault t = do found ← list_strategies fault t; ok (map strategy_view found)

  unfoldable pub status_tool :
      Text → Option Text → Option Text → RuntimeStatus F → ℤ → Tables F → Result DaemonStatus
  status_tool version fault fault' runtime_status now t = do
    levels ← list_levels codec fault t
    orders ← list_orders codec fault' t
    ok (record {
      version = version;
      allow_broadcast = (snapshot_at runtime_status now).allow_broadcast;
      levels = length levels;
      orders = count_orders orders [];
    })

  unfoldable pub levels : Option Text → Tables F → Result (List (LevelView F))
  levels fault t = do found ← list_levels codec fault t; ok (map level_view found)

  unfoldable pub orders : Option Text → Option ℕ → Tables F → Result (List OrderView)
  orders fault limit t = do
    found ← list_orders codec fault t
    ok (map order_view (take (or_default limit) (reverse found)))

  -- The id of the answer, whose field `deleted` is always true.
  unfoldable pub delete_level_tool : Option Text → Text → Tables F → Result (Text × Tables F)
  delete_level_tool fault id t = do left ← delete_level fault id t; ok (id, left)

  module _ (tokens : TokenResolver) (supports : PricePair → Bool) where
    unfoldable pub set_strategy :
        Option Text → StrategyDraft → Tables F → Result (StrategyView × Tables F)
    set_strategy fault draft t = do
      strategy ← validate_strategy tokens supports draft
      left ← upsert_strategy fault strategy t
      ok (strategy_view strategy, left)

    -- Between the reading of the strategy and the writing of the level other callers may write:
    -- `t'` are the tables then.
    unfoldable pub set_level :
        (Text → Result ℕ)
        → ℕ
        → Option Text
        → Option Text
        → LevelDraft F
        → Tables F
        → Tables F
        → Result (LevelView F × Tables F)
    set_level u256_from_decimal max_slippage_bps fault fault' draft t t' = do
      found ← get_strategy fault draft.strategy_id t
      strategy ← some_or (msg "strategy does not exist") found
      level ← validate_level tokens supports u256_from_decimal max_slippage_bps strategy draft
      left ← upsert_level codec fault' level strategy t'
      ok (level_view (record { strategy = strategy; level = level }), left)
