-- ===== src/Mcp/Admin/Market.antt =====
-- The market chart of a strategy (crates/mcp/src/admin.rs, `dashboard_market`). What the graph
-- answers, and how a price is printed, are parameters; `fault` and the like are the errors of the
-- database.
use nofomo.Prelude.{
  Bool, true, false, not, ◌&&◌, ◌++◌, List, map, Text, codes, msg, text_eq, Option, none, some,
  Result, ok, err, filter, find?,
}
use nofomo.Prelude.Int.{ℤ}
use nofomo.Config.{EvmChain, EvmConfig}
use nofomo.Domain.Model.{venue_name}
use nofomo.Domain.Units.{trim, is_empty}
use nofomo.Strategy.Level.{Strategy, StrategyLevel}
use nofomo.Strategy.Order.{Order}
use nofomo.Storage.Strategy.{Tables, Codec}
use nofomo.Storage.Strategy.Statements.{get_strategy, list_levels, list_orders}
use nofomo.Trigger.Runtime.{
  RuntimeStatus, RuntimeSnapshot, RuntimeLevelState, filled_level, snapshot_at,
  snapshot_level_state,
}

-- `P`, `C` and `L` are the types of the pool, of a candle and of a point of liquidity.
record MarketChart (P C L : Type 0) : Type 0 where
  indexed_at : Option ℤ
  pool : P
  prices : List C
  liquidity : List L

record DashboardMarketView (P C L : Type 0) : Type 0 where
  strategy_id : Text
  chain : Text
  base_token : Text
  quote_token : Text
  generated_at : ℤ
  indexed_at : Option ℤ
  pool : P
  prices : List C
  liquidity : List L

data DashboardMarketError : Type 0 where
  not_found : DashboardMarketError
  unsupported : Text → DashboardMarketError
  no_pool : DashboardMarketError
  unavailable : Text → DashboardMarketError

-- `Result<_, DashboardMarketError>`
data Answer (A : Type 0) : Type 0 where
  given : A → Answer A
  refused : DashboardMarketError → Answer A

abbrev message : DashboardMarketError → Text
message not_found = msg "strategy does not exist"
message (unsupported text) = text
message no_pool = msg "The Graph has no Uniswap v3 pool for this pair"
message (unavailable error) = error

-- `?` on the results of this function.
abbrev and_then : {A B : Type 0} → Answer A → (A → Answer B) → Answer B
and_then (given a) f = f a
and_then (refused e) f = refused e

-- `map_err(Unavailable)` and `ok_or(e)`
abbrev available : {A : Type 0} → Result A → Answer A
available (ok a) = given a
available (err e) = refused (unavailable e)

abbrev given_or : {A : Type 0} → DashboardMarketError → Option A → Answer A
given_or e none = refused e
given_or e (some a) = given a

abbrev refuse_if : {A : Type 0} → Bool → DashboardMarketError → Answer A → Answer A
refuse_if true e answer = refused e
refuse_if false e answer = answer

abbrev is_filled : RuntimeLevelState → Bool
is_filled filled_level = true
is_filled _ = false

module _ {V F P C L : Type 0} (codec : Codec V F) (price_to_string : F → Text)
    (market_chart : EvmChain → Text → Text → List Text → Result (Option (MarketChart P C L))) where
  -- The prices of the strategy's levels that are not filled.
  level_prices : Strategy → RuntimeSnapshot F → List (Order V) → List (StrategyLevel F) → List Text
  level_prices strategy runtime orders entries =
      map (λ (entry : StrategyLevel F). price_to_string entry.level.trigger_price_usd)
        (filter
          (λ (entry : StrategyLevel F).
            text_eq entry.strategy.id strategy.id
            && not (is_filled (snapshot_level_state runtime entry.level.id orders)))
          entries)

  chart_of :
      Option Text
      → Option Text
      → RuntimeSnapshot F
      → Tables F
      → Strategy
      → EvmChain
      → Answer (DashboardMarketView P C L)
  unfolding level_prices
  chart_of fault fault' runtime t strategy chain =
      and_then (available (list_orders codec fault t)) (λ orders.
        and_then (available (list_levels codec fault' t)) (λ entries.
          and_then
            (available (
              market_chart chain strategy.base_token strategy.quote_token
                (level_prices strategy runtime orders entries)))
            (λ found. and_then (given_or no_pool found) (λ chart. given (record {
              strategy_id = strategy.id;
              chain = strategy.chain;
              base_token = strategy.base_token;
              quote_token = strategy.quote_token;
              generated_at = runtime.generated_at;
              indexed_at = chart.indexed_at;
              pool = chart.pool;
              prices = chart.prices;
              liquidity = chart.liquidity;
            })))))

  -- `market` is the configuration of the graph, if the daemon has it.
  unfoldable dashboard_market :
      Option Text
      → Option Text
      → Option Text
      → Option EvmConfig
      → RuntimeStatus F
      → ℤ
      → Text
      → Tables F
      → Answer (DashboardMarketView P C L)
  unfolding chart_of
  dashboard_market fault fault' fault'' market runtime_status now strategy_id t =
      and_then (available (get_strategy fault strategy_id t)) (λ found.
        and_then (given_or not_found found) (λ strategy.
          refuse_if (not (text_eq (venue_name strategy.venue) (codes "uniswap")))
            (unsupported
              (msg "The Graph market chart is available only for Uniswap/EVM strategies"))
            (and_then
              (given_or (unsupported (msg "The Graph market chart is not configured")) market)
              (λ evm.
                and_then
                  (given_or (unsupported (strategy.chain ++ msg " is not a configured EVM chain"))
                    (find? (λ (chain : EvmChain). text_eq chain.name strategy.chain) evm.chains))
                  (λ chain.
                    refuse_if (is_empty (trim chain.graph_subgraph_id))
                      (unsupported (chain.name ++ msg " has no configured Uniswap subgraph"))
                      (chart_of fault' fault'' (snapshot_at runtime_status now) t strategy
                        chain))))))
