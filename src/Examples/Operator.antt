-- ===== src/Examples/Operator.antt =====
-- The tools of an operator on concrete rows (crates/mcp/src/admin.rs).
use nofomo.Prelude.{
  strip_prefix, ℕ, ◌^◌, ◌<◌, ◌≡◌, refl, true, false, List, [], ◌∷◌, Text, codes, text_eq,
  to_ascii_lowercase, eq_ignore_ascii_case, none, some, Result, ok, err, ltb, length, ok-injective,
  err-ne-ok, filter, if◌then◌else◌, arith, Bool-cases, inl, inr,
}
use mathlib.Core.Path.{subst}
use mathlib.Core.Option
use nofomo.Prelude.Int.{pos}
use nofomo.Domain.Chain.{family}
use nofomo.Domain.CoinType.{normalize_coin_type}
use nofomo.Domain.Model.{venue_family, venue_name, venue_of_name}
use nofomo.Prelude.Decimal.{to_decimal}
use nofomo.Domain.Units.{parse_units_string, trim}
use nofomo.Domain.Units.Digits.{read_decimal}
use nofomo.Strategy.Level.{StrategyLevel, side_of_name, side_name, trade_direction}
use nofomo.Strategy.Order.{Order, OrderStatus, status, status_eq}
use nofomo.Storage.Rows.{find_row, put_row, sort_rows, collect}
use nofomo.Storage.Strategy.{
  Tables, no_rows, status_name, strategy_row, strategy_from_row, into_entry,
}
use nofomo.Storage.Strategy.Statements.{
  put_strategy, run_all, perform, upsert_strategy, get_strategy, upsert_level, get_level,
  list_levels, list_orders,
}
use nofomo.Storage.Strategy.Statements.Integrity.{WellFormed, run_all-WellFormed}
use nofomo.Config.{Config, mainnet}
use nofomo.Config.Validate.{Outside, validate}
use nofomo.Trigger.Resolver.Decimals.{IsSupported, from_config-IsSupported}
use nofomo.Trigger.Resolver.{from_config, find_token, price_pair, lookup_key}
use nofomo.Trigger.Runtime.{RuntimeStatus, new_at, snapshot_at}
use nofomo.Trigger.Authoring.{token, validate_strategy_model, validate_level, validate_stored_level}
use nofomo.Mcp.Admin.{LevelView, DaemonStatus, level_view, set_level, status_tool, count_orders}
use nofomo.Mcp.Admin.Stored.{set_level-Accepted}
use nofomo.Mcp.Admin.Counts.{count_of, status_tool-Counted}
use nofomo.Examples.Tables.{toy, toy-IsFaithful, no_rows-WellFormed}
use nofomo.Examples.Triggers.{tokens, strategy, draft}

abbrev with_strategy : Tables ℕ
with_strategy = run_all toy (put_strategy none strategy ∷ []) no_rows

with_strategy-WellFormed : WellFormed with_strategy
with_strategy-WellFormed =
    run_all-WellFormed toy (put_strategy none strategy ∷ []) no_rows no_rows-WellFormed

abbrev u256 : Text → Result ℕ
u256 s = if ltb (read_decimal s) (2 ^ 256) then ok (read_decimal s) else err []

u256-small : (s : Text) (n : ℕ) → u256 s ≡ ok n → n < 2 ^ 256
u256-small s n h = elim (Bool-cases (ltb (read_decimal s) (2 ^ 256))) [
  | inl fits ↦
      let e : read_decimal s ≡ n = ok-injective (rw fits at h) in
      let small : read_decimal s < 2 ^ 256 = ground arith in subst (λ (m : ℕ). m < 2 ^ 256) e small
  | inr large ↦ absurd (err-ne-ok (rw large at h))
]

abbrev shown : LevelView ℕ
shown = record {
  id = codes "buy";
  strategy_id = codes "s";
  venue = codes "uniswap";
  chain = codes "ethereum";
  side = codes "buy";
  token_in = codes "usdc";
  token_out = codes "weth";
  trigger_price_usd = 3000;
  amount = codes "1000000";
  amount_decimals = 6;
  slippage_bps = 50;
}

abbrev with_rule : Tables ℕ
with_rule = record with_strategy {
  levels =
      record {
        id = codes "buy";
        strategy_id = codes "s";
        side = codes "buy";
        trigger_price_usd = 3000;
        amount = codes "1000000";
        amount_decimals = pos 6;
        slippage_bps = pos 50;
      }
      ∷ [];
}

rule_stored :
    set_level toy tokens (λ pair. true) u256 100 none none draft with_strategy with_strategy
    ≡ ok (shown, with_rule)
unfolding set_level get_strategy find_row run_all perform upsert_strategy text_eq to_ascii_lowercase
    strategy_row put_row strategy_from_row venue_of_name venue_name validate_level
    validate_strategy_model token find_token Option.bind family normalize_coin_type venue_family
    parse_units_string level_view eq_ignore_ascii_case upsert_level side_name side_of_name
    trade_direction lookup_key price_pair to_decimal
rule_stored = refl

set_level-Accepted_example :
    (entry : StrategyLevel ℕ) × (get_level toy none (codes "buy") with_rule ≡ ok (some entry))
    × (validate_stored_level tokens (λ pair. true) 100 entry ≡ ok tt)
    × (shown ≡ level_view entry)
set_level-Accepted_example =
    set_level-Accepted tokens (λ pair. true) u256 100 toy toy-IsFaithful none none draft
      with_strategy with_strategy with_strategy-WellFormed u256-small
      ((omega arith, (omega arith, tt)), tt) (omega arith) rule_stored

abbrev report : DaemonStatus
report = record { version = codes "0.1"; allow_broadcast = false; levels = 1; orders = [] }

abbrev quiet_daemon : RuntimeStatus ℕ
quiet_daemon = new_at (pos 100) false (pos 120)

reported : status_tool toy (codes "0.1") none none quiet_daemon (pos 200) with_rule ≡ ok report
unfolding status_tool list_levels list_orders run_all perform upsert_strategy find_row put_row
    text_eq to_ascii_lowercase venue_name count_orders snapshot_at new_at sort_rows strategy_row
    collect into_entry venue_of_name side_of_name
reported = refl

status_tool-Counted_example :
    (found : List (Order (Unit {0}))) × (list_orders toy none with_rule ≡ ok found)
    × ((s : OrderStatus)
        → count_of (status_name s) [] ≡ length (filter (λ o. status_eq (status o) s) found))
status_tool-Counted_example =
    status_tool-Counted toy (codes "0.1") none none quiet_daemon (pos 200) with_rule reported

-- Every URL is on HTTPS and every key is a private file.
abbrev outside : Outside
outside = record {
  parse_url = λ url. ok (codes "https", true);
  read_to_string = λ path. ok (codes "key");
  mode = λ path. ok 384;
}

abbrev address : Text
address = codes "0x0123456789abcdefABCDEF012345678901234567"

abbrev config : Config
config = record {
  state_db_path = codes "/var/db";
  quote_ttl_seconds = 60;
  max_slippage_bps = 100;
  max_quote_deviation_bps = 500;
  dexpaprika_stream_url = codes "https://d";
  uniswap = record { api_url = codes "https://u"; api_key_env = codes "KEY_1" };
  graph = record {
    gateway_url = codes "https://g";
    api_key_env = codes "KEY_2";
    min_pool_tvl_usd = codes "100.5";
  };
  keys = record { evm = codes "/k/evm"; sui = some (codes "/k/sui") };
  evm = record {
    chains =
        record {
          name = codes "base";
          chain_id = 8453;
          rpc_url = codes "https://r";
          graph_subgraph_id = codes "";
          tokens =
              (codes "WETH", record { address = address; decimals = 18; usd_peg = false })
              ∷ (codes "USDC", record { address = address; decimals = 6; usd_peg = true })
              ∷ [];
        }
        ∷ [];
  };
  sui = record {
    enabled = true;
    network = mainnet;
    rpc_url = codes "https://s";
    gas_budget = 1;
    coins =
        (
          codes "SUI",
          record {
            coin_type = codes "0x2::sui::SUI";
            decimals = 9;
            price_ref = some (record { chain_id = 8453; address = address });
            usd_peg = false;
          },
        )
        ∷ (
          codes "USDC",
          record {
            coin_type = codes "0xa::usdc::USDC";
            decimals = 6;
            price_ref = none;
            usd_peg = true;
          },
        )
        ∷ [];
  };
}

config_valid : validate outside config ≡ ok tt
unfolding validate strip_prefix text_eq trim normalize_coin_type
config_valid = refl

from_config-IsSupported_example : IsSupported (from_config config.evm config.sui)
from_config-IsSupported_example = from_config-IsSupported outside config config_valid
