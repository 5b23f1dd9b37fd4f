-- ===== src/Strategy/Level.antt =====
-- Strategies and levels (crates/strategy/src/level.rs). Prices are of the parameter `Float`; the
-- amount is a U256.
use nofomo.Prelude.{ℕ, Bool, ◌++◌, Text, codes, msg, text_eq, Result, ok, err, if◌then◌else◌}
use nofomo.Prelude.Float.{Float}
use nofomo.Domain.Model.{VenueName}

pub data Side : Type 0 where
  buy sell : Side

unfoldable pub side_name : Side → Text
side_name buy = codes "buy"
side_name sell = codes "sell"

unfoldable pub side_of_name : Text → Result Side
side_of_name value =
    if text_eq value (codes "buy")
    then ok buy
    else if text_eq value (codes "sell")
    then ok sell
    else err (msg "unknown side '" ++ value ++ msg "'")

pub record Strategy : Type 0 where
  pub id : Text
  pub venue : VenueName
  pub chain : Text
  pub base_token : Text
  pub quote_token : Text

pub record Level (F : Type 0) : Type 0 where
  pub id : Text
  pub strategy_id : Text
  pub side : Side
  pub trigger_price_usd : F
  pub amount : ℕ
  pub amount_decimals : ℕ  -- u8
  pub slippage_bps : ℕ  -- u16

pub record StrategyLevel (F : Type 0) : Type 0 where
  pub strategy : Strategy
  pub level : Level F

pub record TradeDirection : Type 0 where
  pub token_in : Text
  pub token_out : Text

-- The sole mapping of a side to its input and output tokens.
unfoldable pub trade_direction : Strategy → Side → TradeDirection
trade_direction strategy buy = record {
  token_in = strategy.quote_token;
  token_out = strategy.base_token;
}
trade_direction strategy sell = record {
  token_in = strategy.base_token;
  token_out = strategy.quote_token;
}

module _ (float : Float) where
  open float use {F64, le}

  fires_at : Side → F64 → F64 → Bool
  fires_at buy trigger price_usd = le price_usd trigger
  fires_at sell trigger price_usd = le trigger price_usd

  -- Whether a price crosses the level's threshold.
  unfoldable pub level_fires : Level F64 → F64 → Bool
  unfolding fires_at
  level_fires level price_usd = fires_at level.side level.trigger_price_usd price_usd
