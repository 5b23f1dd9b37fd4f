-- ===== src/Storage/Strategy.antt =====
-- The tables of strategies, levels and orders (crates/storage/src/strategy.rs and
-- crates/storage/schema.sql). A statement either succeeds or leaves the tables as they were; `fault` is
-- the error of the database, if it has one. The columns `created_at` of strategies and levels, which
-- no statement reads, are left out; texts are compared by their bytes and `lower` is that of ASCII.
pub mod Statements
use nofomo.Prelude.{
  ℕ, Bool, true, false, not, ◌&&◌, ◌||◌, ◌^◌, ◌++◌, ◌≡◌, List, [], ◌∷◌, Text, codes, msg, text_eq,
  to_ascii_lowercase, Option, none, some, Result, ok, err, ◌>>=◌, ◌>>◌, context, bail_if, some_or,
  any, filter, ltb, ◌<◌, if◌then◌else◌,
}
use nofomo.Prelude.Int.{ℤ, pos, negsuc, ltb_ℤ}
use nofomo.Prelude.Decimal.{to_decimal}
use nofomo.Domain.Model.{VenueName, venue_name, venue_of_name, ExecutionPlan}
use nofomo.Strategy.Level.{Side, side_name, side_of_name, Strategy, Level, StrategyLevel}
use nofomo.Strategy.Order.{
  OrderStatus, pending, submitted, filled, failed, quarantined, OrderState, Order, status,
  order_tx_hash,
}
use nofomo.Storage.Rows.{execute, collect, text_le, sort_rows, find_row, put_row}

pub record StrategyRow : Type 0 where
  pub id : Text
  pub venue : Text
  pub chain : Text
  pub base_token : Text
  pub quote_token : Text

pub record LevelRow (F : Type 0) : Type 0 where
  pub id : Text
  pub strategy_id : Text
  pub side : Text
  pub trigger_price_usd : F
  pub amount : Text
  pub amount_decimals : ℤ
  pub slippage_bps : ℤ

pub record OrderRow : Type 0 where
  pub id : Text
  pub level_id : Text
  pub venue : Text
  pub chain : Text
  pub token_in : Text
  pub token_out : Text
  pub reserved_amount : Text
  pub plan : Text
  pub status : Text
  pub tx_hash : Option Text
  pub state : Text
  pub swap_attempts : ℤ
  pub swap_retry_after_ts : Option ℤ
  pub created_at : ℤ

pub record Tables (F : Type 0) : Type 0 where
  pub strategies : List StrategyRow
  pub levels : List (LevelRow F)
  pub orders : List OrderRow

-- The tables that the schema creates.
abbrev pub no_rows : {F : Type 0} → Tables F
no_rows = record { strategies = []; levels = []; orders = [] }

-- `OrderStatus::as_str`
abbrev pub status_name : OrderStatus → Text
status_name pending = codes "pending"
status_name submitted = codes "submitted"
status_name filled = codes "filled"
status_name failed = codes "failed"
status_name quarantined = codes "quarantined"

-- What `ruint` and `serde_json` do with the texts of a column, and whether a price can be stored: a
-- NaN is stored as NULL, which the column refuses.
pub record Codec (V F : Type 0) : Type 0 where
  pub parse_u256 : Text → Result ℕ
  pub plan_to_string : ExecutionPlan V → Result Text
  pub plan_from_str : Text → Result (ExecutionPlan V)
  pub state_to_string : OrderState → Result Text
  pub state_from_str : Text → Result OrderState
  pub is_stored : F → Bool

-- The documented round trips: a U256 reads back from its decimal text, and a state, which holds texts,
-- integers and options, from its JSON. Of a plan, whose quote is any JSON, none is assumed.
pub record IsFaithful {V F : Type 0} (codec : Codec V F) : Type 0 where
  pub u256 : (n : ℕ) → n < 2 ^ 256 → codec.parse_u256 (to_decimal n) ≡ ok n
  pub states :
      (p : OrderState) (s : Text) → codec.state_to_string p ≡ ok s → codec.state_from_str s ≡ ok p

-- `u8::try_from` and the like of an i64; the cause in the error is left out.
abbrev pub try_below : Text → ℕ → ℤ → Result ℕ
try_below e limit (pos n) = if ltb n limit then ok n else err e
try_below e limit (negsuc n) = err e

unfoldable pub strategy_from_row : StrategyRow → Result Strategy
strategy_from_row row = do
  venue ←
      context (msg "strategy " ++ row.id ++ msg " has an unusable venue") (venue_of_name row.venue)
  ok (record {
    id = row.id;
    venue = venue;
    chain = row.chain;
    base_token = row.base_token;
    quote_token = row.quote_token;
  })

-- The row that a strategy is written as.
unfoldable pub strategy_row : Strategy → StrategyRow
strategy_row strategy = record {
  id = strategy.id;
  venue = venue_name strategy.venue;
  chain = strategy.chain;
  base_token = strategy.base_token;
  quote_token = strategy.quote_token;
}

abbrev pub same_market : StrategyRow → StrategyRow → Bool
same_market old row =
    text_eq old.venue row.venue
    && text_eq old.chain row.chain
    && text_eq old.base_token row.base_token
    && text_eq old.quote_token row.quote_token

-- `CHECK (lower(base_token) <> lower(quote_token))`
abbrev pub one_token : StrategyRow → Bool
one_token row = text_eq (to_ascii_lowercase row.base_token) (to_ascii_lowercase row.quote_token)

-- `ORDER BY created_at, id`
unfoldable pub by_creation : OrderRow → OrderRow → Bool
by_creation a b =
    ltb_ℤ a.created_at b.created_at || not (ltb_ℤ b.created_at a.created_at) && text_le a.id b.id

module _ {V F : Type 0} (codec : Codec V F) where
  open codec use {
    parse_u256, plan_to_string, plan_from_str, state_to_string, state_from_str, is_stored,
  }

  unfoldable pub amount_of : Text → Text → Text → Result ℕ
  amount_of raw column row_id =
      context
        (msg "row " ++ row_id ++ msg " has a non-u256 " ++ column ++ msg " '" ++ raw ++ msg "'")
        (parse_u256 raw)

  -- `StrategyLevelRow::into_entry` of a joined row
  unfoldable pub into_entry : StrategyRow × LevelRow F → Result (StrategyLevel F)
  unfolding amount_of
  into_entry (s, l) = do
    venue ←
        context (msg "strategy " ++ s.id ++ msg " has an unusable venue") (venue_of_name s.venue)
    side ← context (msg "level " ++ l.id ++ msg " has an unusable side") (side_of_name l.side)
    amount ← amount_of l.amount (msg "amount") l.id
    decimals ←
        try_below (msg "level " ++ l.id ++ msg " has out-of-range amount_decimals") 256
          l.amount_decimals
    slippage ←
        try_below (msg "level " ++ l.id ++ msg " has out-of-range slippage_bps") 65536
          l.slippage_bps
    ok (record {
      strategy = record {
        id = s.id;
        venue = venue;
        chain = s.chain;
        base_token = s.base_token;
        quote_token = s.quote_token;
      };
      level = record {
        id = l.id;
        strategy_id = s.id;
        side = side;
        trigger_price_usd = l.trigger_price_usd;
        amount = amount;
        amount_decimals = decimals;
        slippage_bps = slippage;
      };
    })

  -- `OrderRow::into_order`
  unfoldable pub into_order : OrderRow → Result (Order V)
  unfolding amount_of
  into_order row = do
    venue ←
        context (msg "order " ++ row.id ++ msg " has an unusable venue") (venue_of_name row.venue)
    reserved ← amount_of row.reserved_amount (msg "reserved_amount") row.id
    plan ← context (msg "order " ++ row.id ++ msg " has an unusable plan") (plan_from_str row.plan)
    state ←
        context (msg "order " ++ row.id ++ msg " has an unusable state") (state_from_str row.state)
    attempts ←
        try_below (msg "order " ++ row.id ++ msg " has out-of-range swap_attempts") 4294967296
          row.swap_attempts
    ok (record {
      id = row.id;
      level_id = row.level_id;
      venue = venue;
      chain = row.chain;
      token_in = row.token_in;
      token_out = row.token_out;
      reserved_amount = reserved;
      plan = plan;
      state = state;
      swap_attempts = attempts;
      swap_retry_after_ts = row.swap_retry_after_ts;
      created_at = row.created_at;
    })
