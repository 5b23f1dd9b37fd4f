-- ===== src/Storage/Strategy/Statements.antt =====
-- The statements on strategies, levels and orders (crates/storage/src/strategy.rs).
pub mod Inversion
pub mod Integrity
pub mod Fixed
pub mod Reads
pub mod Listing
pub mod Dashboard
use nofomo.Prelude.{
  ℕ, Bool, true, false, not, ◌&&◌, ◌||◌, ◌++◌, ◌≡◌, List, [], ◌∷◌, Text, codes, msg, text_eq,
  Option, none, some, Result, ok, err, ◌>>=◌, ◌>>◌, context, bail_if, any, filter, if◌then◌else◌,
  is_none,
}
use nofomo.Prelude.Int.{pos}
use nofomo.Prelude.Decimal.{to_decimal}
use nofomo.Domain.Model.{venue_name}
use nofomo.Strategy.Level.{side_name, Strategy, Level, StrategyLevel}
use nofomo.Strategy.Order.{Order, status, order_tx_hash}
use nofomo.Storage.Rows.{execute, collect, text_le, sort_rows, find_row, put_row}
use nofomo.Storage.Strategy.{
  StrategyRow, LevelRow, OrderRow, Tables, Codec, status_name, strategy_from_row, strategy_row,
  same_market, one_token, by_creation, into_entry, into_order,
}

abbrev pub strategy_key : StrategyRow → Text
strategy_key row = row.id

abbrev pub level_key : {F : Type 0} → LevelRow F → Text
level_key row = row.id

abbrev pub order_key : OrderRow → Text
order_key row = row.id

abbrev pub has_levels : {F : Type 0} → Tables F → Text → Bool
has_levels t id = any (λ row. text_eq row.strategy_id id) t.levels

abbrev pub has_orders : {F : Type 0} → Tables F → Text → Bool
has_orders t id = any (λ row. text_eq row.level_id id) t.orders

-- What a statement did: whether it changed a row, and the tables after it.
abbrev pub Changed : Type 0 → Type 0
Changed F = Bool × Tables F

read_strategy : Option StrategyRow → Result (Option Strategy)
read_strategy none = ok none
read_strategy (some row) = do strategy ← strategy_from_row row; ok (some strategy)

module _ {F : Type 0} where
  write_strategy : Tables F → StrategyRow → Changed F
  write_strategy t row = (true, record t { strategies = put_row strategy_key row t.strategies })

  -- `ON CONFLICT(id) DO UPDATE … WHERE …`
  on_conflict : Tables F → StrategyRow → Option StrategyRow → Changed F
  unfolding write_strategy
  on_conflict t row none = write_strategy t row
  on_conflict t row (some old) =
      if same_market old row || not (has_levels t row.id) then write_strategy t row else (false, t)

  upsert_strategy_row : Tables F → StrategyRow → Result (Changed F)
  unfolding on_conflict
  upsert_strategy_row t row = do
    bail_if (one_token row) (msg "CHECK constraint failed")
    ok (on_conflict t row (find_row strategy_key row.id t.strategies))

  unfoldable pub upsert_strategy : Option Text → Strategy → Tables F → Result (Tables F)
  unfolding upsert_strategy_row
  upsert_strategy fault strategy t = do
    changed ←
        context (msg "cannot upsert strategy")
          (execute fault (upsert_strategy_row t (strategy_row strategy)))
    bail_if (not changed.0)
        (msg "strategy " ++ strategy.id ++ msg " cannot change while it has levels")
    ok changed.1

  unfoldable pub get_strategy : Option Text → Text → Tables F → Result (Option Strategy)
  unfolding read_strategy
  get_strategy fault id t = do
    row ←
        context (msg "cannot read strategy")
          (execute fault (ok (find_row strategy_key id t.strategies)))
    read_strategy row

  unfoldable pub list_strategies : Option Text → Tables F → Result (List Strategy)
  list_strategies fault t = do
    rows ←
        context (msg "cannot list strategies")
          (execute fault (ok (sort_rows (λ a b. text_le a.id b.id) t.strategies)))
    collect strategy_from_row rows

  delete_level_row : Tables F → Text → Result (Tables F)
  delete_level_row t id =
      if has_orders t id && not (is_none (find_row level_key id t.levels))
      then err (msg "FOREIGN KEY constraint failed")
      else ok (record t { levels = filter (λ row. not (text_eq row.id id)) t.levels })

  unfoldable pub delete_level : Option Text → Text → Tables F → Result (Tables F)
  unfolding delete_level_row
  delete_level fault id t =
      context (msg "cannot delete level " ++ id ++ msg "; it may still have orders")
        (execute fault (delete_level_row t id))

module _ {V F : Type 0} (codec : Codec V F) where
  -- The row that a level is written as.
  abbrev level_row : Level F → Strategy → LevelRow F
  level_row level expected = record {
    id = level.id;
    strategy_id = expected.id;
    side = side_name level.side;
    trigger_price_usd = level.trigger_price_usd;
    amount = to_decimal level.amount;
    amount_decimals = pos level.amount_decimals;
    slippage_bps = pos level.slippage_bps;
  }

  -- `FROM strategies WHERE id = ? AND venue = ? AND …`
  abbrev pub is_expected : Strategy → StrategyRow → Bool
  is_expected expected row = text_eq row.id expected.id && same_market row (strategy_row expected)

  upsert_level_row : Tables F → Level F → Strategy → Result (Changed F)
  unfolding strategy_row
  upsert_level_row t level expected =
      if any (is_expected expected) t.strategies
      then (do
        bail_if (not (codec.is_stored level.trigger_price_usd)) (msg "NOT NULL constraint failed")
        ok (true, record t { levels = put_row level_key (level_row level expected) t.levels }))
      else ok (false, t)

  unfoldable pub upsert_level : Option Text → Level F → Strategy → Tables F → Result (Tables F)
  unfolding upsert_level_row
  upsert_level fault level expected t = do
    bail_if (not (text_eq level.strategy_id expected.id))
        (msg "level strategy_id does not match its expected strategy")
    changed ←
        context (msg "cannot upsert level") (execute fault (upsert_level_row t level expected))
    bail_if (not changed.0)
        (msg "strategy " ++ expected.id ++ msg " changed while level was validated")
    ok changed.1

  -- `levels l JOIN strategies s ON s.id = l.strategy_id`
  join_row :
      List StrategyRow
      → LevelRow F
      → List (StrategyRow × LevelRow F)
      → List (StrategyRow × LevelRow F)
  join_row strategies level rest = elim (find_row strategy_key level.strategy_id strategies) [
    | none ↦ rest
    | some strategy ↦ (strategy, level) ∷ rest
  ]

  join_rows : List StrategyRow → List (LevelRow F) → List (StrategyRow × LevelRow F)
  unfolding join_row
  join_rows strategies [] = []
  join_rows strategies (level ∷ levels) = join_row strategies level (join_rows strategies levels)

  first_entry : List (StrategyRow × LevelRow F) → Result (Option (StrategyLevel F))
  unfolding into_entry
  first_entry [] = ok none
  first_entry (row ∷ rows) = do entry ← into_entry codec row; ok (some entry)

  abbrev as_list : {A : Type 0} → Option A → List A
  as_list none = []
  as_list (some a) = a ∷ []

  unfoldable pub get_level : Option Text → Text → Tables F → Result (Option (StrategyLevel F))
  unfolding join_rows first_entry
  get_level fault id t = do
    rows ←
        context (msg "cannot read level")
          (execute fault (ok (join_rows t.strategies (as_list (find_row level_key id t.levels)))))
    first_entry rows

  abbrev sorted_levels : Tables F → List (LevelRow F)
  sorted_levels t = sort_rows (λ a b. text_le a.id b.id) t.levels

  unfoldable pub list_levels : Option Text → Tables F → Result (List (StrategyLevel F))
  unfolding join_rows into_entry
  list_levels fault t = do
    rows ←
        context (msg "cannot list levels")
          (execute fault (ok (join_rows t.strategies (sorted_levels t))))
    collect (into_entry codec) rows

  -- The row that an order is written as.
  abbrev order_row : Order V → Text → Text → OrderRow
  order_row order plan state = record {
    id = order.id;
    level_id = order.level_id;
    venue = venue_name order.venue;
    chain = order.chain;
    token_in = order.token_in;
    token_out = order.token_out;
    reserved_amount = to_decimal order.reserved_amount;
    plan = plan;
    status = status_name (status order);
    tx_hash = order_tx_hash order;
    state = state;
    swap_attempts = pos order.swap_attempts;
    swap_retry_after_ts = order.swap_retry_after_ts;
    created_at = order.created_at;
  }

  -- An update keeps the time of creation.
  abbrev pub keep_creation : Option OrderRow → OrderRow → OrderRow
  keep_creation none row = row
  keep_creation (some old) row = record row { created_at = old.created_at }

  upsert_order_row : Tables F → OrderRow → Result (Tables F)
  upsert_order_row t row = do
    bail_if (is_none (find_row level_key row.level_id t.levels))
        (msg "FOREIGN KEY constraint failed")
    ok (record t {
      orders = put_row order_key (keep_creation (find_row order_key row.id t.orders) row) t.orders;
    })

  unfoldable pub upsert_order : Option Text → Order V → Tables F → Result (Tables F)
  unfolding upsert_order_row
  upsert_order fault order t = do
    plan ← context (msg "cannot serialize order plan") (codec.plan_to_string order.plan)
    state ← context (msg "cannot serialize order state") (codec.state_to_string order.state)
    context (msg "cannot upsert order")
        (execute fault (upsert_order_row t (order_row order plan state)))

  read_order : Option OrderRow → Result (Option (Order V))
  read_order none = ok none
  read_order (some row) = do order ← into_order codec row; ok (some order)

  unfoldable pub get_order : Option Text → Text → Tables F → Result (Option (Order V))
  unfolding read_order
  get_order fault id t = do
    row ← context (msg "cannot read order") (execute fault (ok (find_row order_key id t.orders)))
    read_order row

  unfoldable pub list_orders : Option Text → Tables F → Result (List (Order V))
  unfolding into_order by_creation
  list_orders fault t = do
    rows ← context (msg "cannot list orders") (execute fault (ok (sort_rows by_creation t.orders)))
    collect (into_order codec) rows

-- The statements that write, each with the error of the database if it has one.
pub data Statement (V F : Type 0) : Type 0 where
  put_strategy : Option Text → Strategy → Statement V F
  put_level : Option Text → Level F → Strategy → Statement V F
  remove_level : Option Text → Text → Statement V F
  put_order : Option Text → Order V → Statement V F

module _ {V F : Type 0} (codec : Codec V F) where
  unfoldable pub perform : Statement V F → Tables F → Result (Tables F)
  perform (put_strategy fault strategy) t = upsert_strategy fault strategy t
  perform (put_level fault level expected) t = upsert_level codec fault level expected t
  perform (remove_level fault id) t = delete_level fault id t
  perform (put_order fault order) t = upsert_order codec fault order t

  -- A statement that fails leaves the tables as they were.
  abbrev pub after : Tables F → Result (Tables F) → Tables F
  after t (ok u) = u
  after t (err e) = t

  unfoldable pub run_all : List (Statement V F) → Tables F → Tables F
  run_all [] t = t
  run_all (statement ∷ statements) t = run_all statements (after t (perform statement t))
