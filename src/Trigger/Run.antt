-- ===== src/Trigger/Run.antt =====
-- From a tick to stored orders (crates/trigger/src/run.rs). What the loop changes is the record
-- `World`: the table of orders, the resting levels, the number of port calls made, by which a port
-- may answer each call differently, and whether the executor was woken. Logging is left out.
pub mod OneLive
use nofomo.Prelude.{
  ℕ, suc, Bool, true, false, List, [], ◌∷◌, ◌++◌, Text, codes, msg, text_eq, Option, none, some,
  find?, Result, ok, err, context, some_or, ◌>>=◌, ◌>>◌, if◌then◌else◌,
}
use nofomo.Prelude.Int.{ℤ, pos, add_i64}
use nofomo.Prelude.Decimal.{to_decimal, int_to_decimal}
use nofomo.Prelude.Float.{Float}
use nofomo.Domain.Model.{QuoteTradeRequest, QuoteDraft, venue_name}
use nofomo.Domain.Units.{format_units_string}
use nofomo.Price.Gates.{PriceTick}
use nofomo.Strategy.Level.{StrategyLevel, trade_direction}
use nofomo.Strategy.Order.{Order, new_order}
use nofomo.Trigger.Resolver.{TokenResolver}
use nofomo.Trigger.Fired.{fired_levels, cooling_down}
use nofomo.Trigger.Runtime.{RuntimeStatus, is_quiet, set_quiet_until, clear_quiet}
use nofomo.Trigger.QuoteGuard.{check_quote}

abbrev pub preflight_retry_secs : ℤ
preflight_retry_secs = pos 60

pub record QuoteVenue (V : Type 0) : Type 0 where
  pub name : Text
  pub quote : QuoteTradeRequest → ℕ → Result (QuoteDraft V)

pub record TriggerDeps (V F : Type 0) : Type 0 where
  pub list_levels : ℕ → Result (List (StrategyLevel F))
  -- The error of a read or a write of the order table, if it fails.
  pub orders_error : ℕ → Option Text
  pub venues : List (QuoteVenue V)
  pub resolver : TokenResolver
  pub max_quote_deviation_bps : ℕ  -- u16

pub record World (V F : Type 0) : Type 0 where
  pub orders : List (Order V)
  pub runtime : RuntimeStatus F
  pub calls : ℕ
  pub woken : Bool

-- The row of an id is replaced, or added.
pub upsert_row : {V : Type 0} → List (Order V) → Order V → List (Order V)
upsert_row [] order = order ∷ []
upsert_row (o ∷ os) order =
    let rest = upsert_row os order in if text_eq o.id order.id then order ∷ os else o ∷ rest

abbrev unless {ℓ} : {A : Type ℓ} → Option Text → A → Result A
unless none a = ok a
unless (some e) a = err e

module _ {V : Type 0} (float : Float) (deps : TriggerDeps V float.F64) where
  open float use {F64}

  venue : Text → Result (QuoteVenue V)
  venue name =
      some_or (msg "unsupported trade venue " ++ name)
        (find? (λ v. text_eq v.name name) deps.venues)

  pub quote_request : StrategyLevel F64 → Result QuoteTradeRequest
  quote_request entry = do
    amount ← format_units_string (to_decimal entry.level.amount) entry.level.amount_decimals
    let direction = trade_direction entry.strategy entry.level.side
    ok (record {
      venue = entry.strategy.venue;
      token_in = direction.token_in;
      token_out = direction.token_out;
      amount = amount;
      slippage_bps = entry.level.slippage_bps;
      chains = entry.strategy.chain ∷ [];
    })

  -- The order that a tick makes of a level; the id makes a replay of the tick idempotent.
  pub order_for : StrategyLevel F64 → PriceTick F64 → ℤ → ℕ → Result (Order V)
  unfolding venue quote_request
  order_for entry tick now calls = do
    v ← venue (venue_name entry.strategy.venue)
    request ← quote_request entry
    draft ← v.quote request calls
    check_quote float deps.resolver entry draft tick deps.max_quote_deviation_bps
    ok (
        new_order (entry.level.id ++ codes "-" ++ int_to_decimal tick.published_at) entry draft.plan
          now)

  store_order : Result (Order V) → World V F64 → Result (Unit {0}) × World V F64
  store_order (err e) w = (err e, record w { calls = suc w.calls })
  store_order (ok order) w = elim (deps.orders_error (suc w.calls)) [
    | some e ↦ (context (msg "record new order") (err e), record w { calls = suc (suc w.calls) })
    | none ↦ (ok tt, record w { orders = upsert_row w.orders order; calls = suc (suc w.calls) })
  ]

  pub place_order :
      StrategyLevel F64 → PriceTick F64 → ℤ → World V F64 → Result (Unit {0}) × World V F64
  unfolding store_order
  place_order entry tick now w = store_order (order_for entry tick now w.calls) w

  -- The `match place_order(…)`.
  after_place : Text → ℤ → Bool → Result (Unit {0}) → World V F64 → Bool × World V F64
  after_place level_id now created (ok u) w =
      (true, record w { runtime = clear_quiet w.runtime level_id })
  after_place level_id now created (err e) w = (
    created,
    record w { runtime = set_quiet_until w.runtime level_id (add_i64 now preflight_retry_secs) },
  )

  -- The body of the loop over the fired levels; `snapshot` is the listing read at its start.
  consider :
      List (Order V)
      → PriceTick F64
      → ℤ
      → StrategyLevel F64
      → Bool
      → World V F64
      → Bool × World V F64
  unfolding after_place
  consider snapshot tick now entry created w =
      if is_quiet w.runtime entry.level.id now
      then (created, w)
      else if cooling_down entry.level.id snapshot now
      then (created, w)
      else (let (r, w') = place_order entry tick now w in
          after_place entry.level.id now created r w')

  pub consider_all :
      List (Order V)
      → PriceTick F64
      → ℤ
      → List (StrategyLevel F64)
      → Bool
      → World V F64
      → Bool × World V F64
  unfolding consider
  consider_all snapshot tick now [] created w = (created, w)
  consider_all snapshot tick now (entry ∷ entries) created w =
      let (created', w') = consider snapshot tick now entry created w in
      consider_all snapshot tick now entries created' w'

  pub tick_levels : List (StrategyLevel F64) → PriceTick F64 → ℤ → World V F64 → World V F64
  unfolding consider_all
  tick_levels levels tick now w =
      let (created, w') =
        consider_all w.orders tick now (fired_levels float deps.resolver levels w.orders tick) false
          w in
      record w' { woken = if created then true else w'.woken }

  with_listings :
      Result (List (StrategyLevel F64))
      → Option Text
      → PriceTick F64
      → ℤ
      → World V F64
      → Result (Unit {0}) × World V F64
  unfolding tick_levels
  with_listings (err e) failure tick now w = (context (msg "list levels") (err e), w)
  with_listings (ok levels) (some e) tick now w = (context (msg "list orders") (err e), w)
  with_listings (ok levels) none tick now w = (ok tt, tick_levels levels tick now w)

  unfoldable pub handle_tick : PriceTick F64 → ℤ → World V F64 → Result (Unit {0}) × World V F64
  unfolding with_listings
  handle_tick tick now w =
      let w' = record w { calls = suc (suc w.calls) } in
      with_listings (deps.list_levels w.calls) (deps.orders_error (suc w.calls)) tick now w'

  -- `run`: one tick after the other, each with the second at which it is handled.
  unfoldable pub run : List (PriceTick F64 × ℤ) → World V F64 → World V F64
  run [] w = w
  run ((tick, now) ∷ ticks) w = run ticks (handle_tick tick now w).1
