-- ===== src/Trigger/Authoring.antt =====
-- Validation of strategies and levels against the configuration
-- (crates/trigger/src/authoring.rs). Whether a price source quotes a pair, and how a decimal text
-- becomes a U256, are parameters.
pub mod Startup
use nofomo.Prelude.{
  ℕ, ◌≡◌, Bool, true, false, not, ◌++◌, Text, msg, text_eq, eq_ignore_ascii_case, Option, none,
  some, Result, ok, err, ◌>>=◌, ◌>>◌, bail_if, context, some_or, ltb, ◌==◌, if◌then◌else◌,
}
use nofomo.Prelude.Decimal.{to_decimal}
use nofomo.Domain.Chain.{family, family_eq, family_name}
use nofomo.Domain.Model.{VenueName, venue_name, venue_family, venue_of_name}
use nofomo.Domain.Units.{parse_units_string}
use nofomo.Price.Gates.{PricePair}
use nofomo.Strategy.Level.{Side, Strategy, Level, StrategyLevel, side_of_name, trade_direction}
use nofomo.Trigger.Resolver.{RegisteredToken, TokenResolver, find_token, price_pair}

pub record StrategyDraft : Type 0 where
  pub id : Text
  pub venue : Text
  pub chain : Text
  pub base_token : Text
  pub quote_token : Text

pub record LevelDraft (F : Type 0) : Type 0 where
  pub id : Text
  pub strategy_id : Text
  pub side : Text
  pub trigger_price_usd : F
  pub amount : Text
  pub slippage_bps : ℕ  -- u16

unfoldable pub token : TokenResolver → Text → Text → Result RegisteredToken
token tokens chain name =
    some_or (chain ++ msg " does not configure " ++ name) (find_token tokens chain name)

module _ (tokens : TokenResolver) (supports : PricePair → Bool) where
  unfoldable pub validate_strategy_model : Strategy → Result (Unit {0})
  validate_strategy_model strategy = do
    base ← token tokens strategy.chain strategy.base_token
    quote ← token tokens strategy.chain strategy.quote_token
    bail_if (eq_ignore_ascii_case strategy.base_token strategy.quote_token)
        (msg "base_token and quote_token must differ")
    bail_if (not (family_eq (venue_family strategy.venue) (family base.chain))) (
        msg "venue "
        ++ venue_name strategy.venue
        ++ msg " does not trade "
        ++ family_name (family base.chain))
    pair ← some_or (msg "cannot resolve the strategy's base token") (price_pair tokens strategy)
    bail_if (not (supports pair)) (
        msg "no price source quotes "
        ++ strategy.base_token
        ++ msg " on "
        ++ strategy.chain
        ++ msg ", so this strategy could never fire")

  unfoldable pub validate_strategy : StrategyDraft → Result Strategy
  validate_strategy draft = do
    venue ← venue_of_name draft.venue
    base ← token tokens draft.chain draft.base_token
    quote ← token tokens draft.chain draft.quote_token
    bail_if (eq_ignore_ascii_case base.id quote.id) (msg "base_token and quote_token must differ")
    let strategy : Strategy = record {
      id = draft.id;
      venue = venue;
      chain = base.chain_name;
      base_token = base.id;
      quote_token = quote.id;
    }
    validate_strategy_model strategy
    ok strategy

  module _ (u256_from_decimal : Text → Result ℕ) (max_slippage_bps : ℕ) {F : Type 0} where
    unfoldable pub validate_level : Strategy → LevelDraft F → Result (Level F)
    validate_level strategy draft = do
      bail_if (not (text_eq draft.strategy_id strategy.id))
          (msg "level strategy_id does not match strategy " ++ strategy.id)
      validate_strategy_model strategy
      bail_if (ltb max_slippage_bps draft.slippage_bps) (
          msg "slippage_bps must not exceed the configured maximum " ++ to_decimal max_slippage_bps)
      side ← side_of_name draft.side
      input ← token tokens strategy.chain (trade_direction strategy side).token_in
      digits ← parse_units_string draft.amount input.decimals
      amount ← context (msg "amount does not fit in 256 bits") (u256_from_decimal digits)
      ok (record {
        id = draft.id;
        strategy_id = strategy.id;
        side = side;
        trigger_price_usd = draft.trigger_price_usd;
        amount = amount;
        amount_decimals = input.decimals;
        slippage_bps = draft.slippage_bps;
      })

  unfoldable pub validate_stored_level : {F : Type 0} → ℕ → StrategyLevel F → Result (Unit {0})
  validate_stored_level max_slippage_bps entry = do
    validate_strategy_model entry.strategy
    bail_if (not (text_eq entry.level.strategy_id entry.strategy.id))
        (msg "level references a different strategy")
    bail_if (ltb max_slippage_bps entry.level.slippage_bps)
        (msg "slippage exceeds configured maximum " ++ to_decimal max_slippage_bps)
    input ←
        token tokens entry.strategy.chain (trade_direction entry.strategy entry.level.side).token_in
    bail_if (not (entry.level.amount_decimals == input.decimals)) (
        msg "level "
        ++ entry.level.id
        ++ msg " snapshots "
        ++ to_decimal entry.level.amount_decimals
        ++ msg " decimals for "
        ++ (trade_direction entry.strategy entry.level.side).token_in
        ++ msg ", config has "
        ++ to_decimal input.decimals)
