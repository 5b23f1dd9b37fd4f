-- ===== src/Trigger/Fired.antt =====
-- Which levels a tick fires (crates/trigger/src/fired.rs).
use nofomo.Prelude.{
  Bool, false, not, ◌&&◌, List, Text, text_eq, eq_ignore_ascii_case, Option, none, some, any,
  filter, ◌==◌,
}
use nofomo.Prelude.Int.{ℤ, pos, add_i64, ltb_ℤ}
use nofomo.Prelude.Float.{Float}
use nofomo.Price.Gates.{PricePair, PriceTick}
use nofomo.Strategy.Level.{StrategyLevel, level_fires}
use nofomo.Strategy.Order.{Order, failed, status, status_eq}
use nofomo.Trigger.Resolver.{TokenResolver, price_pair}

abbrev pub level_cooldown_secs : ℤ
level_cooldown_secs = pos 60

module _ {V : Type 0} where
  abbrev pub of_level : Text → List (Order V) → List (Order V)
  of_level level_id orders = filter (λ order. text_eq order.level_id level_id) orders

  -- An order that failed less than a minute after it was created rests its level.
  unfoldable pub cooling_down : Text → List (Order V) → ℤ → Bool
  cooling_down level_id orders now =
      any (λ order. ltb_ℤ now (add_i64 order.created_at level_cooldown_secs))
        (filter (λ order. status_eq (status order) failed) (of_level level_id orders))

  -- Any order that has not failed has spent its level.
  unfoldable pub is_spent : Text → List (Order V) → Bool
  is_spent level_id orders =
      any (λ order. not (status_eq (status order) failed)) (of_level level_id orders)

module _ (float : Float) (resolver : TokenResolver) where
  open float use {F64}

  pair_matches : Option PricePair → PricePair → Bool
  pair_matches none tick_pair = false
  pair_matches (some pair) tick_pair =
      pair.chain_id == tick_pair.chain_id
      && eq_ignore_ascii_case pair.token_address tick_pair.token_address

  pub prices_this_tick : StrategyLevel F64 → PriceTick F64 → Bool
  unfolding pair_matches
  prices_this_tick entry tick = pair_matches (price_pair resolver entry.strategy) tick.pair

  unfoldable pub fired_levels :
      {V : Type 0}
      → List (StrategyLevel F64)
      → List (Order V)
      → PriceTick F64
      → List (StrategyLevel F64)
  fired_levels levels orders tick =
      filter (λ entry. level_fires float entry.level tick.price_usd)
        (filter (λ entry. prices_this_tick entry tick)
          (filter (λ entry. not (is_spent entry.level.id orders)) levels))
