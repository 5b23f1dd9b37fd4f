-- ===== src/Trigger/QuoteGuard.antt =====
-- The check of a quote against the triggering price (crates/trigger/src/quote_guard.rs).
use nofomo.Prelude.{
  ℕ, Bool, false, ◌++◌, Text, msg, Option, none, some, Result, ok, err, ◌>>=◌, ◌>>◌, bail_if,
  if◌then◌else◌,
}
use nofomo.Prelude.Float.{Float}
use nofomo.Domain.Model.{QuoteDraft}
use nofomo.Price.Gates.{PriceTick}
use nofomo.Strategy.Level.{Side, buy, sell, StrategyLevel, TradeDirection, trade_direction}
use nofomo.Trigger.Resolver.{RegisteredToken, TokenResolver, find_token}

module _ (float : Float) where
  open float use {F64, le, lt, sub, mul, div, abs, is_finite, of_ℕ, parse}

  finite_or : Text → Text → Option F64 → Result F64
  finite_or field raw none = err (msg "quote field " ++ field ++ msg " is not a number: " ++ raw)
  finite_or field raw (some value) =
      if is_finite value
      then ok value
      else err (msg "quote field " ++ field ++ msg " is not a number: " ++ raw)

  unfoldable pub amount : Text → Text → Result F64
  unfolding finite_or
  amount raw field = finite_or field raw (parse raw)

  -- The dollars that go in and come out, for a counter token worth a dollar.
  abbrev pub dollars_in : Side → F64 → F64 → F64
  dollars_in buy amount_in price = amount_in
  dollars_in sell amount_in price = mul amount_in price

  abbrev pub dollars_out : Side → F64 → F64 → F64
  dollars_out buy amount_out price = mul amount_out price
  dollars_out sell amount_out price = amount_out

  abbrev pub deviation_bps : F64 → F64 → F64
  deviation_bps spent returned = mul (div (abs (sub spent returned)) spent) (of_ℕ 10000)

  abbrev pub pegged : Option RegisteredToken → Bool
  pegged none = false
  pegged (some token) = token.usd_peg

  -- The counter token of the trade.
  abbrev pub quote_leg : Side → TradeDirection → Text
  quote_leg buy direction = direction.token_in
  quote_leg sell direction = direction.token_out

  abbrev pub is_pegged : TokenResolver → StrategyLevel F64 → Bool
  is_pegged tokens entry =
      let side = entry.level.side in
      pegged (
        find_token tokens entry.strategy.chain
          (quote_leg side (trade_direction entry.strategy side)))

  -- The message names the two amounts, which are floats; it is left at its fixed part.
  unfoldable pub check_pegged : {V : Type 0} → Side → QuoteDraft V → F64 → ℕ → Result (Unit {0})
  check_pegged side draft price_usd max_deviation_bps = do
    amount_in ← amount draft.amount_in (msg "amount_in")
    amount_out ← amount draft.expected_amount_out (msg "expected_amount_out")
    bail_if (le price_usd (of_ℕ 0))
        (msg "the observed price is not positive, so the quote cannot be checked")
    bail_if (le (dollars_in side amount_in price_usd) (of_ℕ 0))
        (msg "the quote spends nothing, so it cannot be checked")
    bail_if
        (lt (of_ℕ max_deviation_bps) (
          deviation_bps (dollars_in side amount_in price_usd)
            (dollars_out side amount_out price_usd)))
        (msg "quote is away from the observed price")

  unfoldable pub check_quote :
      {V : Type 0}
      → TokenResolver
      → StrategyLevel F64
      → QuoteDraft V
      → PriceTick F64
      → ℕ
      → Result (Unit {0})
  check_quote tokens entry draft tick max_deviation_bps =
      if is_pegged tokens entry
      then check_pegged entry.level.side draft tick.price_usd max_deviation_bps
      else ok tt
