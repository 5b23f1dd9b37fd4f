-- ===== src/Examples/Prices.antt =====
-- Prices as whole numbers (crates/price/src/filtered.rs, crates/trigger/src/quote_guard.rs).
use nofomo.Prelude.{
  ℕ, ◌+◌, ◌-◌, ◌*◌, ◌/◌, ◌≡◌, ◌↔◌, true, false, arith, List, [], ◌∷◌, Text, codes, msg, none, some,
  Result, ok, err, ltb, leb, if◌then◌else◌,
}
use nofomo.Prelude.Int.{ℤ, pos, ◌≤ℤ◌, ◌+ℤ◌}
use nofomo.Prelude.Float.{Float}
use nofomo.Price.Gates.{PriceTick, is_stale, is_stale_iff}
use nofomo.Price.Filtered.{filtered, Selects, IsSmooth, filtered-Filters}

abbrev pub whole_value : Text → ℕ → ℕ
whole_value [] n = n
whole_value (c ∷ s) n = whole_value s (n * 10 + (c - 48))

-- Whole numbers, the difference as its absolute value.
abbrev pub whole : Float
whole = record {
  F64 = ℕ;
  le = leb;
  lt = ltb;
  sub = λ (a b : ℕ). if ltb a b then b - a else a - b;
  mul = λ (a b : ℕ). a * b;
  div = λ (a b : ℕ). a / b;
  abs = λ (a : ℕ). a;
  is_finite = λ (a : ℕ). true;
  of_ℕ = λ (n : ℕ). n;
  parse = λ (s : Text). some (whole_value s 0);
}

abbrev pub tick_at : ℕ → ℤ → PriceTick ℕ
tick_at price at = record {
  pair = record { chain_id = 1; token_address = codes "0xweth" };
  price_usd = price;
  published_at = at;
}

abbrev items : List (Result (PriceTick ℕ) × ℤ)
items =
    (ok (tick_at 3000 (pos 1000)), pos 1001)
    ∷ (ok (tick_at 9000 (pos 1002)), pos 1003)
    ∷ (err (msg "stream ended"), pos 1004)
    ∷ (ok (tick_at 3001 (pos 1005)), pos 1006)
    ∷ []

filtered-Filters_example :
    Selects whole (pos 120) 1000 items (filtered whole (pos 120) 1000 none items)
    × IsSmooth whole (pos 120) 1000 none (filtered whole (pos 120) 1000 none items)
filtered-Filters_example = filtered-Filters whole (pos 120) 1000 none items

is_stale_iff_example :
    (is_stale (tick_at 3000 (pos 1000)) (pos 1100) (pos 120) ≡ false)
    ↔ ((pos 1100 ≤ℤ pos 1000 +ℤ pos 120) × (pos 1000 ≤ℤ pos 1100 +ℤ pos 5))
is_stale_iff_example =
    is_stale_iff (tick_at 3000 (pos 1000)) (pos 1100) 120 (omega arith) (omega arith) (omega arith)
