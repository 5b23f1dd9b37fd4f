-- ===== src/Price/Gates.antt =====
-- Ticks, and the tests for stale and implausible ones
-- (crates/price/src/lib.rs, crates/price/src/gates.rs).
use nofomo.Prelude.{
  ℕ, ◌<◌, ◌≡◌, ◌↔◌, Bool, true, false, not, ◌||◌, ◌&&◌, Text, text_eq, ◌==◌, if◌then◌else◌, arith,
}
use nofomo.Prelude.Int.{ℤ, pos, negsuc, ltb_ℤ, ◌≤ℤ◌, ◌+ℤ◌, InI64, saturating_sub_i64}
use nofomo.Prelude.Float.{Float}

pub record PricePair : Type 0 where
  pub chain_id : ℕ
  pub token_address : Text

-- `#[derive(PartialEq)]`
unfoldable pub pair_eq : PricePair → PricePair → Bool
pair_eq a b = a.chain_id == b.chain_id && text_eq a.token_address b.token_address

pub record PriceTick (F : Type 0) : Type 0 where
  pub pair : PricePair
  pub price_usd : F
  pub published_at : ℤ

abbrev pub default_max_age_secs : ℤ
default_max_age_secs = pos 120

abbrev pub minus_future_tolerance_secs : ℤ
minus_future_tolerance_secs = negsuc 4

abbrev pub default_max_move_bps : ℕ
default_max_move_bps = 1000

-- Too old, or from further ahead than the clocks may differ.
unfoldable pub is_stale : {F : Type 0} → PriceTick F → ℤ → ℤ → Bool
is_stale tick now max_age_secs =
    let age = saturating_sub_i64 now tick.published_at in
    ltb_ℤ max_age_secs age || ltb_ℤ age minus_future_tolerance_secs

module _ (float : Float) where
  open float use {F64, le, lt, sub, mul, div, abs, is_finite, of_ℕ}

  unfoldable pub is_implausible : F64 → F64 → ℕ → Bool
  is_implausible prev_usd next_usd max_move_bps =
      if not (is_finite prev_usd) || not (is_finite next_usd)
      then true
      else if le prev_usd (of_ℕ 0) || le next_usd (of_ℕ 0)
      then true
      else lt (of_ℕ max_move_bps) (mul (div (abs (sub next_usd prev_usd)) prev_usd) (of_ℕ 10000))

-- The test on the two times alone.
abbrev age_is_stale : ℤ → ℤ → ℤ → Bool
age_is_stale published_at now max_age_secs =
    let age = saturating_sub_i64 now published_at in
    ltb_ℤ max_age_secs age || ltb_ℤ age minus_future_tolerance_secs

age_is_stale_iff :
    (published_at now : ℤ) (max_age : ℕ)
    → InI64 now
    → InI64 published_at
    → max_age < 9223372036854775807
    → (age_is_stale published_at now (pos max_age) ≡ false)
      ↔ ((now ≤ℤ published_at +ℤ pos max_age) × (published_at ≤ℤ now +ℤ pos 5))
unfolding saturating_sub_i64
age_is_stale_iff (pos p) (pos n) max_age hn hp hm = (λ h. ground arith, λ h. ground arith)
age_is_stale_iff (pos p) (negsuc n) max_age hn hp hm = (λ h. ground arith, λ h. ground arith)
age_is_stale_iff (negsuc p) (pos n) max_age hn hp hm = (λ h. ground arith, λ h. ground arith)
age_is_stale_iff (negsuc p) (negsuc n) max_age hn hp hm = (λ h. ground arith, λ h. ground arith)

-- A tick passes the age test exactly if it was published at most `max_age` seconds ago and at most
-- five ahead, for every two times of an i64: that the subtraction saturates changes nothing, as long
-- as the age limit is below the largest i64.
pub is_stale_iff :
    {F : Type 0} (tick : PriceTick F) (now : ℤ) (max_age : ℕ)
    → InI64 now
    → InI64 tick.published_at
    → max_age < 9223372036854775807
    → (is_stale tick now (pos max_age) ≡ false)
      ↔ ((now ≤ℤ tick.published_at +ℤ pos max_age) × (tick.published_at ≤ℤ now +ℤ pos 5))
unfolding is_stale
is_stale_iff tick now max_age hn hp hm = age_is_stale_iff tick.published_at now max_age hn hp hm
