-- ===== src/Cetus/Words.antt =====
-- The machine words of the swap math (crates/cetus/src/swap_math.rs): `u128` values, and `U256`
-- intermediates of which `<<` drops the high bits and `+` wraps.
pub mod Rounding
use nofomo.Prelude.{
  ℕ, ◌+◌, ◌-◌, ◌*◌, ◌/◌, ◌%◌, ◌^◌, ◌<◌, ◌≡◌, Bool, ◌&&◌, not, Text, msg, ◌++◌, Result, ok, err, ltb,
  leb, ◌==◌, if◌then◌else◌, arith,
}

abbrev pub u64_mod : ℕ
u64_mod = 18446744073709551616

abbrev pub u128_mod : ℕ
u128_mod = 340282366920938463463374607431768211456

abbrev pub u256_mod : ℕ
u256_mod = 115792089237316195423570985008687907853269984665640564039457584007913129639936

abbrev pub min_sqrt_price : ℕ
min_sqrt_price = 4295048016

abbrev pub max_sqrt_price : ℕ
max_sqrt_price = 79226673515401279992447579055

abbrev pub fee_rate_denominator : ℕ
fee_rate_denominator = 1000000

-- `value << 64` on U256
abbrev pub shl64 : ℕ → ℕ
shl64 value = (value * u64_mod) % u256_mod

abbrev pub add_u256 : ℕ → ℕ → ℕ
add_u256 a b = (a + b) % u256_mod

abbrev pub add_u128 : ℕ → ℕ → ℕ
add_u128 a b = (a + b) % u128_mod

-- `a.abs_diff(b)`
abbrev pub abs_diff : ℕ → ℕ → ℕ
abs_diff a b = if ltb a b then b - a else a - b

-- `a.checked_sub(b)`, with the error of its caller
unfoldable pub checked_sub : ℕ → ℕ → Text → Result ℕ
checked_sub a b e = if ltb a b then err e else ok (a - b)

-- `a.checked_add(b)` on u128
unfoldable pub checked_add : ℕ → ℕ → Text → Result ℕ
checked_add a b e = if ltb (a + b) u128_mod then ok (a + b) else err e

unfoldable pub to_u128 : ℕ → Text → Result ℕ
to_u128 value context =
    if ltb value u128_mod then ok value else err (context ++ msg " overflowed u128")

unfoldable pub div_round_up_if : ℕ → ℕ → Bool → Result ℕ
div_round_up_if numerator denominator round_up =
    if denominator == 0
    then err (msg "division by zero in CLMM swap math")
    else (let quotient = numerator / denominator in
        let remainder = numerator % denominator in
        ok (if round_up && not (remainder == 0) then add_u256 quotient 1 else quotient))

pub to_u128_ok : (v : ℕ) (c : Text) {r : ℕ} → to_u128 v c ≡ ok r → (r ≡ v) × (v < u128_mod)
unfolding to_u128
to_u128_ok v c h = ground arith

pub checked_sub_ok : (a b : ℕ) (e : Text) {r : ℕ} → checked_sub a b e ≡ ok r → (r + b ≡ a)
unfolding checked_sub
checked_sub_ok a b e h = ground arith
