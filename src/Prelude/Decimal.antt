-- ===== src/Prelude/Decimal.antt =====
-- The decimal print of a number, as `to_string` and `{}` make it.
use nofomo.Prelude.Tests.{◌==◌, if◌then◌else◌}
use nofomo.Prelude.Bytes.{Text}
use mathlib.Core.List.{[], ◌∷◌}
use Prim.Native.Nat.{ℕ, zero, suc, ◌+◌, ◌/◌, ◌%◌}
use nofomo.Prelude.Int.{ℤ, pos, negsuc}

-- The digits of `n` before `out`; the fuel is at least `n`.
unfoldable pub print_digits : ℕ → ℕ → Text → Text
print_digits zero n out = out
print_digits (suc fuel) n out =
    let rest = print_digits fuel (n / 10) ((b'0' + n % 10) ∷ out) in if n == 0 then out else rest

unfoldable pub to_decimal : ℕ → Text
unfolding print_digits
to_decimal n = if n == 0 then b'0' ∷ [] else print_digits n n []

-- The print of an `i64`.
unfoldable pub int_to_decimal : ℤ → Text
unfolding to_decimal
int_to_decimal (pos n) = to_decimal n
int_to_decimal (negsuc n) = b'-' ∷ to_decimal (suc n)
