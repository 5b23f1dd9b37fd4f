-- ===== src/Prelude/Parse.antt =====
-- `str::parse` and `from_str_radix` of unsigned machine integers.
use Prim.Native.Nat.{ℕ, ◌+◌, ◌-◌, ◌*◌}
use mathlib.Core.Bool.{Bool, ◌&&◌}
use mathlib.Core.List.{[], ◌∷◌}
use mathlib.Core.Option.{Option, none, some}
use nofomo.Prelude.Tests.{ltb, ◌==◌, if◌then◌else◌}
use nofomo.Prelude.Bytes.{Text, is_ascii_digit}
use nofomo.Prelude.Lists.{all}

-- A `+` before the digits is skipped.
strip_plus : Text → Text
strip_plus [] = []
strip_plus (c ∷ s) = if c == b'+' then s else c ∷ s

-- The number of the digits after `n`.
abbrev pub radix_from : ℕ → (ℕ → ℕ) → ℕ → Text → ℕ
radix_from radix digit n [] = n
radix_from radix digit n (c ∷ s) = radix_from radix digit (n * radix + digit c) s

parse_digits : ℕ → ℕ → (ℕ → Bool) → (ℕ → ℕ) → Text → Option ℕ
parse_digits limit radix is_digit digit [] = none
parse_digits limit radix is_digit digit (c ∷ s) =
    let n = radix_from radix digit 0 (c ∷ s) in
    if all is_digit (c ∷ s) && ltb n limit then some n else none

-- The number below `limit` that a text writes, of digits of the given radix.
unfoldable pub parse_radix : ℕ → ℕ → (ℕ → Bool) → (ℕ → ℕ) → Text → Option ℕ
unfolding strip_plus parse_digits
parse_radix limit radix is_digit digit s = parse_digits limit radix is_digit digit (strip_plus s)

-- `parse::<u64>()`, `parse::<u32>()` and the like: the limit is 2 to the width.
unfoldable pub parse_below : ℕ → Text → Option ℕ
unfolding parse_radix
parse_below limit s = parse_radix limit 10 is_ascii_digit (λ c. c - b'0') s

abbrev pub two_pow_64 : ℕ
two_pow_64 = 18446744073709551616
