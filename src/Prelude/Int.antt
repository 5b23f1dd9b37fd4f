-- ===== src/Prelude/Int.antt =====
-- Signed integers over the native numbers, and the 64-bit ones among them: `i64` addition wraps,
-- `saturating_sub` stops at the ends of the range.
use Prim.Native.Nat.{ℕ, suc, ◌+◌, ◌-◌, ◌%◌, ◌≤◌, ◌<◌}
use mathlib.Core.Path.{◌≡◌}
use mathlib.Core.Bool.{Bool}
use native.Mathlib.Omega.{arith}
use nofomo.Prelude.Tests.{ltb, leb, if◌then◌else◌}

-- `negsuc n` is -(n + 1).
pub data ℤ : Type 0 where
  pos : ℕ → ℤ
  negsuc : ℕ → ℤ

abbrev pub pos_part : ℤ → ℕ
pos_part (pos n) = n
pos_part (negsuc n) = 0

abbrev pub neg_part : ℤ → ℕ
neg_part (pos n) = 0
neg_part (negsuc n) = suc n

-- a - b, as an integer.
abbrev pub sub_ℕ : ℕ → ℕ → ℤ
sub_ℕ a b = if leb b a then pos (a - b) else negsuc (b - a - 1)

infixl 65 ◌+ℤ◌ ◌-ℤ◌
infix 50 ◌≤ℤ◌ ◌<ℤ◌
abbrev pub ◌+ℤ◌ : ℤ → ℤ → ℤ
a +ℤ b = sub_ℕ (pos_part a + pos_part b) (neg_part a + neg_part b)

abbrev pub ◌-ℤ◌ : ℤ → ℤ → ℤ
a -ℤ b = sub_ℕ (pos_part a + neg_part b) (neg_part a + pos_part b)

abbrev pub ◌≤ℤ◌ : ℤ → ℤ → Type 0
a ≤ℤ b = pos_part a + neg_part b ≤ pos_part b + neg_part a

abbrev pub ◌<ℤ◌ : ℤ → ℤ → Type 0
a <ℤ b = pos_part a + neg_part b < pos_part b + neg_part a

abbrev pub ltb_ℤ : ℤ → ℤ → Bool
ltb_ℤ a b = ltb (pos_part a + neg_part b) (pos_part b + neg_part a)

abbrev pub i64_half : ℕ
i64_half = 9223372036854775808

-- The range of `i64`.
abbrev pub InI64 : ℤ → Type 0
InI64 a = (pos_part a < i64_half) × (neg_part a ≤ i64_half)

-- The `i64` with the residue `r` modulo 2^64.
abbrev of_residue : ℕ → ℤ
of_residue r = if ltb r i64_half then pos r else negsuc (18446744073709551615 - r)

-- `a + b` on `i64`, which wraps.
unfoldable pub add_i64 : ℤ → ℤ → ℤ
add_i64 a b = of_residue (
    (pos_part a + pos_part b + (36893488147419103232 - neg_part a - neg_part b))
    % 18446744073709551616)

pub add_i64_exact : (a b : ℤ) → InI64 a → InI64 b → InI64 (a +ℤ b) → add_i64 a b ≡ a +ℤ b
unfolding add_i64
add_i64_exact (pos a) (pos b) h k r = ground arith
add_i64_exact (pos a) (negsuc b) h k r = ground arith
add_i64_exact (negsuc a) (pos b) h k r = ground arith
add_i64_exact (negsuc a) (negsuc b) h k r = ground arith

-- `a.saturating_sub(b)` on `i64`.
unfoldable pub saturating_sub_i64 : ℤ → ℤ → ℤ
saturating_sub_i64 a b =
    let d = a -ℤ b in
    if leb i64_half (pos_part d)
    then pos 9223372036854775807
    else if ltb i64_half (neg_part d)
    then negsuc 9223372036854775807
    else d
