-- ===== src/Domain/Units/Digits.antt =====
-- The number that a decimal text writes (crates/domain/src/model.rs).
use nofomo.Prelude.{
  ℕ, ◌+◌, ◌-◌, ◌*◌, ◌≡◌, refl, sym, ap, ◌∙◌, [], ◌∷◌, ◌++◌, Text, ◌==◌, arith, Bool-cases, inl, inr,
}
use nofomo.Domain.Units.{trim_zeros, or_zero}

-- The number that a text of digits writes after `n`, and on its own.
abbrev pub read_from : ℕ → Text → ℕ
read_from n [] = n
read_from n (c ∷ s) = read_from (n * 10 + (c - 48)) s

abbrev pub read_decimal : Text → ℕ
read_decimal s = read_from 0 s

pub read_from-append : (n : ℕ) (s t : Text) → read_from n (s ++ t) ≡ read_from (read_from n s) t
read_from-append n [] t = refl
read_from-append n (c ∷ s) t = read_from-append (n * 10 + (c - 48)) s t

pub read_decimal-trim_zeros : (s : Text) → read_decimal (trim_zeros s) ≡ read_decimal s
unfolding trim_zeros
read_decimal-trim_zeros [] = refl
read_decimal-trim_zeros (c ∷ s) = elim (Bool-cases (c == 48)) [
  | inl z ↦
      let e : 0 * 10 + (c - 48) ≡ 0 = ground arith in
      rw z (read_decimal-trim_zeros s ∙ ap (λ n. read_from n s) (sym e))
  | inr n ↦ rw n refl
]

pub read_decimal-or_zero : (s : Text) → read_decimal (or_zero s) ≡ read_decimal s
read_decimal-or_zero [] = refl
read_decimal-or_zero (c ∷ s) = refl
