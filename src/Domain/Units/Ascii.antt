-- ===== src/Domain/Units/Ascii.antt =====
-- The characters of the texts that `apply_slippage_string` makes (crates/domain/src/model.rs).
use mathlib.Core.List.{reverse, reverse-cons}
use mathlib.Core.Path.{subst}
use nofomo.Prelude.{
  ℕ, zero, suc, ◌+◌, ◌-◌, ◌*◌, ◌/◌, ◌%◌, ◌≡◌, refl, sym, ◌∙◌, true, false, Bool, not, ◌||◌, [], ◌∷◌,
  ◌++◌, Text, ok, all, length, take, is_ascii_digit, ltb, leb, ◌==◌, arith, Bool-cases, inl, inr,
  bind-eq-ok, ok-injective, bail_if, bail_if-ok, ◌≤◌,
}
use nofomo.Domain.Units.Digits.{read_decimal}
use nofomo.Domain.Units.Slippage.{apply_slippage_string_lem}
use nofomo.Domain.Units.{
  trim_zeros, carry_digits, times_digits, drop_last_four, or_zero, is_empty, apply_slippage_string,
}

pub all-append :
    (p : ℕ → Bool) (s t : Text) → all p s ≡ true → all p t ≡ true → all p (s ++ t) ≡ true
all-append p [] t h k = k
all-append p (c ∷ s) t h k = ground (arith, all-append p s t)

pub all-reverse : (p : ℕ → Bool) (s : Text) → all p s ≡ true → all p (reverse s) ≡ true
all-reverse p [] h = refl
all-reverse p (c ∷ s) h =
    rw (reverse-cons c s)
      (all-append p (reverse s) (c ∷ []) (all-reverse p s (ground arith)) (ground arith))

all-take : (p : ℕ → Bool) (n : ℕ) (s : Text) → all p s ≡ true → all p (take n s) ≡ true
all-take p zero s h = refl
all-take p (suc n) [] h = refl
all-take p (suc n) (c ∷ s) h = ground (arith, all-take p n s)

pub all-trim_zeros : (p : ℕ → Bool) (s : Text) → all p s ≡ true → all p (trim_zeros s) ≡ true
unfolding trim_zeros
all-trim_zeros p [] h = refl
all-trim_zeros p (c ∷ s) h = elim (Bool-cases (c == 48)) [
  | inl z ↦ rw z (all-trim_zeros p s (ground arith))
  | inr n ↦ rw n h
]

digit_char : (n : ℕ) → is_ascii_digit (n % 10 + 48) ≡ true
digit_char n = ground arith

all-carry_digits : (fuel c : ℕ) → all is_ascii_digit (carry_digits fuel c) ≡ true
unfolding carry_digits
all-carry_digits zero c = refl
all-carry_digits (suc fuel) c = elim (Bool-cases (c == 0)) [
  | inl z ↦ rw z refl
  | inr n ↦ rw (n, digit_char c) (all-carry_digits fuel (c / 10))
]

all-times_digits :
    (m : ℕ) (s : Text) (carry : ℕ) → all is_ascii_digit (times_digits m s carry) ≡ true
unfolding times_digits
all-times_digits m [] carry = all-carry_digits carry carry
all-times_digits m (d ∷ s) carry = rw (digit_char ((d - 48) * m + carry)) (all-times_digits m s _)

all-or_zero : (s : Text) → all is_ascii_digit s ≡ true → all is_ascii_digit (or_zero s) ≡ true
all-or_zero [] h = refl
all-or_zero (c ∷ s) h = h

all-drop_last_four :
    (s : Text)
    → all is_ascii_digit s ≡ true
    → all is_ascii_digit (or_zero (drop_last_four s)) ≡ true
unfolding drop_last_four
all-drop_last_four s h = elim (Bool-cases (leb (length s) 4)) [
  | inl small ↦ rw small refl
  | inr big ↦ rw big (
      all-or_zero (trim_zeros (take (length s - 4) s))
        (all-trim_zeros is_ascii_digit (take (length s - 4) s) (all-take is_ascii_digit _ s h)))
]

-- A call that succeeds on digits gives digits, of the number times 10000 - slippage_bps, divided by
-- 10000 and rounded down.
pub apply_slippage_string-ok :
    (raw : Text) (bps : ℕ) {out : Text}
    → is_empty raw ≡ false
    → all is_ascii_digit raw ≡ true
    → apply_slippage_string raw bps ≡ ok out
    → (all is_ascii_digit out ≡ true)
      × (read_decimal out ≡ (read_decimal raw * (10000 - bps)) / 10000)
unfolding apply_slippage_string
apply_slippage_string-ok raw bps full digits h =
    let (u, within, h1) = bind-eq-ok (bail_if (ltb 10000 bps) _) _ h in
    let (u2, valid, h2) =
      bind-eq-ok (bail_if (is_empty raw || not (all is_ascii_digit raw)) _) _ h1 in
    let product = reverse (times_digits (10000 - bps) (reverse raw) 0) in
    let product_digits =
      all-reverse is_ascii_digit (times_digits (10000 - bps) (reverse raw) 0)
        (all-times_digits (10000 - bps) (reverse raw) 0) in
    let small : bps ≤ 10000 = ground (arith, bail_if-ok _ _ within) in
    let (made_out, made, value) = apply_slippage_string_lem raw bps small full digits in
    (
      subst (λ (t : Text). all is_ascii_digit t ≡ true) (ok-injective h2)
          (all-drop_last_four product product_digits),
      subst (λ (t : Text). read_decimal t ≡ (read_decimal raw * (10000 - bps)) / 10000)
          (ok-injective (sym made ∙ h)) value,
    )
