-- ===== src/Domain/Units/Slippage.antt =====
-- Decimal texts as numbers (crates/domain/src/model.rs, `apply_slippage_string`).
use mathlib.Core.List.{reverse, reverse-cons, reverse_aux-eq, reverse-reverse}
use native.Mathlib.Nat.{add-mul, mul_assoc}
use nofomo.Prelude.{
  ℕ, zero, suc, ◌+◌, ◌-◌, ◌*◌, ◌/◌, ◌≤◌, ◌<◌, ◌≡◌, refl, sym, ap, ◌∙◌, true, false, [], ◌∷◌, ◌++◌,
  Text, ok, All, all, length, length-append, take, is_ascii_digit, ltb, leb, ◌==◌, arith,
  Bool-cases, inl, inr,
}
use nofomo.Domain.Units.Digits.{
  read_decimal, read_from-append, read_decimal-trim_zeros, read_decimal-or_zero,
}
use nofomo.Domain.Units.{
  carry_digits, times_digits, drop_last_four, or_zero, is_empty, apply_slippage_string,
}

abbrev low : Text → ℕ
low [] = 0
low (c ∷ s) = (c - 48) + 10 * low s

abbrev Digits : Text → Type 0
Digits s = All (λ c. c - 48 < 10) s

low-carry_digits : (fuel c : ℕ) → c ≤ fuel → low (carry_digits fuel c) ≡ c
unfolding carry_digits
low-carry_digits zero c h = omega arith
low-carry_digits (suc fuel) c h =
    let small : c / 10 ≤ c = omega arith in
    elim (Bool-cases (c == 0)) [
      | inl z ↦ rw z (ground arith)
      | inr n ↦
          let below : c / 10 ≤ fuel = ground arith in
          rw n (omega (arith, low-carry_digits fuel (c / 10) below))
    ]

carry_digits-Digits : (fuel c : ℕ) → Digits (carry_digits fuel c)
unfolding carry_digits
carry_digits-Digits zero c = tt
carry_digits-Digits (suc fuel) c = elim (Bool-cases (c == 0)) [
  | inl z ↦ rw z tt
  | inr n ↦ rw n (omega arith, carry_digits-Digits fuel (c / 10))
]

-- The multiplication by hand is a multiplication.
low-times_digits : (m : ℕ) (s : Text) (carry : ℕ) → low (times_digits m s carry) ≡ low s * m + carry
unfolding times_digits
low-times_digits m [] carry = omega (arith, low-carry_digits carry carry (omega arith))
low-times_digits m (c ∷ s) carry =
    let product = (c - 48) * m + carry in
    let split : ((c - 48) + 10 * low s) * m ≡ (c - 48) * m + 10 * (low s * m) =
      omega (arith, add-mul (c - 48) (10 * low s) m, mul_assoc 10 (low s) m) in
    omega (arith, low-times_digits m s (product / 10))

times_digits-Digits : (m : ℕ) (s : Text) (carry : ℕ) → Digits (times_digits m s carry)
unfolding times_digits
times_digits-Digits m [] carry = carry_digits-Digits carry carry
times_digits-Digits m (c ∷ s) carry = (omega arith, times_digits-Digits m s _)

read_decimal-reverse : (t : Text) → read_decimal (reverse t) ≡ low t
read_decimal-reverse [] = refl
read_decimal-reverse (c ∷ t) =
    ap read_decimal (reverse-cons c t)
    ∙ (read_from-append 0 (reverse t) (c ∷ []) ∙ omega (arith, read_decimal-reverse t))

take-append : (s t : Text) → take (length s) (s ++ t) ≡ s
take-append [] t = refl
take-append (c ∷ s) t = ap (λ (r : Text). c ∷ r) (take-append s t)

read_decimal-short : (s : Text) → length s ≡ 0 → read_decimal s ≡ 0
read_decimal-short [] h = refl
read_decimal-short (c ∷ s) h = omega arith

-- The digits before the last four.
drop_last_four-append :
    (s : Text) (a b c d : ℕ)
    → read_decimal (drop_last_four (s ++ (d ∷ c ∷ b ∷ a ∷ []))) ≡ read_decimal s
unfolding drop_last_four
drop_last_four-append s a b c d =
    let p = s ++ (d ∷ c ∷ b ∷ a ∷ []) in
    let long : length p ≡ length s + 4 = length-append s (d ∷ c ∷ b ∷ a ∷ []) in
    elim (Bool-cases (leb (length p) 4)) [
      | inl small ↦
          let none_left : length s ≡ 0 = ground arith in
          rw small (sym (read_decimal-short s none_left))
      | inr big ↦
          let cut : take (length p - 4) p ≡ s =
            ap (λ n. take n p) (omega arith) ∙ take-append s (d ∷ c ∷ b ∷ a ∷ []) in
          rw big (read_decimal-trim_zeros (take (length p - 4) p) ∙ ap read_decimal cut)
    ]

read_decimal-drop_last_four :
    (t : Text) → Digits t → read_decimal (drop_last_four (reverse t)) ≡ low t / 10000
unfolding drop_last_four
read_decimal-drop_last_four [] h = refl
read_decimal-drop_last_four (a ∷ []) h = omega arith
read_decimal-drop_last_four (a ∷ b ∷ []) h = omega arith
read_decimal-drop_last_four (a ∷ b ∷ c ∷ []) h = omega arith
read_decimal-drop_last_four (a ∷ b ∷ c ∷ d ∷ s) (ha, (hb, (hc, (hd, hs)))) =
    let split : reverse (a ∷ b ∷ c ∷ d ∷ s) ≡ reverse s ++ (d ∷ c ∷ b ∷ a ∷ []) =
      reverse_aux-eq s (d ∷ c ∷ b ∷ a ∷ []) in
    let value : low (a ∷ b ∷ c ∷ d ∷ s) / 10000 ≡ low s = omega arith in
    ap (λ (p : Text). read_decimal (drop_last_four p)) split
    ∙ (drop_last_four-append (reverse s) a b c d ∙ (read_decimal-reverse s ∙ sym value))

pub apply_slippage_string_lem :
    (raw : Text) (slippage_bps : ℕ)
    → slippage_bps ≤ 10000
    → is_empty raw ≡ false
    → all is_ascii_digit raw ≡ true
    → (out : Text) × (apply_slippage_string raw slippage_bps ≡ ok out)
      × (read_decimal out ≡ (read_decimal raw * (10000 - slippage_bps)) / 10000)
unfolding apply_slippage_string
apply_slippage_string_lem raw bps small full digits =
    let m = 10000 - bps in
    let t = times_digits m (reverse raw) 0 in
    let allowed : ltb 10000 bps ≡ false = ground arith in
    let same : low (reverse raw) ≡ read_decimal raw =
      sym (read_decimal-reverse (reverse raw)) ∙ ap read_decimal (reverse-reverse raw) in
    let value : low t ≡ read_decimal raw * m =
      omega (arith, low-times_digits m (reverse raw) 0, ap (λ n. n * m) same) in
    (
      or_zero (drop_last_four (reverse t)),
      rw (allowed, full, digits) refl,
      read_decimal-or_zero (drop_last_four (reverse t))
          ∙ (read_decimal-drop_last_four t (times_digits-Digits m (reverse raw) 0)
              ∙ ap (λ n. n / 10000) value),
    )
