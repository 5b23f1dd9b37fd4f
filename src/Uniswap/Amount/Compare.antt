-- ===== src/Uniswap/Amount/Compare.antt =====
-- The order of decimal texts (crates/uniswap/src/amount.rs).
use Prim.Native.Nat.{compare, max, Ordering}
use native.Mathlib.Nat.{pow-suc, mul_assoc, mul_comm}
use nofomo.Prelude.{
  ℕ, zero, suc, ◌+◌, ◌-◌, ◌*◌, ◌^◌, ◌≤◌, ◌<◌, ◌≡◌, ◌≢◌, refl, sym, ap, ◌∙◌, true, [], ◌∷◌, Text,
  all, replicate, length, is_ascii_digit, ◌==◌, ltb, arith, Bool-cases, inl, inr,
}
use nofomo.Domain.Units.{trim_zeros}
use nofomo.Domain.Units.Digits.{read_from, read_decimal, read_decimal-trim_zeros, read_from-append}
use nofomo.Domain.Units.Ascii.{all-append, all-trim_zeros}
use nofomo.Uniswap.Amount.{
  text_cmp, then_with, compare_decimal_integers, scaled, compare_scaled_amounts,
}

compare_less : (a b : ℕ) → a < b → compare a b ≡ Ordering.lt
compare_less a b h = ground arith

compare_more : (a b : ℕ) → b < a → compare a b ≡ Ordering.gt
compare_more a b h = ground arith

compare_same : (a : ℕ) → compare a a ≡ Ordering.eq
compare_same a = ground arith

pub read_from_least : (n : ℕ) (s : Text) → n ≤ read_from n s
read_from_least n [] = omega arith
read_from_least n (c ∷ s) = omega (arith, read_from_least (n * 10 + (c - 48)) s)

digit_bounds : (c : ℕ) → is_ascii_digit c ≡ true → (48 ≤ c) × (c ≤ 57)
digit_bounds c h = (ground arith, ground arith)

-- A larger number before stays larger, whatever digits follow in a text that is no shorter.
read_from-lt :
    (n m : ℕ) (s t : Text)
    → n < m
    → length s ≤ length t
    → all is_ascii_digit s ≡ true
    → read_from n s < read_from m t
read_from-lt n m [] t h k d = omega (arith, read_from_least m t)
read_from-lt n m (c ∷ s) [] h k d = omega arith
read_from-lt n m (c ∷ s) (e ∷ t) h k d =
    let c_digit : is_ascii_digit c ≡ true = ground arith in
    let rest : all is_ascii_digit s ≡ true = ground arith in
    let bounds = digit_bounds c c_digit in
    read_from-lt (n * 10 + (c - 48)) (m * 10 + (e - 48)) s t (omega arith) (omega arith) rest

-- On texts of one length the order of strings is the order of numbers.
text_cmp-read_from :
    (n : ℕ) (s t : Text)
    → length s ≡ length t
    → all is_ascii_digit s ≡ true
    → all is_ascii_digit t ≡ true
    → text_cmp s t ≡ compare (read_from n s) (read_from n t)
unfolding text_cmp
text_cmp-read_from n [] [] k d e = sym (compare_same n)
text_cmp-read_from n [] (c ∷ t) k d e = absurd (omega arith)
text_cmp-read_from n (c ∷ s) [] k d e = absurd (omega arith)
text_cmp-read_from n (c ∷ s) (x ∷ t) k d e =
    let c_digit = digit_bounds c (ground arith) in
    let x_digit = digit_bounds x (ground arith) in
    let s_digits : all is_ascii_digit s ≡ true = ground arith in
    let t_digits : all is_ascii_digit t ≡ true = ground arith in
    let same : length s ≡ length t = omega arith in
    elim (Bool-cases (ltb c x)) [
      | inl less ↦
          let below : c < x = ground arith in
          rw (compare_less c x below, text_cmp)
            (sym (
              compare_less _ _ (
                read_from-lt (n * 10 + (c - 48)) (n * 10 + (x - 48)) s t (omega arith) (omega arith)
                  s_digits)))
      | inr not_less ↦ elim (Bool-cases (ltb x c)) [
        | inl more ↦
            let above : x < c = ground arith in
            rw (compare_more c x above, text_cmp)
              (sym (
                compare_more _ _ (
                  read_from-lt (n * 10 + (x - 48)) (n * 10 + (c - 48)) t s (omega arith)
                    (omega arith) t_digits)))
        | inr not_more ↦
            let equal : x ≡ c = ground arith in
            rw (equal, compare_same c, text_cmp)
              (text_cmp-read_from (n * 10 + (c - 48)) s t same s_digits t_digits)
      ]
    ]

-- The first digit of a trimmed text is not 0.
abbrev pub Trimmed : Text → Type 0
Trimmed [] = Unit {0}
Trimmed (c ∷ s) = c ≢ 48

pub trim_zeros-Trimmed : (s : Text) → Trimmed (trim_zeros s)
unfolding trim_zeros
trim_zeros-Trimmed [] = tt
trim_zeros-Trimmed (c ∷ s) = elim (Bool-cases (c == 48)) [
  | inl z ↦ rw z (trim_zeros-Trimmed s)
  | inr n ↦ rw n (ground arith)
]

shorter_is_less :
    (s t : Text)
    → length s < length t
    → Trimmed t
    → all is_ascii_digit s ≡ true
    → all is_ascii_digit t ≡ true
    → read_decimal s < read_decimal t
shorter_is_less s [] h z d e = omega arith
shorter_is_less s (c ∷ t) h z d e =
    let bounds = digit_bounds c (ground arith) in
    let positive : 0 < 0 * 10 + (c - 48) = ground arith in
    read_from-lt 0 (0 * 10 + (c - 48)) s t positive (omega arith) d

Trimmed-cmp :
    (s t : Text)
    → Trimmed s
    → Trimmed t
    → all is_ascii_digit s ≡ true
    → all is_ascii_digit t ≡ true
    → then_with (compare (length s) (length t)) (text_cmp s t)
      ≡ compare (read_decimal s) (read_decimal t)
Trimmed-cmp s t ps pt d e = elim (Bool-cases (ltb (length s) (length t))) [
  | inl less ↦
      let below : length s < length t = ground arith in
      rw (compare_less _ _ below) (sym (compare_less _ _ (shorter_is_less s t below pt d e)))
  | inr not_less ↦ elim (Bool-cases (ltb (length t) (length s))) [
    | inl more ↦
        let above : length t < length s = ground arith in
        rw (compare_more _ _ above) (sym (compare_more _ _ (shorter_is_less t s above ps e d)))
    | inr not_more ↦
        let same : length t ≡ length s = ground arith in
        rw (same, compare_same (length s)) (text_cmp-read_from 0 s t (sym same) d e)
  ]
]

-- For texts of digits, leading zeros or not and however long, the comparison is that of the numbers.
pub compare_decimal_integers_lem :
    (left right : Text)
    → all is_ascii_digit left ≡ true
    → all is_ascii_digit right ≡ true
    → compare_decimal_integers left right ≡ compare (read_decimal left) (read_decimal right)
unfolding compare_decimal_integers
compare_decimal_integers_lem left right d e =
    Trimmed-cmp (trim_zeros left) (trim_zeros right) (trim_zeros-Trimmed left)
      (trim_zeros-Trimmed right) (all-trim_zeros is_ascii_digit left d)
      (all-trim_zeros is_ascii_digit right e)
    ∙ rw (read_decimal-trim_zeros left, read_decimal-trim_zeros right) refl

read_from-replicate : (n k : ℕ) → read_from n (replicate k 48) ≡ n * 10 ^ k
read_from-replicate n zero = omega arith
read_from-replicate n (suc k) =
    let next : n * 10 + (48 - 48) ≡ n * 10 = omega arith in
    let power : 10 ^ suc k ≡ 10 * 10 ^ k = pow-suc 10 k ∙ mul_comm (10 ^ k) 10 in
    read_from-replicate (n * 10 + (48 - 48)) k
    ∙ (ap (λ (t : ℕ). t * 10 ^ k) next
        ∙ (mul_assoc n 10 (10 ^ k) ∙ ap (λ (t : ℕ). n * t) (sym power)))

all-replicate : (k : ℕ) → all is_ascii_digit (replicate k 48) ≡ true
all-replicate zero = refl
all-replicate (suc k) = all-replicate k

read_decimal-scaled : (s : Text) (k : ℕ) → read_decimal (scaled s k) ≡ read_decimal s * 10 ^ k
read_decimal-scaled s k =
    read_from-append 0 (trim_zeros s) (replicate k 48)
    ∙ (read_from-replicate (read_decimal (trim_zeros s)) k
        ∙ ap (λ (n : ℕ). n * 10 ^ k) (read_decimal-trim_zeros s))

-- For texts of digits with their counts of decimal places, the comparison is that of the two numbers
-- brought to the larger count.
pub compare_scaled_amounts_lem :
    (left : Text) (left_decimals : ℕ) (right : Text) (right_decimals : ℕ)
    → all is_ascii_digit left ≡ true
    → all is_ascii_digit right ≡ true
    → compare_scaled_amounts left left_decimals right right_decimals
      ≡ compare
          (read_decimal left * 10 ^ (max left_decimals right_decimals - left_decimals))
          (read_decimal right * 10 ^ (max left_decimals right_decimals - right_decimals))
unfolding compare_scaled_amounts
compare_scaled_amounts_lem left ld right rd d e =
    let k = max ld rd - ld in
    let m = max ld rd - rd in
    compare_decimal_integers_lem (scaled left k) (scaled right m)
      (all-append is_ascii_digit (trim_zeros left) (replicate k 48)
        (all-trim_zeros is_ascii_digit left d) (all-replicate k))
      (all-append is_ascii_digit (trim_zeros right) (replicate m 48)
        (all-trim_zeros is_ascii_digit right e) (all-replicate m))
    ∙ rw (read_decimal-scaled left k, read_decimal-scaled right m) refl
