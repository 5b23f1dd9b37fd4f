-- ===== src/Uniswap/Amount/Hex.antt =====
-- The number that a hexadecimal text writes (crates/uniswap/src/amount.rs, `hex_to_decimal`).
use mathlib.Core.List.{reverse, reverse-cons}
use nofomo.Prelude.{
  ℕ, zero, suc, ◌+◌, ◌-◌, ◌*◌, ◌/◌, ◌≤◌, ◌≡◌, refl, ap, ◌∙◌, true, false, List, [], ◌∷◌, ◌++◌, map,
  Text, ok, all, ◌==◌, Bool, false, ltb, is_ascii_digit, arith, Bool-cases, inl, inr,
}
use nofomo.Domain.Units.{trim_zeros, or_zero, is_empty}
use nofomo.Domain.Units.Digits.{
  read_from, read_decimal, read_decimal-trim_zeros, read_decimal-or_zero,
}
use nofomo.Domain.Units.Ascii.{all-reverse, all-trim_zeros}
use nofomo.Uniswap.Amount.{
  is_ascii_hexdigit, hex_digit, push_carry, times_sixteen, convert, hex_to_decimal,
}

abbrev pub read_hex_from : ℕ → Text → ℕ
read_hex_from n [] = n
read_hex_from n (c ∷ s) = read_hex_from (n * 16 + hex_digit c) s

abbrev pub read_hex : Text → ℕ
read_hex s = read_hex_from 0 s

-- The number of a list of digits, the last first.
abbrev low : List ℕ → ℕ
low [] = 0
low (d ∷ s) = d + 10 * low s

low-push_carry : (fuel c : ℕ) → c ≤ fuel → low (push_carry fuel c) ≡ c
unfolding push_carry
low-push_carry zero c h = omega arith
low-push_carry (suc fuel) c h = elim (Bool-cases (c == 0)) [
  | inl z ↦ rw z (ground arith)
  | inr n ↦
      let below : c / 10 ≤ fuel = ground arith in
      rw n (omega (arith, low-push_carry fuel (c / 10) below))
]

low-times_sixteen : (s : List ℕ) (carry : ℕ) → low (times_sixteen s carry) ≡ low s * 16 + carry
unfolding times_sixteen
low-times_sixteen [] carry = omega (arith, low-push_carry carry carry (omega arith))
low-times_sixteen (d ∷ s) carry = omega (arith, low-times_sixteen s ((d * 16 + carry) / 10))

low-convert : (s : List ℕ) (hex : Text) → low (convert s hex) ≡ read_hex_from (low s) hex
unfolding convert
low-convert s [] = refl
low-convert s (c ∷ hex) =
    low-convert (times_sixteen s (hex_digit c)) hex
    ∙ ap (λ n. read_hex_from n hex) (low-times_sixteen s (hex_digit c))

read_from-last :
    (n : ℕ) (s : List ℕ) (d : ℕ)
    → read_from n (map (λ (c : ℕ). 48 + c) (s ++ (d ∷ [])))
      ≡ read_from n (map (λ (c : ℕ). 48 + c) s) * 10 + d
read_from-last n [] d = omega arith
read_from-last n (c ∷ s) d = read_from-last (n * 10 + (48 + c - 48)) s d

read_decimal-digits : (s : List ℕ) → read_decimal (map (λ (c : ℕ). 48 + c) (reverse s)) ≡ low s
read_decimal-digits [] = refl
read_decimal-digits (d ∷ s) =
    ap (λ (t : List ℕ). read_decimal (map (λ (c : ℕ). 48 + c) t)) (reverse-cons d s)
    ∙ (read_from-last 0 (reverse s) d ∙ omega (arith, read_decimal-digits s))

abbrev is_digit : ℕ → Bool
is_digit d = ltb d 10

push_carry-digits : (fuel c : ℕ) → all is_digit (push_carry fuel c) ≡ true
unfolding push_carry
push_carry-digits zero c = refl
push_carry-digits (suc fuel) c = elim (Bool-cases (c == 0)) [
  | inl z ↦ rw z refl
  | inr n ↦ rw n (ground (arith, push_carry-digits fuel (c / 10)))
]

times_sixteen-digits : (s : List ℕ) (carry : ℕ) → all is_digit (times_sixteen s carry) ≡ true
unfolding times_sixteen
times_sixteen-digits [] carry = push_carry-digits carry carry
times_sixteen-digits (d ∷ s) carry = ground (arith, times_sixteen-digits s ((d * 16 + carry) / 10))

convert-digits :
    (s : List ℕ) (hex : Text) → all is_digit s ≡ true → all is_digit (convert s hex) ≡ true
unfolding convert
convert-digits s [] h = h
convert-digits s (c ∷ hex) h =
    convert-digits (times_sixteen s (hex_digit c)) hex (times_sixteen-digits s (hex_digit c))

all-digits :
    (s : List ℕ) → all is_digit s ≡ true → all is_ascii_digit (map (λ (c : ℕ). 48 + c) s) ≡ true
all-digits [] h = refl
all-digits (d ∷ s) h = ground (arith, all-digits s)

or_zero-full : (s : Text) → is_empty (or_zero s) ≡ false
or_zero-full [] = refl
or_zero-full (c ∷ s) = refl

all-or_zero : (s : Text) → all is_ascii_digit s ≡ true → all is_ascii_digit (or_zero s) ≡ true
all-or_zero [] h = refl
all-or_zero (c ∷ s) h = h

-- For a text of hexadecimal digits, at least one and however many, the call gives a text of decimal
-- digits, at least one, that writes the same number.
pub hex_to_decimal_lem :
    (hex : Text)
    → is_empty hex ≡ false
    → all is_ascii_hexdigit hex ≡ true
    → (out : Text) × (hex_to_decimal hex ≡ ok out)
      × (is_empty out ≡ false)
      × (all is_ascii_digit out ≡ true)
      × (read_decimal out ≡ read_hex hex)
unfolding hex_to_decimal
hex_to_decimal_lem hex full digits =
    let text = map (λ (c : ℕ). 48 + c) (reverse (convert (0 ∷ []) hex)) in
    (
      or_zero (trim_zeros text),
      rw (full, digits) refl,
      or_zero-full (trim_zeros text),
      all-or_zero (trim_zeros text) (
          all-trim_zeros is_ascii_digit text (
            all-digits (reverse (convert (0 ∷ []) hex))
              (all-reverse is_digit (convert (0 ∷ []) hex) (convert-digits (0 ∷ []) hex refl)))),
      read_decimal-or_zero (trim_zeros text)
          ∙ (read_decimal-trim_zeros text
              ∙ (read_decimal-digits (convert (0 ∷ []) hex) ∙ low-convert (0 ∷ []) hex)),
    )
