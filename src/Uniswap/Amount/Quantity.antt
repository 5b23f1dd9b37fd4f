-- ===== src/Uniswap/Amount/Quantity.antt =====
-- The quantity that a hexadecimal or decimal text writes, and the division that writes it in
-- hexadecimal (crates/uniswap/src/amount.rs, `same_quantity` and `decimal_to_hex`).
use nofomo.Prelude.{
  ℕ, zero, suc, ◌+◌, ◌*◌, ◌/◌, ◌%◌, ◌≤◌, ◌<◌, ◌≡◌, refl, sym, ap, ◌∙◌, true, false, List, [], ◌∷◌,
  Text, any, ◌==◌, arith, Bool-cases, inl, inr, Bool, not, ◌||◌, ◌⊎◌,
}
use nofomo.Uniswap.Amount.{divide_sixteen, digits_value, sixteens, hex_char, hex_digit}

-- The number of a text of hexadecimal digits, the last first.
abbrev pub low_hex : Text → ℕ
low_hex [] = 0
low_hex (c ∷ s) = hex_digit c + 16 * low_hex s

-- A text of small hexadecimal digits, the last first, in which no digit is followed by zeros alone.
abbrev pub Canon : Text → Type 0
Canon [] = Unit {0}
Canon (c ∷ s) = (c ≡ hex_char (hex_digit c)) × (hex_digit c < 16) × (0 < low_hex (c ∷ s)) × Canon s

pub Canon-unique : (s t : Text) → Canon s → Canon t → low_hex s ≡ low_hex t → s ≡ t
Canon-unique [] [] h k e = refl
Canon-unique [] (d ∷ t) h k e = absurd (omega arith)
Canon-unique (c ∷ s) [] h k e = absurd (omega arith)
Canon-unique (c ∷ s) (d ∷ t) h k e =
    let digit : hex_digit c ≡ hex_digit d = omega (arith, h.1, k.1) in
    let more : low_hex s ≡ low_hex t = omega (arith, h.1, k.1) in
    let rest = Canon-unique s t h.3 k.3 more in
    let first : c ≡ d = h.0 ∙ (ap hex_char digit ∙ rw (← k.0) refl) in cc

-- Dividing what the digits write, after a quotient `n` that the digits so far gave.
divide_sixteen-value :
    (started : Bool) (n carry : ℕ) (digits : List ℕ)
    → (started ≡ true) ⊎ (n ≡ 0)
    → carry < 16
    → (digits_value n (divide_sixteen started carry digits).0 * 16
          + (divide_sixteen started carry digits).1
        ≡ digits_value (n * 16 + carry) digits)
      × ((divide_sixteen started carry digits).1 < 16)
unfolding divide_sixteen
divide_sixteen-value started n carry [] h k = (refl, k)
divide_sixteen-value started n carry (d ∷ s) h k =
    let current : ℕ = carry * 10 + d in
    elim (Bool-cases (started || not (current / 16 == 0))) [
      | inl push ↦
          let (value, small) =
            divide_sixteen-value true (n * 10 + current / 16) (current % 16) s (inl refl)
              (omega arith) in
          let e : (n * 10 + current / 16) * 16 + current % 16 ≡ (n * 16 + carry) * 10 + d =
            omega arith in
          rw push (value ∙ ap (λ (m : ℕ). digits_value m s) e, small)
      | inr none_yet ↦
          let zero_quotient : current / 16 ≡ 0 = ground arith in
          let zero_before : n ≡ 0 = ground arith in
          let (value, small) =
            divide_sixteen-value false n (current % 16) s (inr zero_before) (omega arith) in
          let e : n * 16 + current % 16 ≡ (n * 16 + carry) * 10 + d = omega arith in
          rw none_yet (value ∙ ap (λ (m : ℕ). digits_value m s) e, small)
    ]

digits_value_least : (n : ℕ) (s : List ℕ) → n ≤ digits_value n s
digits_value_least n [] = omega arith
digits_value_least n (d ∷ s) = omega (arith, digits_value_least (n * 10 + d) s)

-- Some digit is not 0 exactly if the number is not.
any-digits_value :
    (s : List ℕ) → any (λ (digit : ℕ). not (digit == 0)) s ≡ not (digits_value 0 s == 0)
any-digits_value [] = refl
any-digits_value (d ∷ s) = elim (Bool-cases (d == 0)) [
  | inl z ↦ let e : 0 * 10 + d ≡ 0 = ground arith in rw (z, e) (any-digits_value s)
  | inr n ↦
      let positive : 0 < digits_value (0 * 10 + d) s =
        ground (arith, digits_value_least (0 * 10 + d) s) in
      let e : (digits_value (0 * 10 + d) s == 0) ≡ false = ground arith in rw (n, e) refl
]

sixteens_done :
    (fuel : ℕ) (digits : List ℕ)
    → (digits_value 0 digits == 0) ≡ true
    → sixteens (suc fuel) digits ≡ []
unfolding sixteens
sixteens_done fuel digits z = rw (any-digits_value digits, z, sixteens) refl

sixteens_more :
    (fuel : ℕ) (digits : List ℕ)
    → (digits_value 0 digits == 0) ≡ false
    → sixteens (suc fuel) digits
      ≡ hex_char (divide_sixteen false 0 digits).1 ∷ sixteens fuel (divide_sixteen false 0 digits).0
unfolding sixteens
sixteens_more fuel digits n = rw (any-digits_value digits, n, sixteens) refl

pub hex_char_digit : (n : ℕ) → n < 16 → hex_digit (hex_char n) ≡ n
hex_char_digit n h = ground arith

Canon-next :
    (n : ℕ) (s : Text)
    → n < 16
    → 0 < n + 16 * low_hex s
    → Canon s
    → Canon (hex_char n ∷ s) × (low_hex (hex_char n ∷ s) ≡ n + 16 * low_hex s)
Canon-next n s small positive rest =
    let digit = hex_char_digit n small in
    ((ap hex_char (sym digit), omega arith, omega arith, rest), omega arith)

-- With fuel for the number, the loop ends and gives its digits.
pub sixteens-Canon :
    (fuel : ℕ) (digits : List ℕ)
    → digits_value 0 digits ≤ fuel
    → Canon (sixteens fuel digits) × (low_hex (sixteens fuel digits) ≡ digits_value 0 digits)
unfolding sixteens
sixteens-Canon zero digits h = (tt, omega arith)
sixteens-Canon (suc fuel) digits h =
    let (value, small) = divide_sixteen-value false 0 0 digits (inr refl) (omega arith) in
    elim (Bool-cases (digits_value 0 digits == 0)) [
      | inl z ↦ rw (sixteens_done fuel digits z) (tt, ground arith)
      | inr n ↦
          let positive : 0 < digits_value 0 digits = ground arith in
          let (canon, rest) = sixteens-Canon fuel (divide_sixteen false 0 digits).0 (omega arith) in
          let (next, sum) =
            Canon-next (divide_sixteen false 0 digits).1
              (sixteens fuel (divide_sixteen false 0 digits).0) small (omega arith) canon in
          rw (sixteens_more fuel digits n) (next, sum ∙ omega arith)
    ]
