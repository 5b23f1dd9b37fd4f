-- ===== src/Uniswap/Amount/Same.antt =====
-- The comparison of two quantities (crates/uniswap/src/amount.rs, `same_quantity`).
use nofomo.Prelude.{
  ℕ, ◌+◌, ◌-◌, ◌*◌, ◌<◌, ◌≡◌, refl, sym, ap, ◌∙◌, true, false, [], ◌∷◌, ◌++◌, map, Text, Result, ok,
  all, All, All-append, ◌==◌, arith, Bool-cases, inl, inr, Option, none, some, strip_prefix, codes,
  is_ascii_digit, to_ascii_lowercase, lower_byte, bind-eq-ok, ok-injective, ==_iff, text_eq,
  text_eq_iff,
}
use mathlib.Core.List.{reverse, reverse-cons, reverse-reverse}
use nofomo.Domain.Units.{trim_zeros, is_empty}
use nofomo.Domain.Units.Ascii.{all-trim_zeros}
use nofomo.Domain.Units.Digits.{read_from, read_decimal}
use nofomo.Uniswap.Amount.{
  digits_value, sixteens, hex_char, hex_digit, decimal_to_hex, is_ascii_hexdigit,
  normalize_stripped, normalize, same_quantity, validate_decimal_integer,
}
use nofomo.Uniswap.Amount.Hex.{read_hex_from, read_hex}
use nofomo.Uniswap.Amount.Compare.{Trimmed, trim_zeros-Trimmed}
use nofomo.Uniswap.Amount.Quantity.{low_hex, Canon, Canon-unique, sixteens-Canon}

abbrev SmallHex : ℕ → Type 0
SmallHex c = (c ≡ hex_char (hex_digit c)) × (hex_digit c < 16)

lower_byte-SmallHex :
    (c : ℕ)
    → is_ascii_hexdigit c ≡ true
    → SmallHex (lower_byte c) × (hex_digit (lower_byte c) ≡ hex_digit c)
lower_byte-SmallHex c h = ground arith

Canon-last :
    (s : Text) (c : ℕ)
    → All SmallHex s
    → SmallHex c
    → 0 < hex_digit c
    → Canon (s ++ (c ∷ [])) × (0 < low_hex (s ++ (c ∷ [])))
Canon-last [] c h k p = ((k.0, k.1, omega arith, tt), omega arith)
Canon-last (d ∷ s) c h k p =
    let (canon, positive) = Canon-last s c h.1 k p in
    ((h.0.0, h.0.1, omega arith, canon), omega arith)

All-reverse : (P : ℕ → Type 0) (s : Text) → All P s → All P (reverse s)
All-reverse P [] h = tt
All-reverse P (c ∷ s) h =
    rw (reverse-cons c s) (All-append P (reverse s) (c ∷ []) (All-reverse P s h.1) (h.0, tt))

Trimmed-Canon : (t : Text) → All SmallHex t → Trimmed t → Canon (reverse t)
Trimmed-Canon [] h k = tt
Trimmed-Canon (c ∷ s) h k =
    let positive : 0 < hex_digit c = ground (arith, h.0) in
    rw (reverse-cons c s) (Canon-last (reverse s) c (All-reverse SmallHex s h.1) h.0 positive).0

read_hex_from-last :
    (n : ℕ) (s : Text) (c : ℕ)
    → read_hex_from n (s ++ (c ∷ [])) ≡ read_hex_from n s * 16 + hex_digit c
read_hex_from-last n [] c = refl
read_hex_from-last n (d ∷ s) c = read_hex_from-last (n * 16 + hex_digit d) s c

read_hex-reverse : (s : Text) → read_hex (reverse s) ≡ low_hex s
read_hex-reverse [] = refl
read_hex-reverse (c ∷ s) =
    rw (reverse-cons c s) (read_hex_from-last 0 (reverse s) c ∙ omega (arith, read_hex-reverse s))

low_hex-reverse : (s : Text) → low_hex (reverse s) ≡ read_hex s
low_hex-reverse s = sym (read_hex-reverse (reverse s)) ∙ ap read_hex (reverse-reverse s)

-- Lower case and no leading zeros: the same number.
lower-All : (s : Text) → all is_ascii_hexdigit s ≡ true → All SmallHex (map lower_byte s)
lower-All [] h = tt
lower-All (c ∷ s) h = ((lower_byte-SmallHex c (ground arith)).0, lower-All s (ground arith))

read_hex_from-lower :
    (n : ℕ) (s : Text)
    → all is_ascii_hexdigit s ≡ true
    → read_hex_from n (map lower_byte s) ≡ read_hex_from n s
read_hex_from-lower n [] h = refl
read_hex_from-lower n (c ∷ s) h =
    let same : n * 16 + hex_digit (lower_byte c) ≡ n * 16 + hex_digit c =
      omega (arith, (lower_byte-SmallHex c (ground arith)).1) in
    ap (λ (m : ℕ). read_hex_from m (map lower_byte s)) same
    ∙ read_hex_from-lower (n * 16 + hex_digit c) s (ground arith)

Trimmed-lower : (s : Text) → Trimmed s → Trimmed (map lower_byte s)
Trimmed-lower [] h = tt
Trimmed-lower (c ∷ s) h = ground arith

read_hex-trim_zeros : (s : Text) → read_hex (trim_zeros s) ≡ read_hex s
unfolding trim_zeros
read_hex-trim_zeros [] = refl
read_hex-trim_zeros (c ∷ s) = elim (Bool-cases (c == 48)) [
  | inl z ↦
      let e : 0 * 16 + hex_digit c ≡ 0 = ground arith in
      rw z (read_hex-trim_zeros s ∙ ap (λ (n : ℕ). read_hex_from n s) (sym e))
  | inr n ↦ rw n refl
]

digits_value-read_from :
    (n : ℕ) (s : Text) → digits_value n (map (λ (byte : ℕ). byte - 48) s) ≡ read_from n s
digits_value-read_from n [] = refl
digits_value-read_from n (c ∷ s) = digits_value-read_from (n * 10 + (c - 48)) s

-- The number of a quantity: hexadecimal after `0x`, decimal otherwise.
abbrev stripped_quantity : Text → Option Text → ℕ
stripped_quantity value (some hex) = read_hex hex
stripped_quantity value none = read_decimal value

abbrev pub quantity : Text → ℕ
quantity value = stripped_quantity value (strip_prefix (codes "0x") value)

abbrev StrippedIsQuantity : Text → Option Text → Type 0
StrippedIsQuantity value (some hex) = (is_empty hex ≡ false) × (all is_ascii_hexdigit hex ≡ true)
StrippedIsQuantity value none = (is_empty value ≡ false) × (all is_ascii_digit value ≡ true)

-- Digits, at least one: hexadecimal after `0x`, decimal otherwise.
abbrev pub IsQuantity : Text → Type 0
IsQuantity value = StrippedIsQuantity value (strip_prefix (codes "0x") value)

-- What the comparison brings a quantity to.
abbrev Normal : Result Text → ℕ → Type 0
Normal r n = (out : Text) × (r ≡ ok out) × Canon (reverse out) × (low_hex (reverse out) ≡ n)

normalize_stripped-Normal :
    (value : Text) (stripped : Option Text)
    → StrippedIsQuantity value stripped
    → Normal (normalize_stripped value stripped) (stripped_quantity value stripped)
unfolding normalize_stripped decimal_to_hex validate_decimal_integer to_ascii_lowercase
normalize_stripped-Normal value (some hex) (full, digits) =
    let trimmed = trim_zeros hex in
    let trimmed_digits = all-trim_zeros is_ascii_hexdigit hex digits in
    (
      map lower_byte trimmed,
      rw (full, digits) refl,
      Trimmed-Canon (map lower_byte trimmed) (lower-All trimmed trimmed_digits)
          (Trimmed-lower trimmed (trim_zeros-Trimmed hex)),
      low_hex-reverse (map lower_byte trimmed)
          ∙ (read_hex_from-lower 0 trimmed trimmed_digits ∙ read_hex-trim_zeros hex),
    )
normalize_stripped-Normal value none (full, digits) =
    let numbers = map (λ (byte : ℕ). byte - 48) value in
    let (canon, sum) = sixteens-Canon (digits_value 0 numbers) numbers (omega arith) in
    let back = reverse-reverse (sixteens (digits_value 0 numbers) numbers) in
    (
      reverse (sixteens (digits_value 0 numbers) numbers),
      rw (full, digits) refl,
      rw back canon,
      rw back (sum ∙ digits_value-read_from 0 value),
    )

text_eq-Canon :
    (l r : Text)
    → Canon (reverse l)
    → Canon (reverse r)
    → text_eq l r ≡ (low_hex (reverse l) == low_hex (reverse r))
text_eq-Canon l r h k = elim (Bool-cases (text_eq l r)) [
  | inl same ↦ let e : l ≡ r = (text_eq_iff l r).0 same in rw e (ground (arith, text_eq_iff r r))
  | inr other ↦ elim (Bool-cases (low_hex (reverse l) == low_hex (reverse r))) [
    | inl equal ↦
        let low = Canon-unique (reverse l) (reverse r) h k (ground arith) in
        let e : l ≡ r = sym (reverse-reverse l) ∙ (ap reverse low ∙ reverse-reverse r) in
        absurd (ground (arith, text_eq_iff l r))
    | inr differ ↦ other ∙ sym differ
  ]
]

-- For two quantities, each of hexadecimal digits after `0x` or of decimal digits, at least one and
-- however many, the call succeeds and says whether they are the same number.
pub same_quantity_lem :
    (left right : Text)
    → IsQuantity left
    → IsQuantity right
    → same_quantity left right ≡ ok (quantity left == quantity right)
unfolding same_quantity normalize
same_quantity_lem left right h k =
    let (l, run_l, canon_l, sum_l) =
      normalize_stripped-Normal left (strip_prefix (codes "0x") left) h in
    let (r, run_r, canon_r, sum_r) =
      normalize_stripped-Normal right (strip_prefix (codes "0x") right) k in
    rw (run_l, run_r, text_eq-Canon l r canon_l canon_r, sum_l, sum_r) refl

normalize_stripped-ok :
    (value : Text) (stripped : Option Text) {out : Text}
    → normalize_stripped value stripped ≡ ok out
    → StrippedIsQuantity value stripped
unfolding normalize_stripped decimal_to_hex validate_decimal_integer
normalize_stripped-ok value (some hex) h = (ground arith, ground arith)
normalize_stripped-ok value none h = (ground arith, ground arith)

-- Texts that pass as the same quantity are two quantities of one number.
pub same_quantity_sound :
    (left right : Text)
    → same_quantity left right ≡ ok true
    → IsQuantity left × IsQuantity right × (quantity left ≡ quantity right)
unfolding same_quantity normalize
same_quantity_sound left right h =
    let (l, run_l, h_l) =
      bind-eq-ok (normalize_stripped left (strip_prefix (codes "0x") left)) _ h in
    let (r, run_r, h_r) =
      bind-eq-ok (normalize_stripped right (strip_prefix (codes "0x") right)) _ h_l in
    let left_is = normalize_stripped-ok left (strip_prefix (codes "0x") left) run_l in
    let right_is = normalize_stripped-ok right (strip_prefix (codes "0x") right) run_r in
    let tested = sym (same_quantity_lem left right left_is right_is) ∙ h in
    (left_is, right_is, (==_iff (quantity left) (quantity right)).0 (ok-injective tested))
