-- ===== src/Uniswap/Amount.antt =====
-- Quantities in hexadecimal and decimal (crates/uniswap/src/amount.rs).
pub mod Hex
pub mod Compare
pub mod Quantity
pub mod Same
use Prim.Native.Nat.{compare, max, Ordering}
use nofomo.Prelude.{
  ℕ, zero, suc, ◌+◌, ◌-◌, ◌*◌, ◌/◌, ◌%◌, Bool, true, false, not, ◌&&◌, ◌||◌, List, [], ◌∷◌, map,
  Text, codes, msg, Result, ok, err, ◌>>=◌, ◌>>◌, bail_if, all, any, length, replicate, ◌++◌, leb,
  ◌==◌, if◌then◌else◌, is_ascii_digit, Option, none, some, strip_prefix, text_eq,
  to_ascii_lowercase,
}
use mathlib.Core.List.{reverse}
use nofomo.Domain.Units.{trim_zeros, or_zero, is_empty}

-- `u8::is_ascii_hexdigit`
abbrev pub is_ascii_hexdigit : ℕ → Bool
is_ascii_hexdigit c = is_ascii_digit c || leb b'a' c && leb c b'f' || leb b'A' c && leb c b'F'

-- `char::to_digit(16)` of a hexadecimal digit
abbrev pub hex_digit : ℕ → ℕ
hex_digit c = if is_ascii_digit c then c - b'0' else if leb b'a' c then c - 87 else c - 55

-- `while carry > 0`, with fuel that is at least the carry.
push_carry : ℕ → ℕ → List ℕ
push_carry zero carry = []
push_carry (suc fuel) carry =
    let rest = push_carry fuel (carry / 10) in if carry == 0 then [] else carry % 10 ∷ rest

-- The loop over the digits, the last first: times 16, plus the carry.
times_sixteen : List ℕ → ℕ → List ℕ
unfolding push_carry
times_sixteen [] carry = push_carry carry carry
times_sixteen (digit ∷ digits) carry =
    let product = digit * 16 + carry in product % 10 ∷ times_sixteen digits (product / 10)

-- The loop over the bytes.
convert : List ℕ → Text → List ℕ
convert digits [] = digits
convert digits (byte ∷ bytes) = convert (times_sixteen digits (hex_digit byte)) bytes

unfoldable pub hex_to_decimal : Text → Result Text
unfolding times_sixteen convert push_carry
hex_to_decimal hex = do
  bail_if (is_empty hex || not (all is_ascii_hexdigit hex)) (msg "expected a hex quantity")
  let text = map (λ digit. b'0' + digit) (reverse (convert (0 ∷ []) hex))
  ok (or_zero (trim_zeros text))

-- `cmp` on strings.
text_cmp : Text → Text → Ordering
text_cmp [] [] = Ordering.eq
text_cmp [] (b ∷ t) = Ordering.lt
text_cmp (a ∷ s) [] = Ordering.gt
text_cmp (a ∷ s) (b ∷ t) =
    let rest = text_cmp s t in
    elim (compare a b) [
      | Ordering.lt ↦ Ordering.lt
      | Ordering.eq ↦ rest
      | Ordering.gt ↦ Ordering.gt
    ]

-- `Ordering::then_with`
abbrev then_with : Ordering → Ordering → Ordering
then_with Ordering.lt other = Ordering.lt
then_with Ordering.eq other = other
then_with Ordering.gt other = Ordering.gt

unfoldable pub compare_decimal_integers : Text → Text → Ordering
unfolding text_cmp
compare_decimal_integers left right =
    let l = trim_zeros left in
    let r = trim_zeros right in then_with (compare (length l) (length r)) (text_cmp l r)

-- A text of digits with zeros after it.
abbrev pub scaled : Text → ℕ → Text
scaled digits places = trim_zeros digits ++ replicate places b'0'

unfoldable pub compare_scaled_amounts : Text → ℕ → Text → ℕ → Ordering
compare_scaled_amounts left left_decimals right right_decimals =
    let decimals = max left_decimals right_decimals in
    compare_decimal_integers (scaled left (decimals - left_decimals))
      (scaled right (decimals - right_decimals))

unfoldable pub validate_decimal_integer : Text → Result (Unit {0})
validate_decimal_integer value =
    bail_if (is_empty value || not (all is_ascii_digit value))
      (msg "expected an unsigned decimal integer")

-- One pass of the division by 16: the digits of the quotient that follow, and the last carry.
-- `started` says that the quotient has a digit already.
divide_sixteen : Bool → ℕ → List ℕ → List ℕ × ℕ
divide_sixteen started carry [] = ([], carry)
divide_sixteen started carry (digit ∷ digits) =
    let current = carry * 10 + digit in
    let push = started || not (current / 16 == 0) in
    let (quotient, last) = divide_sixteen push (current % 16) digits in
    (if push then current / 16 ∷ quotient else quotient, last)

-- `b"0123456789abcdef"[n]`
abbrev pub hex_char : ℕ → ℕ
hex_char n = if leb n 9 then b'0' + n else 87 + n

-- The loop while a digit is not 0: the digits of the result, the last first. The fuel is at least
-- the number that the digits write.
pub sixteens : ℕ → List ℕ → Text
sixteens zero digits = []
sixteens (suc fuel) digits = elim (any (λ digit. not (digit == 0)) digits) [
  | true ↦
      let (quotient, carry) = divide_sixteen false 0 digits in
      hex_char carry ∷ sixteens fuel quotient
  | false ↦ []
]

-- The number that digits write, the first first.
abbrev pub digits_value : ℕ → List ℕ → ℕ
digits_value n [] = n
digits_value n (d ∷ s) = digits_value (n * 10 + d) s

unfoldable pub decimal_to_hex : Text → Result Text
unfolding sixteens divide_sixteen
decimal_to_hex value = do
  validate_decimal_integer value
  let digits = map (λ byte. byte - b'0') value
  ok (reverse (sixteens (digits_value 0 digits) digits))

-- `normalize`, once the prefix `0x` is looked for
normalize_stripped : Text → Option Text → Result Text
unfolding decimal_to_hex validate_decimal_integer to_ascii_lowercase trim_zeros
normalize_stripped value (some hex) = do
  bail_if (is_empty hex || not (all is_ascii_hexdigit hex)) (msg "invalid hex quantity")
  ok (to_ascii_lowercase (trim_zeros hex))
normalize_stripped value none = do validate_decimal_integer value; decimal_to_hex value

normalize : Text → Result Text
unfolding normalize_stripped strip_prefix
normalize value = normalize_stripped value (strip_prefix (codes "0x") value)

unfoldable pub same_quantity : Text → Text → Result Bool
unfolding normalize text_eq
same_quantity left right = do l ← normalize left; r ← normalize right; ok (text_eq l r)
