-- ===== src/Examples/Amounts.antt =====
-- Decimal amounts (crates/domain/src/model.rs, crates/uniswap/src/amount.rs).
use nofomo.Prelude.{is_ascii_digit, false, all, ◌*◌, ◌-◌, ◌≡◌, refl, Text, codes, ok}
use nofomo.Domain.Units.{is_empty, trim_zeros}
use Prim.Native.Nat.{compare, max}
use nofomo.Prelude.{◌^◌}
use nofomo.Prelude.{◌==◌, strip_prefix, true}
use nofomo.Uniswap.Amount.Same.{quantity, same_quantity_lem}
use nofomo.Uniswap.Amount.{
  same_quantity, hex_to_decimal, compare_decimal_integers, compare_scaled_amounts,
}
use nofomo.Uniswap.Amount.Compare.{compare_decimal_integers_lem, compare_scaled_amounts_lem}
use nofomo.Uniswap.Amount.Hex.{read_hex, hex_to_decimal_lem}
use nofomo.Domain.Units.Digits.{read_decimal}

hex_to_decimal_lem_example :
    (out : Text) × (hex_to_decimal (codes "10000000000000000") ≡ ok out)
    × (is_empty out ≡ false)
    × (all is_ascii_digit out ≡ true)
    × (read_decimal out ≡ read_hex (codes "10000000000000000"))
hex_to_decimal_lem_example = hex_to_decimal_lem (codes "10000000000000000") refl refl

golden_hex : hex_to_decimal (codes "10000000000000000") ≡ ok (codes "18446744073709551616")
unfolding hex_to_decimal trim_zeros
golden_hex = refl

compare_decimal_integers_lem_example :
    compare_decimal_integers (codes "0099") (codes "100")
    ≡ compare (read_decimal (codes "0099")) (read_decimal (codes "100"))
compare_decimal_integers_lem_example =
    compare_decimal_integers_lem (codes "0099") (codes "100") refl refl

compare_scaled_amounts_lem_example :
    compare_scaled_amounts (codes "1000001") 6 (codes "1000000000000000000") 18
    ≡ compare
        (read_decimal (codes "1000001") * 10 ^ (max 6 18 - 6))
        (read_decimal (codes "1000000000000000000") * 10 ^ (max 6 18 - 18))
compare_scaled_amounts_lem_example =
    compare_scaled_amounts_lem (codes "1000001") 6 (codes "1000000000000000000") 18 refl refl

same_quantity_lem_example :
    same_quantity (codes "0x00FF") (codes "255")
    ≡ ok (quantity (codes "0x00FF") == quantity (codes "255"))
unfolding strip_prefix
same_quantity_lem_example =
    same_quantity_lem (codes "0x00FF") (codes "255") (refl, refl) (refl, refl)

golden_quantity : same_quantity (codes "0x0de0b6b3a7640000") (codes "1000000000000000000") ≡ ok true
unfolding same_quantity strip_prefix trim_zeros
golden_quantity = refl
