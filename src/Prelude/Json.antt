-- ===== src/Prelude/Json.antt =====
-- `serde_json::Value` with the operations that the code uses. `get` is a field of an object, `pointer`
-- a path of fields (RFC 6901); both give nothing for other values. `as_str` and `as_u64` give nothing
-- for values of other kinds.
use Prim.Native.Nat.{ℕ}
use mathlib.Core.Bool.{Bool}
use mathlib.Core.List.{List}
use mathlib.Core.Option.{Option}
use nofomo.Prelude.Bytes.{Text}

pub record Json : Type 1 where
  pub Value : Type 0
  pub get : Text → Value → Option Value
  pub pointer : Text → Value → Option Value
  pub as_str : Value → Option Text
  pub as_u64 : Value → Option ℕ
  pub is_null : Value → Bool
  pub print : Value → Text
  -- `json!`
  pub string : Text → Value
  pub number : ℕ → Value
  pub boolean : Bool → Value
  pub array : List Value → Value
  pub object : List (Text × Value) → Value
  -- `serde_json::from_str::<serde_json::Number>`
  pub parse_number : Text → Option Value
