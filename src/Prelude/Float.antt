-- ===== src/Prelude/Float.antt =====
-- The operations on `f64` that the program uses, as a parameter: a carrier with the tests and the
-- arithmetic of IEEE 754. No law is assumed.
use mathlib.Core.Bool.{Bool}
use mathlib.Core.Option.{Option}
use Prim.Native.Nat.{ℕ}
use nofomo.Prelude.Bytes.{Text}

pub record Float : Type 1 where
  pub F64 : Type 0
  pub le : F64 → F64 → Bool
  pub lt : F64 → F64 → Bool
  pub sub : F64 → F64 → F64
  pub mul : F64 → F64 → F64
  pub div : F64 → F64 → F64
  pub abs : F64 → F64
  pub is_finite : F64 → Bool
  pub of_ℕ : ℕ → F64
  pub parse : Text → Option F64
