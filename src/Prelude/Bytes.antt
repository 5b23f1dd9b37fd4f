-- ===== src/Prelude/Bytes.antt =====
-- Rust strings as the lists of their bytes; a literal is written `codes "…"`. A message that no
-- code reads again is `msg "…"`, which stays shut.
use Prim.Native.Nat.{ℕ, ◌+◌}
use Prim.Native.Char.{code}
use Prim.Native.String.{String}
use mathlib.Core.Path.{◌≡◌, refl}
use mathlib.Core.Logic.{◌↔◌}
use mathlib.Core.Bool.{Bool, true, false, ◌&&◌}
use mathlib.Core.Option.{Option, none, some}
use mathlib.Core.List.{List, [], ◌∷◌, map}
use native.Mathlib.Omega.{arith}
use nofomo.Prelude.Tests.{leb, ◌==◌, if◌then◌else◌}

abbrev pub Text : Type 0
Text = List ℕ

abbrev pub codes : String → Text
codes String.[] = []
codes (String.◌∷◌ c s) = code c ∷ codes s

unfoldable pub msg : String → Text
msg s = codes s

-- `==` on strings
unfoldable pub text_eq : Text → Text → Bool
text_eq [] [] = true
text_eq (a ∷ s) (b ∷ t) = (a == b) && text_eq s t
text_eq _ _ = false

pub text_eq_iff : (s t : Text) → (text_eq s t ≡ true) ↔ (s ≡ t)
unfolding text_eq
text_eq_iff [] [] = ground arith
text_eq_iff [] (b ∷ t) = ground arith
text_eq_iff (a ∷ s) [] = ground arith
text_eq_iff (a ∷ s) (b ∷ t) = ground (arith, text_eq_iff s t)

pub text_eq_refl : (s : Text) → text_eq s s ≡ true
text_eq_refl s = (text_eq_iff s s).1 refl

-- `u8::to_ascii_lowercase`
abbrev pub lower_byte : ℕ → ℕ
lower_byte c = if leb b'A' c && leb c b'Z' then c + 32 else c

-- `str::to_ascii_lowercase`
unfoldable pub to_ascii_lowercase : Text → Text
to_ascii_lowercase s = map lower_byte s

-- `str::eq_ignore_ascii_case`
unfoldable pub eq_ignore_ascii_case : Text → Text → Bool
unfolding to_ascii_lowercase text_eq
eq_ignore_ascii_case s t = text_eq (to_ascii_lowercase s) (to_ascii_lowercase t)

pub eq_ignore_ascii_case_iff :
    (s t : Text) → (eq_ignore_ascii_case s t ≡ true) ↔ (to_ascii_lowercase s ≡ to_ascii_lowercase t)
unfolding eq_ignore_ascii_case
eq_ignore_ascii_case_iff s t = text_eq_iff (map lower_byte s) (map lower_byte t)

abbrev pub is_ascii_digit : ℕ → Bool
is_ascii_digit c = leb b'0' c && leb c b'9'

-- `value.strip_prefix(prefix)`
unfoldable pub strip_prefix : Text → Text → Option Text
strip_prefix [] value = some value
strip_prefix (p ∷ prefix) [] = none
strip_prefix (p ∷ prefix) (c ∷ value) = if p == c then strip_prefix prefix value else none
