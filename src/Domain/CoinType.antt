-- ===== src/Domain/CoinType.antt =====
-- Sui coin types (crates/domain/src/chain.rs, `normalize_coin_type`).
use nofomo.Prelude.{
  ◌≡◌, refl, ◌&&◌, [], ◌∷◌, ◌++◌, Text, codes, Option, none, some, ◌==◌, if◌then◌else◌,
}
use mathlib.Core.Option
use nofomo.Domain.Units.{trim_zeros}

-- `split_once("::")`
pub split_colons : Text → Option (Text × Text)
split_colons [] = none
split_colons (a ∷ []) = none
split_colons (a ∷ b ∷ s) =
    let rest = Option.map (λ (p : Text × Text). (a ∷ p.0, p.1)) (split_colons (b ∷ s)) in
    if a == b':' && b == b':' then some ([], s) else rest

-- `trim_start_matches("0x")`
pub trim_0x : Text → Text
trim_0x [] = []
trim_0x (a ∷ []) = a ∷ []
trim_0x (a ∷ b ∷ s) = let rest = trim_0x s in if a == b'0' && b == b'x' then rest else a ∷ b ∷ s

abbrev pub or_zero : Text → Text
or_zero [] = b'0' ∷ []
or_zero (c ∷ s) = c ∷ s

-- The short spelling of an address.
pub short_address : Text → Text
unfolding trim_0x trim_zeros
short_address address = or_zero (trim_zeros (trim_0x address))

normalized : Text → Option (Text × Text) → Text
unfolding short_address
normalized coin_type none = coin_type
normalized coin_type (some (address, rest)) =
    codes "0x" ++ short_address address ++ codes "::" ++ rest

unfoldable pub normalize_coin_type : Text → Text
unfolding split_colons normalized
normalize_coin_type coin_type = normalized coin_type (split_colons coin_type)

padded_and_short :
    (normalize_coin_type (codes "0x0002::sui::SUI") ≡ codes "0x2::sui::SUI")
    × (normalize_coin_type (codes "0x0::a::B") ≡ codes "0x0::a::B")
unfolding normalize_coin_type
padded_and_short = (refl, refl)
