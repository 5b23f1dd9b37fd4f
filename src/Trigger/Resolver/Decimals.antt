-- ===== src/Trigger/Resolver/Decimals.antt =====
-- The decimals of the tokens of a validated configuration (crates/trigger/src/resolver.rs and
-- crates/config/src/lib.rs).
use nofomo.Prelude.{◌≤◌, ◌≡◌, true, List, [], ◌∷◌, Text, ok, All, Bool-cases, inl, inr}
use mathlib.Core.List.{foldl}
use nofomo.Config.{Config, EvmToken, EvmConfig, SuiConfig}
use nofomo.Config.Validate.{Outside, validate}
use nofomo.Config.Validate.Decimals.{SmallTokens, SmallCoin, validate-Small}
use nofomo.Trigger.Resolver.{
  RegisteredToken, Table, TokenResolver, insert, add_evm_chain, add_coin, evm_token, sui_token,
  from_config,
}

-- Every configured token has at most 38 decimals.
abbrev pub IsSupported : TokenResolver → Type 0
IsSupported tokens =
    All
      (λ (chain : Text × Table RegisteredToken).
        All (λ (entry : Text × RegisteredToken). entry.1.decimals ≤ 38) chain.1)
      tokens

foldl-keeps :
    {A B : Type 0} (Inv : B → Type 0) (Good : A → Type 0) (f : B → A → B)
    → ((b : B) (a : A) → Inv b → Good a → Inv (f b a))
    → (xs : List A) (b : B) → All Good xs
    → Inv b
    → Inv (foldl f b xs)
foldl-keeps Inv Good f step [] b all h = h
foldl-keeps Inv Good f step (x ∷ xs) b all h =
    foldl-keeps Inv Good f step xs (f b x) all.1 (step b x h all.0)

abbrev Small : Table RegisteredToken → Type 0
Small table = All (λ (entry : Text × RegisteredToken). entry.1.decimals ≤ 38) table

from_config_lem :
    (evm : EvmConfig) (sui : SuiConfig)
    → All SmallTokens evm.chains
    → (sui.enabled ≡ true → All SmallCoin sui.coins)
    → IsSupported (from_config evm sui)
unfolding from_config add_evm_chain add_coin insert evm_token sui_token
from_config_lem evm sui chains coins =
    let registered : IsSupported (foldl add_evm_chain [] evm.chains) =
      foldl-keeps IsSupported SmallTokens add_evm_chain
        (λ tokens chain h small. (
          foldl-keeps Small (λ (entry : Text × EvmToken). entry.1.decimals ≤ 38) _
              (λ table entry held fits. (fits, held)) chain.tokens [] small tt,
          h,
        ))
        evm.chains [] chains tt in
    elim (Bool-cases sui.enabled) [
      | inl on ↦ rw on (
        foldl-keeps Small SmallCoin add_coin (λ table entry held fits. (fits, (fits, held)))
            sui.coins [] (coins on) tt,
        registered,
      )
      | inr off ↦ rw off registered
    ]

-- No token that the resolver of a validated configuration knows has more than 38 decimals, on the EVM
-- chains and, if Sui is enabled, among its coins.
pub from_config-IsSupported :
    (outside : Outside) (config : Config)
    → validate outside config ≡ ok tt
    → IsSupported (from_config config.evm config.sui)
from_config-IsSupported outside config h =
    let small = validate-Small outside config h in
    from_config_lem config.evm config.sui small.0 small.1
