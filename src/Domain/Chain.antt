-- ===== src/Domain/Chain.antt =====
-- Chain families and ids (crates/domain/src/chain.rs).
use nofomo.Prelude.{
  ℕ, Bool, ◌||◌, ◌++◌, Text, codes, msg, text_eq, to_ascii_lowercase, eq_ignore_ascii_case, Result,
  ok, err, if◌then◌else◌,
}
use nofomo.Prelude.Decimal.{to_decimal}

pub data ChainFamily : Type 0 where
  evm sui : ChainFamily

-- `#[derive(PartialEq)]`
abbrev pub family_eq : ChainFamily → ChainFamily → Bool
family_eq evm evm = Bool.true
family_eq sui sui = Bool.true
family_eq _ _ = Bool.false

-- The CAIP-2 namespace.
unfoldable pub family_name : ChainFamily → Text
family_name evm = codes "eip155"
family_name sui = codes "sui"

is_evm_name : Text → Bool
is_evm_name name =
    text_eq name (codes "eip155")
    || text_eq name (codes "evm")
    || text_eq name (codes "ethereum")
    || text_eq name (codes "base")
    || text_eq name (codes "arbitrum")
    || text_eq name (codes "unichain")
    || text_eq name (codes "robinhood")

unfoldable pub resolve : Text → Result ChainFamily
unfolding is_evm_name
resolve name =
    let lowered = to_ascii_lowercase name in
    if is_evm_name lowered
    then ok evm
    else if text_eq lowered (codes "sui") || text_eq lowered (codes "move")
    then ok sui
    else err (msg "unknown chain family '" ++ lowered ++ msg "'")

pub data ChainId : Type 0 where
  evm_chain : ℕ → ChainId
  sui_chain : ChainId

unfoldable pub family : ChainId → ChainFamily
family (evm_chain n) = evm
family sui_chain = sui

-- The address that stands for the native currency.
abbrev pub native_token_address : Text
native_token_address = codes "0x0000000000000000000000000000000000000000"

unfoldable pub is_native_token : Text → Bool
is_native_token address = eq_ignore_ascii_case address native_token_address

pub data DryRun : Type 0 where
  succeeded : DryRun
  failed : Text → DryRun
  unsupported : DryRun

-- One line for an order's failure reason.
unfoldable pub note : DryRun → Text
note succeeded = msg "dry run succeeded"
note (failed reason) = msg "dry run failed: " ++ reason
note unsupported = msg "not simulated on this chain"

-- `Display` of a chain id.
unfoldable pub chain_name : ChainId → Text
chain_name (evm_chain n) = codes "eip155:" ++ to_decimal n
chain_name sui_chain = codes "sui"
