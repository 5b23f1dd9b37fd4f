-- ===== src/Domain/Tx.antt =====
-- Transactions by chain family, and the text that stores a signed one (crates/domain/src/tx.rs).
-- What `sui_sdk_types`, `bcs` and `serde_json` do with a Sui transaction is the parameter `SuiSdk`.
use nofomo.Prelude.{ℕ, ◌≡◌, Text, msg, Result, ok, ◌>>=◌, context}

pub data ReceiptStatus : Type 0 where
  pending success reverted : ReceiptStatus

pub data TxContext : Type 0 where
  -- chain_id, nonce, max_fee_per_gas, max_priority_fee_per_gas
  evm_context : ℕ → ℕ → ℕ → ℕ → TxContext
  -- gas_price, gas_budget
  sui_context : ℕ → ℕ → TxContext

pub record EvmTx : Type 0 where
  pub chain_id : ℕ
  pub nonce : ℕ
  pub gas_limit : ℕ
  pub max_fee_per_gas : ℕ
  pub max_priority_fee_per_gas : ℕ
  pub to : Text
  pub value : Text
  pub calldata : Text

pub record SignedEvmTx : Type 0 where
  pub raw : Text
  pub hash : Text

pub record SuiWire : Type 0 where
  pub transaction : Text
  pub signature : Text

pub record SuiSdk : Type 1 where
  pub Transaction : Type 0
  pub Signature : Type 0
  pub digest : Transaction → Text
  pub bcs_to_bytes : Transaction → Result Text
  pub bcs_from_bytes : Text → Result Transaction
  pub signature_to_bytes : Signature → Text
  pub signature_from_bytes : Text → Result Signature
  pub json_to_string : SuiWire → Result Text
  pub json_from_str : Text → Result SuiWire

-- The documented round trips of the three encodings.
pub record IsFaithful (sdk : SuiSdk) : Type 0 where
  pub bcs :
      (t : sdk.Transaction) (b : Text) → sdk.bcs_to_bytes t ≡ ok b → sdk.bcs_from_bytes b ≡ ok t
  pub signatures : (s : sdk.Signature) → sdk.signature_from_bytes (sdk.signature_to_bytes s) ≡ ok s
  pub json : (w : SuiWire) (t : Text) → sdk.json_to_string w ≡ ok t → sdk.json_from_str t ≡ ok w

module _ (sdk : SuiSdk) where
  pub record SignedSuiTx : Type 0 where
    pub transaction : sdk.Transaction
    pub signature : sdk.Signature

  pub data UnsignedTx : Type 0 where
    evm_tx : EvmTx → UnsignedTx
    sui_tx : sdk.Transaction → UnsignedTx

  pub data SignedTx : Type 0 where
    evm_signed : SignedEvmTx → SignedTx
    sui_signed : SignedSuiTx → SignedTx

  -- `SignedSuiTx::to_wire`
  unfoldable pub sui_to_wire : SignedSuiTx → Result Text
  sui_to_wire tx = do
    bytes ← context (msg "cannot encode the Sui transaction") (sdk.bcs_to_bytes tx.transaction)
    context (msg "cannot encode the signed Sui transaction") (
        sdk.json_to_string
          (record { transaction = bytes; signature = sdk.signature_to_bytes tx.signature }))

  -- `SignedSuiTx::from_wire`
  unfoldable pub sui_from_wire : Text → Result SignedSuiTx
  sui_from_wire raw = do
    wire ← context (msg "stored Sui transaction is not valid JSON") (sdk.json_from_str raw)
    transaction ←
        context (msg "stored Sui transaction is not valid BCS")
          (sdk.bcs_from_bytes wire.transaction)
    signature ←
        context (msg "stored Sui signature is unusable") (sdk.signature_from_bytes wire.signature)
    ok (record { transaction = transaction; signature = signature })

  -- `SignedTx::hash`
  unfoldable pub hash : SignedTx → Text
  hash (evm_signed tx) = tx.hash
  hash (sui_signed tx) = sdk.digest tx.transaction

  -- `SignedTx::to_wire`
  unfoldable pub to_wire : SignedTx → Result Text
  unfolding sui_to_wire
  to_wire (evm_signed tx) = ok tx.raw
  to_wire (sui_signed tx) = sui_to_wire tx
