-- ===== src/Config.antt =====
-- The application's configuration (crates/config/src/lib.rs). A hash map is the list of its entries,
-- in any order.
pub mod Validate
use nofomo.Prelude.{ℕ, Bool, List, Text, Option}

pub record KeysConfig : Type 0 where
  pub evm : Text
  pub sui : Option Text

pub record UniswapConfig : Type 0 where
  pub api_url : Text
  pub api_key_env : Text

pub record GraphConfig : Type 0 where
  pub gateway_url : Text
  pub api_key_env : Text
  pub min_pool_tvl_usd : Text

pub record EvmToken : Type 0 where
  pub address : Text
  pub decimals : ℕ  -- u8
  pub usd_peg : Bool

pub record EvmChain : Type 0 where
  pub name : Text
  pub chain_id : ℕ  -- u64
  pub rpc_url : Text
  pub graph_subgraph_id : Text
  pub tokens : List (Text × EvmToken)

pub record EvmConfig : Type 0 where
  pub chains : List EvmChain

pub record PriceRef : Type 0 where
  pub chain_id : ℕ
  pub address : Text

pub record SuiCoin : Type 0 where
  pub coin_type : Text
  pub decimals : ℕ
  pub price_ref : Option PriceRef
  pub usd_peg : Bool

pub data SuiNetwork : Type 0 where
  testnet mainnet : SuiNetwork

pub record SuiConfig : Type 0 where
  pub enabled : Bool
  pub network : SuiNetwork
  pub rpc_url : Text
  pub gas_budget : ℕ  -- u64
  pub coins : List (Text × SuiCoin)

pub record Config : Type 0 where
  pub state_db_path : Text
  pub quote_ttl_seconds : ℕ  -- u64
  pub max_slippage_bps : ℕ  -- u16
  pub max_quote_deviation_bps : ℕ  -- u16
  pub dexpaprika_stream_url : Text
  pub uniswap : UniswapConfig
  pub graph : GraphConfig
  pub keys : KeysConfig
  pub evm : EvmConfig
  pub sui : SuiConfig
