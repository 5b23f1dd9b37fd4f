-- ===== src/Trigger/Resolver.antt =====
-- Configured tokens by chain and name (crates/trigger/src/resolver.rs). A hash map is the list of its
-- entries, the latest insertion first; the entries of a configured map come in any order.
pub mod Decimals
use nofomo.Prelude.{
  ℕ, Bool, List, [], ◌∷◌, Text, codes, text_eq, to_ascii_lowercase, Option, none, some,
  if◌then◌else◌,
}
use mathlib.Core.Option
use mathlib.Core.List.{foldl}
use nofomo.Domain.Chain.{ChainId, evm_chain, sui_chain}
use nofomo.Domain.CoinType.{normalize_coin_type}
use nofomo.Price.Gates.{PricePair}
use nofomo.Config.{EvmToken, EvmChain, EvmConfig, PriceRef, SuiCoin, SuiConfig}
use nofomo.Strategy.Level.{Strategy}

pub record RegisteredToken : Type 0 where
  pub chain : ChainId
  pub chain_name : Text
  pub id : Text
  pub price_ref : Option PricePair
  pub decimals : ℕ  -- u8
  pub usd_peg : Bool

-- A hash map with text keys.
abbrev pub Table : Type 0 → Type 0
Table A = List (Text × A)

unfoldable pub get : {A : Type 0} → Table A → Text → Option A
get [] k = none
get ((j, v) ∷ m) k = if text_eq j k then some v else get m k

unfoldable pub insert : {A : Type 0} → Table A → Text → A → Table A
insert m k v = (k, v) ∷ m

abbrev pub TokenResolver : Type 0
TokenResolver = Table (Table RegisteredToken)

abbrev pub sui_chain_name : Text
sui_chain_name = codes "sui"

-- Move types by their short spelling, and every name in lower case.
unfoldable pub lookup_key : Text → Text
lookup_key name = to_ascii_lowercase (normalize_coin_type name)

evm_token : EvmChain → Text → EvmToken → RegisteredToken
evm_token chain symbol token = record {
  chain = evm_chain chain.chain_id;
  chain_name = chain.name;
  id = symbol;
  price_ref = some (record { chain_id = chain.chain_id; token_address = token.address });
  decimals = token.decimals;
  usd_peg = token.usd_peg;
}

ref_pair : PriceRef → PricePair
ref_pair reference = record { chain_id = reference.chain_id; token_address = reference.address }

sui_token : SuiCoin → RegisteredToken
unfolding ref_pair
sui_token coin = record {
  chain = sui_chain;
  chain_name = sui_chain_name;
  id = normalize_coin_type coin.coin_type;
  price_ref = Option.map ref_pair coin.price_ref;
  decimals = coin.decimals;
  usd_peg = coin.usd_peg;
}

add_evm_chain : TokenResolver → EvmChain → TokenResolver
unfolding insert evm_token
add_evm_chain chains chain = insert chains (to_ascii_lowercase chain.name) (
    foldl
      (λ tokens (entry : Text × EvmToken).
        insert tokens (lookup_key entry.0) (evm_token chain entry.0 entry.1))
      [] chain.tokens)

-- A coin is indexed by its Move type and by its symbol.
add_coin : Table RegisteredToken → Text × SuiCoin → Table RegisteredToken
unfolding insert sui_token
add_coin coins (symbol, coin) =
    let token = sui_token coin in
    insert (insert coins (lookup_key token.id) token) (lookup_key symbol) token

unfoldable pub from_config : EvmConfig → SuiConfig → TokenResolver
unfolding add_evm_chain add_coin
from_config evm sui =
    let chains = foldl add_evm_chain [] evm.chains in
    if sui.enabled then insert chains sui_chain_name (foldl add_coin [] sui.coins) else chains

-- Looks up a symbol or Move type, ignoring case.
unfoldable pub find_token : TokenResolver → Text → Text → Option RegisteredToken
unfolding get lookup_key
find_token tokens chain name =
    Option.bind (get tokens (to_ascii_lowercase chain)) (λ found. get found (lookup_key name))

-- The pair that prices a strategy: its base token's.
unfoldable pub price_pair : TokenResolver → Strategy → Option PricePair
price_pair tokens strategy =
    Option.bind (find_token tokens strategy.chain strategy.base_token) (λ token. token.price_ref)
