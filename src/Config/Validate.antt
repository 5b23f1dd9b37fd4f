-- ===== src/Config/Validate.antt =====
-- The validation of a configuration (crates/config/src/lib.rs, `Config::validate`). How a URL is read,
-- and the files of the keys, are parameters; white space is that of ASCII.
pub mod Decimals
use nofomo.Prelude.{
  ℕ, ◌+◌, ◌-◌, ◌%◌, Bool, true, false, not, ◌&&◌, ◌||◌, ◌++◌, List, [], ◌∷◌, Text, codes, msg,
  text_eq, strip_prefix, is_ascii_digit, Option, none, some, Result, ok, err, ◌>>=◌, ◌>>◌, context,
  some_or, bail_if, any, all, is_none, ltb, leb, ◌==◌, length, if◌then◌else◌,
}
use mathlib.Core.List.{reverse}
use mathlib.Core.Option
use nofomo.Prelude.Decimal.{to_decimal}
use nofomo.Domain.Units.{trim, is_empty, is_space}
use nofomo.Domain.CoinType.{normalize_coin_type}
use nofomo.Config.{Config, EvmChain, EvmToken, SuiCoin, PriceRef}

-- The scheme of a URL, and whether it has a host (`reqwest::Url::parse`); what a key file holds and its
-- mode, or the error of the file system.
pub record Outside : Type 0 where
  pub parse_url : Text → Result (Text × Bool)
  pub read_to_string : Text → Result Text
  pub mode : Text → Result ℕ

-- `Path::is_absolute` on unix
abbrev is_absolute : Text → Bool
is_absolute path = not (is_none (strip_prefix (codes "/") path))

abbrev is_supported_evm_chain : ℕ → Bool
is_supported_evm_chain id =
    (id == 1) || (id == 8453) || (id == 42161) || (id == 130) || (id == 4663)

abbrev is_upper : ℕ → Bool
is_upper c = leb 65 c && leb c 90

abbrev is_hex : ℕ → Bool
is_hex c = is_ascii_digit c || leb 97 c && leb c 102 || leb 65 c && leb c 70

abbrev upper_byte : ℕ → ℕ
upper_byte c = if leb 97 c && leb c 122 then c - 32 else c

abbrev same_symbol : Text → Text → Bool
same_symbol [] [] = true
same_symbol (a ∷ s) (b ∷ t) = (upper_byte a == upper_byte b) && same_symbol s t
same_symbol _ _ = false

validate_hex_address : Text → Result (Unit {0})
validate_hex_address value = do
  raw ← some_or (msg "expected a 0x-prefixed hex address") (strip_prefix (codes "0x") value)
  bail_if (not (length raw == 40) || not (all is_hex raw))
      (msg "expected a 20-byte 0x-prefixed hex address")

validate_env_name : Text → Result (Unit {0})
validate_env_name value =
    bail_if (is_empty value || not (all (λ c. is_upper c || is_ascii_digit c || (c == b'_')) value))
      (msg "expected an uppercase environment variable name")

-- `split_once('.').unwrap_or((value, ""))`
abbrev at_point : Text → Text × Text
at_point [] = ([], [])
at_point (c ∷ s) = let rest = at_point s in if c == b'.' then ([], s) else (c ∷ rest.0, rest.1)

validate_positive_decimal : Text → Result (Unit {0})
validate_positive_decimal value =
    let whole = (at_point value).0 in
    let fraction = (at_point value).1 in
    bail_if
      (is_empty whole
        || not (all is_ascii_digit whole)
        || not (all is_ascii_digit fraction)
        || all (λ c. (c == b'0') || (c == b'.')) value)
      (msg "expected a positive decimal string")

-- `split("::")`, with the part so far.
abbrev split_parts : Text → Text → List Text
split_parts part [] = reverse part ∷ []
split_parts part (a ∷ []) = reverse (a ∷ part) ∷ []
split_parts part (a ∷ b ∷ s) =
    let cut = split_parts [] s in
    let on = split_parts (a ∷ part) (b ∷ s) in
    if (a == b':') && (b == b':') then reverse part ∷ cut else on

-- `parts[0].starts_with("0x")`
abbrev has_address : List Text → Bool
has_address [] = false
has_address (part ∷ parts) = not (is_none (strip_prefix (codes "0x") part))

-- `domain::validate_coin_type`
validate_coin_type : Text → Result (Unit {0})
validate_coin_type coin_type =
    let parts = split_parts [] coin_type in
    bail_if (ltb (length parts) 3 || not (has_address parts) || any is_empty parts)
      (coin_type ++ msg " is not a fully-qualified Sui coin type")

module _ (outside : Outside) where
  open outside use {parse_url, read_to_string, mode}

  validate_http_url : Text → Result (Unit {0})
  validate_http_url value = do
    url ← context (msg "invalid URL") (parse_url value)
    bail_if (not (text_eq url.0 (codes "http") || text_eq url.0 (codes "https")) || not url.1)
        (msg "expected an http(s) URL with a host")

  validate_https_url : Text → Result (Unit {0})
  unfolding validate_http_url
  validate_https_url value = do
    validate_http_url value
    bail_if (is_none (strip_prefix (codes "https://") value))
        (msg "HTTPS is required for API credentials")

  -- `mode & 0o077 != 0`
  validate_private_permissions : Text → Result (Unit {0})
  validate_private_permissions path = do
    found ← mode path
    bail_if (not (found % 64 == 0)) (path ++ msg " must not be readable by group or others")

  validate_key_file : Text → Result (Unit {0})
  unfolding validate_private_permissions
  validate_key_file path = do
    bail_if (not (is_absolute path)) (msg "must be an absolute path")
    contents ← context (msg "cannot read key file " ++ path) (read_to_string path)
    bail_if (is_empty (trim contents)) (msg "key file " ++ path ++ msg " is empty")
    validate_private_permissions path

  -- The loop over the keys, with the paths seen.
  check_keys : List (Text × Text) → List Text → Result (Unit {0})
  unfolding validate_key_file
  check_keys [] seen = ok tt
  check_keys ((name, path) ∷ keys) seen = do
    context name (validate_key_file path)
    bail_if (any (text_eq path) seen)
        (msg "each chain family needs its own key file, but " ++ path ++ msg " is shared")
    check_keys keys (path ∷ seen)

  validate_keys : Config → Result (Unit {0})
  unfolding check_keys
  validate_keys config = do
    let evm : Text × Text = (codes "keys.evm", config.keys.evm)
    keys ←
        if config.sui.enabled
        then (do
          sui ← some_or (msg "keys.sui is required while sui.enabled is true") config.keys.sui
          ok (evm ∷ (codes "keys.sui", sui) ∷ []))
        else ok (evm ∷ [])
    check_keys keys []

  -- The loop over the tokens of a chain, with the symbols seen.
  check_tokens : Text → List (Text × EvmToken) → List Text → Result (Unit {0})
  unfolding validate_hex_address
  check_tokens chain [] symbols = ok tt
  check_tokens chain ((symbol, token) ∷ tokens) symbols = do
    bail_if (any (same_symbol symbol) symbols)
        (chain ++ msg " configures token " ++ symbol ++ msg " more than once")
    bail_if (ltb 38 token.decimals)
        (symbol ++ msg " on " ++ chain ++ msg " has unsupported decimals")
    context (symbol ++ msg " address on " ++ chain) (validate_hex_address token.address)
    check_tokens chain tokens (symbol ∷ symbols)

  -- The loop over the chains, with the ids seen.
  check_chains : List EvmChain → List ℕ → Result (Unit {0})
  unfolding validate_http_url check_tokens
  check_chains [] ids = ok tt
  check_chains (chain ∷ chains) ids = do
    bail_if (not (is_supported_evm_chain chain.chain_id)) (
        msg "unsupported chain "
        ++ to_decimal chain.chain_id
        ++ msg ": supported chains are Ethereum, Base, Arbitrum, Unichain and Robinhood Chain")
    bail_if (any (λ id. id == chain.chain_id) ids)
        (msg "duplicate EVM chain ID " ++ to_decimal chain.chain_id)
    bail_if (is_empty (trim chain.name)) (msg "EVM chain name must not be empty")
    context (chain.name ++ msg " RPC URL") (validate_http_url chain.rpc_url)
    bail_if (any is_space chain.graph_subgraph_id)
        (chain.name ++ msg " has an invalid Graph subgraph ID")
    bail_if (ltb (length chain.tokens) 2) (chain.name ++ msg " must configure at least two tokens")
    check_tokens chain.name chain.tokens []
    check_chains chains (chain.chain_id ∷ ids)

  check_price_ref : Text → Option PriceRef → Result (Unit {0})
  unfolding validate_hex_address
  check_price_ref symbol none = ok tt
  check_price_ref symbol (some reference) = do
    bail_if (not (is_supported_evm_chain reference.chain_id)) (
        msg "sui.coins."
        ++ symbol
        ++ msg ".price_ref points at unsupported chain "
        ++ to_decimal reference.chain_id)
    context (msg "sui.coins." ++ symbol ++ msg ".price_ref.address")
        (validate_hex_address reference.address)

  -- The loop over the coins, with the symbols and the types seen.
  check_coins : List (Text × SuiCoin) → List Text → List Text → Result (Unit {0})
  unfolding validate_coin_type check_price_ref
  check_coins [] symbols coin_types = ok tt
  check_coins ((symbol, coin) ∷ coins) symbols coin_types = do
    bail_if (any (same_symbol symbol) symbols)
        (msg "sui.coins configures " ++ symbol ++ msg " more than once")
    context (msg "sui.coins." ++ symbol ++ msg ".coin_type") (validate_coin_type coin.coin_type)
    bail_if (any (text_eq (normalize_coin_type coin.coin_type)) coin_types)
        (msg "sui.coins maps two symbols onto " ++ coin.coin_type)
    bail_if (ltb 38 coin.decimals) (msg "sui.coins." ++ symbol ++ msg " has unsupported decimals")
    check_price_ref symbol coin.price_ref
    check_coins coins (symbol ∷ symbols) (normalize_coin_type coin.coin_type ∷ coin_types)

  validate_sui_coins : Config → Result (Unit {0})
  unfolding check_coins
  validate_sui_coins config = do
    bail_if (ltb (length config.sui.coins) 2)
        (msg "sui.coins must configure at least two coins to trade between")
    check_coins config.sui.coins [] []

  -- The checks before those of the chains.
  validate_settings : Config → Result (Unit {0})
  unfolding validate_https_url validate_env_name validate_positive_decimal validate_keys
  validate_settings config = do
    bail_if (not (is_absolute config.state_db_path)) (msg "state_db_path must be absolute")
    bail_if (ltb config.quote_ttl_seconds 1 || ltb 3600 config.quote_ttl_seconds)
        (msg "quote_ttl_seconds must be between 1 and 3600")
    bail_if (ltb 10000 config.max_slippage_bps) (msg "max_slippage_bps must not exceed 10000")
    bail_if (ltb config.max_quote_deviation_bps 1 || ltb 10000 config.max_quote_deviation_bps)
        (msg "max_quote_deviation_bps must be between 1 and 10000")
    context (msg "Uniswap API URL") (validate_https_url config.uniswap.api_url)
    context (msg "The Graph Gateway URL") (validate_https_url config.graph.gateway_url)
    context (msg "DexPaprika stream URL") (validate_https_url config.dexpaprika_stream_url)
    context (msg "Uniswap API key env name") (validate_env_name config.uniswap.api_key_env)
    context (msg "The Graph API key env name") (validate_env_name config.graph.api_key_env)
    context (msg "graph.min_pool_tvl_usd") (validate_positive_decimal config.graph.min_pool_tvl_usd)
    bail_if (length config.evm.chains == 0 && not config.sui.enabled)
        (msg "configure at least one EVM chain, or enable Sui")
    validate_keys config

  unfoldable pub validate : Config → Result (Unit {0})
  unfolding validate_settings check_chains validate_sui_coins
  validate config = do
    validate_settings config
    check_chains config.evm.chains []
    if config.sui.enabled
        then (do
          context (msg "Sui RPC URL") (validate_http_url config.sui.rpc_url)
          validate_sui_coins config)
        else ok tt
