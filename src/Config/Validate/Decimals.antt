-- ===== src/Config/Validate/Decimals.antt =====
-- The decimals that a validated configuration has (crates/config/src/lib.rs).
use nofomo.Prelude.{
  ℕ, ◌≤◌, ◌≡◌, true, false, not, List, [], ◌∷◌, Text, msg, text_eq, ok, bail_if, bail_if-ok,
  context, bind-eq-ok, any, ltb, length, ◌==◌, All, arith,
}
use nofomo.Domain.CoinType.{normalize_coin_type}
use nofomo.Domain.Units.{trim, is_empty, is_space}
use nofomo.Config.{Config, EvmChain, EvmToken, SuiCoin}
use nofomo.Config.Validate.{
  Outside, validate, validate_settings, validate_http_url, validate_hex_address, validate_coin_type,
  validate_sui_coins, check_chains, check_tokens, check_coins, check_price_ref,
  is_supported_evm_chain, same_symbol,
}

abbrev pub SmallToken : Text × EvmToken → Type 0
SmallToken entry = entry.1.decimals ≤ 38

abbrev pub SmallTokens : EvmChain → Type 0
SmallTokens chain = All SmallToken chain.tokens

abbrev pub SmallCoin : Text × SuiCoin → Type 0
SmallCoin entry = entry.1.decimals ≤ 38

small_of : (n : ℕ) → ltb 38 n ≡ false → n ≤ 38
small_of n h = ground arith

module _ (outside : Outside) where
  check_tokens-Small :
      (chain : Text) (tokens : List (Text × EvmToken)) (symbols : List Text)
      → check_tokens outside chain tokens symbols ≡ ok tt
      → All SmallToken tokens
  unfolding check_tokens
  check_tokens-Small chain [] symbols h = tt
  check_tokens-Small chain ((symbol, token) ∷ tokens) symbols h =
      let (u1, e1, h1) = bind-eq-ok (bail_if (any (same_symbol symbol) symbols) _) _ h in
      let (u2, e2, h2) = bind-eq-ok (bail_if (ltb 38 token.decimals) _) _ h1 in
      let (u3, e3, h3) = bind-eq-ok (context _ (validate_hex_address token.address)) _ h2 in
      (small_of token.decimals (bail_if-ok _ _ e2), check_tokens-Small chain tokens _ h3)

  check_chains-Small :
      (chains : List EvmChain) (ids : List ℕ)
      → check_chains outside chains ids ≡ ok tt
      → All SmallTokens chains
  unfolding check_chains
  check_chains-Small [] ids h = tt
  check_chains-Small (chain ∷ chains) ids h =
      let (u1, e1, h1) = bind-eq-ok (bail_if (not (is_supported_evm_chain chain.chain_id)) _) _ h in
      let (u2, e2, h2) = bind-eq-ok (bail_if (any (λ id. id == chain.chain_id) ids) _) _ h1 in
      let (u3, e3, h3) = bind-eq-ok (bail_if (is_empty (trim chain.name)) _) _ h2 in
      let (u4, e4, h4) = bind-eq-ok (context _ (validate_http_url outside chain.rpc_url)) _ h3 in
      let (u5, e5, h5) = bind-eq-ok (bail_if (any is_space chain.graph_subgraph_id) _) _ h4 in
      let (u6, e6, h6) = bind-eq-ok (bail_if (ltb (length chain.tokens) 2) _) _ h5 in
      let (u7, e7, h7) = bind-eq-ok (check_tokens outside chain.name chain.tokens []) _ h6 in
      (check_tokens-Small chain.name chain.tokens [] e7, check_chains-Small chains _ h7)

  check_coins-Small :
      (coins : List (Text × SuiCoin)) (symbols coin_types : List Text)
      → check_coins outside coins symbols coin_types ≡ ok tt
      → All SmallCoin coins
  unfolding check_coins
  check_coins-Small [] symbols coin_types h = tt
  check_coins-Small ((symbol, coin) ∷ coins) symbols coin_types h =
      let (u1, e1, h1) = bind-eq-ok (bail_if (any (same_symbol symbol) symbols) _) _ h in
      let (u2, e2, h2) = bind-eq-ok (context _ (validate_coin_type coin.coin_type)) _ h1 in
      let (u3, e3, h3) =
        bind-eq-ok (bail_if (any (text_eq (normalize_coin_type coin.coin_type)) coin_types) _) _
          h2 in
      let (u4, e4, h4) = bind-eq-ok (bail_if (ltb 38 coin.decimals) _) _ h3 in
      let (u5, e5, h5) = bind-eq-ok (check_price_ref outside symbol coin.price_ref) _ h4 in
      (small_of coin.decimals (bail_if-ok _ _ e4), check_coins-Small coins _ _ h5)

  pub validate-Small :
      (config : Config)
      → validate outside config ≡ ok tt
      → All SmallTokens config.evm.chains
        × (config.sui.enabled ≡ true → All SmallCoin config.sui.coins)
  unfolding validate validate_sui_coins
  validate-Small config h =
      let (u1, e1, h1) = bind-eq-ok (validate_settings outside config) _ h in
      let (u2, e2, h2) = bind-eq-ok (check_chains outside config.evm.chains []) _ h1 in
      (
        check_chains-Small config.evm.chains [] e2,
        λ on.
            let (u3, e3, h3) =
              bind-eq-ok
                (context (msg "Sui RPC URL") (validate_http_url outside config.sui.rpc_url)) _
                (rw on at h2) in
            let (u4, e4, h4) = bind-eq-ok (bail_if (ltb (length config.sui.coins) 2) _) _ h3 in
            check_coins-Small config.sui.coins [] [] h4,
      )
