-- ===== src/Mcp/Admin/Stored.antt =====
-- What an operator's level is after it was stored (crates/mcp/src/admin.rs, `set_level`).
use nofomo.Prelude.{
  arith, ℕ, ◌^◌, ◌<◌, ◌≤◌, ◌≡◌, refl, sym, ap, Bool, not, Text, msg, text_eq, to_ascii_lowercase,
  [], ◌∷◌, All, Bool-cases, Option-cases, inl, inr, Option, none, some, Result, ok, bail_if,
  some_or, some_or-ok, context, context-ok, ltb, bind-eq-ok, ok-injective,
}
use mathlib.Core.Path.{subst}
use nofomo.Price.Gates.{PricePair}
use nofomo.Domain.Units.{parse_units_string}
use nofomo.Strategy.Level.{Strategy, Level, StrategyLevel, side_of_name, trade_direction}
use nofomo.Trigger.Resolver.{RegisteredToken, Table, TokenResolver, get, lookup_key, find_token}
use mathlib.Core.Option
use mathlib.Core.Option.{none-ne-some}
use nofomo.Trigger.Resolver.Decimals.{IsSupported}
use nofomo.Trigger.Authoring.{
  LevelDraft, token, validate_strategy_model, validate_level, validate_stored_level,
}
use nofomo.Trigger.Authoring.Startup.{validate_stored_level-validate_level}
use nofomo.Storage.Strategy.{Tables, Codec, IsFaithful}
use nofomo.Storage.Strategy.Statements.{get_strategy, upsert_level, get_level}
use nofomo.Storage.Strategy.Statements.Integrity.{WellFormed}
use nofomo.Storage.Strategy.Statements.Reads.{Fits, get_level-upsert_level}
use nofomo.Mcp.Admin.{LevelView, level_view, set_level}

some-same : {A : Type 0} {a b : A} → some a ≡ some b → a ≡ b
some-same h = cc

get-All :
    {A : Type 0} (P : A → Type 0) (m : Table A) (k : Text) {v : A}
    → All (λ (entry : Text × A). P entry.1) m
    → get m k ≡ some v
    → P v
unfolding get
get-All P [] k all h = cc
get-All P ((j, w) ∷ m) k all h = elim (Bool-cases (text_eq j k)) [
  | inl same ↦ subst P (some-same (rw same at h)) all.0
  | inr other ↦ get-All P m k all.1 (rw other at h)
]

u8_of : (n : ℕ) → n ≤ 38 → n < 256
u8_of n h = omega arith

token-IsSupported :
    (tokens : TokenResolver) (chain name : Text) {found : RegisteredToken}
    → IsSupported tokens
    → token tokens chain name ≡ ok found
    → found.decimals ≤ 38
unfolding token find_token Option.bind
token-IsSupported tokens chain name {found} all h =
    let looked = some_or-ok _ _ h in
    elim (Option-cases (get tokens (to_ascii_lowercase chain))) [
      | inl missing ↦ absurd (none-ne-some _ (rw missing at looked))
      | inr (table, e) ↦
          get-All (λ (t : RegisteredToken). t.decimals ≤ 38) table (lookup_key name)
            (get-All
              (λ (t : Table RegisteredToken).
                All (λ (entry : Text × RegisteredToken). entry.1.decimals ≤ 38) t)
              tokens (to_ascii_lowercase chain) all e)
            (rw e at looked)
    ]

module _ (tokens : TokenResolver) (supports : PricePair → Bool)
    (u256_from_decimal : Text → Result ℕ) (max_slippage_bps : ℕ) {F : Type 0} where
  -- The level of a draft, as `validate_level` makes it.
  validate_level-Fits :
      (strategy : Strategy) (draft : LevelDraft F) (level : Level F)
      → ((s : Text) (n : ℕ) → u256_from_decimal s ≡ ok n → n < 2 ^ 256)
      → IsSupported tokens
      → draft.slippage_bps < 65536
      → validate_level tokens supports u256_from_decimal max_slippage_bps strategy draft ≡ ok level
      → Fits level × (level.id ≡ draft.id)
  unfolding validate_level
  validate_level-Fits strategy draft level small few u16 h =
      let (u1, e1, h1) = bind-eq-ok (bail_if (not (text_eq draft.strategy_id strategy.id)) _) _ h in
      let (u2, e2, h2) = bind-eq-ok (validate_strategy_model tokens supports strategy) _ h1 in
      let (u3, e3, h3) = bind-eq-ok (bail_if (ltb max_slippage_bps draft.slippage_bps) _) _ h2 in
      let (side, e4, h4) = bind-eq-ok (side_of_name draft.side) _ h3 in
      let (input, e5, h5) =
        bind-eq-ok (token tokens strategy.chain (trade_direction strategy side).token_in) _ h4 in
      let (digits, e6, h6) = bind-eq-ok (parse_units_string draft.amount input.decimals) _ h5 in
      let (amount, e7, h7) =
        bind-eq-ok (context (msg "amount does not fit in 256 bits") (u256_from_decimal digits)) _
          h6 in
      subst (λ (l : Level F). Fits l × (l.id ≡ draft.id)) (ok-injective h7)
        (
          record {
            amount = small digits amount (context-ok _ _ e7);
            decimals = u8_of _ (
                token-IsSupported tokens strategy.chain (trade_direction strategy side).token_in few
                  e5);
            slippage = u16;
          },
          refl,
        )

  module _ {V : Type 0} (codec : Codec V F) (faithful : IsFaithful codec) where
    -- A level that an operator stores, whatever other callers have written since the strategy was
    -- read, is read back under the id of the draft as the entry that is shown to the operator, and the
    -- daemon accepts that entry at startup under the same configuration, if the amounts are U256, the
    -- slippage is a u16, no token has more than 38 decimals and the database is well formed.
    pub set_level-Accepted :
        (fault fault' : Option Text) (draft : LevelDraft F) (t t' : Tables F) {view : LevelView F}
        {left : Tables F}
        → WellFormed t'
        → ((s : Text) (n : ℕ) → u256_from_decimal s ≡ ok n → n < 2 ^ 256)
        → IsSupported tokens
        → draft.slippage_bps < 65536
        → set_level codec tokens supports u256_from_decimal max_slippage_bps fault fault' draft t t'
          ≡ ok (view, left)
        → (entry : StrategyLevel F) × (get_level codec none draft.id left ≡ ok (some entry))
          × (validate_stored_level tokens supports max_slippage_bps entry ≡ ok tt)
          × (view ≡ level_view entry)
    unfolding set_level
    set_level-Accepted fault fault' draft t t' {view} {left} sound small few u16 h =
        let (found, e1, h1) = bind-eq-ok (get_strategy fault draft.strategy_id t) _ h in
        let (strategy, e2, h2) = bind-eq-ok (some_or (msg "strategy does not exist") found) _ h1 in
        let (level, e3, h3) =
          bind-eq-ok
            (validate_level tokens supports u256_from_decimal max_slippage_bps strategy draft) _
            h2 in
        let (after, e4, h4) = bind-eq-ok (upsert_level codec fault' level strategy t') _ h3 in
        let done = ok-injective h4 in
        let (fits, id) = validate_level-Fits strategy draft level small few u16 e3 in
        let entry : StrategyLevel F = record { strategy = strategy; level = level } in
        let back : get_level codec none level.id after ≡ ok (some entry) =
          get_level-upsert_level codec faithful fault' level strategy t' sound fits e4 in
        (
          entry,
          subst (λ (u : Tables F). get_level codec none draft.id u ≡ ok (some entry))
              (ap (λ (p : LevelView F × Tables F). p.1) done)
              (subst (λ (i : Text). get_level codec none i after ≡ ok (some entry)) id back),
          validate_stored_level-validate_level tokens supports u256_from_decimal max_slippage_bps
              strategy draft level e3,
          sym (ap (λ (p : LevelView F × Tables F). p.0) done),
        )
