-- ===== src/Trigger/Authoring/Startup.antt =====
-- Levels as authored and as read again at startup (crates/trigger/src/authoring.rs).
use nofomo.Prelude.{
  ℕ, ◌≡◌, refl, Bool, true, false, not, Text, msg, text_eq, text_eq_refl, Result, ok, bail_if,
  context, ltb, ◌==◌, arith, bind-eq-ok, bail_if-ok, ok-injective,
}
use mathlib.Core.Path.{subst}
use nofomo.Price.Gates.{PricePair}
use nofomo.Domain.Units.{parse_units_string}
use nofomo.Strategy.Level.{Strategy, Level, side_of_name, trade_direction}
use nofomo.Trigger.Resolver.{RegisteredToken, TokenResolver}
use nofomo.Trigger.Authoring.{
  LevelDraft, token, validate_strategy_model, validate_level, validate_stored_level,
}

num_eq_refl : (n : ℕ) → (n == n) ≡ true
num_eq_refl n = ground arith

accepted :
    (tokens : TokenResolver) (supports : PricePair → Bool) (cap : ℕ) {F : Type 0}
    (strategy : Strategy) (level : Level F) (input : RegisteredToken)
    → level.strategy_id ≡ strategy.id
    → validate_strategy_model tokens supports strategy ≡ ok tt
    → ltb cap level.slippage_bps ≡ false
    → token tokens strategy.chain (trade_direction strategy level.side).token_in ≡ ok input
    → level.amount_decimals ≡ input.decimals
    → validate_stored_level tokens supports cap (record { strategy = strategy; level = level })
      ≡ ok tt
unfolding validate_stored_level
accepted tokens supports cap strategy level input same model small found decimals =
    rw (model, same, text_eq_refl strategy.id, small, found, decimals, num_eq_refl input.decimals)

-- Whatever draft `validate_level` accepts, the daemon accepts the level that it stores: the snapshot
-- of the decimals, the slippage bound and the strategy's own checks agree.
pub validate_stored_level-validate_level :
    (tokens : TokenResolver) (supports : PricePair → Bool) (u256_from_decimal : Text → Result ℕ)
    (max_slippage_bps : ℕ) {F : Type 0} (strategy : Strategy) (draft : LevelDraft F)
    (level : Level F)
    → validate_level tokens supports u256_from_decimal max_slippage_bps strategy draft ≡ ok level
    → validate_stored_level tokens supports max_slippage_bps
        (record { strategy = strategy; level = level })
      ≡ ok tt
unfolding validate_level
validate_stored_level-validate_level tokens supports u256 cap strategy draft level h =
    let (u1, e1, h1) = bind-eq-ok (bail_if (not (text_eq draft.strategy_id strategy.id)) _) _ h in
    let (u2, e2, h2) = bind-eq-ok (validate_strategy_model tokens supports strategy) _ h1 in
    let (u3, e3, h3) = bind-eq-ok (bail_if (ltb cap draft.slippage_bps) _) _ h2 in
    let (side, e4, h4) = bind-eq-ok (side_of_name draft.side) _ h3 in
    let (input, e5, h5) =
      bind-eq-ok (token tokens strategy.chain (trade_direction strategy side).token_in) _ h4 in
    let (digits, e6, h6) = bind-eq-ok (parse_units_string draft.amount input.decimals) _ h5 in
    let (amount, e7, h7) =
      bind-eq-ok (context (msg "amount does not fit in 256 bits") (u256 digits)) _ h6 in
    subst
      (λ l.
        validate_stored_level tokens supports cap (record { strategy = strategy; level = l })
        ≡ ok tt)
      (ok-injective h7)
      (accepted tokens supports cap strategy _ input refl e2 (bail_if-ok _ _ e3) e5 refl)
