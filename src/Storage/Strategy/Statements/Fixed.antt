-- ===== src/Storage/Strategy/Statements/Fixed.antt =====
-- A strategy that has levels (crates/storage/src/strategy.rs, `upsert_strategy`).
use nofomo.Prelude.{
  true, false, not, ◌&&◌, ◌||◌, ◌≡◌, refl, sym, ap, ◌∙◌, List, [], ◌∷◌, Text, text_eq, text_eq_iff,
  Option, none, some, ok, context, bind-eq-ok, ok-injective, err-ne-ok, bail_if, All, any, is_none,
  arith, Bool-cases, Result-cases, inl, inr,
}
use mathlib.Core.Path.{subst}
use nofomo.Strategy.Level.{Strategy}
use nofomo.Storage.Rows.{execute, find_row}
use nofomo.Storage.Rows.Laws.{find_row-put_row, find_row-key}
use nofomo.Storage.Strategy.{
  StrategyRow, LevelRow, Tables, Codec, strategy_row, one_token, same_market,
}
use nofomo.Storage.Strategy.Statements.{
  strategy_key, level_key, has_levels, has_orders, Changed, write_strategy, on_conflict,
  upsert_strategy_row, upsert_strategy, delete_level_row, delete_level, Statement, put_strategy,
  put_level, remove_level, put_order, perform, after,
}
use nofomo.Storage.Strategy.Statements.Inversion.{Has, execute-ok, upsert_level-ok, upsert_order-ok}
use nofomo.Storage.Strategy.Statements.Integrity.{WellFormed}

same_row :
    (old row : StrategyRow) → text_eq old.id row.id ≡ true → same_market old row ≡ true → row ≡ old
same_row old row e h = ground (
  arith,
  text_eq_iff old.id row.id,
  text_eq_iff old.venue row.venue,
  text_eq_iff old.chain row.chain,
  text_eq_iff old.base_token row.base_token,
  text_eq_iff old.quote_token row.quote_token,
)

-- The strategy of a level is stored.
any-Has_strategy :
    {F : Type 0} (strategies : List StrategyRow) (id : Text) (levels : List (LevelRow F))
    → any (λ row. text_eq row.strategy_id id) levels ≡ true
    → All (λ row. Has strategy_key strategies row.strategy_id) levels
    → Has strategy_key strategies id
any-Has_strategy strategies id [] h k = cc
any-Has_strategy strategies id (l ∷ ls) h k = elim (Bool-cases (text_eq l.strategy_id id)) [
  | inl same ↦
      subst (λ (s : Text). Has strategy_key strategies s) ((text_eq_iff l.strategy_id id).0 same)
        k.0
  | inr other ↦ any-Has_strategy strategies id ls (rw other at h) k.1
]

module _ {F : Type 0} (t : Tables F) (id : Text) where
  -- The market of a strategy is what it was.
  abbrev Same : Tables F → Type 0
  Same u = find_row strategy_key id u.strategies ≡ find_row strategy_key id t.strategies

  write_strategy-other :
      (row : StrategyRow) → text_eq row.id id ≡ false → Same (write_strategy t row).1
  unfolding write_strategy
  write_strategy-other row other =
      rw (find_row-put_row strategy_key id row t.strategies, other) refl

  write_strategy-Same :
      (row old : StrategyRow)
      → text_eq row.id id ≡ true
      → find_row strategy_key row.id t.strategies ≡ some old
      → same_market old row ≡ true
      → Same (write_strategy t row).1
  unfolding write_strategy
  write_strategy-Same row old same found market =
      let equal = same_row old row (find_row-key strategy_key row.id t.strategies found) market in
      let at_id : find_row strategy_key id t.strategies ≡ some old =
        subst (λ (k : Text). find_row strategy_key k t.strategies ≡ some old)
          ((text_eq_iff row.id id).0 same) found in
      rw (find_row-put_row strategy_key id row t.strategies, same) (ap some equal ∙ sym at_id)

  on_conflict-Same :
      (row : StrategyRow) (old : Option StrategyRow)
      → find_row strategy_key row.id t.strategies ≡ old
      → Has strategy_key t.strategies id
      → has_levels t id ≡ true
      → Same (on_conflict t row old).1
  unfolding on_conflict
  on_conflict-Same row none found known held = elim (Bool-cases (text_eq row.id id)) [
    | inr other ↦ write_strategy-other row other
    | inl same ↦
        let gone : find_row strategy_key id t.strategies ≡ none =
          subst (λ (k : Text). find_row strategy_key k t.strategies ≡ none)
            ((text_eq_iff row.id id).0 same) found in
        absurd (none_missing (rw gone at known))
  ]
    where
      none_missing : true ≡ false → ⊥
      none_missing e = cc
  on_conflict-Same row (some old) found known held = elim (Bool-cases (text_eq row.id id)) [
    | inr other ↦ elim (Bool-cases (same_market old row || not (has_levels t row.id))) [
      | inl allowed ↦ rw allowed (write_strategy-other row other)
      | inr refused ↦ rw refused refl
    ]
    | inl same ↦
        let held_row : has_levels t row.id ≡ true =
          subst (λ (k : Text). has_levels t k ≡ true) (sym ((text_eq_iff row.id id).0 same)) held in
        elim (Bool-cases (same_market old row)) [
          | inl market ↦ rw market (write_strategy-Same row old same found market)
          | inr differs ↦ rw (differs, held_row) refl
        ]
  ]

  upsert_strategy-Same :
      (fault : Option Text) (strategy : Strategy) {u : Tables F}
      → Has strategy_key t.strategies id
      → has_levels t id ≡ true
      → upsert_strategy fault strategy t ≡ ok u
      → Same u
  unfolding upsert_strategy upsert_strategy_row
  upsert_strategy-Same fault strategy known held run =
      let row = strategy_row strategy in
      let (changed, e1, run1) =
        bind-eq-ok (context _ (execute fault (upsert_strategy_row t row))) _ run in
      let (u2, e2, run2) = bind-eq-ok (bail_if (not changed.0) _) _ run1 in
      let inner = execute-ok _ fault (upsert_strategy_row t row) e1 in
      let (u3, e3, run3) = bind-eq-ok (bail_if (one_token row) _) _ inner in
      let after_is = ap (λ (c : Changed F). c.1) (ok-injective run3) ∙ ok-injective run2 in
      subst Same after_is
        (on_conflict-Same row (find_row strategy_key row.id t.strategies) refl known held)

  delete_level-Same :
      (fault : Option Text) (level : Text) {u : Tables F}
      → delete_level fault level t ≡ ok u
      → Same u
  unfolding delete_level delete_level_row
  delete_level-Same fault level run =
      let inner = execute-ok _ fault (delete_level_row t level) run in
      elim (Bool-cases (has_orders t level && not (is_none (find_row level_key level t.levels)))) [
        | inl held ↦ absurd (err-ne-ok (rw held at inner))
        | inr free ↦ subst Same (ok-injective (rw free at inner)) refl
      ]

  module _ {V : Type 0} (codec : Codec V F) where
    perform-Same :
        (statement : Statement V F) {u : Tables F}
        → WellFormed t
        → has_levels t id ≡ true
        → perform codec statement t ≡ ok u
        → Same u
    unfolding perform
    perform-Same (put_strategy fault strategy) h held run =
        upsert_strategy-Same fault strategy
          (any-Has_strategy t.strategies id t.levels held h.level_strategy) held run
    perform-Same (put_level fault level expected) h held run =
        let (_, after_is, _) = upsert_level-ok codec fault level expected t run in
        subst Same after_is refl
    perform-Same (remove_level fault level) h held run = delete_level-Same fault level run
    perform-Same (put_order fault order) h held run =
        let (_, _, _, _, _, after_is) = upsert_order-ok codec fault order t run in
        subst Same after_is refl

    -- No statement, whether it fails or not, changes the stored market of a strategy that has a level.
    pub after-Same :
        (statement : Statement V F)
        → WellFormed t
        → has_levels t id ≡ true
        → find_row strategy_key id (after codec t (perform codec statement t)).strategies
          ≡ find_row strategy_key id t.strategies
    after-Same statement h held = elim (Result-cases (perform codec statement t)) [
      | inl (u, e) ↦ rw e (perform-Same statement h held e)
      | inr (e, failed) ↦ rw failed refl
    ]
