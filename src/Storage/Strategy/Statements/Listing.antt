-- ===== src/Storage/Strategy/Statements/Listing.antt =====
-- The listing of levels (crates/storage/src/strategy.rs, `list_levels`).
use nofomo.Prelude.{
  ◌∙◌, refl, none, Bool-cases, false, ◌≡◌, sym, ap, List, [], ◌∷◌, Text, text_eq, Option, ok,
  context, bind-eq-ok, ok-injective, All, Option-cases, inl, inr,
}
use mathlib.Core.Path.{subst}
use nofomo.Prelude.Keys.{Distinct}
use nofomo.Domain.Model.{venue_of_name}
use nofomo.Strategy.Level.{StrategyLevel, side_of_name}
use nofomo.Trigger.Run.OneLive.{Listed}
use nofomo.Storage.Rows.{execute, find_row}
use nofomo.Storage.Rows.Laws.{
  Distinct-collect, Distinct-sort_rows, All-sort_rows, is_missing, is_missing-collect,
  is_missing-sort_rows,
}
use nofomo.Storage.Strategy.{StrategyRow, LevelRow, Tables, Codec, into_entry, amount_of, try_below}
use nofomo.Storage.Strategy.Statements.{
  strategy_key, level_key, join_row, join_rows, sorted_levels, list_levels,
}
use nofomo.Storage.Strategy.Statements.Inversion.{execute-ok, Has}
use nofomo.Storage.Strategy.Statements.Integrity.{WellFormed}

no_strategy :
    (id : Text) (strategies : List StrategyRow)
    → find_row strategy_key id strategies ≡ none
    → Has strategy_key strategies id
    → ⊥
no_strategy id strategies gone h = cc

module _ {V F : Type 0} (codec : Codec V F) where
  abbrev joined_key : StrategyRow × LevelRow F → Text
  joined_key row = row.1.id

  All-join_rows :
      (P : LevelRow F → Type 0) (strategies : List StrategyRow) (levels : List (LevelRow F))
      → All P levels
      → All (λ (row : StrategyRow × LevelRow F). P row.1) (join_rows codec strategies levels)
  unfolding join_rows
  All-join_rows P strategies [] h = tt
  All-join_rows P strategies (l ∷ ls) h =
      elim (Option-cases (find_row strategy_key l.strategy_id strategies)) [
        | inl gone ↦ rw (gone, join_row) (All-join_rows P strategies ls h.1)
        | inr (s, found) ↦ rw (found, join_row) (h.0, All-join_rows P strategies ls h.1)
      ]

  Distinct-join_rows :
      (strategies : List StrategyRow) (levels : List (LevelRow F))
      → Distinct level_key levels
      → Distinct joined_key (join_rows codec strategies levels)
  unfolding join_rows
  Distinct-join_rows strategies [] h = tt
  Distinct-join_rows strategies (l ∷ ls) h =
      elim (Option-cases (find_row strategy_key l.strategy_id strategies)) [
        | inl gone ↦ rw (gone, join_row) (Distinct-join_rows strategies ls h.1)
        | inr (s, found) ↦
            rw (found, join_row)
              (
                All-join_rows (λ (m : LevelRow F). text_eq l.id m.id ≡ false) strategies ls h.0,
                Distinct-join_rows strategies ls h.1,
              )
      ]

  into_entry-id :
      (row : StrategyRow × LevelRow F) (entry : StrategyLevel F)
      → into_entry codec row ≡ ok entry
      → entry.level.id ≡ row.1.id
  unfolding into_entry
  into_entry-id (s, l) entry run =
      let (venue, e1, run1) = bind-eq-ok (context _ (venue_of_name s.venue)) _ run in
      let (side, e2, run2) = bind-eq-ok (context _ (side_of_name l.side)) _ run1 in
      let (amount, e3, run3) = bind-eq-ok (amount_of codec l.amount _ l.id) _ run2 in
      let (decimals, e4, run4) = bind-eq-ok (try_below _ 256 l.amount_decimals) _ run3 in
      let (slippage, e5, run5) = bind-eq-ok (try_below _ 65536 l.slippage_bps) _ run4 in
      sym (ap (λ (e : StrategyLevel F). e.level.id) (ok-injective run5))

  is_missing-join_rows :
      (k : Text) (strategies : List StrategyRow) (levels : List (LevelRow F))
      → All (λ (row : LevelRow F). Has strategy_key strategies row.strategy_id) levels
      → is_missing joined_key k (join_rows codec strategies levels) ≡ is_missing level_key k levels
  unfolding join_rows find_row
  is_missing-join_rows k strategies [] h = refl
  is_missing-join_rows k strategies (l ∷ ls) h =
      elim (Option-cases (find_row strategy_key l.strategy_id strategies)) [
        | inl gone ↦ absurd (no_strategy l.strategy_id strategies gone h.0)
        | inr (s, found) ↦
            rw (found, join_row)
              (elim (Bool-cases (text_eq l.id k)) [
                | inl e ↦ rw e refl
                | inr e ↦ rw e (is_missing-join_rows k strategies ls h.1)
              ])
      ]

  abbrev pub entry_key : StrategyLevel F → Text
  entry_key entry = entry.level.id

  -- In tables that are well formed, a listing that succeeds has an entry for every stored level and for
  -- no other id, and no two entries under one id.
  pub list_levels-Listed :
      (fault : Option Text) (t : Tables F) {entries : List (StrategyLevel F)}
      → WellFormed t
      → list_levels codec fault t ≡ ok entries
      → Listed entries
        × ((id : Text) → is_missing entry_key id entries ≡ is_missing level_key id t.levels)
  unfolding list_levels
  list_levels-Listed fault t h run =
      let levels = sorted_levels codec t in
      let (rows, e1, run1) =
        bind-eq-ok (context _ (execute fault (ok (join_rows codec t.strategies levels)))) _ run in
      let same = ok-injective (execute-ok _ fault _ e1) in
      let distinct =
        Distinct-join_rows t.strategies levels
          (Distinct-sort_rows _ level_key t.levels h.level_ids) in
      (
        Distinct-collect (into_entry codec) joined_key entry_key into_entry-id rows
            (subst (Distinct joined_key) same distinct) run1,
        λ id.
            is_missing-collect (into_entry codec) joined_key entry_key id into_entry-id rows run1
            ∙ (ap (λ (rs : List (StrategyRow × LevelRow F)). is_missing joined_key id rs) (sym same)
                ∙ (is_missing-join_rows id t.strategies levels
                      (All-sort_rows _ _ t.levels h.level_strategy)
                    ∙ is_missing-sort_rows _ level_key id t.levels)),
      )
