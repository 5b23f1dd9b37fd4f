-- ===== src/Storage/Strategy/Statements/Integrity.antt =====
-- The keys and references of the tables (crates/storage/schema.sql and
-- crates/storage/src/strategy.rs).
use nofomo.Prelude.{
  Bool, true, false, not, ◌&&◌, ◌||◌, ◌≡◌, refl, ap, ◌∙◌, List, [], ◌∷◌, Text, text_eq, text_eq_iff,
  Option, none, some, Result, ok, err, context, bind-eq-ok, ok-injective, err-ne-ok, bail_if,
  bail_if-ok, All, any, filter, is_none, arith, Bool-cases, inl, inr,
}
use mathlib.Core.Path.{subst}
use nofomo.Prelude.Keys.{Distinct, All-map, All-filter, Distinct-filter}
use nofomo.Strategy.Level.{Strategy, Level}
use nofomo.Strategy.Order.{Order}
use nofomo.Storage.Rows.{execute, find_row, put_row}
use nofomo.Storage.Rows.Laws.{find_row-put_row, All-put_row, Distinct-put_row, find_row-filter}
use nofomo.Storage.Strategy.Statements.{
  Statement, put_strategy, put_level, remove_level, put_order, perform, after, run_all,
}
use nofomo.Storage.Strategy.{
  StrategyRow, LevelRow, OrderRow, Tables, Codec, strategy_row, one_token, same_market,
}
use nofomo.Storage.Strategy.Statements.Inversion.{
  Has, execute-ok, and_left, upsert_level-ok, upsert_order-ok,
}
use nofomo.Storage.Strategy.Statements.{
  strategy_key, level_key, order_key, has_levels, has_orders, Changed, write_strategy, on_conflict,
  upsert_strategy_row, upsert_strategy, level_row, is_expected, upsert_level, delete_level_row,
  delete_level, order_row, keep_creation, upsert_order,
}

-- Ids are unique, a strategy trades two tokens, a level is of a stored strategy and an order of a
-- stored level.
pub record WellFormed {F : Type 0} (t : Tables F) : Type 0 where
  pub strategy_ids : Distinct strategy_key t.strategies
  pub level_ids : Distinct level_key t.levels
  pub order_ids : Distinct order_key t.orders
  pub two_tokens : All (λ row. one_token row ≡ false) t.strategies
  pub level_strategy :
      All (λ (row : LevelRow F). Has strategy_key t.strategies row.strategy_id) t.levels
  pub order_level : All (λ row. Has level_key t.levels row.level_id) t.orders

Has-put_row :
    {A : Type 0} (key : A → Text) (x : A) (rows : List A) (k : Text)
    → Has key rows k
    → Has key (put_row key x rows) k
Has-put_row key x rows k h = elim (Bool-cases (text_eq (key x) k)) [
  | inl same ↦ rw (find_row-put_row key k x rows, same) refl
  | inr other ↦ rw (find_row-put_row key k x rows, other) h
]

module _ {F : Type 0} where
  write_strategy-WellFormed :
      (t : Tables F) (row : StrategyRow)
      → one_token row ≡ false
      → WellFormed t
      → WellFormed (write_strategy t row).1
  unfolding write_strategy
  write_strategy-WellFormed t row two h = record {
    strategy_ids = Distinct-put_row strategy_key row t.strategies h.strategy_ids;
    level_ids = h.level_ids;
    order_ids = h.order_ids;
    two_tokens =
        All-put_row strategy_key (λ r. one_token r ≡ false) row t.strategies two h.two_tokens;
    level_strategy =
        All-map (λ (l : LevelRow F). Has strategy_key t.strategies l.strategy_id)
          (λ l. Has strategy_key (put_row strategy_key row t.strategies) l.strategy_id) t.levels
          (λ l. Has-put_row strategy_key row t.strategies l.strategy_id) h.level_strategy;
    order_level = h.order_level;
  }

  on_conflict-WellFormed :
      (t : Tables F) (row : StrategyRow) (old : Option StrategyRow)
      → one_token row ≡ false
      → WellFormed t
      → WellFormed (on_conflict t row old).1
  unfolding on_conflict
  on_conflict-WellFormed t row none two h = write_strategy-WellFormed t row two h
  on_conflict-WellFormed t row (some old) two h =
      elim (Bool-cases (same_market old row || not (has_levels t row.id))) [
        | inl allowed ↦ rw allowed (write_strategy-WellFormed t row two h)
        | inr refused ↦ rw refused h
      ]

  upsert_strategy-WellFormed :
      (fault : Option Text) (strategy : Strategy) (t : Tables F) {after : Tables F}
      → upsert_strategy fault strategy t ≡ ok after
      → WellFormed t
      → WellFormed after
  unfolding upsert_strategy upsert_strategy_row
  upsert_strategy-WellFormed fault strategy t run h =
      let row = strategy_row strategy in
      let (changed, e1, run1) =
        bind-eq-ok (context _ (execute fault (upsert_strategy_row t row))) _ run in
      let (u2, e2, run2) = bind-eq-ok (bail_if (not changed.0) _) _ run1 in
      let inner = execute-ok _ fault (upsert_strategy_row t row) e1 in
      let (u3, e3, run3) = bind-eq-ok (bail_if (one_token row) _) _ inner in
      let kept =
        on_conflict-WellFormed t row (find_row strategy_key row.id t.strategies) (bail_if-ok _ _ e3)
          h in
      subst WellFormed (ap (λ (c : Changed F). c.1) (ok-injective run3) ∙ ok-injective run2) kept

  -- What `DELETE` leaves: the level of every order, since the one that goes has none.
  abbrev others : List (LevelRow F) → Text → List (LevelRow F)
  others levels id = filter (λ row. not (text_eq row.id id)) levels

  order_level-others :
      (levels : List (LevelRow F)) (id : Text) (orders : List OrderRow)
      → (any (λ row. text_eq row.level_id id) orders
          && not (is_none (find_row level_key id levels)))
        ≡ false
      → All (λ row. Has level_key levels row.level_id) orders
      → All (λ row. Has level_key (others levels id) row.level_id) orders
  order_level-others levels id [] e h = tt
  order_level-others levels id (o ∷ orders) e h =
      let differs : text_eq id o.level_id ≡ false = elim (Bool-cases (text_eq id o.level_id)) [
        | inl same ↦
            let here : Has level_key levels id = rw ((text_eq_iff id o.level_id).0 same) h.0 in
            absurd (ground (arith, here, text_eq_iff o.level_id id, text_eq_iff id o.level_id))
        | inr other ↦ other
      ] in
      let kept : Has level_key (others levels id) o.level_id =
        rw (find_row-filter level_key id o.level_id levels differs) h.0 in
      (kept, order_level-others levels id orders (ground arith) h.1)

  delete_level-WellFormed :
      (fault : Option Text) (id : Text) (t : Tables F) {after : Tables F}
      → delete_level fault id t ≡ ok after
      → WellFormed t
      → WellFormed after
  unfolding delete_level delete_level_row
  delete_level-WellFormed fault id t run h =
      let inner = execute-ok _ fault (delete_level_row t id) run in
      elim (Bool-cases (has_orders t id && not (is_none (find_row level_key id t.levels)))) [
        | inl held ↦ absurd (err-ne-ok (rw held at inner))
        | inr free ↦ subst WellFormed (ok-injective (rw free at inner)) (record {
          strategy_ids = h.strategy_ids;
          level_ids =
              Distinct-filter level_key (λ row. not (text_eq row.id id)) t.levels h.level_ids;
          order_ids = h.order_ids;
          two_tokens = h.two_tokens;
          level_strategy =
              All-filter (λ (l : LevelRow F). Has strategy_key t.strategies l.strategy_id)
                (λ row. not (text_eq row.id id)) t.levels h.level_strategy;
          order_level = order_level-others t.levels id t.orders free h.order_level;
        })
      ]

-- A row that passes a test on its key is found.
any-Has :
    {A : Type 0} (key : A → Text) (p : A → Bool) (k : Text) (rows : List A)
    → ((x : A) → p x ≡ true → text_eq (key x) k ≡ true)
    → any p rows ≡ true
    → Has key rows k
unfolding find_row
any-Has key p k [] named h = cc
any-Has key p k (x ∷ xs) named h = elim (Bool-cases (text_eq (key x) k)) [
  | inl same ↦ rw same refl
  | inr other ↦ rw other (any-Has key p k xs named (ground (arith, named x)))
]

module _ {V F : Type 0} (codec : Codec V F) where
  upsert_level-WellFormed :
      (fault : Option Text) (level : Level F) (expected : Strategy) (t : Tables F)
      {after : Tables F}
      → upsert_level codec fault level expected t ≡ ok after
      → WellFormed t
      → WellFormed after
  upsert_level-WellFormed fault level expected t run h =
      let (stored, after_is, _) = upsert_level-ok codec fault level expected t run in
      let row = level_row codec level expected in
      let known : Has strategy_key t.strategies expected.id =
        any-Has strategy_key (is_expected codec expected) expected.id t.strategies
          (λ x e. and_left _ _ e) stored in
      subst WellFormed after_is (record {
        strategy_ids = h.strategy_ids;
        level_ids = Distinct-put_row level_key row t.levels h.level_ids;
        order_ids = h.order_ids;
        two_tokens = h.two_tokens;
        level_strategy =
            All-put_row level_key (λ (l : LevelRow F). Has strategy_key t.strategies l.strategy_id)
              row t.levels known h.level_strategy;
        order_level =
            All-map (λ (o : OrderRow). Has level_key t.levels o.level_id)
              (λ o. Has level_key (put_row level_key row t.levels) o.level_id) t.orders
              (λ o. Has-put_row level_key row t.levels o.level_id) h.order_level;
      })

  keep_creation-level :
      (old : Option OrderRow) (row : OrderRow)
      → (keep_creation codec old row).level_id ≡ row.level_id
  keep_creation-level none row = refl
  keep_creation-level (some old) row = refl

  upsert_order-WellFormed :
      (fault : Option Text) (order : Order V) (t : Tables F) {after : Tables F}
      → upsert_order codec fault order t ≡ ok after
      → WellFormed t
      → WellFormed after
  upsert_order-WellFormed fault order t run h =
      let (plan, state, _, _, known, after_is) = upsert_order-ok codec fault order t run in
      let old = find_row order_key order.id t.orders in
      let row = keep_creation codec old (order_row codec order plan state) in
      subst WellFormed after_is (record {
        strategy_ids = h.strategy_ids;
        level_ids = h.level_ids;
        order_ids = Distinct-put_row order_key row t.orders h.order_ids;
        two_tokens = h.two_tokens;
        level_strategy = h.level_strategy;
        order_level =
            All-put_row order_key (λ (o : OrderRow). Has level_key t.levels o.level_id) row t.orders
              (rw (keep_creation-level old (order_row codec order plan state)) known) h.order_level;
      })

  perform-WellFormed :
      (statement : Statement V F) (t : Tables F) {u : Tables F}
      → perform codec statement t ≡ ok u
      → WellFormed t
      → WellFormed u
  unfolding perform
  perform-WellFormed (put_strategy fault strategy) t run h =
      upsert_strategy-WellFormed fault strategy t run h
  perform-WellFormed (put_level fault level expected) t run h =
      upsert_level-WellFormed fault level expected t run h
  perform-WellFormed (remove_level fault id) t run h = delete_level-WellFormed fault id t run h
  perform-WellFormed (put_order fault order) t run h = upsert_order-WellFormed fault order t run h

  after-WellFormed :
      (t : Tables F) (r : Result (Tables F))
      → ((u : Tables F) → r ≡ ok u → WellFormed u)
      → WellFormed t
      → WellFormed (after codec t r)
  after-WellFormed t (ok u) kept h = kept u refl
  after-WellFormed t (err e) kept h = h

  -- Whatever statements are run, in whatever order and whichever of them fail, ids stay unique, every
  -- strategy trades two tokens, every level is of a stored strategy and every order of a stored level.
  pub run_all-WellFormed :
      (statements : List (Statement V F)) (t : Tables F)
      → WellFormed t
      → WellFormed (run_all codec statements t)
  unfolding run_all
  run_all-WellFormed [] t h = h
  run_all-WellFormed (statement ∷ statements) t h =
      run_all-WellFormed statements (after codec t (perform codec statement t)) (
        after-WellFormed t (perform codec statement t)
          (λ u run. perform-WellFormed statement t run h) h)
