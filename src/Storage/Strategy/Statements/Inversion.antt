-- ===== src/Storage/Strategy/Statements/Inversion.antt =====
-- What a statement that succeeds found and wrote (crates/storage/src/strategy.rs).
use nofomo.Prelude.{
  Bool, true, false, not, ◌&&◌, ◌≡◌, refl, ap, ◌∙◌, List, Text, text_eq, Option, none, some, Result,
  ok, err, context, bind-eq-ok, context-ok, ok-injective, bail_if, bail_if-ok, any, is_none, arith,
  Bool-cases, inl, inr,
}
use nofomo.Strategy.Level.{Strategy, Level}
use nofomo.Strategy.Order.{Order}
use nofomo.Storage.Rows.{execute, find_row, put_row}
use nofomo.Storage.Strategy.{Tables, Codec}
use nofomo.Storage.Strategy.Statements.{
  level_key, order_key, Changed, level_row, is_expected, upsert_level_row, upsert_level, order_row,
  keep_creation, upsert_order_row, upsert_order,
}

abbrev pub Has : {A : Type 0} → (A → Text) → List A → Text → Type 0
Has key rows k = is_none (find_row key k rows) ≡ false

-- A statement that succeeds did what its inner part did.
pub execute-ok :
    {A : Type 0} (e : Text) (fault : Option Text) (r : Result A) {a : A}
    → context e (execute fault r) ≡ ok a
    → r ≡ ok a
execute-ok e none (ok b) h = h
execute-ok e none (err b) h = cc
execute-ok e (some f) r h = cc

false_ne_true : false ≡ true → ⊥
false_ne_true h = cc

pub and_left : (a b : Bool) → (a && b) ≡ true → a ≡ true
and_left a b h = ground arith

pub changed_row : (b : Bool) (e : Text) {u : Unit {0}} → bail_if (not b) e ≡ ok u → b ≡ true
changed_row true e h = refl
changed_row false e h = cc

module _ {V F : Type 0} (codec : Codec V F) where
  -- The level after the check of its strategy: what a call that succeeds found and wrote.
  pub upsert_level-ok :
      (fault : Option Text) (level : Level F) (expected : Strategy) (t : Tables F)
      {after : Tables F}
      → upsert_level codec fault level expected t ≡ ok after
      → (any (is_expected codec expected) t.strategies ≡ true)
        × (record t { levels = put_row level_key (level_row codec level expected) t.levels }
            ≡ after)
        × (text_eq level.strategy_id expected.id ≡ true)
  unfolding upsert_level upsert_level_row
  upsert_level-ok fault level expected t run =
      let (u1, e1, run1) =
        bind-eq-ok (bail_if (not (text_eq level.strategy_id expected.id)) _) _ run in
      let (changed, e2, run2) =
        bind-eq-ok (context _ (execute fault (upsert_level_row codec t level expected))) _ run1 in
      let (u3, e3, run3) = bind-eq-ok (bail_if (not changed.0) _) _ run2 in
      let inner = execute-ok _ fault (upsert_level_row codec t level expected) e2 in
      elim (Bool-cases (any (is_expected codec expected) t.strategies)) [
        | inr gone ↦
            let same = ok-injective (rw gone at inner) in
            absurd (false_ne_true (ap (λ (c : Changed F). c.0) same ∙ changed_row changed.0 _ e3))
        | inl stored ↦
            let (u4, e4, run4) =
              bind-eq-ok (bail_if (not (codec.is_stored level.trigger_price_usd)) _) _
                (rw stored at inner) in
            (
              stored,
              ap (λ (c : Changed F). c.1) (ok-injective run4) ∙ ok-injective run3,
              changed_row _ _ e1,
            )
      ]

  -- What a call that succeeds found and wrote.
  pub upsert_order-ok :
      (fault : Option Text) (order : Order V) (t : Tables F) {after : Tables F}
      → upsert_order codec fault order t ≡ ok after
      → (plan : Text) × (state : Text) × (codec.plan_to_string order.plan ≡ ok plan)
        × (codec.state_to_string order.state ≡ ok state)
        × Has level_key t.levels order.level_id
        × (record t {
          orders =
              put_row order_key
                (keep_creation codec
                  (find_row order_key order.id t.orders)
                  (order_row codec order plan state))
                t.orders;
        }
            ≡ after)
  unfolding upsert_order upsert_order_row
  upsert_order-ok fault order t run =
      let (plan, e1, run1) = bind-eq-ok (context _ (codec.plan_to_string order.plan)) _ run in
      let (state, e2, run2) = bind-eq-ok (context _ (codec.state_to_string order.state)) _ run1 in
      let inner =
        execute-ok _ fault (upsert_order_row codec t (order_row codec order plan state)) run2 in
      let (u, e3, run3) =
        bind-eq-ok (bail_if (is_none (find_row level_key order.level_id t.levels)) _) _ inner in
      (plan, state, context-ok _ _ e1, context-ok _ _ e2, bail_if-ok _ _ e3, ok-injective run3)
