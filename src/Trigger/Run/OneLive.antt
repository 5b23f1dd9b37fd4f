-- ===== src/Trigger/Run/OneLive.antt =====
-- The unfailed orders of a level in the table (crates/trigger/src/run.rs, crates/trigger/src/fired.rs).
use mathlib.Core.Path.{subst}
use nofomo.Prelude.{
  ℕ, suc, ◌+◌, ◌≤◌, ◌≡◌, refl, sym, ap, ◌∙◌, Bool, true, false, not, List, [], ◌∷◌, All, filter,
  Text, text_eq, text_eq_iff, Option, none, some, Result, ok, err, if◌then◌else◌, arith, Bool-cases,
  inl, inr, ◌⊎◌, Option-cases, bind-eq-ok, ok-injective,
}
use nofomo.Prelude.Int.{ℤ}
use nofomo.Prelude.Float.{Float}
use nofomo.Prelude.Keys.{Distinct, Distinct-filter, All-filter, All-passed, All-map}
use nofomo.Domain.Model.{venue_name}
use nofomo.Price.Gates.{PriceTick}
use nofomo.Strategy.Level.{StrategyLevel}
use nofomo.Strategy.Order.{Order, failed, status, status_eq, new_order}
use nofomo.Trigger.Fired.{is_spent, fired_levels, prices_this_tick, cooling_down}
use nofomo.Trigger.Runtime.{is_quiet}
use nofomo.Trigger.QuoteGuard.{check_quote}
use nofomo.Trigger.Run.{
  TriggerDeps, World, venue, quote_request, upsert_row, order_for, store_order, place_order,
  after_place, consider, consider_all, tick_levels, with_listings, handle_tick, run,
}

module _ {V : Type 0} where
  -- 1 for an order of the level that has not failed.
  abbrev pub live : Text → Order V → ℕ
  live id o = if text_eq o.level_id id then (if status_eq (status o) failed then 0 else 1) else 0

  abbrev pub live_count : Text → List (Order V) → ℕ
  live_count id [] = 0
  live_count id (o ∷ os) = live id o + live_count id os

  -- No level has two orders that have not failed.
  abbrev pub OnePerLevel : List (Order V) → Type 0
  OnePerLevel orders = (id : Text) → live_count id orders ≤ 1

  live_le : (id : Text) (o : Order V) → live id o ≤ 1
  live_le id o = ground arith

  live-other : (id : Text) (o : Order V) → text_eq o.level_id id ≡ false → live id o ≡ 0
  live-other id o h = rw h refl

  live_count-is_spent :
      (id : Text) (os : List (Order V)) → is_spent id os ≡ false → live_count id os ≡ 0
  unfolding is_spent
  live_count-is_spent id [] h = refl
  live_count-is_spent id (o ∷ os) h = ground (arith, live_count-is_spent id os)

  -- A write adds at most the written order.
  live_count-upsert_row :
      (id : Text) (os : List (Order V)) (o : Order V)
      → live_count id (upsert_row os o) ≤ live_count id os + live id o
  unfolding upsert_row
  live_count-upsert_row id [] o = omega arith
  live_count-upsert_row id (p ∷ os) o = elim (Bool-cases (text_eq p.id o.id)) [
    | inl same ↦ rw same (omega arith)
    | inr other ↦ rw other (omega (arith, live_count-upsert_row id os o))
  ]

-- What one entry of the loop does to the table: nothing, or a write of one order of its level.
abbrev Writes : {V : Type 0} → Text → List (Order V) → List (Order V) → Type 0
Writes {V} level_id before after =
    (after ≡ before) ⊎ ((o : Order V) × (o.level_id ≡ level_id) × (after ≡ upsert_row before o))

module _ {V : Type 0} (float : Float) (deps : TriggerDeps V float.F64) where
  open float use {F64}

  order_for-level_id :
      (entry : StrategyLevel F64) (tick : PriceTick F64) (now : ℤ) (calls : ℕ) {o : Order V}
      → order_for float deps entry tick now calls ≡ ok o
      → o.level_id ≡ entry.level.id
  unfolding order_for new_order
  order_for-level_id entry tick now calls h =
      let (v, e1, h1) = bind-eq-ok (venue float deps (venue_name entry.strategy.venue)) _ h in
      let (request, e2, h2) = bind-eq-ok (quote_request float deps entry) _ h1 in
      let (draft, e3, h3) = bind-eq-ok (v.quote request calls) _ h2 in
      let (u, e4, h4) =
        bind-eq-ok (check_quote float deps.resolver entry draft tick deps.max_quote_deviation_bps) _
          h3 in
      sym (ap (λ (x : Order V). x.level_id) (ok-injective h4))

  store_order-Writes :
      (level_id : Text) (r : Result (Order V)) (w : World V F64)
      → ((o : Order V) → r ≡ ok o → o.level_id ≡ level_id)
      → Writes level_id w.orders (store_order float deps r w).1.orders
  unfolding store_order
  store_order-Writes level_id (err e) w h = inl refl
  store_order-Writes level_id (ok order) w h =
      elim (Option-cases (deps.orders_error (suc w.calls))) [
        | inl none_found ↦ inr (order, h order refl, rw (none_found, store_order) refl)
        | inr (e, found) ↦ inl (rw (found, store_order) refl)
      ]

  after_place-orders :
      (level_id : Text) (now : ℤ) (created : Bool) (r : Result (Unit {0})) (w : World V F64)
      → (after_place float deps level_id now created r w).1.orders ≡ w.orders
  unfolding after_place
  after_place-orders level_id now created (ok u) w = refl
  after_place-orders level_id now created (err e) w = refl

  consider-Writes :
      (snapshot : List (Order V)) (tick : PriceTick F64) (now : ℤ) (entry : StrategyLevel F64)
      (created : Bool) (w : World V F64)
      → Writes entry.level.id w.orders
          (consider float deps snapshot tick now entry created w).1.orders
  unfolding consider place_order
  consider-Writes snapshot tick now entry created w =
      elim (Bool-cases (is_quiet w.runtime entry.level.id now)) [
        | inl rest ↦ rw rest (inl refl)
        | inr free ↦ elim (Bool-cases (cooling_down entry.level.id snapshot now)) [
          | inl cold ↦ rw (free, cold) (inl refl)
          | inr warm ↦
              let r = order_for float deps entry tick now w.calls in
              let (u, w') = store_order float deps r w in
              rw (free, warm, after_place-orders entry.level.id now created u w')
                (store_order-Writes entry.level.id r w
                  (λ o e. order_for-level_id entry tick now w.calls e))
        ]
      ]

-- Before an entry is considered: no level has two unfailed orders, and the levels to come have none.
abbrev Holds : {V F : Type 0} → List (Order V) → List (StrategyLevel F) → Type 0
Holds {F = F} orders entries =
    OnePerLevel orders × All (λ (e : StrategyLevel F). live_count e.level.id orders ≡ 0) entries

-- Each level is listed once: its id is the table's key.
abbrev pub Listed : {F : Type 0} → List (StrategyLevel F) → Type 0
Listed {F} entries = Distinct (λ (e : StrategyLevel F). e.level.id) entries

Writes-OnePerLevel :
    {V : Type 0} (level_id : Text) (before after : List (Order V))
    → OnePerLevel before
    → live_count level_id before ≡ 0
    → Writes level_id before after
    → OnePerLevel after
Writes-OnePerLevel level_id before after one free (inl same) id =
    subst (λ os. live_count id os ≤ 1) (sym same) (one id)
Writes-OnePerLevel level_id before after one free (inr (o, of, e)) id =
    subst (λ os. live_count id os ≤ 1) (sym e)
      (elim (Bool-cases (text_eq level_id id)) [
        | inl same ↦
            let here : live_count id before ≡ 0 =
              ap (λ t. live_count t before) (sym ((text_eq_iff level_id id).0 same)) ∙ free in
            omega (arith, live_count-upsert_row id before o, live_le id o, here)
        | inr other ↦
            let none_here = live-other id o (ap (λ t. text_eq t id) of ∙ other) in
            omega (arith, live_count-upsert_row id before o, none_here, one id)
      ])

Writes-other :
    {V : Type 0} (level_id id : Text) (before after : List (Order V))
    → text_eq level_id id ≡ false
    → Writes level_id before after
    → live_count id before ≡ 0
    → live_count id after ≡ 0
Writes-other level_id id before after other (inl same) z =
    subst (λ os. live_count id os ≡ 0) (sym same) z
Writes-other level_id id before after other (inr (o, of, e)) z =
    subst (λ os. live_count id os ≡ 0) (sym e)
      (let none_here = live-other id o (ap (λ t. text_eq t id) of ∙ other) in
        omega (arith, live_count-upsert_row id before o, none_here))

Writes-Holds :
    {V F : Type 0} (entry : StrategyLevel F) (entries : List (StrategyLevel F))
    (before after : List (Order V))
    → Listed (entry ∷ entries)
    → Holds before (entry ∷ entries)
    → Writes entry.level.id before after
    → Holds after entries
Writes-Holds {F = F} entry entries before after d h w =
    (Writes-OnePerLevel entry.level.id before after h.0 h.1.0 w, All-both entries d.0 h.1.1)
  where
    All-both :
        (es : List (StrategyLevel F))
        → All (λ (e : StrategyLevel F). text_eq entry.level.id e.level.id ≡ false) es
        → All (λ (e : StrategyLevel F). live_count e.level.id before ≡ 0) es
        → All (λ (e : StrategyLevel F). live_count e.level.id after ≡ 0) es
    All-both [] p q = tt
    All-both (e ∷ es) p q =
        (Writes-other entry.level.id e.level.id before after p.0 w q.0, All-both es p.1 q.1)

module _ {V : Type 0} (float : Float) (deps : TriggerDeps V float.F64) where
  open float use {F64}

  consider_all-OnePerLevel :
      (snapshot : List (Order V)) (tick : PriceTick F64) (now : ℤ)
      (entries : List (StrategyLevel F64)) (created : Bool) (w : World V F64)
      → Listed entries
      → Holds w.orders entries
      → OnePerLevel (consider_all float deps snapshot tick now entries created w).1.orders
  unfolding consider_all
  consider_all-OnePerLevel snapshot tick now [] created w d h = h.0
  consider_all-OnePerLevel snapshot tick now (entry ∷ entries) created w d h =
      let (created', w') = consider float deps snapshot tick now entry created w in
      consider_all-OnePerLevel snapshot tick now entries created' w' d.1 (
        Writes-Holds entry entries w.orders w'.orders d h
          (consider-Writes float deps snapshot tick now entry created w))

  fired_levels-Holds :
      (levels : List (StrategyLevel F64)) (orders : List (Order V)) (tick : PriceTick F64)
      → Listed levels
      → OnePerLevel orders
      → Listed (fired_levels float deps.resolver levels orders tick)
        × Holds orders (fired_levels float deps.resolver levels orders tick)
  unfolding fired_levels
  fired_levels-Holds levels orders tick d one =
      let unspent = filter (λ entry. not (is_spent entry.level.id orders)) levels in
      let priced = filter (λ entry. prices_this_tick float deps.resolver entry tick) unspent in
      let fresh : All (λ (e : StrategyLevel F64). live_count e.level.id orders ≡ 0) unspent =
        All-map _ _ unspent (λ e h. live_count-is_spent e.level.id orders (not_true h))
          (All-passed _ levels) in
      (
        Distinct-filter _ _ priced (Distinct-filter _ _ unspent (Distinct-filter _ _ levels d)),
        (one, All-filter _ _ priced (All-filter _ _ unspent fresh)),
      )
    where
      not_true : {b : Bool} → not b ≡ true → b ≡ false
      not_true {b} h = ground arith

  tick_levels-OnePerLevel :
      (levels : List (StrategyLevel F64)) (tick : PriceTick F64) (now : ℤ) (w : World V F64)
      → Listed levels
      → OnePerLevel w.orders
      → OnePerLevel (tick_levels float deps levels tick now w).orders
  unfolding tick_levels
  tick_levels-OnePerLevel levels tick now w d one =
      let entries = fired_levels float deps.resolver levels w.orders tick in
      let (listed, holds) = fired_levels-Holds levels w.orders tick d one in
      consider_all-OnePerLevel w.orders tick now entries false w listed holds

  -- What the store's listing of levels promises.
  abbrev pub ListsLevels : Type 0
  ListsLevels =
      (calls : ℕ) (levels : List (StrategyLevel F64))
      → deps.list_levels calls ≡ ok levels
      → Listed levels

  with_listings-OnePerLevel :
      (listed : Result (List (StrategyLevel F64))) (failure : Option Text) (tick : PriceTick F64)
      (now : ℤ) (w : World V F64)
      → ((levels : List (StrategyLevel F64)) → listed ≡ ok levels → Listed levels)
      → OnePerLevel w.orders
      → OnePerLevel (with_listings float deps listed failure tick now w).1.orders
  unfolding with_listings
  with_listings-OnePerLevel (err e) failure tick now w d one = one
  with_listings-OnePerLevel (ok levels) (some e) tick now w d one = one
  with_listings-OnePerLevel (ok levels) none tick now w d one =
      tick_levels-OnePerLevel levels tick now w (d levels refl) one

  -- Whatever ticks the trigger handles, and whatever the ports answer to them, no level has two orders
  -- that have not failed afterwards, if none had two before and the store lists each level once. The
  -- table is written by the trigger alone here.
  pub run-OnePerLevel :
      (ticks : List (PriceTick F64 × ℤ)) (w : World V F64)
      → ListsLevels
      → OnePerLevel w.orders
      → OnePerLevel (run float deps ticks w).orders
  unfolding run handle_tick
  run-OnePerLevel [] w lists one = one
  run-OnePerLevel ((tick, now) ∷ ticks) w lists one =
      run-OnePerLevel ticks (handle_tick float deps tick now w).1 lists (
        with_listings-OnePerLevel (deps.list_levels w.calls) (deps.orders_error (suc w.calls)) tick
          now (record w { calls = suc (suc w.calls) }) (λ levels e. lists w.calls levels e) one)
