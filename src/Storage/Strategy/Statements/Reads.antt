-- ===== src/Storage/Strategy/Statements/Reads.antt =====
-- What is read back of a row that was written (crates/storage/src/strategy.rs).
use nofomo.Prelude.{
  ℕ, Bool, true, false, ◌^◌, ◌<◌, ◌≡◌, refl, sym, ap, ◌∙◌, List, [], ◌∷◌, Text, text_eq,
  text_eq_iff, text_eq_refl, Option, none, some, ok, any, arith, Bool-cases, inl, inr,
}
use mathlib.Core.Path.{subst}
use nofomo.Prelude.Int.{ℤ, pos}
use nofomo.Prelude.Keys.{Distinct}
use nofomo.Domain.Model.{VenueName, uniswap, cetus, venue_name, venue_of_name}
use nofomo.Strategy.Level.{Side, buy, sell, side_name, side_of_name, Strategy, Level}
use nofomo.Strategy.Order.{Order}
use nofomo.Storage.Rows.{find_row}
use nofomo.Storage.Rows.Laws.{find_row-put_row, find_row-key, find_row-All}
use nofomo.Storage.Strategy.{
  StrategyRow, OrderRow, Tables, Codec, IsFaithful, strategy_row, into_entry, into_order, amount_of,
  try_below,
}
use nofomo.Storage.Strategy.Statements.{
  strategy_key, level_key, order_key, level_row, is_expected, upsert_level, order_row,
  keep_creation, upsert_order, join_row, join_rows, first_entry, get_level, read_order, get_order,
}
use nofomo.Storage.Strategy.Statements.Inversion.{and_left, upsert_level-ok, upsert_order-ok}
use nofomo.Storage.Strategy.Statements.Integrity.{WellFormed}

venue_of_name-venue_name : (v : VenueName) → venue_of_name (venue_name v) ≡ ok v
unfolding venue_of_name venue_name text_eq
venue_of_name-venue_name uniswap = refl
venue_of_name-venue_name cetus = refl

side_of_name-side_name : (s : Side) → side_of_name (side_name s) ≡ ok s
unfolding side_of_name side_name text_eq
side_of_name-side_name buy = refl
side_of_name-side_name sell = refl

try_below-pos : (e : Text) (limit n : ℕ) → n < limit → try_below e limit (pos n) ≡ ok n
try_below-pos e limit n h = ground arith

one_key : (a b k : Text) → text_eq a k ≡ true → text_eq b k ≡ true → text_eq a b ≡ false → ⊥
one_key a b k h l d = ground (arith, text_eq_iff a k, text_eq_iff b k, text_eq_iff a b)

-- Under a unique key, a row that passes a test is the row that is found.
any-find_row :
    {A : Type 0} (key : A → Text) (p : A → Bool) (k : Text) (rows : List A)
    → Distinct key rows
    → ((x : A) → p x ≡ true → text_eq (key x) k ≡ true)
    → any p rows ≡ true
    → (x : A) × (find_row key k rows ≡ some x) × (p x ≡ true)
unfolding find_row
any-find_row key p k [] d named h = absurd (cc)
any-find_row key p k (x ∷ xs) d named h = elim (Bool-cases (p x)) [
  | inl here ↦ (x, rw (named x here) refl, here)
  | inr not_here ↦
      let (y, found, passes) = any-find_row key p k xs d.1 named (rw not_here at h) in
      elim (Bool-cases (text_eq (key x) k)) [
        | inr other ↦ (y, rw other found, passes)
        | inl same ↦
            let differs = find_row-All key (λ z. text_eq (key x) (key z) ≡ false) k xs d.0 found in
            absurd (one_key (key x) (key y) k same (find_row-key key k xs found) differs)
      ]
]

-- The values that the code's types allow: a U256, a u8 and a u16.
pub record Fits {F : Type 0} (level : Level F) : Type 0 where
  pub amount : level.amount < 2 ^ 256
  pub decimals : level.amount_decimals < 256
  pub slippage : level.slippage_bps < 65536

-- The time of creation that a row keeps.
abbrev pub first_creation : Option OrderRow → ℤ → ℤ
first_creation none created_at = created_at
first_creation (some old) created_at = old.created_at

module _ {V F : Type 0} (codec : Codec V F) (faithful : IsFaithful codec) where
  is_expected-row :
      (expected : Strategy) (row : StrategyRow)
      → is_expected codec expected row ≡ true
      → row ≡ strategy_row expected
  unfolding strategy_row
  is_expected-row expected row h = ground (
    arith,
    text_eq_iff row.id expected.id,
    text_eq_iff row.venue (venue_name expected.venue),
    text_eq_iff row.chain expected.chain,
    text_eq_iff row.base_token expected.base_token,
    text_eq_iff row.quote_token expected.quote_token,
  )

  into_entry-level_row :
      (level : Level F) (expected : Strategy)
      → Fits level
      → text_eq level.strategy_id expected.id ≡ true
      → into_entry codec (strategy_row expected, level_row codec level expected)
        ≡ ok (record { strategy = expected; level = level })
  unfolding into_entry amount_of strategy_row
  into_entry-level_row level expected fits same =
      let owner : expected.id ≡ level.strategy_id =
        sym ((text_eq_iff level.strategy_id expected.id).0 same) in
      rw
        (
          venue_of_name-venue_name expected.venue,
          side_of_name-side_name level.side,
          faithful.u256 level.amount fits.amount,
          try_below-pos _ 256 level.amount_decimals fits.decimals,
          try_below-pos _ 65536 level.slippage_bps fits.slippage,
        )
        (ap
          (λ (o : Text).
            ok (record { strategy = expected; level = record level { strategy_id = o } }))
          owner)

  -- A level that was written is read back as it was, with the strategy that was expected.
  pub get_level-upsert_level :
      (fault : Option Text) (level : Level F) (expected : Strategy) (t : Tables F)
      {after : Tables F}
      → WellFormed t
      → Fits level
      → upsert_level codec fault level expected t ≡ ok after
      → get_level codec none level.id after
        ≡ ok (some (record { strategy = expected; level = level }))
  unfolding get_level first_entry
  get_level-upsert_level fault level expected t h fits run =
      let (stored, after_is, same) = upsert_level-ok codec fault level expected t run in
      let row = level_row codec level expected in
      let (s, found, passes) =
        any-find_row strategy_key (is_expected codec expected) expected.id t.strategies
          h.strategy_ids (λ x e. and_left _ _ e) stored in
      let at_id : find_row strategy_key expected.id t.strategies ≡ some (strategy_row expected) =
        found ∙ ap some (is_expected-row expected s passes) in
      subst
        (λ (u : Tables F).
          get_level codec none level.id u
          ≡ ok (some (record { strategy = expected; level = level })))
        after_is
        (rw
          (
            find_row-put_row level_key level.id row t.levels,
            text_eq_refl level.id,
            at_id,
            join_row,
            join_rows,
            into_entry-level_row level expected fits same,
          )
          refl)

  into_order-order_row :
      (order : Order V) (plan state : Text) (old : Option OrderRow)
      → order.reserved_amount < 2 ^ 256
      → order.swap_attempts < 2 ^ 32
      → codec.plan_from_str plan ≡ ok order.plan
      → codec.state_to_string order.state ≡ ok state
      → into_order codec (keep_creation codec old (order_row codec order plan state))
        ≡ ok (record order { created_at = first_creation old order.created_at })
  unfolding into_order amount_of
  into_order-order_row order plan state none amount attempts p s =
      rw
        (
          venue_of_name-venue_name order.venue,
          faithful.u256 order.reserved_amount amount,
          p,
          faithful.states order.state state s,
          try_below-pos _ 4294967296 order.swap_attempts attempts,
        )
        refl
  into_order-order_row order plan state (some old) amount attempts p s =
      rw
        (
          venue_of_name-venue_name order.venue,
          faithful.u256 order.reserved_amount amount,
          p,
          faithful.states order.state state s,
          try_below-pos _ 4294967296 order.swap_attempts attempts,
        )
        refl

  keep_creation-id :
      (old : Option OrderRow) (row : OrderRow) → (keep_creation codec old row).id ≡ row.id
  keep_creation-id none row = refl
  keep_creation-id (some old) row = refl

  -- An order that was written, with an amount of U256, a count of attempts of u32 and a plan that its
  -- JSON reads back as, is read back as it was, but for the time of creation, which is the one that
  -- the row under its id had before, if there was one.
  pub get_order-upsert_order :
      (fault : Option Text) (order : Order V) (t : Tables F) {after : Tables F}
      → order.reserved_amount < 2 ^ 256
      → order.swap_attempts < 2 ^ 32
      → ((s : Text)
          → codec.plan_to_string order.plan ≡ ok s
          → codec.plan_from_str s ≡ ok order.plan)
      → upsert_order codec fault order t ≡ ok after
      → get_order codec none order.id after
        ≡ ok (
            some (record order {
              created_at = first_creation (find_row order_key order.id t.orders) order.created_at;
            }))
  unfolding get_order read_order
  get_order-upsert_order fault order t amount attempts reads run =
      let (plan, state, p, s, _, after_is) = upsert_order-ok codec fault order t run in
      let old = find_row order_key order.id t.orders in
      let row = keep_creation codec old (order_row codec order plan state) in
      let named : text_eq row.id order.id ≡ true =
        rw (keep_creation-id old (order_row codec order plan state)) (text_eq_refl order.id) in
      subst
        (λ (u : Tables F).
          get_order codec none order.id u
          ≡ ok (some (record order { created_at = first_creation old order.created_at })))
        after_is
        (rw
          (
            find_row-put_row order_key order.id row t.orders,
            named,
            into_order-order_row order plan state old amount attempts (reads plan p) s,
          )
          refl)
