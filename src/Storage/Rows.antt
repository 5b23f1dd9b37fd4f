-- ===== src/Storage/Rows.antt =====
-- Tables as lists of rows with a text for their primary key, as the statements of crates/storage use
-- them. The order of the list is of no account: each listing sorts.
pub mod Laws
use nofomo.Prelude.{
  ℕ, Bool, true, false, ◌&&◌, ◌||◌, ◌≡◌, refl, sym, ◌∙◌, List, [], ◌∷◌, Text, text_eq, text_eq_iff,
  text_eq_refl, Option, none, some, Result, ok, err, ◌>>=◌, All, if◌then◌else◌, ltb, ◌==◌, arith,
  Bool-cases, inl, inr,
}
use nofomo.Prelude.Keys.{Distinct}

-- A statement that the database may fail with an error of its own.
abbrev pub execute : {A : Type 0} → Option Text → Result A → Result A
execute none r = r
execute (some e) r = err e

-- `into_iter().map(f).collect::<Result<Vec<_>>>()`
unfoldable pub collect : {A B : Type 0} → (A → Result B) → List A → Result (List B)
collect f [] = ok []
collect f (x ∷ xs) = do y ← f x; ys ← collect f xs; ok (y ∷ ys)

-- The order of texts by their bytes (the collation BINARY).
unfoldable pub text_le : Text → Text → Bool
text_le [] t = true
text_le (a ∷ s) [] = false
text_le (a ∷ s) (b ∷ t) = let rest = text_le s t in ltb a b || (a == b) && rest

module _ {A : Type 0} (le : A → A → Bool) where
  insert_sorted : A → List A → List A
  insert_sorted x [] = x ∷ []
  insert_sorted x (y ∷ ys) =
      let rest = insert_sorted x ys in if le x y then x ∷ y ∷ ys else y ∷ rest

  -- `ORDER BY`
  unfoldable pub sort_rows : List A → List A
  unfolding insert_sorted
  sort_rows [] = []
  sort_rows (x ∷ xs) = insert_sorted x (sort_rows xs)

module _ {A : Type 0} (key : A → Text) where
  -- `WHERE id = ?`
  unfoldable pub find_row : Text → List A → Option A
  find_row k [] = none
  find_row k (x ∷ xs) = if text_eq (key x) k then some x else find_row k xs

  -- The row of its key, written in the place of the old one if there is one.
  unfoldable pub put_row : A → List A → List A
  put_row x [] = x ∷ []
  put_row x (y ∷ ys) = if text_eq (key y) (key x) then x ∷ ys else y ∷ put_row x ys
