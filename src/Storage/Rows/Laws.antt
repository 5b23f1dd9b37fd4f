-- ===== src/Storage/Rows/Laws.antt =====
-- What the statements on rows keep (crates/storage/src/strategy.rs).
use nofomo.Prelude.{
  is_none, ap, ◌∙◌, Bool, true, false, not, ◌≡◌, refl, sym, List, [], ◌∷◌, Text, text_eq,
  text_eq_iff, some, Result, ok, bind-eq-ok, ok-injective, All, if◌then◌else◌, filter, arith,
  Bool-cases, inl, inr,
}
use mathlib.Core.Path.{subst}
use nofomo.Prelude.Keys.{Distinct}
use nofomo.Storage.Rows.{collect, insert_sorted, sort_rows, find_row, put_row}

pub text_eq_sym : (s t : Text) → text_eq s t ≡ false → text_eq t s ≡ false
text_eq_sym s t h = ground (arith, text_eq_iff s t, text_eq_iff t s)

some-injective : {A : Type 0} {a b : A} → some a ≡ some b → a ≡ b
some-injective h = cc

module _ {A : Type 0} (le : A → A → Bool) where
  All-insert_sorted :
      (P : A → Type 0) (x : A) (xs : List A) → P x → All P xs → All P (insert_sorted le x xs)
  unfolding insert_sorted
  All-insert_sorted P x [] h k = (h, tt)
  All-insert_sorted P x (y ∷ ys) h k = elim (Bool-cases (le x y)) [
    | inl before ↦ rw before (h, k)
    | inr after ↦ rw after (k.0, All-insert_sorted P x ys h k.1)
  ]

  pub All-sort_rows : (P : A → Type 0) (xs : List A) → All P xs → All P (sort_rows le xs)
  unfolding sort_rows
  All-sort_rows P [] h = tt
  All-sort_rows P (x ∷ xs) h = All-insert_sorted P x (sort_rows le xs) h.0 (All-sort_rows P xs h.1)

  Distinct-insert_sorted :
      (key : A → Text) (x : A) (xs : List A)
      → All (λ y. text_eq (key x) (key y) ≡ false) xs
      → Distinct key xs
      → Distinct key (insert_sorted le x xs)
  unfolding insert_sorted
  Distinct-insert_sorted key x [] h k = (tt, tt)
  Distinct-insert_sorted key x (y ∷ ys) h k = elim (Bool-cases (le x y)) [
    | inl before ↦ rw before (h, k)
    | inr after ↦ rw after (
      All-insert_sorted (λ z. text_eq (key y) (key z) ≡ false) x ys
          (text_eq_sym (key x) (key y) h.0) k.0,
      Distinct-insert_sorted key x ys h.1 k.1,
    )
  ]

  pub Distinct-sort_rows :
      (key : A → Text) (xs : List A) → Distinct key xs → Distinct key (sort_rows le xs)
  unfolding sort_rows
  Distinct-sort_rows key [] h = tt
  Distinct-sort_rows key (x ∷ xs) h =
      Distinct-insert_sorted key x (sort_rows le xs)
        (All-sort_rows (λ y. text_eq (key x) (key y) ≡ false) xs h.0)
        (Distinct-sort_rows key xs h.1)

module _ {A : Type 0} (key : A → Text) where
  -- A row written is found under its key; the other rows are what they were.
  pub find_row-put_row :
      (k : Text) (x : A) (xs : List A)
      → find_row key k (put_row key x xs)
        ≡ (if text_eq (key x) k then some x else find_row key k xs)
  unfolding find_row put_row
  find_row-put_row k x [] = refl
  find_row-put_row k x (y ∷ ys) = ground (
    arith,
    find_row-put_row k x ys,
    text_eq_iff (key y) (key x),
    text_eq_iff (key x) k,
    text_eq_iff (key y) k,
  )

  pub All-put_row :
      (P : A → Type 0) (x : A) (xs : List A) → P x → All P xs → All P (put_row key x xs)
  unfolding put_row
  All-put_row P x [] h k = (h, tt)
  All-put_row P x (y ∷ ys) h k = elim (Bool-cases (text_eq (key y) (key x))) [
    | inl same ↦ rw same (h, k.1)
    | inr other ↦ rw other (k.0, All-put_row P x ys h k.1)
  ]

  pub Distinct-put_row : (x : A) (xs : List A) → Distinct key xs → Distinct key (put_row key x xs)
  unfolding put_row
  Distinct-put_row x [] h = (tt, tt)
  Distinct-put_row x (y ∷ ys) h = elim (Bool-cases (text_eq (key y) (key x))) [
    | inl same ↦ rw same (
      subst (λ (k : Text). All (λ z. text_eq k (key z) ≡ false) ys)
          ((text_eq_iff (key y) (key x)).0 same) h.0,
      h.1,
    )
    | inr other ↦ rw other (
      All-put_row (λ z. text_eq (key y) (key z) ≡ false) x ys other h.0,
      Distinct-put_row x ys h.1,
    )
  ]

  pub find_row-key :
      (k : Text) (xs : List A) {x : A} → find_row key k xs ≡ some x → text_eq (key x) k ≡ true
  unfolding find_row
  find_row-key k [] h = cc
  find_row-key k (y ∷ ys) {x} h = elim (Bool-cases (text_eq (key y) k)) [
    | inl same ↦ subst (λ (z : A). text_eq (key z) k ≡ true) (some-injective (rw same at h)) same
    | inr other ↦ find_row-key k ys (rw other at h)
  ]

  pub find_row-All :
      (P : A → Type 0) (k : Text) (xs : List A) {x : A}
      → All P xs
      → find_row key k xs ≡ some x
      → P x
  unfolding find_row
  find_row-All P k [] all h = absurd (cc)
  find_row-All P k (y ∷ ys) {x} all h = elim (Bool-cases (text_eq (key y) k)) [
    | inl same ↦ subst P (some-injective (rw same at h)) all.0
    | inr other ↦ find_row-All P k ys all.1 (rw other at h)
  ]

  -- `DELETE … WHERE id = ?`
  pub find_row-filter :
      (k j : Text) (xs : List A)
      → text_eq k j ≡ false
      → find_row key j (filter (λ x. not (text_eq (key x) k)) xs) ≡ find_row key j xs
  unfolding find_row
  find_row-filter k j [] h = refl
  find_row-filter k j (y ∷ ys) h = ground (
    arith,
    find_row-filter k j ys h,
    text_eq_iff k j,
    text_eq_iff (key y) j,
    text_eq_iff (key y) k,
  )

module _ {A B : Type 0} (f : A → Result B) where
  -- What holds of every result holds of every item of the collection.
  pub All-collect :
      (P : A → Type 0) (Q : B → Type 0)
      → ((x : A) (y : B) → f x ≡ ok y → P x → Q y)
      → (xs : List A) {ys : List B} → All P xs
      → collect f xs ≡ ok ys
      → All Q ys
  unfolding collect
  All-collect P Q keep [] h run = subst (All Q) (ok-injective run) tt
  All-collect P Q keep (x ∷ xs) h run =
      let (y, first, run1) = bind-eq-ok (f x) _ run in
      let (rest, others, run2) = bind-eq-ok (collect f xs) _ run1 in
      subst (All Q) (ok-injective run2) (keep x y first h.0, All-collect P Q keep xs h.1 others)

  pub Distinct-collect :
      (key : A → Text) (name : B → Text)
      → ((x : A) (y : B) → f x ≡ ok y → name y ≡ key x)
      → (xs : List A) {ys : List B} → Distinct key xs
      → collect f xs ≡ ok ys
      → Distinct name ys
  unfolding collect
  Distinct-collect key name same [] h run = subst (Distinct name) (ok-injective run) tt
  Distinct-collect key name same (x ∷ xs) h run =
      let (y, first, run1) = bind-eq-ok (f x) _ run in
      let (rest, others, run2) = bind-eq-ok (collect f xs) _ run1 in
      subst (Distinct name) (ok-injective run2) (
        All-collect (λ z. text_eq (key x) (key z) ≡ false) (λ z. text_eq (name y) (name z) ≡ false)
            (λ z w gives differs.
              subst (λ (t : Text). text_eq (name y) t ≡ false) (sym (same z w gives))
                (subst (λ (t : Text). text_eq t (key z) ≡ false) (sym (same x y first)) differs))
            xs h.0 others,
        Distinct-collect key name same xs h.1 others,
      )

-- Whether a table has no row under a key.
abbrev pub is_missing : {A : Type 0} → (A → Text) → Text → List A → Bool
is_missing key k xs = is_none (find_row key k xs)

is_missing-insert_sorted :
    {A : Type 0} (le : A → A → Bool) (key : A → Text) (k : Text) (x : A) (xs : List A)
    → is_missing key k (insert_sorted le x xs) ≡ is_missing key k (x ∷ xs)
unfolding find_row insert_sorted
is_missing-insert_sorted le key k x [] = refl
is_missing-insert_sorted le key k x (y ∷ ys) = elim (Bool-cases (le x y)) [
  | inl before ↦ rw before refl
  | inr after ↦ rw after (
      let rest = is_missing-insert_sorted le key k x ys in
      elim (Bool-cases (text_eq (key y) k)) [
        | inl here ↦
            rw here
              (elim (Bool-cases (text_eq (key x) k)) [ inl e ↦ rw e refl | inr e ↦ rw e refl ])
        | inr there ↦ rw there rest
      ])
]

pub is_missing-sort_rows :
    {A : Type 0} (le : A → A → Bool) (key : A → Text) (k : Text) (xs : List A)
    → is_missing key k (sort_rows le xs) ≡ is_missing key k xs
unfolding find_row sort_rows
is_missing-sort_rows le key k [] = refl
is_missing-sort_rows le key k (x ∷ xs) =
    is_missing-insert_sorted le key k x (sort_rows le xs) ∙ elim (Bool-cases (text_eq (key x) k)) [
      | inl e ↦ rw e refl
      | inr e ↦ rw e (is_missing-sort_rows le key k xs)
    ]

-- A collection has the keys of the items that it was made from.
pub is_missing-collect :
    {A B : Type 0} (f : A → Result B) (key : A → Text) (name : B → Text) (k : Text)
    → ((x : A) (y : B) → f x ≡ ok y → name y ≡ key x)
    → (xs : List A) {ys : List B} → collect f xs ≡ ok ys
    → is_missing name k ys ≡ is_missing key k xs
unfolding collect find_row
is_missing-collect f key name k same [] run =
    sym (ap (λ (ys : List _). is_missing name k ys) (ok-injective run))
is_missing-collect f key name k same (x ∷ xs) run =
    let (y, first, run1) = bind-eq-ok (f x) _ run in
    let (rest, others, run2) = bind-eq-ok (collect f xs) _ run1 in
    sym (ap (λ (ys : List _). is_missing name k ys) (ok-injective run2))
    ∙ rw (same x y first) (elim (Bool-cases (text_eq (key x) k)) [
      | inl e ↦ rw e refl
      | inr e ↦ rw e (is_missing-collect f key name k same xs others)
    ])
