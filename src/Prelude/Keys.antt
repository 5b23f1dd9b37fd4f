-- ===== src/Prelude/Keys.antt =====
-- Lists whose items have different keys, as the rows of a table have.
use mathlib.Core.Path.{◌≡◌}
use mathlib.Core.Logic.{inl, inr}
use mathlib.Core.Bool.{Bool, true, false}
use mathlib.Core.List.{List, [], ◌∷◌}
use nofomo.Prelude.Tests.{Bool-cases}
use nofomo.Prelude.Lists.{All, filter}
use nofomo.Prelude.Bytes.{Text, text_eq}

abbrev pub Distinct : {A : Type 0} → (A → Text) → List A → Type 0
Distinct key [] = Unit {0}
Distinct {A} key (x ∷ xs) = All (λ (y : A). text_eq (key x) (key y) ≡ false) xs × Distinct key xs

pub All-filter {ℓ κ} :
    {A : Type ℓ} (P : A → Type κ) (p : A → Bool) (xs : List A) → All P xs → All P (filter p xs)
All-filter P p [] h = tt
All-filter P p (x ∷ xs) h = elim (Bool-cases (p x)) [
  | inl e ↦ rw e (h.0, All-filter P p xs h.1)
  | inr e ↦ rw e (All-filter P p xs h.1)
]

pub Distinct-filter :
    {A : Type 0} (key : A → Text) (p : A → Bool) (xs : List A)
    → Distinct key xs
    → Distinct key (filter p xs)
Distinct-filter key p [] h = tt
Distinct-filter key p (x ∷ xs) h = elim (Bool-cases (p x)) [
  | inl e ↦ rw e (All-filter _ p xs h.0, Distinct-filter key p xs h.1)
  | inr e ↦ rw e (Distinct-filter key p xs h.1)
]

-- What a filter keeps has passed its test.
pub All-passed {ℓ} : {A : Type ℓ} (p : A → Bool) (xs : List A) → All (λ x. p x ≡ true) (filter p xs)
All-passed p [] = tt
All-passed p (x ∷ xs) = elim (Bool-cases (p x)) [
  | inl e ↦ rw e (e, All-passed p xs)
  | inr e ↦ rw e (All-passed p xs)
]

pub All-map {ℓ κ μ} :
    {A : Type ℓ} (P : A → Type κ) (Q : A → Type μ) (xs : List A)
    → ((x : A) → P x → Q x)
    → All P xs
    → All Q xs
All-map P Q [] f h = tt
All-map P Q (x ∷ xs) f h = (f x h.0, All-map P Q xs f h.1)
