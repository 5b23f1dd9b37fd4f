-- ===== src/Prelude/Errors.antt =====
-- `anyhow::Result`: an error is the text that `{error:#}` prints, the contexts before their causes.
use mathlib.Core.Path.{◌≡◌, refl}
use mathlib.Core.Bool.{Bool, true, false}
use mathlib.Core.List.{◌++◌}
use mathlib.Core.Logic.{◌⊎◌, inl, inr}
use mathlib.Core.Option.{Option, none, some}
use nofomo.Prelude.Bytes.{Text, msg}

pub data Result {ℓ} (A : Type ℓ) : Type ℓ where
  ok : A → Result A
  err : Text → Result A

-- `if test { bail!(e) }`
abbrev pub bail_if : Bool → Text → Result (Unit {0})
bail_if true e = err e
bail_if false e = ok tt

-- `result.context(c)`
abbrev pub context {ℓ} : {A : Type ℓ} → Text → Result A → Result A
context c (ok a) = ok a
context c (err e) = err (c ++ msg ": " ++ e)

-- `option.context(c)`
abbrev pub some_or {ℓ} : {A : Type ℓ} → Text → Option A → Result A
some_or c none = err c
some_or c (some a) = ok a

infixl 5 ◌>>=◌
abbrev pub ◌>>=◌ {ℓ κ} : {A : Type ℓ} {B : Type κ} → Result A → (A → Result B) → Result B
(err e) >>= next = err e
(ok a) >>= next = next a

infixl 5 ◌>>◌
abbrev pub ◌>>◌ {κ} : {B : Type κ} → Result (Unit {0}) → Result B → Result B
first >> rest = first >>= λ _. rest

abbrev pub is_ok {ℓ} : {A : Type ℓ} → Result A → Bool
is_ok (ok a) = true
is_ok (err e) = false

pub Result-cases {ℓ} :
    {A : Type ℓ} (r : Result A) → ((a : A) × (r ≡ ok a)) ⊎ ((e : Text) × (r ≡ err e))
Result-cases (ok a) = inl (a, refl)
Result-cases (err e) = inr (e, refl)

-- A bind that succeeded: its first part did, and what followed too.
pub bind-eq-ok {ℓ κ} :
    {A : Type ℓ} {B : Type κ} (first : Result A) (next : A → Result B) {b : B}
    → (first >>= next) ≡ ok b
    → (a : A) × (first ≡ ok a) × (next a ≡ ok b)
bind-eq-ok (err e) next h = cc
bind-eq-ok (ok a) next h = (a, refl, h)

pub ok-injective {ℓ} : {A : Type ℓ} {a b : A} → ok a ≡ ok b → a ≡ b
ok-injective h = cc

pub err-ne-ok {ℓ} : {A : Type ℓ} {e : Text} {a : A} → err e ≡ ok a → ⊥
err-ne-ok h = cc

pub bail_if-ok : (b : Bool) (e : Text) {u : Unit {0}} → bail_if b e ≡ ok u → b ≡ false
bail_if-ok true e h = cc
bail_if-ok false e h = refl

pub some_or-ok {ℓ} :
    {A : Type ℓ} (c : Text) (o : Option A) {a : A} → some_or c o ≡ ok a → o ≡ some a
some_or-ok c none h = cc
some_or-ok c (some a) h = cc

pub context-ok {ℓ} : {A : Type ℓ} (c : Text) (r : Result A) {a : A} → context c r ≡ ok a → r ≡ ok a
context-ok c (ok b) h = h
context-ok c (err e) h = cc
