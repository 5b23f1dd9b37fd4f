-- ===== src/Trigger/Runtime/Quiet.antt =====
-- The table of resting levels (crates/trigger/src/runtime.rs).
use nofomo.Prelude.{
  ◌≡◌, refl, sym, ap, ◌∙◌, false, not, List, [], ◌∷◌, Text, text_eq, text_eq_iff, text_eq_refl,
  none, if◌then◌else◌, is_none, arith, Bool-cases, inl, inr,
}
use nofomo.Prelude.Int.{ℤ, ltb_ℤ}
use nofomo.Trigger.Runtime.{
  RuntimeStatus, quiet_of, forget, before, later, is_quiet, set_quiet_until, clear_quiet,
}

pub quiet_of-forget :
    (m : List (Text × ℤ)) (k j : Text)
    → quiet_of (forget m k) j ≡ (if text_eq k j then none else quiet_of m j)
unfolding quiet_of forget
quiet_of-forget [] k j = ground arith
quiet_of-forget ((i, until) ∷ m) k j =
    ground (arith, quiet_of-forget m k j, text_eq_iff i k, text_eq_iff i j, text_eq_iff k j)

-- Each level has one entry.
abbrev pub HasKeys : List (Text × ℤ) → Type 0
HasKeys [] = Unit {0}
HasKeys ((id, until) ∷ m) = (quiet_of m id ≡ none) × HasKeys m

HasKeys-forget : (m : List (Text × ℤ)) (k : Text) → HasKeys m → HasKeys (forget m k)
unfolding forget
HasKeys-forget [] k h = tt
HasKeys-forget ((i, until) ∷ m) k h = elim (Bool-cases (text_eq i k)) [
  | inl same ↦ rw same (HasKeys-forget m k h.1)
  | inr other ↦ rw other (still_none, HasKeys-forget m k h.1)
]
  where
    still_none : quiet_of (forget m k) i ≡ none
    still_none = ground (arith, quiet_of-forget m k i, h.0)

module _ {F : Type 0} (s : RuntimeStatus F) where
  -- A level that was put to rest until `until` rests exactly before it; no other level is affected.
  pub is_quiet-set_quiet_until :
      (k j : Text) (until now : ℤ)
      → is_quiet (set_quiet_until s k until) j now
        ≡ (if text_eq k j then ltb_ℤ now until else is_quiet s j now)
  unfolding is_quiet set_quiet_until quiet_of
  is_quiet-set_quiet_until k j until now = ground (arith, quiet_of-forget s.quiet_until k j)

  -- A level whose rest was ended does not rest at any time; no other level is affected.
  pub is_quiet-clear_quiet :
      (k j : Text) (now : ℤ)
      → is_quiet (clear_quiet s k) j now ≡ (if text_eq k j then false else is_quiet s j now)
  unfolding is_quiet clear_quiet
  is_quiet-clear_quiet k j now = ground (arith, quiet_of-forget s.quiet_until k j)

  pub set_quiet_until-HasKeys :
      (k : Text) (until : ℤ)
      → HasKeys s.quiet_until
      → HasKeys (set_quiet_until s k until).quiet_until
  unfolding set_quiet_until
  set_quiet_until-HasKeys k until h =
      (quiet_of-forget s.quiet_until k k ∙ (rw (text_eq_refl k)), HasKeys-forget s.quiet_until k h)

  pub clear_quiet-HasKeys :
      (k : Text) → HasKeys s.quiet_until → HasKeys (clear_quiet s k).quiet_until
  unfolding clear_quiet
  clear_quiet-HasKeys k h = HasKeys-forget s.quiet_until k h

later-none :
    (m : List (Text × ℤ)) (now : ℤ) (id : Text)
    → quiet_of m id ≡ none
    → quiet_of (later now m) id ≡ none
unfolding quiet_of
later-none [] now id h = refl
later-none ((i, until) ∷ m) now id h = ground (arith, later-none m now id)

-- The entries that a snapshot shows are those of the levels that rest then.
pub quiet_of-later :
    (m : List (Text × ℤ)) (now : ℤ) (id : Text)
    → HasKeys m
    → is_none (quiet_of (later now m) id) ≡ not (before now (quiet_of m id))
unfolding quiet_of
quiet_of-later [] now id h = refl
quiet_of-later ((i, until) ∷ m) now id h = elim (Bool-cases (text_eq i id)) [
  | inr other ↦ ground (arith, quiet_of-later m now id h.1)
  | inl same ↦
      let e : i ≡ id = (text_eq_iff i id).0 same in
      let gone : quiet_of m id ≡ none = ap (quiet_of m) (sym e) ∙ h.0 in
      ground (arith, later-none m now id gone)
]
