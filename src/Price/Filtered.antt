-- ===== src/Price/Filtered.antt =====
-- The filter over a price stream (crates/price/src/filtered.rs). A stream is the list of its items,
-- each with the second at which the clock is read for it; logging is left out.
use nofomo.Prelude.{
  ℕ, ◌≡◌, Bool, false, List, [], ◌∷◌, Option, none, some, Result, ok, err, if◌then◌else◌, Text, ◌⊎◌,
  inl, inr, Bool-cases,
}
use nofomo.Prelude.Int.{ℤ}
use nofomo.Prelude.Float.{Float}
use nofomo.Price.Gates.{PriceTick, is_stale, is_implausible}

module _ (float : Float) (max_age_secs : ℤ) (max_move_bps : ℕ) where
  open float use {F64}

  -- Whether a price is too far from the one before it, if there is one.
  jumps : Option F64 → F64 → Bool
  jumps none next = false
  jumps (some previous) next = is_implausible float previous next max_move_bps

  -- The tick that is passed on, and the baseline for the next one.
  unfoldable pub keep : PriceTick F64 → Option F64 → ℤ → Option (PriceTick F64) × Option F64
  unfolding jumps
  keep tick previous now =
      if is_stale tick now max_age_secs
      then (none, previous)
      else if jumps previous tick.price_usd
      then (none, previous)
      else (some tick, some tick.price_usd)

  push : Option (PriceTick F64) → List (Result (PriceTick F64)) → List (Result (PriceTick F64))
  push none rest = rest
  push (some tick) rest = ok tick ∷ rest

  -- `inner.scan(None, …).filter_map(…)`
  unfoldable pub filtered :
      Option F64 → List (Result (PriceTick F64) × ℤ) → List (Result (PriceTick F64))
  unfolding push
  filtered previous [] = []
  filtered previous ((err e, now) ∷ items) = err e ∷ filtered previous items
  filtered previous ((ok tick, now) ∷ items) =
      let (kept, baseline) = keep tick previous now in push kept (filtered baseline items)

  -- The ticks of a stream, each plausible after the one before it.
  abbrev pub IsSmooth : Option F64 → List (Result (PriceTick F64)) → Type 0
  IsSmooth previous [] = Unit {0}
  IsSmooth previous (err e ∷ items) = IsSmooth previous items
  IsSmooth none (ok tick ∷ items) = IsSmooth (some tick.price_usd) items
  IsSmooth (some p) (ok tick ∷ items) =
      (is_implausible float p tick.price_usd max_move_bps ≡ false)
      × IsSmooth (some tick.price_usd) items

  -- The output of a filter over its input: errors all pass, ticks only if they are fresh.
  pub data Selects
      : List (Result (PriceTick F64) × ℤ) → List (Result (PriceTick F64)) → Type 0 where
    nothing : Selects [] []
    error :
        {items : List (Result (PriceTick F64) × ℤ)} {rest : List (Result (PriceTick F64))}
        {e : Text} {now : ℤ}
        → Selects items rest
        → Selects ((err e, now) ∷ items) (err e ∷ rest)
    fresh :
        {items : List (Result (PriceTick F64) × ℤ)} {rest : List (Result (PriceTick F64))}
        {tick : PriceTick F64} {now : ℤ}
        → is_stale tick now max_age_secs ≡ false
        → Selects items rest
        → Selects ((ok tick, now) ∷ items) (ok tick ∷ rest)
    dropped :
        {items : List (Result (PriceTick F64) × ℤ)} {rest : List (Result (PriceTick F64))}
        {tick : PriceTick F64} {now : ℤ}
        → Selects items rest
        → Selects ((ok tick, now) ∷ items) rest

  abbrev Plausible : Option F64 → PriceTick F64 → Type 0
  Plausible none tick = Unit {0}
  Plausible (some p) tick = is_implausible float p tick.price_usd max_move_bps ≡ false

  -- What `keep` decides: a tick that is passed on is fresh, plausible and the new baseline, and one
  -- that is dropped leaves the baseline.
  keep-cases :
      (tick : PriceTick F64) (previous : Option F64) (now : ℤ)
      → ((keep tick previous now ≡ (some tick, some tick.price_usd))
          × (is_stale tick now max_age_secs ≡ false)
          × Plausible previous tick)
        ⊎ (keep tick previous now ≡ (none, previous))
  unfolding keep
  keep-cases tick none now = elim (Bool-cases (is_stale tick now max_age_secs)) [
    | inl stale ↦ inr (rw stale)
    | inr young ↦ inl (rw young, young, tt)
  ]
  keep-cases tick (some p) now = elim (Bool-cases (is_stale tick now max_age_secs)) [
    | inl stale ↦ inr (rw stale)
    | inr young ↦ elim (Bool-cases (is_implausible float p tick.price_usd max_move_bps)) [
      | inl jump ↦ inr (rw (young, jump))
      | inr calm ↦ inl (rw (young, calm), young, calm)
    ]
  ]

  IsSmooth-step :
      (previous : Option F64) (tick : PriceTick F64) (rest : List (Result (PriceTick F64)))
      → Plausible previous tick
      → IsSmooth (some tick.price_usd) rest
      → IsSmooth previous (ok tick ∷ rest)
  IsSmooth-step none tick rest p s = s
  IsSmooth-step (some q) tick rest p s = (p, s)

  abbrev Filters :
      Option F64 → List (Result (PriceTick F64) × ℤ) → List (Result (PriceTick F64)) → Type 0
  Filters previous items out = Selects items out × IsSmooth previous out

  push-Filters :
      (tick : PriceTick F64) (previous : Option F64) (now : ℤ)
      (items : List (Result (PriceTick F64) × ℤ))
      → ((b : Option F64) → Filters b items (filtered b items))
      → let (kept, baseline) = keep tick previous now in
        Filters previous ((ok tick, now) ∷ items) (push kept (filtered baseline items))
  unfolding push
  push-Filters tick previous now items ih = elim (keep-cases tick previous now) [
    | inl (e, young, calm) ↦
        let (s, m) = ih (some tick.price_usd) in
        rw e
          (fresh young s, IsSmooth-step previous tick (filtered (some tick.price_usd) items) calm m)
    | inr e ↦ let (s, m) = ih previous in rw e (dropped s, m)
  ]

  -- The filter passes on every error and some of the ticks, in order, changes none of them, and only
  -- such as were fresh when they came; and each passed tick is plausible after the one passed before
  -- it, however many were dropped between them.
  pub filtered-Filters :
      (previous : Option F64) (items : List (Result (PriceTick F64) × ℤ))
      → Selects items (filtered previous items) × IsSmooth previous (filtered previous items)
  unfolding filtered
  filtered-Filters previous [] = (nothing, tt)
  filtered-Filters previous ((err e, now) ∷ items) =
      let (s, m) = filtered-Filters previous items in (error s, m)
  filtered-Filters previous ((ok tick, now) ∷ items) =
      push-Filters tick previous now items (λ b. filtered-Filters b items)
