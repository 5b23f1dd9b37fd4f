-- ===== src/Cetus/Swap/Exact.antt =====
-- The input of a whole swap (crates/cetus/src/swap_math.rs, `compute_swap`).
use mathlib.Core.Path.{subst}
use mathlib.Core.List.{reverse}
use nofomo.Prelude.{
  ℕ, ◌+◌, ◌≤◌, ◌<◌, ◌≡◌, ◌≢◌, refl, Bool, true, false, List, [], ◌∷◌, msg, Result, ok, err, arith,
  ◌==◌, if◌then◌else◌, Bool-cases, bind-eq-ok, ok-injective, err-ne-ok, inl, inr, ◌⊎◌,
}
use nofomo.Cetus.Words.{u128_mod, add_u128, checked_sub, checked_sub_ok}
use nofomo.Cetus.Step.{StepResult, compute_swap_step}
use nofomo.Cetus.Step.Fees.{compute_swap_step-fits}
use nofomo.Cetus.Step.Empty.{Stuck, compute_swap_step-empty}
use nofomo.Cetus.Swap.{
  TickData, PoolState, SwapResult, Walk, Flow, next_tick, stop, spend, after_step, target_price,
  take_step, skips, visit, follow, walk, start, finish, compute_swap,
}

-- What the loop has accounted for: all of the input, unless what remains is stuck for good.
abbrev Accounts : ℕ → ℕ → Walk → Type 0
Accounts amount f w =
    (w.result.amount_in + w.result.fee_amount + w.remaining ≡ amount) ⊎ Stuck w.remaining f

-- What `spend` leaves after a step that fits.
spend_ok :
    (remaining : ℕ) (s : StepResult) {r : ℕ}
    → remaining < u128_mod
    → s.amount_in + s.fee_amount ≤ remaining
    → spend remaining s ≡ ok r
    → ((s.amount_in ≡ 0) × (r ≡ remaining))
      ⊎ ((s.amount_in ≢ 0) × (r + (s.amount_in + s.fee_amount) ≡ remaining))
unfolding spend
spend_ok remaining s {r} small fits h = elim (Bool-cases (s.amount_in == 0)) [
  | inl z ↦ inl (ground arith, ground arith)
  | inr n ↦
      let k : checked_sub remaining (add_u128 s.amount_in s.fee_amount)
            (msg "swap consumed more than the remaining input amount")
          ≡ ok r =
        rw n at h in
      let e = checked_sub_ok remaining (add_u128 s.amount_in s.fee_amount) _ k in
      inr (ground arith, omega arith)
]

module _ (a_to_b : Bool) (pool : PoolState) (amount : ℕ) (bounded : amount < u128_mod) where
  step-Accounts :
      (w : Walk) (tick : TickData) (s : StepResult) (target r : ℕ)
      → Accounts amount pool.fee_rate w
      → w.remaining ≤ amount
      → 0 < w.remaining
      → compute_swap_step w.sqrt_price target w.liquidity w.remaining pool.fee_rate true ≡ ok s
      → spend w.remaining s ≡ ok r
      → Accounts amount pool.fee_rate (after_step a_to_b pool w tick s r)
        × ((after_step a_to_b pool w tick s r).remaining ≤ amount)
  unfolding after_step
  step-Accounts w tick s target r acc below pos e h =
      let fits =
        compute_swap_step-fits w.sqrt_price target w.liquidity w.remaining pool.fee_rate e in
      let (idle, stuck) =
        compute_swap_step-empty w.sqrt_price target w.liquidity w.remaining pool.fee_rate e in
      elim (spend_ok w.remaining s (omega arith) fits h) [
        | inl (z, same) ↦ elim acc [
          | inl exact ↦ elim (idle z pos) [
            | inl free ↦ (inl (omega arith), omega arith)
            | inr st ↦ (inr (rw same st), omega arith)
          ]
          | inr st ↦ (inr (rw same st), omega arith)
        ]
        | inr (used, spent) ↦ elim acc [
          | inl exact ↦ (inl (omega arith), omega arith)
          | inr st ↦ absurd (used (stuck st))
        ]
      ]

  abbrev Keeps : Walk → Type 0
  Keeps w = Accounts amount pool.fee_rate w × (w.remaining ≤ amount)

  abbrev flow_walk : Flow → Walk
  flow_walk (next_tick w) = w
  flow_walk (stop w) = w

  flow_of-Keeps :
      (b : Bool) (w : Walk) {f : Flow}
      → Keeps w
      → ok (if b then stop w else next_tick w) ≡ ok f
      → Keeps (flow_walk f)
  flow_of-Keeps true w {f} k h = subst (λ (g : Flow). Keeps (flow_walk g)) (ok-injective h) k
  flow_of-Keeps false w {f} k h = subst (λ (g : Flow). Keeps (flow_walk g)) (ok-injective h) k

  take_step-Keeps :
      (w : Walk) (tick : TickData) {f : Flow}
      → Keeps w
      → 0 < w.remaining
      → take_step a_to_b pool w tick ≡ ok f
      → Keeps (flow_walk f)
  unfolding take_step
  take_step-Keeps w tick k pos h =
      let target = target_price a_to_b pool tick.sqrt_price in
      let (s, es, h1) =
        bind-eq-ok
          (compute_swap_step w.sqrt_price target w.liquidity w.remaining pool.fee_rate true) _ h in
      let (r, er, h2) = bind-eq-ok (spend w.remaining s) _ h1 in
      flow_of-Keeps (r == 0) (after_step a_to_b pool w tick s r)
        (step-Accounts w tick s target r k.0 k.1 pos es er) h2

  visit-Keeps :
      (w : Walk) (tick : TickData) {f : Flow}
      → Keeps w
      → visit a_to_b pool w tick ≡ ok f
      → Keeps (flow_walk f)
  unfolding visit
  visit-Keeps w tick k h = elim (Bool-cases (skips a_to_b pool tick)) [
    | inl past ↦ subst (λ (g : Flow). Keeps (flow_walk g)) (ok-injective (rw past at h)) k
    | inr near ↦ elim (Bool-cases (w.remaining == 0)) [
      | inl none_left ↦
          subst (λ (g : Flow). Keeps (flow_walk g)) (ok-injective (rw (near, none_left) at h)) k
      | inr left ↦ take_step-Keeps w tick k (ground arith) (rw (near, left) at h)
    ]
  ]

  follow-Keeps :
      (rest : Walk → Result Walk) (r : Result Flow) {v : Walk}
      → ((f : Flow) → r ≡ ok f → Keeps (flow_walk f))
      → ((w : Walk) → Keeps w → rest w ≡ ok v → Keeps v)
      → follow a_to_b pool rest r ≡ ok v
      → Keeps v
  unfolding follow
  follow-Keeps rest (ok (next_tick w)) k f h = f w (k (next_tick w) refl) h
  follow-Keeps rest (ok (stop w)) k f h = subst Keeps (ok-injective h) (k (stop w) refl)
  follow-Keeps rest (err e) k f h = cc

  walk-Keeps :
      (ticks : List TickData) (w : Walk) {v : Walk}
      → Keeps w
      → walk a_to_b pool ticks w ≡ ok v
      → Keeps v
  unfolding walk
  walk-Keeps [] w k h = subst Keeps (ok-injective h) k
  walk-Keeps (tick ∷ ticks) w k h =
      follow-Keeps (walk a_to_b pool ticks) (visit a_to_b pool w tick)
        (λ f e. visit-Keeps w tick k e) (λ u ku hu. walk-Keeps ticks u ku hu) h

finish_ok :
    (amount : ℕ) (w : Walk) {r : SwapResult}
    → finish amount w ≡ ok r
    → (w.remaining ≡ 0) × (r.amount_in ≡ add_u128 w.result.amount_in w.result.fee_amount)
unfolding finish
finish_ok amount w h = elim (Bool-cases (w.remaining == 0)) [
  | inl z ↦ (ground arith, ground arith)
  | inr n ↦ absurd (err-ne-ok (rw n at h))
]

-- A swap that succeeds, over any pool and any ticks, reports the whole amount as its input, the fees
-- included: nothing is left over and nothing is counted twice.
pub compute_swap-exact :
    (a_to_b : Bool) (amount : ℕ) (pool : PoolState) (ticks : List TickData) {r : SwapResult}
    → amount < u128_mod
    → compute_swap a_to_b amount pool ticks ≡ ok r
    → r.amount_in ≡ amount
unfolding compute_swap
compute_swap-exact a_to_b amount pool ticks bounded h =
    let (w, ew, h1) =
      bind-eq-ok (walk a_to_b pool (if a_to_b then reverse ticks else ticks) (start amount pool)) _
        h in
    let k =
      walk-Keeps a_to_b pool amount bounded _ (start amount pool) (inl (omega arith), omega arith)
        ew in
    let (z, e) = finish_ok amount w h1 in
    elim k.0 [ inl exact ↦ omega arith | inr st ↦ absurd (omega (arith, st.positive)) ]
