-- ===== src/Cetus/Step/Empty.antt =====
-- Steps by input that use no input (crates/cetus/src/swap_math.rs, `compute_swap_step`).
use native.Mathlib.Nat.{mul-le-mul_right, zero-mul}
use nofomo.Prelude.{
  ℕ, ◌*◌, ◌/◌, ◌≤◌, ◌<◌, ◌≡◌, sym, ap, ◌∙◌, Bool, true, Result, ok, arith, ◌==◌, ltb, leb,
  if◌then◌else◌, Bool-cases, bind-eq-ok, inl, inr, ◌⊎◌,
}
use nofomo.Cetus.Words.{fee_rate_denominator}
use nofomo.Cetus.Delta.{
  mul_div_floor, mul_div_ceil, get_delta_up_from_input, get_delta_down_from_output,
}
use nofomo.Cetus.Step.{
  StepResult, Used, fee_complement, stop_short, reach_target, step_by_input, compute_swap_step,
}
use nofomo.Cetus.Step.Fees.{mul_div_floor_ok, mul_div_ceil_ok, same_share, with_output_ok}

-- A positive amount of which every share without the fee rounds to nothing.
pub record Stuck (amount fee_rate : ℕ) : Type 0 where
  pub positive : 0 < amount
  pub nothing : (c : ℕ) → fee_complement fee_rate ≡ ok c → (amount * c) / 1000000 ≡ 0

-- What a step says when it used no input: there is no fee, or the amount is stuck.
abbrev pub Idle : ℕ → ℕ → ℕ → ℕ → Type 0
Idle amount fee_rate amount_in fee = amount_in ≡ 0 → 0 < amount → (fee ≡ 0) ⊎ Stuck amount fee_rate

stop_short-input :
    (current target liquidity amount fee_rate : ℕ) (a_to_b : Bool) (remain : ℕ) {u : Used}
    → stop_short current target liquidity amount fee_rate a_to_b remain ≡ ok u
    → u.amount_in ≡ remain
unfolding stop_short
stop_short-input current target liquidity amount fee_rate a_to_b remain h = ground arith

reach_target-input :
    (current target liquidity amount f : ℕ) (a_to_b : Bool) (used : ℕ) {u : Used}
    → reach_target current target liquidity amount f a_to_b used ≡ ok u
    → (u.amount_in ≡ used) × (used ≡ 0 → u.fee_amount ≡ 0)
unfolding reach_target
reach_target-input current target liquidity amount f a_to_b used {u} h =
    let (c, ec, k) = bind-eq-ok (fee_complement f) _ h in
    let (fee, ef, l) = bind-eq-ok (mul_div_ceil used f c) _ k in
    (ground arith, λ z. ground (arith, no_fee c f used fee z ef))
  where
    no_fee : (c f used fee : ℕ) → used ≡ 0 → mul_div_ceil used f c ≡ ok fee → fee ≡ 0
    no_fee c f used fee z e =
        let none_used : used * f ≡ 0 = ap (λ (t : ℕ). t * f) z ∙ zero-mul f in
        let b = mul_div_ceil_ok used f c (omega arith) e in
        elim (Bool-cases (fee == 0)) [
          | inl y ↦ ground arith
          | inr n ↦
              let big : 1 ≤ fee = ground arith in absurd (omega (arith, mul-le-mul_right c big))
        ]

module _ (current target liquidity amount f : ℕ) (a_to_b : Bool) (c remain max : ℕ)
    (ec : fee_complement f ≡ ok c) (er : mul_div_floor amount c 1000000 ≡ ok remain) where
  used : Result Used
  used =
      if ltb remain max
      then stop_short current target liquidity amount f a_to_b remain
      else reach_target current target liquidity amount f a_to_b max

  used-Idle : {u : Used} → used ≡ ok u → Idle amount f u.amount_in u.fee_amount
  unfolding used
  used-Idle {u} h z pos = elim (Bool-cases (ltb remain max)) [
    | inl short ↦
        let k : stop_short current target liquidity amount f a_to_b remain ≡ ok u = rw short at h in
        let i = stop_short-input current target liquidity amount f a_to_b remain k in
        let r = mul_div_floor_ok amount c er in
        inr (record {
          positive = pos;
          nothing = λ c' ec'. omega (arith, same_share amount c c' f ec ec');
        })
    | inr full ↦
        let k : reach_target current target liquidity amount f a_to_b max ≡ ok u = rw full at h in
        let (i, free) = reach_target-input current target liquidity amount f a_to_b max k in
        inl (free (omega arith))
  ]

  used-Stuck : {u : Used} → used ≡ ok u → Stuck amount f → u.amount_in ≡ 0
  unfolding used
  used-Stuck {u} h st = elim (Bool-cases (ltb remain max)) [
    | inl short ↦
        let k : stop_short current target liquidity amount f a_to_b remain ≡ ok u = rw short at h in
        stop_short-input current target liquidity amount f a_to_b remain k
        ∙ (mul_div_floor_ok amount c er ∙ st.nothing c ec)
    | inr full ↦
        let k : reach_target current target liquidity amount f a_to_b max ≡ ok u = rw full at h in
        let i = (reach_target-input current target liquidity amount f a_to_b max k).0 in
        let r = mul_div_floor_ok amount c er ∙ st.nothing c ec in
        let bound : max ≤ remain = ground arith in omega arith
  ]

carry :
    {amount f a b x y : ℕ}
    → a ≡ x
    → b ≡ y
    → Idle amount f x y
    → (Stuck amount f → x ≡ 0)
    → Idle amount f a b × (Stuck amount f → a ≡ 0)
carry p q idle stuck =
    (λ z pos. elim (idle (sym p ∙ z) pos) [ inl e ↦ inl (q ∙ e) | inr s ↦ inr s ], λ s. p ∙ stuck s)

pub step_by_input-empty :
    (current target liquidity amount f : ℕ) (a_to_b : Bool) {s : StepResult}
    → step_by_input current target liquidity amount f a_to_b ≡ ok s
    → Idle amount f s.amount_in s.fee_amount × (Stuck amount f → s.amount_in ≡ 0)
unfolding step_by_input used
step_by_input-empty current target liquidity amount f a_to_b {s} h =
    let (c, ec, h1) = bind-eq-ok (fee_complement f) _ h in
    let (remain, er, h2) = bind-eq-ok (mul_div_floor amount c fee_rate_denominator) _ h1 in
    let (max, em, h3) = bind-eq-ok (get_delta_up_from_input current target liquidity a_to_b) _ h2 in
    let (u, eu, h4) =
      bind-eq-ok (used current target liquidity amount f a_to_b c remain max ec er) _ h3 in
    let (same, fee) =
      with_output_ok (get_delta_down_from_output current u.next_sqrt_price liquidity a_to_b) u h4 in
    carry same fee (used-Idle current target liquidity amount f a_to_b c remain max ec er eu)
      (used-Stuck current target liquidity amount f a_to_b c remain max ec er eu)

-- A step by input that uses no input, of a positive amount, takes no fee, unless the amount is too
-- small for any input to be left after the fee; and of such an amount no step uses any.
pub compute_swap_step-empty :
    (current target liquidity amount f : ℕ) {s : StepResult}
    → compute_swap_step current target liquidity amount f true ≡ ok s
    → Idle amount f s.amount_in s.fee_amount × (Stuck amount f → s.amount_in ≡ 0)
unfolding compute_swap_step
compute_swap_step-empty current target liquidity amount f {s} h =
    elim (Bool-cases (liquidity == 0)) [
      | inl dry ↦ (λ z pos. inl (ground arith), λ st. ground arith)
      | inr wet ↦
          step_by_input-empty current target liquidity amount f (leb target current) (rw wet at h)
    ]
