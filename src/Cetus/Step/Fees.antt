-- ===== src/Cetus/Step/Fees.antt =====
-- What a step by input uses, the fee included (crates/cetus/src/swap_math.rs, `compute_swap_step`).
use native.Mathlib.Nat.{le_refl, le_trans, add-mul, mul-add, mul-le-mul_right, mul-le-mul}
use Prim.Native.Nat.{suc-le-suc}
use nofomo.Prelude.{
  ℕ, ◌+◌, ◌-◌, ◌*◌, ◌/◌, ◌≤◌, ◌<◌, ◌≡◌, ap, ◌∙◌, Bool, true, msg, Result, ok, err, ◌>>=◌, arith,
  ◌==◌, ltb, leb, if◌then◌else◌, Bool-cases, bind-eq-ok, inl, inr,
}
use nofomo.Cetus.Words.{
  u128_mod, u256_mod, fee_rate_denominator, checked_sub, checked_sub_ok, to_u128, to_u128_ok,
  div_round_up_if,
}
use nofomo.Cetus.Words.Rounding.{ceil_bounds}
use nofomo.Cetus.Delta.{
  mul_div_floor, mul_div_ceil, get_delta_up_from_input, get_delta_down_from_output,
}
use nofomo.Cetus.Step.{
  StepResult, Used, fee_complement, stop_short, reach_target, step_by_input, compute_swap_step,
}

fee_complement_ok : (f : ℕ) {c : ℕ} → fee_complement f ≡ ok c → c + f ≡ 1000000
unfolding fee_complement
fee_complement_ok f h = checked_sub_ok 1000000 f (msg "fee_rate exceeds denominator") h

pub mul_div_floor_ok : (a b : ℕ) {r : ℕ} → mul_div_floor a b 1000000 ≡ ok r → r ≡ (a * b) / 1000000
unfolding mul_div_floor
mul_div_floor_ok a b h = (to_u128_ok ((a * b) / 1000000) (msg "mul_div_floor") h).0

pub mul_div_ceil_ok :
    (a b d : ℕ) {r : ℕ}
    → a * b < u256_mod - 1
    → mul_div_ceil a b d ≡ ok r
    → (0 < d) × (a * b ≤ r * d) × (r * d < a * b + d)
unfolding mul_div_ceil
mul_div_ceil_ok a b d small h =
    let (v, e, k) =
      bind-eq-ok (div_round_up_if (a * b) d true) (λ q. to_u128 q (msg "mul_div_ceil")) h in
    let same = (to_u128_ok v (msg "mul_div_ceil") k).0 in rw same (ceil_bounds (a * b) d small e)

-- The fee rounded up still fits beside the input that the share of `a` without the fee covers.
fee_fits :
    (a c f used fee : ℕ)
    → c + f ≡ 1000000
    → 0 < c
    → used * 1000000 ≤ a * c
    → fee * c < used * f + c
    → used + fee ≤ a
fee_fits a c f used fee s pos u q = elim (Bool-cases (ltb a (used + fee))) [
  | inr fits ↦ ground arith
  | inl over ↦
      let more : a + 1 ≤ used + fee = ground arith in
      absurd (
        omega (
          arith,
          mul-le-mul_right c more,
          add-mul a 1 c,
          add-mul used fee c,
          mul-add used c f,
          ap (λ (t : ℕ). used * t) s,
        ))
]

stop_short_ok :
    (current target liquidity amount fee_rate : ℕ) (a_to_b : Bool) (remain : ℕ) {u : Used}
    → stop_short current target liquidity amount fee_rate a_to_b remain ≡ ok u
    → u.amount_in + u.fee_amount ≡ amount
unfolding stop_short checked_sub
stop_short_ok current target liquidity amount fee_rate a_to_b remain h = ground arith

share_covers : (a c t used : ℕ) → t ≡ (a * c) / 1000000 → used ≤ t → used * 1000000 ≤ a * c
share_covers a c t used e h = omega arith

reach_target_ok :
    (current target liquidity amount f : ℕ) (a_to_b : Bool) (used : ℕ) {u : Used}
    → used * f < u256_mod - 1
    → ((c : ℕ) → fee_complement f ≡ ok c → used * 1000000 ≤ amount * c)
    → reach_target current target liquidity amount f a_to_b used ≡ ok u
    → u.amount_in + u.fee_amount ≤ amount
unfolding reach_target
reach_target_ok current target liquidity amount f a_to_b used {u} small covers h =
    let (c, ec, k) = bind-eq-ok (fee_complement f) _ h in
    let (fee, ef, l) = bind-eq-ok (mul_div_ceil used f c) _ k in
    let b = mul_div_ceil_ok used f c small ef in
    let fits = fee_fits amount c f used fee (fee_complement_ok f ec) b.0 (covers c ec) b.2 in
    ground arith

product_small : (used f c : ℕ) → used < u128_mod → c + f ≡ 1000000 → used * f < u256_mod - 1
product_small used f c h e =
    let m : used * f ≤ used * 1000000 = mul-le-mul (le_refl used) (omega arith) in omega arith

mul_div_floor-u128 : (a b : ℕ) {r : ℕ} → mul_div_floor a b 1000000 ≡ ok r → r < u128_mod
unfolding mul_div_floor
mul_div_floor-u128 a b h =
    let (same, narrow) = to_u128_ok ((a * b) / 1000000) (msg "mul_div_floor") h in omega arith

pub same_share :
    (a c c' f : ℕ)
    → fee_complement f ≡ ok c
    → fee_complement f ≡ ok c'
    → (a * c) / 1000000 ≡ (a * c') / 1000000
same_share a c c' f e e' =
    let same : c ≡ c' = omega (arith, fee_complement_ok f e, fee_complement_ok f e') in
    ap (λ (t : ℕ). (a * t) / 1000000) same

-- The part of the input that a step uses, with its fee, on either side of the test.
used_fits :
    (current target liquidity amount f : ℕ) (a_to_b : Bool) (c remain max : ℕ) {u : Used}
    → fee_complement f ≡ ok c
    → mul_div_floor amount c 1000000 ≡ ok remain
    → (if ltb remain max
        then stop_short current target liquidity amount f a_to_b remain
        else reach_target current target liquidity amount f a_to_b max)
      ≡ ok u
    → u.amount_in + u.fee_amount ≤ amount
used_fits current target liquidity amount f a_to_b c remain max {u} ec er h =
    elim (Bool-cases (ltb remain max)) [
      | inl short ↦
          let k : stop_short current target liquidity amount f a_to_b remain ≡ ok u =
            rw short at h in
          omega (arith, stop_short_ok current target liquidity amount f a_to_b remain k)
      | inr full ↦
          let k : reach_target current target liquidity amount f a_to_b max ≡ ok u = rw full at h in
          let bound : max ≤ remain = ground arith in
          let r = mul_div_floor_ok amount c er in
          let narrow : remain < u128_mod = mul_div_floor-u128 amount c er in
          reach_target_ok current target liquidity amount f a_to_b max
            (product_small max f c (le_trans (suc-le-suc bound) narrow) (fee_complement_ok f ec))
            (λ c' ec'.
              share_covers amount c' remain max (r ∙ same_share amount c c' f ec ec') bound)
            k
    ]

-- The output of a step is computed last and leaves the input and the fee.
pub with_output_ok :
    (r : Result ℕ) (u : Used) {s : StepResult}
    → (do
      out ← r
      ok (record {
        amount_in = u.amount_in;
        amount_out = out;
        next_sqrt_price = u.next_sqrt_price;
        fee_amount = u.fee_amount;
      }))
      ≡ ok s
    → (s.amount_in ≡ u.amount_in) × (s.fee_amount ≡ u.fee_amount)
with_output_ok (ok out) u h = (ground arith, ground arith)
with_output_ok (err e) u h = (cc, cc)

pub step_by_input-fits :
    (current target liquidity amount fee_rate : ℕ) (a_to_b : Bool) {s : StepResult}
    → step_by_input current target liquidity amount fee_rate a_to_b ≡ ok s
    → s.amount_in + s.fee_amount ≤ amount
unfolding step_by_input
step_by_input-fits current target liquidity amount f a_to_b {s} h =
    let (c, ec, h1) = bind-eq-ok (fee_complement f) _ h in
    let (remain, er, h2) = bind-eq-ok (mul_div_floor amount c fee_rate_denominator) _ h1 in
    let (max, em, h3) = bind-eq-ok (get_delta_up_from_input current target liquidity a_to_b) _ h2 in
    let (used, eu, h4) = bind-eq-ok _ _ h3 in
    let (same, fee) =
      with_output_ok (get_delta_down_from_output current used.next_sqrt_price liquidity a_to_b) used
        h4 in
    let fits = used_fits current target liquidity amount f a_to_b c remain max ec er eu in
    omega arith

-- A step by input, to any target, uses at most the amount that it is given: the input and the fee,
-- which is rounded up, fit together.
pub compute_swap_step-fits :
    (current target liquidity amount fee_rate : ℕ) {s : StepResult}
    → compute_swap_step current target liquidity amount fee_rate true ≡ ok s
    → s.amount_in + s.fee_amount ≤ amount
unfolding compute_swap_step
compute_swap_step-fits current target liquidity amount f {s} h =
    elim (Bool-cases (liquidity == 0)) [
      | inl dry ↦ ground arith
      | inr wet ↦
          step_by_input-fits current target liquidity amount f (leb target current) (rw wet at h)
    ]
