-- ===== src/Cetus/Words/Rounding.antt =====
-- Division rounded up (crates/cetus/src/swap_math.rs, `div_round_up_if`).
use native.Mathlib.Nat.{div-add-mod, mod-lt, mul_comm, add-mul}
use nofomo.Prelude.{
  ℕ, zero, suc, ◌+◌, ◌-◌, ◌*◌, ◌/◌, ◌%◌, ◌≤◌, ◌<◌, ◌≡◌, ◌≢◌, true, ok, arith, ◌==◌, Bool-cases, inl,
  inr,
}
use nofomo.Cetus.Words.{u256_mod, div_round_up_if}

exact_bounds :
    (n d t : ℕ) → d * t + n % d ≡ n → n % d < d → n % d ≡ 0 → (n ≤ t * d) × (t * d < n + d)
exact_bounds n d t e lt z = let c : d * t ≡ t * d = mul_comm d t in omega arith

up_bounds :
    (n d t : ℕ)
    → d * t + n % d ≡ n
    → n % d < d
    → n % d ≢ 0
    → (n ≤ (t + 1) * d) × ((t + 1) * d < n + d)
up_bounds n d t e lt z =
    let c : d * t ≡ t * d = mul_comm d t in
    let s : (t + 1) * d ≡ t * d + d = omega (arith, add-mul t 1 d) in omega arith

quotient_small : (n d : ℕ) → n / suc d ≤ n
quotient_small n d = omega arith

-- A quotient rounded up, of a numerator below the largest U256 and any denominator: the denominator
-- is positive, and the quotient is the least number whose product with it reaches the numerator.
pub ceil_bounds :
    (n d : ℕ) {q : ℕ}
    → n < u256_mod - 1
    → div_round_up_if n d true ≡ ok q
    → (0 < d) × (n ≤ q * d) × (q * d < n + d)
unfolding div_round_up_if
ceil_bounds n zero h e = cc
ceil_bounds n (suc d) {q} h e = elim (Bool-cases (n % suc d == 0)) [
  | inl z ↦
      let same : q ≡ n / suc d = ground arith in
      let b =
        exact_bounds n (suc d) (n / suc d) (div-add-mod n (suc d)) (mod-lt n (omega arith))
          (ground arith) in
      rw same (omega arith, b.0, b.1)
  | inr z ↦
      let same : q ≡ n / suc d + 1 = ground (arith, quotient_small n d) in
      let b =
        up_bounds n (suc d) (n / suc d) (div-add-mod n (suc d)) (mod-lt n (omega arith))
          (ground arith) in
      rw same (omega arith, b.0, b.1)
]
