-- ===== src/Orchestrator/Machine/Backoff.antt =====
-- The retry delay (crates/orchestrator/src/machine.rs).
use Prim.Native.Nat.{min}
use native.Mathlib.Nat.{pow-suc}
use nofomo.Prelude.{
  ℕ, zero, suc, ◌+◌, ◌-◌, ◌*◌, ◌^◌, ◌≤◌, ◌≡◌, ap, inl, inr, arith, ltb, Bool-cases, true, false,
}
use nofomo.Orchestrator.Machine.{swap_retry_backoff_secs}

pow_pos : (n : ℕ) → 1 ≤ 2 ^ n
pow_pos zero = omega arith
pow_pos (suc n) = omega (arith, pow-suc 2 n, pow_pos n)

pow_large : (n : ℕ) → 1024 ≤ 2 ^ (n + 10)
pow_large zero = omega arith
pow_large (suc n) =
    let e : suc n + 10 ≡ suc (n + 10) = omega arith in
    rw e (omega (arith, pow-suc 2 (n + 10), pow_large n))

-- The delay with the shift that the attempts give.
delay : ℕ → ℕ
delay shift = min (2 * 2 ^ shift) 600

backoff-delay : (a : ℕ) → swap_retry_backoff_secs a ≡ delay (min (a - 1) 20)
unfolding swap_retry_backoff_secs delay
backoff-delay a = ground arith

delay_small : (s : ℕ) → delay s ≡ min (2 ^ suc s) 600
unfolding delay
delay_small s = rw (pow-suc 2 s) (omega arith)

delay_saturates : (s : ℕ) → 9 ≤ s → delay s ≡ 600
delay_saturates s h =
    let e : suc s ≡ (s - 9) + 10 = omega arith in
    omega (arith, delay_small s, ap (λ (t : ℕ). 2 ^ t) e, pow_large (s - 9))

backoff_small : (a : ℕ) → ltb a 21 ≡ true → swap_retry_backoff_secs (suc a) ≡ min (2 ^ suc a) 600
backoff_small a h =
    let short : min (suc a - 1) 20 ≡ a = ground arith in
    omega (arith, backoff-delay (suc a), delay_small a, ap delay short)

backoff_large : (a : ℕ) → ltb a 21 ≡ false → swap_retry_backoff_secs (suc a) ≡ min (2 ^ suc a) 600
backoff_large a h =
    let long : min (suc a - 1) 20 ≡ 20 = ground arith in
    let tall : 21 ≤ a = ground arith in
    let e : suc a ≡ (suc a - 10) + 10 = omega arith in
    omega (
      arith,
      backoff-delay (suc a),
      delay_saturates 20 (omega arith),
      ap delay long,
      ap (λ (t : ℕ). 2 ^ t) e,
      pow_large (suc a - 10),
    )

-- The delay after `a + 1` failures is 2 ^ (a + 1) seconds, but at most 600, for every `a`.
pub backoff_doubles : (a : ℕ) → swap_retry_backoff_secs (suc a) ≡ min (2 ^ suc a) 600
backoff_doubles a = elim (Bool-cases (ltb a 21)) [
  | inl small ↦ backoff_small a small
  | inr large ↦ backoff_large a large
]

-- The delay is between 2 and 600 seconds, for every number of attempts.
pub backoff_bounds : (a : ℕ) → (2 ≤ swap_retry_backoff_secs a) × (swap_retry_backoff_secs a ≤ 600)
backoff_bounds zero = unfold swap_retry_backoff_secs in omega arith
backoff_bounds (suc a) = omega (arith, backoff_doubles a, pow-suc 2 a, pow_pos a)
