-- ===== src/Orchestrator/Machine/Reach.antt =====
-- Paths of the diagram (crates/orchestrator/src/machine.rs).
use nofomo.Prelude.{ℕ, ◌≡◌, refl, ◌⊎◌, inl, inr, ◌∙◌, true, Text, Option, none, some}
use nofomo.Prelude.Int.{ℤ}
use nofomo.Domain.Model.{swap}
use nofomo.Strategy.Order.{
  OrderState, swap_ready_state, broadcasting_state, submitted_state, filled_state,
  state_is_terminal,
}
use nofomo.Orchestrator.Machine.{Outcome, confirmed}
use nofomo.Orchestrator.Machine.Diagram.{
  Edge, sign_edge, build_failed_edge, sent_edge, gave_up_edge, blocked_edge, fill_edge,
  allowed_edge, reverted_edge, timeout_edge, resolved_edge,
}

pub data Reach (s : OrderState) : OrderState → Type 0 where
  here : Reach s s
  then : {t u : OrderState} {o : Outcome} (n : ℕ) → Reach s t → Edge n t o u → Reach s u

-- The amount and the withdrawal that a live order carries.
abbrev pub stake : OrderState → Option (ℕ × Option Text)
stake (swap_ready_state step amount_in w) = some (amount_in, w)
stake (broadcasting_state step amount_in signed_tx tx_hash w) = some (amount_in, w)
stake (submitted_state step amount_in tx_hash w at) = some (amount_in, w)
stake _ = none

Edge-stake :
    {n : ℕ} {s t : OrderState} {o : Outcome}
    → Edge n s o t
    → (stake t ≡ stake s) ⊎ (state_is_terminal t ≡ true)
Edge-stake sign_edge = inl refl
Edge-stake sent_edge = inl refl
Edge-stake (allowed_edge h) = inl refl
Edge-stake build_failed_edge = inr refl
Edge-stake (gave_up_edge h) = inr refl
Edge-stake (blocked_edge note) = inr refl
Edge-stake fill_edge = inr refl
Edge-stake reverted_edge = inr refl
Edge-stake timeout_edge = inr refl
Edge-stake resolved_edge = inr refl

Edge-terminal :
    {n : ℕ} {s t : OrderState} {o : Outcome}
    → Edge n s o t
    → state_is_terminal s ≡ true
    → state_is_terminal t ≡ true
Edge-terminal resolved_edge h = refl
Edge-terminal sign_edge h = cc
Edge-terminal sent_edge h = cc
Edge-terminal (allowed_edge k) h = cc
Edge-terminal build_failed_edge h = refl
Edge-terminal (gave_up_edge k) h = refl
Edge-terminal (blocked_edge note) h = refl
Edge-terminal fill_edge h = refl
Edge-terminal reverted_edge h = refl
Edge-terminal timeout_edge h = refl

pub Reach-stake :
    {s t : OrderState} → Reach s t → (stake t ≡ stake s) ⊎ (state_is_terminal t ≡ true)
Reach-stake here = inl refl
Reach-stake (then n p e) = elim (Reach-stake p) [
  | inl same ↦ elim (Edge-stake e) [ inl q ↦ inl (q ∙ same) | inr d ↦ inr d ]
  | inr over ↦ inr (Edge-terminal e over)
]

-- The only edge to a filled order.
pub fill_source :
    {n : ℕ} {s t : OrderState} {o : Outcome} {tx_hash : Text}
    → Edge n s o t
    → t ≡ filled_state tx_hash
    → (o ≡ confirmed)
      × (amount_in : ℕ) × (w : Option Text) × (at : ℤ) × (s
          ≡ submitted_state swap amount_in tx_hash w at)
fill_source (fill_edge {amount_in = a} {tx_hash = x} {w = w} {at = at}) e = (refl, a, w, at, cc)
fill_source resolved_edge e = cc
fill_source sign_edge e = cc
fill_source sent_edge e = cc
fill_source (allowed_edge k) e = cc
fill_source build_failed_edge e = cc
fill_source (gave_up_edge k) e = cc
fill_source (blocked_edge note) e = cc
fill_source reverted_edge e = cc
fill_source timeout_edge e = cc
