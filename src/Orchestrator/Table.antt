-- ===== src/Orchestrator/Table.antt =====
-- What a history of port calls says of the order table and of what was sent: the specification side
-- of crates/orchestrator/src/run.rs.
use nofomo.Prelude.{
  ℕ, ◌≡◌, refl, ◌∙◌, Bool, true, false, [], ◌∷◌, Text, text_eq, Option, none, some, Result, ok, err,
  if◌then◌else◌,
}
use nofomo.Domain.Model.{ExecStep}
use nofomo.Domain.Tx.{SuiSdk, SignedTx}
use nofomo.Strategy.Order.{Order, broadcasting_state}
use nofomo.Orchestrator.World.{
  History, Event, sent, upserted, Exec, ◌>>=◌, continue, lift, call, in_context,
}
use nofomo.Orchestrator.Io.{restore_signed}

module _ {V : Type 0} {sdk : SuiSdk} where
  -- The row of an id: the last write of it that succeeded.
  abbrev pub stored : History V sdk → Text → Option (Order V)
  stored [] id = none
  stored (upserted order (ok u) ∷ h) id = if text_eq order.id id then some order else stored h id
  stored (_ ∷ h) id = stored h id

  -- `tx` is what a stored row, ready to broadcast, decodes to.
  pub record Durable (tx : SignedTx sdk) (h : History V sdk) : Type 0 where
    pub order : Order V
    pub row : stored h order.id ≡ some order
    pub step : ExecStep
    pub amount_in : ℕ
    pub signed_tx : Text
    pub tx_hash : Text
    pub withdraw : Option Text
    pub ready : order.state ≡ broadcasting_state step amount_in signed_tx tx_hash withdraw
    pub decoded : restore_signed order.plan signed_tx tx_hash ≡ ok tx

  abbrev pub Covered : Event V sdk → History V sdk → Type 0
  Covered (sent tx) h = Durable tx h
  Covered _ h = Unit {0}

  -- Whatever was sent had been stored, in the bytes that were sent, before.
  abbrev pub IsSafe : History V sdk → Type 0
  IsSafe [] = Unit {0}
  IsSafe (e ∷ h) = Covered e h × IsSafe h

  -- Nothing was sent.
  abbrev pub sends : Event V sdk → Bool
  sends (sent tx) = true
  sends _ = false

  abbrev pub quiet : Event V sdk → Bool
  quiet (sent tx) = false
  quiet (upserted order r) = false
  quiet _ = true

  -- `k` is `h` after calls that neither send nor write.
  pub data Quietly (h : History V sdk) : History V sdk → Type 0 where
    silent : Quietly h h
    heard : {k : History V sdk} (e : Event V sdk) → quiet e ≡ true → Quietly h k → Quietly h (e ∷ k)

  pub Quietly-trans : {h k l : History V sdk} → Quietly h k → Quietly k l → Quietly h l
  Quietly-trans p silent = p
  Quietly-trans p (heard e q r) = heard e q (Quietly-trans p r)

  quiet-stored :
      (e : Event V sdk) (k : History V sdk) (id : Text)
      → quiet e ≡ true
      → stored (e ∷ k) id ≡ stored k id
  quiet-stored (sent tx) k id q = cc
  quiet-stored (upserted order r) k id q = cc
  quiet-stored _ k id q = refl

  pub Quietly-stored : {h k : History V sdk} → Quietly h k → (id : Text) → stored k id ≡ stored h id
  Quietly-stored silent id = refl
  Quietly-stored (heard {k = k} e q r) id = quiet-stored e k id q ∙ Quietly-stored r id

  quiet-Covered : (e : Event V sdk) (k : History V sdk) → quiet e ≡ true → Covered e k
  quiet-Covered (sent tx) k q = cc
  quiet-Covered _ k q = tt

  pub Quietly-IsSafe : {h k : History V sdk} → Quietly h k → IsSafe h → IsSafe k
  Quietly-IsSafe silent s = s
  Quietly-IsSafe (heard {k = k} e q r) s = (quiet-Covered e k q, Quietly-IsSafe r s)

  -- An operation that neither sends nor writes.
  pub record IsQuiet {A : Type 0} (m : Exec V sdk A) : Type 0 where
    pub at : (h : History V sdk) → Quietly h (m h).1

  pub IsQuiet-lift : {A : Type 0} (r : Result A) → IsQuiet (lift r)
  IsQuiet-lift r = record { at = λ h. silent }

  pub IsQuiet-call :
      {A : Type 0} (port : History V sdk → Result A) (e : Event V sdk)
      → quiet e ≡ true
      → IsQuiet (call port e)
  IsQuiet-call port e q = record { at = λ h. heard e q silent }

  pub IsQuiet-in_context :
      {A : Type 0} (c : Text) (m : Exec V sdk A) → IsQuiet m → IsQuiet (in_context c m)
  IsQuiet-in_context c m q = record { at = λ h. q.at h }

  continue-Quietly :
      {A B : Type 0} (r : Result A) (f : A → Exec V sdk B) (h : History V sdk)
      → ((a : A) → IsQuiet (f a))
      → Quietly h (continue r f h).1
  continue-Quietly (ok a) f h q = (q a).at h
  continue-Quietly (err e) f h q = silent

  pub IsQuiet-bind :
      {A B : Type 0} (m : Exec V sdk A) (f : A → Exec V sdk B)
      → IsQuiet m
      → ((a : A) → IsQuiet (f a))
      → IsQuiet (m >>= f)
  IsQuiet-bind m f qm qf = record {
    at = λ h. let (r, k) = m h in Quietly-trans (qm.at h) (continue-Quietly r f k qf);
  }

  pub ruleset quiet_rules = (IsQuiet-lift, IsQuiet-call, IsQuiet-in_context, IsQuiet-bind)
