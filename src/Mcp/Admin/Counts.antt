-- ===== src/Mcp/Admin/Counts.antt =====
-- The counts of a status report (crates/mcp/src/admin.rs, `status`).
use nofomo.Prelude.{
  ℕ, ◌+◌, ◌≡◌, refl, sym, ap, ◌∙◌, Bool, true, false, List, [], ◌∷◌, Text, text_eq, text_eq_iff,
  length, filter, Option, ok, bind-eq-ok, ok-injective, if◌then◌else◌, arith, Bool-cases, inl, inr,
}
use nofomo.Strategy.Order.{
  Order, OrderStatus, pending, submitted, filled, failed, quarantined, status, status_eq,
}
use nofomo.Storage.Rows.{text_le}
use nofomo.Prelude.Int.{ℤ}
use nofomo.Storage.Strategy.{Tables, Codec, status_name}
use nofomo.Storage.Strategy.Statements.{list_levels, list_orders}
use nofomo.Trigger.Runtime.{RuntimeStatus}
use nofomo.Mcp.Admin.{DaemonStatus, count_one, count_orders, status_tool}

-- What a report says of a name, where a name that it leaves out has none.
unfoldable pub count_of : Text → List (Text × ℕ) → ℕ
count_of name [] = 0
count_of name ((key, n) ∷ counts) = (if text_eq key name then n else 0) + count_of name counts

abbrev one_if : Bool → ℕ
one_if true = 1
one_if false = 0

count_of-count_one :
    (name other : Text) (counts : List (Text × ℕ))
    → count_of name (count_one other counts) ≡ one_if (text_eq other name) + count_of name counts
unfolding count_of count_one
count_of-count_one name other [] = elim (Bool-cases (text_eq other name)) [
  | inl e ↦ rw e refl
  | inr e ↦ rw e refl
]
count_of-count_one name other ((key, n) ∷ counts) = elim (Bool-cases (text_eq key other)) [
  | inl same ↦
      let e : key ≡ other = (text_eq_iff key other).0 same in
      rw (same, e)
        (elim (Bool-cases (text_eq other name)) [
          | inl here ↦ rw here (omega arith)
          | inr there ↦ rw there (omega arith)
        ])
  | inr differs ↦ elim (Bool-cases (text_le key other)) [
    | inl le ↦ rw (differs, le, count_of-count_one name other counts) (omega arith)
    | inr gt ↦
        rw (differs, gt)
          (elim (Bool-cases (text_eq other name)) [
            | inl here ↦ rw here (omega arith)
            | inr there ↦ rw there (omega arith)
          ])
  ]
]

text_eq-status_name : (a b : OrderStatus) → text_eq (status_name a) (status_name b) ≡ status_eq a b
unfolding text_eq
text_eq-status_name pending pending = refl
text_eq-status_name pending submitted = refl
text_eq-status_name pending filled = refl
text_eq-status_name pending failed = refl
text_eq-status_name pending quarantined = refl
text_eq-status_name submitted pending = refl
text_eq-status_name submitted submitted = refl
text_eq-status_name submitted filled = refl
text_eq-status_name submitted failed = refl
text_eq-status_name submitted quarantined = refl
text_eq-status_name filled pending = refl
text_eq-status_name filled submitted = refl
text_eq-status_name filled filled = refl
text_eq-status_name filled failed = refl
text_eq-status_name filled quarantined = refl
text_eq-status_name failed pending = refl
text_eq-status_name failed submitted = refl
text_eq-status_name failed filled = refl
text_eq-status_name failed failed = refl
text_eq-status_name failed quarantined = refl
text_eq-status_name quarantined pending = refl
text_eq-status_name quarantined submitted = refl
text_eq-status_name quarantined filled = refl
text_eq-status_name quarantined failed = refl
text_eq-status_name quarantined quarantined = refl

count_orders_lem :
    {V : Type 0} (s : OrderStatus) (orders : List (Order V)) (counts : List (Text × ℕ))
    → count_of (status_name s) (count_orders orders counts)
      ≡ length (filter (λ o. status_eq (status o) s) orders) + count_of (status_name s) counts
unfolding count_orders
count_orders_lem s [] counts = omega arith
count_orders_lem s (order ∷ orders) counts =
    count_orders_lem s orders (count_one (status_name (status order)) counts)
    ∙ rw
        (
          count_of-count_one (status_name s) (status_name (status order)) counts,
          text_eq-status_name (status order) s,
        )
        (elim (Bool-cases (status_eq (status order) s)) [
          | inl e ↦ rw e (omega arith)
          | inr e ↦ rw e (omega arith)
        ])

-- For every status, a status report counts the listed orders that have it.
pub status_tool-Counted :
    {V F : Type 0} (codec : Codec V F) (version : Text) (fault fault' : Option Text)
    (runtime_status : RuntimeStatus F) (now : ℤ) (t : Tables F) {report : DaemonStatus}
    → status_tool codec version fault fault' runtime_status now t ≡ ok report
    → (found : List (Order V)) × (list_orders codec fault' t ≡ ok found)
      × ((s : OrderStatus)
          → count_of (status_name s) report.orders
            ≡ length (filter (λ o. status_eq (status o) s) found))
unfolding status_tool count_of
status_tool-Counted codec version fault fault' runtime_status now t h =
    let (rules, e1, h1) = bind-eq-ok (list_levels codec fault t) _ h in
    let (found, e2, h2) = bind-eq-ok (list_orders codec fault' t) _ h1 in
    (
      found,
      e2,
      λ s.
          ap (λ (r : DaemonStatus). count_of (status_name s) r.orders) (sym (ok-injective h2))
          ∙ (count_orders_lem s found [] ∙ omega arith),
    )
