-- ===== src/Enclave/Plans/Stale.antt =====
-- crates/enclave/src/plans.rs: the plans that a check has to ask about, and which rail they hang on.
pub mod Order
use tokumai.Base.{
  ℕ, ◌-◌, Bool, true, false, Option, none, some, List, [], ◌∷◌, String, starts_with, ltb, leb, ◌==◌,
  if◌then◌else◌,
}
use tokumai.Base.Dict.{Dict, lookup}
use tokumai.Enclave.Ledger.Tables.{Tables, Plan}
use tokumai.Enclave.Plans.{paid_at}

unfoldable pub is_app_store : Plan → Bool
is_app_store p = starts_with p.rail "iap:"

unfoldable pub is_note : Plan → Bool
is_note p = starts_with p.rail "note:"

unfoldable pub has_paid_plan : ℕ → ℕ → Tables → Bool
has_paid_plan acct now_ms t = elim (lookup acct t.plans) [
  | none ↦ false
  | some p ↦ paid_at now_ms p
]

-- Insertion for a stable sort by the time of the last check.
unfoldable pub by_checked : ℕ × Plan → List (ℕ × Plan) → List (ℕ × Plan)
by_checked (key, p) [] = (key, p) ∷ []
by_checked (key, p) ((k, q) ∷ rest) =
    let later = by_checked (key, p) rest in
    if leb p.checked_at_ms q.checked_at_ms then (key, p) ∷ (k, q) ∷ rest else (k, q) ∷ later

unfoldable pub stale_rows : ℕ → ℕ → Dict Plan → List (ℕ × Plan)
unfolding by_checked
stale_rows now_ms stale_ms [] = []
stale_rows now_ms stale_ms ((key, p) ∷ rows) =
    let rest = stale_rows now_ms stale_ms rows in
    if leb stale_ms (now_ms - p.checked_at_ms) then by_checked (key, p) rest else rest

unfoldable pub stale : ℕ → ℕ → Tables → List (ℕ × Plan)
unfolding stale_rows
stale now_ms stale_ms t = stale_rows now_ms stale_ms t.plans
