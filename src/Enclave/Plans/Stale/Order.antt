-- ===== src/Enclave/Plans/Stale/Order.antt =====
-- crates/enclave/src/plans.rs: proofs about stale.
use mathlib.Core.List.Perm
use mathlib.Core.List.{Perm}
use tokumai.Base.{ℕ, ◌-◌, ◌≤◌, inl, inr, List, [], ◌∷◌, leb, if◌then◌else◌, arith, Bool-cases}
use tokumai.Base.Dict.{Dict}
use tokumai.Enclave.Ledger.Tables.{Tables, Plan}
use tokumai.Enclave.Plans.Stale.{by_checked, stale_rows, stale}

-- The plans that were not checked for the time, in the order of the table.
pub due : ℕ → ℕ → Dict Plan → List (ℕ × Plan)
due now_ms stale_ms [] = []
due now_ms stale_ms ((key, p) ∷ rows) =
    let rest = due now_ms stale_ms rows in
    if leb stale_ms (now_ms - p.checked_at_ms) then (key, p) ∷ rest else rest

-- No plan of the list was checked before the time.
abbrev pub NoneBefore : ℕ → List (ℕ × Plan) → Type 0
NoneBefore at [] = Unit
NoneBefore at ((k, q) ∷ rows) = (at ≤ q.checked_at_ms) × NoneBefore at rows

abbrev pub StalestFirst : List (ℕ × Plan) → Type 0
StalestFirst [] = Unit
StalestFirst ((k, q) ∷ rows) = NoneBefore q.checked_at_ms rows × StalestFirst rows

NoneBefore-le : (a b : ℕ) (rows : List (ℕ × Plan)) → a ≤ b → NoneBefore b rows → NoneBefore a rows
NoneBefore-le a b [] le n = tt
NoneBefore-le a b ((k, q) ∷ rows) le n = (omega (arith, n.0), NoneBefore-le a b rows le n.1)

by_checked-NoneBefore :
    (at key : ℕ) (p : Plan) (rows : List (ℕ × Plan))
    → at ≤ p.checked_at_ms
    → NoneBefore at rows
    → NoneBefore at (by_checked (key, p) rows)
unfolding by_checked
by_checked-NoneBefore at key p [] le n = (le, tt)
by_checked-NoneBefore at key p ((k, q) ∷ rows) le n =
    elim (Bool-cases (leb p.checked_at_ms q.checked_at_ms)) [
      | inl e ↦ rw e (le, n)
      | inr e ↦ rw e (n.0, by_checked-NoneBefore at key p rows le n.1)
    ]

by_checked-StalestFirst :
    (key : ℕ) (p : Plan) (rows : List (ℕ × Plan))
    → StalestFirst rows
    → StalestFirst (by_checked (key, p) rows)
unfolding by_checked
by_checked-StalestFirst key p [] s = (tt, tt)
by_checked-StalestFirst key p ((k, q) ∷ rows) s =
    elim (Bool-cases (leb p.checked_at_ms q.checked_at_ms)) [
      | inl e ↦
          let le : p.checked_at_ms ≤ q.checked_at_ms = ground arith in
          rw e ((le, NoneBefore-le p.checked_at_ms q.checked_at_ms rows le s.0), s)
      | inr e ↦
          let le : q.checked_at_ms ≤ p.checked_at_ms = ground arith in
          rw e (
            by_checked-NoneBefore q.checked_at_ms key p rows le s.0,
            by_checked-StalestFirst key p rows s.1,
          )
    ]

by_checked-Perm :
    (key : ℕ) (p : Plan) (rows : List (ℕ × Plan))
    → Perm (by_checked (key, p) rows) ((key, p) ∷ rows)
unfolding by_checked
by_checked-Perm key p [] = Perm.rfl
by_checked-Perm key p ((k, q) ∷ rows) = elim (Bool-cases (leb p.checked_at_ms q.checked_at_ms)) [
  | inl e ↦ rw e Perm.rfl
  | inr e ↦
      rw e (
        Perm.trans (Perm.cons (k, q) (by_checked-Perm key p rows)) (Perm.swap (key, p) (k, q) rows))
]

stale_rows-Perm :
    (now_ms stale_ms : ℕ) (rows : Dict Plan)
    → Perm (stale_rows now_ms stale_ms rows) (due now_ms stale_ms rows)
unfolding stale_rows due
stale_rows-Perm now_ms stale_ms [] = Perm.rfl
stale_rows-Perm now_ms stale_ms ((key, p) ∷ rows) =
    let ih = stale_rows-Perm now_ms stale_ms rows in
    elim (Bool-cases (leb stale_ms (now_ms - p.checked_at_ms))) [
      | inl e ↦ rw e (
          Perm.trans (by_checked-Perm key p (stale_rows now_ms stale_ms rows))
            (Perm.cons (key, p) ih))
      | inr e ↦ rw e ih
    ]

stale_rows-StalestFirst :
    (now_ms stale_ms : ℕ) (rows : Dict Plan) → StalestFirst (stale_rows now_ms stale_ms rows)
unfolding stale_rows
stale_rows-StalestFirst now_ms stale_ms [] = tt
stale_rows-StalestFirst now_ms stale_ms ((key, p) ∷ rows) =
    let ih = stale_rows-StalestFirst now_ms stale_ms rows in
    elim (Bool-cases (leb stale_ms (now_ms - p.checked_at_ms))) [
      | inl e ↦ rw e (by_checked-StalestFirst key p (stale_rows now_ms stale_ms rows) ih)
      | inr e ↦ rw e ih
    ]

-- The plans to ask about are exactly the plans of the table that were not checked for the time,
-- each as often as it is there, and none stands behind one that was checked later.
pub stale-StalestFirst :
    (now_ms stale_ms : ℕ) (t : Tables)
    → Perm (stale now_ms stale_ms t) (due now_ms stale_ms t.plans)
      × StalestFirst (stale now_ms stale_ms t)
unfolding stale
stale-StalestFirst now_ms stale_ms t =
    (stale_rows-Perm now_ms stale_ms t.plans, stale_rows-StalestFirst now_ms stale_ms t.plans)
