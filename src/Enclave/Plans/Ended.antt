-- ===== src/Enclave/Plans/Ended.antt =====
-- crates/enclave/src/plans.rs: proofs about revoke and move_plan.
use tokumai.Base.{
  ℕ, ◌-◌, ◌*◌, ◌/◌, ◌≤◌, ◌≡◌, refl, sym, ◌∙◌, Bool, true, false, none, some, String, ◌=ₛ◌, ltb,
  ◌==◌, ==_refl, if◌then◌else◌, if_both, min, arith, inl, inr, Option-cases,
}
use tokumai.Base.Dict.{lookup, erase, lookup-insert, lookup-update, lookup-erase}
use tokumai.Enclave.Ledger.Tables.{
  Tables, Plan, AllowanceRow, apply, set_allowance, take_allowance, lapse_allowance, put_plan,
  on_allowance,
}
use tokumai.Enclave.Plans.{paid_at, period_of, close_period, revoke, Names, rail_owner}
use tokumai.Enclave.Plans.Changes.{move_plan, pays_another, move_allowance}

-- What the account has left of its allowance.
pub left_of : ℕ → Tables → ℕ
left_of acct t = elim (lookup acct t.allowances) [ none ↦ 0 | some r ↦ r.left ]

-- The account's plan is paid at no time from now on, and its allowance is gone.
pub record IsEnded (acct : ℕ) (t : Tables) : Type 0 where
  pub unpaid : (p : Plan) (now_ms : ℕ) → lookup acct t.plans ≡ some p → paid_at now_ms p ≡ false
  pub lapsed : left_of acct t ≡ 0

lapse_allowance-left : (acct : ℕ) (t : Tables) → left_of acct (apply (lapse_allowance acct) t) ≡ 0
unfolding apply on_allowance left_of
lapse_allowance-left acct t =
    rw
      (
        lookup-update acct acct (λ (r : AllowanceRow). record r { granted = 0; left = 0 })
            t.allowances,
        left_of,
        ==_refl acct,
      )
      (elim (Option-cases (lookup acct t.allowances)) [
        | inl h ↦ rw (h, left_of) refl
        | inr (r, h) ↦ rw (h, left_of) refl
      ])

lapse_allowance-other :
    (from to : ℕ) (t : Tables)
    → (from == to) ≡ false
    → left_of to (apply (lapse_allowance from) t) ≡ left_of to t
unfolding apply on_allowance left_of
lapse_allowance-other from to t ne =
    rw
      (
        lookup-update to from (λ (r : AllowanceRow). record r { granted = 0; left = 0 })
            t.allowances,
        left_of,
        ne,
      )
      refl

take_allowance-left :
    (acct n : ℕ) (t : Tables) → left_of acct (apply (take_allowance acct n) t) ≡ left_of acct t - n
unfolding apply on_allowance left_of
take_allowance-left acct n t =
    rw
      (
        lookup-update acct acct (λ (r : AllowanceRow). record r { left = r.left - n }) t.allowances,
        left_of,
        ==_refl acct,
      )
      (elim (Option-cases (lookup acct t.allowances)) [
        | inl h ↦ rw (h, left_of) (omega arith)
        | inr (r, h) ↦ rw (h, left_of) refl
      ])

set_allowance-left :
    (acct period e toku : ℕ) (t : Tables)
    → left_of acct (apply (set_allowance acct period e toku) t) ≡ toku
unfolding apply left_of
set_allowance-left acct period e toku t =
    let row : AllowanceRow = record { period = period; ends_ms = e; granted = toku; left = toku } in
    rw (lookup-insert acct acct row t.allowances, left_of, ==_refl acct) refl

put_plan-left :
    (acct : ℕ) (p : Plan) (t : Tables) → left_of acct (apply (put_plan acct p) t) ≡ left_of acct t
unfolding apply left_of
put_plan-left acct p t = refl

close_period-active : (acct : ℕ) (t : Tables) (p : Plan) → (close_period acct t p).active ≡ p.active
unfolding close_period
close_period-active acct t p = elim (Option-cases (lookup acct t.allowances)) [
  | inl h ↦ rw (h, close_period) refl
  | inr (r, h) ↦ rw (h, close_period) (ground arith)
]

put_plan-unpaid :
    (acct : ℕ) (q : Plan) (t : Tables)
    → q.active ≡ false
    → (p : Plan) (now_ms : ℕ) → lookup acct (apply (put_plan acct q) t).plans ≡ some p
    → paid_at now_ms p ≡ false
unfolding apply paid_at
put_plan-unpaid acct q t off p now_ms h =
    let same : some q ≡ some p = (rw (lookup-insert acct acct q t.plans, ==_refl acct) refl) ∙ h in
    let active : q.active ≡ p.active = ground arith in rw (sym active ∙ off) refl

-- Where an account holds the rail and has a plan on it, `revoke` reports that a plan ended, no time
-- remains at which that account's plan is paid, and nothing is left of its allowance.
pub revoke-IsEnded :
    (names : Names) (rail : String) (disputed : Bool) (now_ms acct : ℕ) (t : Tables) (p : Plan)
    → rail_owner names rail t ≡ some acct
    → lookup acct t.plans ≡ some p
    → (p.rail =ₛ rail) ≡ true
    → let done = revoke names rail disputed now_ms t in (done.0 ≡ true) × IsEnded acct done.1
unfolding revoke
revoke-IsEnded names rail disputed now_ms acct t p owner plan same =
    let off = record p {
      active = false;
      paid_until_ms = min p.paid_until_ms now_ms;
      checked_at_ms = now_ms;
    } in
    let ended = close_period acct t off in
    let marked : Plan = if disputed then record ended { disputed_at_ms = now_ms } else ended in
    let still : ended.active ≡ false = close_period-active acct t off in
    let inactive : marked.active ≡ false =
      if_both (λ (q : Plan). q.active ≡ false) disputed (λ _. still) (λ _. still) in
    let lapsed = apply (lapse_allowance acct) t in
    rw (owner, revoke, plan, revoke, same)
      (
        refl,
        record {
          unpaid = put_plan-unpaid acct marked lapsed inactive;
          lapsed = put_plan-left acct marked lapsed ∙ lapse_allowance-left acct t;
        },
      )

-- A plan that moves: the target has what was left, the source has nothing.
pub move_allowance-left :
    (from to : ℕ) (t : Tables) (r : AllowanceRow)
    → (from == to) ≡ false
    → lookup from t.allowances ≡ some r
    → r.left ≤ r.granted
    → let u = move_allowance from to t in (left_of to u ≡ r.left) × (left_of from u ≡ 0)
unfolding move_allowance
move_allowance-left from to t r ne h le =
    let set = apply (set_allowance to (period_of r * 1000 / 1000) r.ends_ms r.granted) t in
    let used = r.granted - r.left in
    let taken = apply (take_allowance to used) set in
    let e1 = set_allowance-left to (period_of r * 1000 / 1000) r.ends_ms r.granted t in
    let e2 = take_allowance-left to used set in
    let less : Tables = if ltb 0 used then taken else set in
    let kept : left_of to less ≡ r.left =
      if_both (λ u. left_of to u ≡ r.left) (ltb 0 used) {x = taken} {y = set} (λ _. omega arith)
        (λ z. ground arith) in
    rw (h, move_allowance)
      (lapse_allowance-other from to less ne ∙ kept, lapse_allowance-left from less)

move_allowance-plans : (from to : ℕ) (t : Tables) → (move_allowance from to t).plans ≡ t.plans
unfolding move_allowance apply on_allowance
move_allowance-plans from to t = elim (Option-cases (lookup from t.allowances)) [
  | inl h ↦ rw (h, move_allowance) refl
  | inr (r, h) ↦
      rw (h, move_allowance)
        (if_both (λ (u : Tables). u.plans ≡ t.plans) (ltb 0 (r.granted - r.left)) (λ _. refl)
          (λ _. refl))
]

-- Where an account other than the target holds the rail, has the plan on it and an allowance with
-- no more left than granted, and the target pays for no plan on another rail, `move_plan` succeeds:
-- the target then has the plan and what was left, and the account it came from has no plan and
-- nothing left.
pub move_plan-moves :
    (names : Names) (rail : String) (from to now_ms : ℕ) (t : Tables) (p : Plan) (r : AllowanceRow)
    → rail_owner names rail t ≡ some from
    → lookup from t.plans ≡ some p
    → (p.rail =ₛ rail) ≡ true
    → (from == to) ≡ false
    → pays_another rail now_ms (lookup to t.plans) ≡ false
    → lookup from t.allowances ≡ some r
    → r.left ≤ r.granted
    → let done = move_plan names rail to now_ms t in
      (done.0 ≡ true)
      × (lookup to done.1.plans ≡ some p)
      × (lookup from done.1.plans ≡ none)
      × (left_of to done.1 ≡ r.left)
      × (left_of from done.1 ≡ 0)
unfolding move_plan
move_plan-moves names rail from to now_ms t p r owner plan same ne free h le =
    let u = move_allowance from to t in
    let left = move_allowance-left from to t r ne h le in
    let turned : (to == from) ≡ false = ground arith in
    rw (owner, move_plan, plan, move_plan, same, ne, free)
      (
        refl,
        (unfold apply in rw (lookup-insert to to p (erase from u.plans), ==_refl to) refl),
        (unfold apply in
            rw
              (
                lookup-insert from to p (erase from u.plans),
                turned,
                lookup-erase from from u.plans,
                ==_refl from,
              )
              refl),
        (unfold apply left_of in unfold left_of in left.0),
        (unfold apply left_of in left.1),
      )
