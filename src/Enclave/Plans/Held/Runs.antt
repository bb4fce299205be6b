-- ===== src/Enclave/Plans/Held/Runs.antt =====
-- crates/enclave/src/plans.rs: the operations on plans as a step relation, and proofs about its runs.
use mathlib.Core.Path.{subst}
use tokumai.Base.{
  ℕ, ◌-◌, ◌*◌, ◌/◌, ◌≡◌, refl, sym, ap, ◌∙◌, Bool, inl, inr, none, some, map, String, ◌=ₛ◌,
  if◌then◌else◌, ltb, if_both, ◌==◌, eq_iff, arith, Bool-cases, Option-cases, ◌||◌, not,
}
use tokumai.Base.Result.{ok}
use tokumai.Base.Dict.{lookup, insert, erase, lookup-insert, lookup-erase}
use tokumai.Enclave.Ledger.Tables.{
  Tables, Plan, no_rows, apply, put_plan, bind_rail, delete_plan, set_allowance, lapse_allowance,
  on_allowance,
}
use tokumai.Enclave.Plans.{Names, rail_owner, renew_key, revoke}
use tokumai.Enclave.Plans.Changes.{
  change_tier, move_plan, move_allowance, pays_another, mark_checked, roll,
}
use tokumai.Enclave.Plans.Held.{Renews, renew_key-Renews}
use tokumai.Enclave.Plans.Held.Kept.{
  as_it_was, mark_checked-Restores, change_tier-Restores, revoke-Restores,
}
use tokumai.Enclave.Plans.Held.Steps.{IsHeld, Restores-IsHeld, Renews-IsHeld, roll_keys-IsHeld}

move_allowance-same :
    (from to : ℕ) (t : Tables)
    → ((move_allowance from to t).plans ≡ t.plans) × ((move_allowance from to t).rails ≡ t.rails)
unfolding move_allowance apply on_allowance
move_allowance-same from to t = elim (Option-cases (lookup from t.allowances)) [
  | inl n ↦ rw (n, move_allowance) (refl, refl)
  | inr (r, n) ↦
      let set = apply (set_allowance to (r.period * 1000 / 1000) r.ends_ms r.granted) t in
      let used = r.granted - r.left in
      rw (n, move_allowance)
        (if_both
          (λ (u : Tables).
            ((apply (lapse_allowance from) u).plans ≡ t.plans)
            × ((apply (lapse_allowance from) u).rails ≡ t.rails))
          (ltb 0 used) (λ _. (refl, refl)) (λ _. (refl, refl)))
]

module _ (names : Names) where
  -- A plan on the rail of an account, put where it moves to.
  moved-IsHeld :
      (from to : ℕ) (rail : String) (p : Plan) (t u : Tables)
      → rail_owner names rail t ≡ some from
      → p.rail ≡ rail
      → u.plans ≡ insert to p (erase from t.plans)
      → u.rails ≡ insert (names.rail_key rail) to t.rails
      → IsHeld names t
      → IsHeld names u
  unfolding rail_owner
  moved-IsHeld from to rail p t u owner on plans rails held a p' h =
      let k = names.rail_key rail in
      let k' = names.rail_key p'.rail in
      let rest : lookup a (erase from t.plans) ≡ (if from == a then none else lookup a t.plans) =
        lookup-erase a from t.plans in
      let found : (if to == a then some p else lookup a (erase from t.plans)) ≡ some p' =
        sym (lookup-insert a to p (erase from t.plans)) ∙ ap (lookup a) (sym plans) ∙ h in
      let its : lookup k' u.rails ≡ (if k == k' then some to else lookup k' t.rails) =
        ap (lookup k') rails ∙ lookup-insert k' k to t.rails in
      elim (Bool-cases (to == a)) [
        | inl e ↦
            let this : p ≡ p' = ground arith in
            let key : k ≡ k' = ap names.rail_key (sym on ∙ ap (λ (x : Plan). x.rail) this) in
            ground arith
        | inr e ↦ elim (Bool-cases (from == a)) [
          | inl f ↦ absurd (ground arith)
          | inr f ↦
              let before : lookup k' t.rails ≡ some a = held a p' (ground arith) in
              elim (Bool-cases (k == k')) [
                | inl same ↦
                    let key : k ≡ k' = ground arith in
                    let at : some from ≡ some a =
                      sym owner ∙ ap (λ (j : ℕ). lookup j t.rails) key ∙ before in
                    absurd (ground arith)
                | inr other ↦ ground arith
              ]
        ]
      ]

  move_plan-IsHeld :
      (rail : String) (to now_ms : ℕ) (t : Tables)
      → IsHeld names t
      → IsHeld names (move_plan names rail to now_ms t).1
  unfolding move_plan
  move_plan-IsHeld rail to now_ms t held = elim (Option-cases (rail_owner names rail t)) [
    | inl n ↦ rw (n, move_plan) held
    | inr (from, n) ↦ elim (Option-cases (lookup from t.plans)) [
      | inl h ↦ rw (n, move_plan, h, move_plan) held
      | inr (p, h) ↦
          let put = apply (put_plan to p) (apply (delete_plan from) (move_allowance from to t)) in
          let u = apply (bind_rail (names.rail_key rail) to) put in
          let same = move_allowance-same from to t in
          let plans : u.plans ≡ insert to p (erase from t.plans) =
            unfold apply in ap (λ (x : _). insert to p (erase from x)) same.0 in
          let rails : u.rails ≡ insert (names.rail_key rail) to t.rails =
            unfold apply in ap (insert (names.rail_key rail) to) same.1 in
          let stays =
            from == to || pays_another rail now_ms (lookup to t.plans) || not (p.rail =ₛ rail) in
          let P : Bool × Tables → Type 0 = λ r. IsHeld names r.1 in
          rw (n, move_plan, h, move_plan)
            (if_both P stays (λ _. held)
              (λ goes.
                let on : p.rail ≡ rail = (eq_iff p.rail rail).0 (ground arith) in
                moved-IsHeld from to rail p t u n on plans rails held))
    ]
  ]

-- What may happen to the tables: an operation on plans that is carried out, or one that leaves the
-- plans and the rails alone.
pub data Step (names : Names) : Tables → Tables → Type 0 where
  renewed :
      {t u : Tables} (acct tier : ℕ) (yearly : Bool) (rail : String) (now_ms start_ms until_ms : ℕ)
      (granted : Bool)
      → renew_key names acct tier yearly rail now_ms start_ms until_ms t ≡ ok (granted, u)
      → Step names t u
  changed :
      {t u : Tables} (acct tier now_ms : ℕ)
      → (change_tier acct tier now_ms t).1 ≡ u
      → Step names t u
  moved :
      {t u : Tables} (rail : String) (to now_ms : ℕ)
      → (move_plan names rail to now_ms t).1 ≡ u
      → Step names t u
  revoked :
      {t u : Tables} (rail : String) (disputed : Bool) (now_ms : ℕ)
      → (revoke names rail disputed now_ms t).1 ≡ u
      → Step names t u
  marked : {t u : Tables} (acct now_ms : ℕ) → mark_checked acct now_ms t ≡ u → Step names t u
  rolled : {t u : Tables} (now_ms : ℕ) → (roll now_ms t).1 ≡ u → Step names t u
  other : {t u : Tables} → u.plans ≡ t.plans → u.rails ≡ t.rails → Step names t u

pub data Reach (names : Names) : Tables → Type 0 where
  start : {t : Tables} → t ≡ no_rows → Reach names t
  next : {t u : Tables} → Reach names t → Step names t u → Reach names u

Step-IsHeld : (names : Names) (t u : Tables) → Step names t u → IsHeld names t → IsHeld names u
unfolding roll
Step-IsHeld names t u (Step.renewed acct tier yearly rail now_ms start_ms until_ms granted e) held =
    Renews-IsHeld names acct rail now_ms t u granted
      (subst (Renews names acct rail now_ms t) (e)
        (renew_key-Renews names acct tier yearly rail now_ms start_ms until_ms t))
      held
Step-IsHeld names t u (Step.changed acct tier now_ms e) held =
    subst (IsHeld names) (e)
      (Restores-IsHeld names acct t _ (change_tier-Restores acct tier now_ms t) held)
Step-IsHeld names t u (Step.moved rail to now_ms e) held =
    subst (IsHeld names) (e) (move_plan-IsHeld names rail to now_ms t held)
Step-IsHeld names t u (Step.revoked rail disputed now_ms e) held =
    let r = revoke-Restores names rail disputed now_ms t in
    subst (IsHeld names) (e) (Restores-IsHeld names r.0 t _ r.1 held)
Step-IsHeld names t u (Step.marked acct now_ms e) held =
    subst (IsHeld names) (e)
      (Restores-IsHeld names acct t _ (mark_checked-Restores acct now_ms t) held)
Step-IsHeld names t u (Step.rolled now_ms e) held =
    subst (IsHeld names) (e)
      (roll_keys-IsHeld names (map (λ (row : ℕ × Plan). row.0) t.plans) now_ms t held)
Step-IsHeld names t u (Step.other plans rails) held =
    Restores-IsHeld names 0 t u (as_it_was 0 t u plans rails) held

pub Reach-IsHeld : (names : Names) (t : Tables) → Reach names t → IsHeld names t
unfolding lookup
Reach-IsHeld names t (Reach.start e) = subst (IsHeld names) (sym e) (λ acct p h. absurd (no h))
  where
    no : {p : Plan} → none ≡ some p → ⊥
    no h = cc
Reach-IsHeld names t (Reach.next {t = s} r step) =
    Step-IsHeld names s t step (Reach-IsHeld names s r)
