-- ===== src/Enclave/Plans/Held/Steps.antt =====
-- crates/enclave/src/plans.rs: the operations on plans as steps, and proofs about any run of them.
use mathlib.Core.Path.{subst}
use tokumai.Base.{
  ℕ, ◌≡◌, sym, ap, ◌∙◌, Bool, inl, inr, some, List, [], ◌∷◌, String, if◌then◌else◌, ◌==◌, arith,
  Bool-cases, Option-cases,
}
use tokumai.Base.Result.{ok}
use tokumai.Base.Dict.{lookup, lookup-insert}
use tokumai.Enclave.Ledger.Tables.{Tables, Plan, apply}
use tokumai.Enclave.Plans.{Names, rail_owner}
use tokumai.Enclave.Plans.Changes.{roll_one, roll_keys}
use tokumai.Enclave.Plans.Held.{Renews, free_rail}
use tokumai.Enclave.Plans.Held.Kept.{Restores}
use tokumai.Enclave.Plans.Held.Rolled.{roll_one-Restores}

module _ (names : Names) where
  -- The rail of every plan belongs to the plan's account.
  abbrev pub IsHeld : Tables → Type 0
  IsHeld t =
      (acct : ℕ) (p : Plan) → lookup acct t.plans ≡ some p → rail_owner names p.rail t ≡ some acct

  pub Restores-IsHeld : (acct : ℕ) (t u : Tables) → Restores acct t u → IsHeld t → IsHeld u
  unfolding rail_owner
  Restores-IsHeld acct t u r held a p' h = elim r.plans [
    | inl same ↦
        ap (lookup (names.rail_key p'.rail)) r.rails ∙ held a p' (ap (lookup a) (sym same) ∙ h)
    | inr (p, q, at, on, plans) ↦
        let found : (if acct == a then some q else lookup a t.plans) ≡ some p' =
          sym (lookup-insert a acct q t.plans) ∙ ap (lookup a) (sym plans) ∙ h in
        ap (lookup (names.rail_key p'.rail)) r.rails ∙ elim (Bool-cases (acct == a)) [
          | inl e ↦
              let same : acct ≡ a = ground arith in
              let this : q ≡ p' = ground arith in
              let rail : p'.rail ≡ p.rail = ap (λ (x : Plan). x.rail) (sym this) ∙ on in
              ap (λ (s : String). lookup (names.rail_key s) t.rails) rail
              ∙ held acct p at
              ∙ ap some same
          | inr e ↦ held a p' (ground arith)
        ]
  ]

  pub Renews-IsHeld :
      (acct : ℕ) (rail : String) (now_ms : ℕ) (t u : Tables) (granted : Bool)
      → Renews names acct rail now_ms t (ok (granted, u))
      → IsHeld t
      → IsHeld u
  unfolding rail_owner apply
  Renews-IsHeld acct rail now_ms t u granted (inl (n, same)) held a p' h =
      subst IsHeld (sym same) held a p' h
  Renews-IsHeld acct rail now_ms t u granted (inr (free, puts)) held a p' h =
      let k = names.rail_key rail in
      let k' = names.rail_key p'.rail in
      let found : (if acct == a then some puts.plan else lookup a t.plans) ≡ some p' =
        sym (lookup-insert a acct puts.plan t.plans) ∙ ap (lookup a) (sym puts.plans) ∙ h in
      let owner : lookup k' u.rails ≡ (if k == k' then some acct else lookup k' t.rails) =
        ap (lookup k') puts.rails ∙ lookup-insert k' k acct t.rails in
      elim (Bool-cases (acct == a)) [
        | inl e ↦
            let this : puts.plan ≡ p' = ground arith in
            let key : k ≡ k' =
              ap names.rail_key (sym puts.on_rail ∙ ap (λ (x : Plan). x.rail) this) in
            ground arith
        | inr e ↦
            let before : lookup k' t.rails ≡ some a = held a p' (ground arith) in
            elim (Bool-cases (k == k')) [
              | inl same ↦
                  let key : k ≡ k' = ground arith in
                  let at : rail_owner names rail t ≡ some a =
                    ap (λ (j : ℕ). lookup j t.rails) key ∙ before in
                  let its = free_rail names acct a rail now_ms t free at in absurd (ground arith)
              | inr other ↦ ground arith
            ]
      ]

  pub roll_keys-IsHeld :
      (accts : List ℕ) (now_ms : ℕ) (t : Tables) → IsHeld t → IsHeld (roll_keys accts now_ms t).1
  unfolding roll_keys
  roll_keys-IsHeld [] now_ms t held = held
  roll_keys-IsHeld (acct ∷ accts) now_ms t held = elim (Option-cases (lookup acct t.plans)) [
    | inl n ↦ rw (n, roll_keys) (roll_keys-IsHeld accts now_ms t held)
    | inr (p, n) ↦
        let one = (roll_one acct now_ms p t).1 in
        rw (n, roll_keys)
          (roll_keys-IsHeld accts now_ms one
            (Restores-IsHeld acct t one (roll_one-Restores acct now_ms p t n) held))
  ]
