-- ===== src/Enclave/Plans/Held/Rolled.antt =====
-- crates/enclave/src/plans.rs: proofs about what the beat stores.
use tokumai.Base.{
  ℕ, ◌-◌, ◌/◌, ◌≡◌, refl, false, ◌&&◌, ◌||◌, inl, inr, none, some, if◌then◌else◌, if_both, ltb, leb,
  min, length, arith, Option-cases,
}
use tokumai.Base.Dict.{lookup}
use tokumai.Core.Subscription.{slice_at, period_key, tiers}
use tokumai.Enclave.Ledger.Tables.{
  Tables, Plan, apply, put_plan, set_allowance, lapse_allowance, on_allowance,
}
use tokumai.Enclave.Plans.{close_period, current_period, tier_toku, prune_usage, paid_at}
use tokumai.Enclave.Plans.Changes.{roll_one}
use tokumai.Enclave.Plans.Held.{close_period-same}
use tokumai.Enclave.Plans.Held.Kept.{Restores, as_it_was, put-Restores}

prune_usage-rail : (now_ms : ℕ) (p : Plan) → (prune_usage now_ms p).0.rail ≡ p.rail
unfolding prune_usage
prune_usage-rail now_ms p = refl

pub roll_one-Restores :
    (acct now_ms : ℕ) (before : Plan) (t : Tables)
    → lookup acct t.plans ≡ some before
    → Restores acct t (roll_one acct now_ms before t).1
unfolding roll_one
roll_one-Restores acct now_ms before t h =
    let pruned = prune_usage now_ms before in
    let ended = pruned.0.active && leb pruned.0.paid_until_ms now_ms in
    let p : Plan = if ended then record pruned.0 { active = false } else pruned.0 in
    let on : p.rail ≡ before.rail =
      if_both (λ (q : Plan). q.rail ≡ before.rail) ended (λ _. prune_usage-rail now_ms before)
        (λ _. prune_usage-rail now_ms before) in
    let closed : (close_period acct t p).rail ≡ before.rail =
      ground (arith, close_period-same acct t p) in
    let dirty = pruned.1 || ended in
    let P : ℕ × Tables → Type 0 = λ r. Restores acct t r.1 in
    let as_it_is : Restores acct t (if dirty then apply (put_plan acct p) t else t) =
      if_both (λ (u : Tables). Restores acct t u) dirty
        (λ _. put-Restores acct before p t t h on refl refl) (λ _. as_it_was acct t t refl refl) in
    let slice =
      if paid_at now_ms p
      then slice_at p.period_start_ms p.paid_until_ms p.yearly now_ms
      else none in
    let stored = λ (u : Tables) (a : u.plans ≡ t.plans) (b : u.rails ≡ t.rails).
      put-Restores acct before (close_period acct t p) t u h closed a b in
    elim (Option-cases slice) [
      | inr ((s, e), n) ↦
          let set =
            apply (set_allowance acct (s / 1000) e (tier_toku (min p.tier (length tiers - 1)))) t in
          let same : (set.plans ≡ t.plans) × (set.rails ≡ t.rails) = unfold apply in (refl, refl) in
          rw (n, roll_one)
            (if_both P (ltb (current_period acct t) (period_key s)) (λ _. stored set same.0 same.1)
              (λ _. as_it_is))
      | inl n ↦ elim (Option-cases (lookup acct t.allowances)) [
        | inl m ↦ rw (n, roll_one, m, roll_one) as_it_is
        | inr (r, m) ↦
            let lapsed = apply (lapse_allowance acct) t in
            let same : (lapsed.plans ≡ t.plans) × (lapsed.rails ≡ t.rails) =
              unfold apply on_allowance in (refl, refl) in
            rw (n, roll_one, m, roll_one)
              (if_both P (ltb 0 r.granted && leb r.ends_ms now_ms)
                (λ _. stored lapsed same.0 same.1) (λ _. as_it_is))
      ]
    ]
