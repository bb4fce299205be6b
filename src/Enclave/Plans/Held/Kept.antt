-- ===== src/Enclave/Plans/Held/Kept.antt =====
-- crates/enclave/src/plans.rs: proofs that a plan's rail is held by the account of the plan.
use tokumai.Base.{
  ℕ, ◌-◌, ◌≡◌, refl, ap, Bool, false, ◌⊎◌, inl, inr, some, String, ◌=ₛ◌, if◌then◌else◌, if_both,
  ltb, min, length, Option-cases,
}
use tokumai.Base.Dict.{lookup, insert}
use tokumai.Core.Subscription.{slice_at, tiers, prorata_toku}
use tokumai.Enclave.Ledger.Tables.{
  Tables, Plan, apply, put_plan, add_allowance, lapse_allowance, on_allowance,
}
use tokumai.Enclave.Plans.{
  Names, rail_owner, close_period, record_granted, granted_base, tier_toku, revoke,
}
use tokumai.Enclave.Plans.Changes.{change_tier, mark_checked}
use tokumai.Enclave.Plans.Held.{close_period-same}

-- An account's plan, if it has one, is replaced by one on the same rail, and the rails stay.
pub record Restores (acct : ℕ) (t u : Tables) : Type 0 where
  pub plans :
      (u.plans ≡ t.plans)
      ⊎ ((p : Plan) × (q : Plan) × (lookup acct t.plans ≡ some p)
          × (q.rail ≡ p.rail)
          × (u.plans ≡ insert acct q t.plans))
  pub rails : u.rails ≡ t.rails

pub as_it_was :
    (acct : ℕ) (t u : Tables) → u.plans ≡ t.plans → u.rails ≡ t.rails → Restores acct t u
as_it_was acct t u a b = record { plans = inl a; rails = b }

pub put-Restores :
    (acct : ℕ) (p q : Plan) (t u : Tables)
    → lookup acct t.plans ≡ some p
    → q.rail ≡ p.rail
    → u.plans ≡ t.plans
    → u.rails ≡ t.rails
    → Restores acct t (apply (put_plan acct q) u)
unfolding apply
put-Restores acct p q t u at same plans rails = record {
  plans = inr (p, q, at, same, ap (insert acct q) plans);
  rails = rails;
}

pub mark_checked-Restores :
    (acct now_ms : ℕ) (t : Tables) → Restores acct t (mark_checked acct now_ms t)
unfolding mark_checked
mark_checked-Restores acct now_ms t = elim (Option-cases (lookup acct t.plans)) [
  | inl h ↦ rw (h, mark_checked) (as_it_was acct t t refl refl)
  | inr (p, h) ↦
      rw (h, mark_checked)
        (put-Restores acct p (record p { checked_at_ms = now_ms }) t t h refl refl refl)
]

pub change_tier-Restores :
    (acct tier now_ms : ℕ) (t : Tables) → Restores acct t (change_tier acct tier now_ms t).1
unfolding change_tier record_granted
change_tier-Restores acct tier now_ms t = elim (Option-cases (lookup acct t.plans)) [
  | inl h ↦ rw (h, change_tier) (as_it_was acct t t refl refl)
  | inr (before, h) ↦
      let tier' = min tier (length tiers - 1) in
      let p = record before { tier = tier' } in
      let P : ℕ × Tables → Type 0 = λ r. Restores acct t r.1 in
      let kept = put-Restores acct before p t t h refl refl refl in
      elim (Option-cases
        (slice_at before.period_start_ms before.paid_until_ms before.yearly now_ms)) [
          | inl n ↦ rw (h, change_tier, n, change_tier) kept
          | inr ((s, e), n) ↦
              let base = granted_base s before in
              let extra = prorata_toku (tier_toku tier' - tier_toku base) (e - now_ms) (e - s) in
              let add = apply (add_allowance acct extra) t in
              let same : (add.plans ≡ t.plans) × (add.rails ≡ t.rails) =
                unfold apply on_allowance in (refl, refl) in
              rw (h, change_tier, n, change_tier)
                (if_both P (ltb base tier')
                  (λ _.
                    put-Restores acct before (record_granted s tier' p) t add h refl same.0 same.1)
                  (λ _. kept))
        ]
]

pub revoke-Restores :
    (names : Names) (rail : String) (disputed : Bool) (now_ms : ℕ) (t : Tables)
    → (acct : ℕ) × Restores acct t (revoke names rail disputed now_ms t).1
unfolding revoke
revoke-Restores names rail disputed now_ms t = elim (Option-cases (rail_owner names rail t)) [
  | inl n ↦ (0, rw (n, revoke) (as_it_was 0 t t refl refl))
  | inr (acct, n) ↦ elim (Option-cases (lookup acct t.plans)) [
    | inl h ↦ (acct, rw (n, revoke, h, revoke) (as_it_was acct t t refl refl))
    | inr (p, h) ↦
        let off = record p {
          active = false;
          paid_until_ms = min p.paid_until_ms now_ms;
          checked_at_ms = now_ms;
        } in
        let ended = close_period acct t off in
        let marked : Plan = if disputed then record ended { disputed_at_ms = now_ms } else ended in
        let on : marked.rail ≡ p.rail =
          if_both (λ (q : Plan). q.rail ≡ p.rail) disputed (λ _. (close_period-same acct t off).0)
            (λ _. (close_period-same acct t off).0) in
        let lapsed = apply (lapse_allowance acct) t in
        let same : (lapsed.plans ≡ t.plans) × (lapsed.rails ≡ t.rails) =
          unfold apply on_allowance in (refl, refl) in
        let P : Bool × Tables → Type 0 = λ r. Restores acct t r.1 in
        (
          acct,
          rw (n, revoke, h, revoke)
              (if_both P (p.rail =ₛ rail)
                (λ _. put-Restores acct p marked t lapsed h on same.0 same.1)
                (λ _. as_it_was acct t t refl refl)),
        )
  ]
]
