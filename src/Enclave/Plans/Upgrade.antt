-- ===== src/Enclave/Plans/Upgrade.antt =====
-- crates/enclave/src/plans.rs: proofs about changes of tier within one allowance period.
use tokumai.Base.{
  ℕ, ◌+◌, ◌-◌, ◌≤◌, ◌<◌, ◌≡◌, refl, ◌∙◌, false, some, List, [], ◌∷◌, length, ltb, lt→ltb, ==_refl,
  if◌then◌else◌, min, arith,
}
use tokumai.Base.Dict.{lookup, lookup-insert}
use tokumai.Core.Subscription.{tiers, prorata_toku, slice_at, period_key}
use tokumai.Enclave.Ledger.Tables.{Tables, Plan, apply, add_allowance, put_plan}
use tokumai.Enclave.Plans.{granted_base, record_granted, tier_toku}
use tokumai.Enclave.Plans.Changes.{change_tier}

-- Of a plan and a slice: what `change_tier` adds, and the plan that it leaves.
change_tier_known :
    (acct tier now_ms s e : ℕ) (t : Tables) (p : Plan)
    → lookup acct t.plans ≡ some p
    → slice_at p.period_start_ms p.paid_until_ms p.yearly now_ms ≡ some (s, e)
    → change_tier acct tier now_ms t ≡ (
        let tier' = min tier (length tiers - 1) in
        let base = granted_base s p in
        let extra = prorata_toku (tier_toku tier' - tier_toku base) (e - now_ms) (e - s) in
        if ltb base tier'
        then (
          extra,
          apply
              (put_plan acct (record_granted s tier' (record p { tier = tier' })))
              (apply (add_allowance acct extra) t),
        )
        else (0, apply (put_plan acct (record p { tier = tier' })) t))
unfolding change_tier
change_tier_known acct tier now_ms s e t p h k = rw (h, change_tier, k) refl

pub put_plan-lookup :
    (acct : ℕ) (p : Plan) (t : Tables) → lookup acct (apply (put_plan acct p) t).plans ≡ some p
unfolding apply
put_plan-lookup acct p t = rw (lookup-insert acct acct p t.plans, ==_refl acct) refl

-- Changes of an account's tier, each with its time, one after the other: what they add together.
abbrev pub change_all : ℕ → List (ℕ × ℕ) → Tables → ℕ × Tables
change_all acct [] t = (0, t)
change_all acct ((tier, now_ms) ∷ later) t =
    let one = change_tier acct tier now_ms t in
    let rest = change_all acct later one.1 in (one.0 + rest.0, rest.1)

-- The changes are to no more than the tier, in the allowance period from `s` to `e` of the plan.
abbrev pub AreWithin : ℕ → Plan → ℕ → ℕ → List (ℕ × ℕ) → Type 0
AreWithin tier p s e [] = Unit
AreWithin tier p s e ((tier', now_ms) ∷ later) =
    (tier' ≤ tier)
    × (slice_at p.period_start_ms p.paid_until_ms p.yearly now_ms ≡ some (s, e))
    × AreWithin tier p s e later

-- The account's plan, whose tier was granted for the period, with the times of `p`.
record Granted (acct tier s : ℕ) (p : Plan) (t : Tables) : Type 0 where
  plan : Plan
  found : lookup acct t.plans ≡ some plan
  covers : tier ≤ granted_base s plan
  at : plan.granted_period ≡ period_key s
  same :
      (now_ms : ℕ)
      → slice_at plan.period_start_ms plan.paid_until_ms plan.yearly now_ms
        ≡ slice_at p.period_start_ms p.paid_until_ms p.yearly now_ms

granted_base-tier :
    (tier s : ℕ) (p : Plan)
    → p.granted_period ≡ period_key s
    → granted_base s (record p { tier = tier }) ≡ granted_base s p
unfolding granted_base
granted_base-tier tier s p at = rw (at, ==_refl (period_key s)) refl

change_tier-Granted :
    (acct tier tier' now_ms s e : ℕ) (t : Tables) (p : Plan)
    → slice_at p.period_start_ms p.paid_until_ms p.yearly now_ms ≡ some (s, e)
    → tier' ≤ tier
    → Granted acct (min tier (length tiers - 1)) s p t
    → let u = change_tier acct tier' now_ms t in
      (u.0 ≡ 0)
      × (u.1.allowances ≡ t.allowances)
      × Granted acct (min tier (length tiers - 1)) s p u.1
change_tier-Granted acct tier tier' now_ms s e t p k le g =
    let m = min tier' (length tiers - 1) in
    let q = record g.plan { tier = m } in
    let below : ltb (granted_base s g.plan) m ≡ false = ground (arith, g.covers) in
    rw (change_tier_known acct tier' now_ms s e t g.plan g.found (g.same now_ms ∙ k), below)
      (
        refl,
        unfold apply in refl,
        record {
          plan = q;
          found = put_plan-lookup acct q t;
          covers = omega (arith, g.covers, granted_base-tier m s g.plan g.at);
          at = g.at;
          same = g.same;
        },
      )

change_all-Granted :
    (acct tier s e : ℕ) (later : List (ℕ × ℕ)) (t : Tables) (p : Plan)
    → AreWithin tier p s e later
    → Granted acct (min tier (length tiers - 1)) s p t
    → let v = change_all acct later t in (v.0 ≡ 0) × (v.1.allowances ≡ t.allowances)
change_all-Granted acct tier s e [] t p within g = (refl, refl)
change_all-Granted acct tier s e ((tier', now_ms) ∷ later) t p (le, k, within) g =
    let (none_added, kept, g') = change_tier-Granted acct tier tier' now_ms s e t p k le g in
    let u = (change_tier acct tier' now_ms t).1 in
    let (none_later, kept_later) = change_all-Granted acct tier s e later u p within g' in
    (omega (arith, none_added, none_later), kept_later ∙ kept)

-- After a `change_tier` to a tier above what was granted for the allowance period from s to e, any
-- sequence of `change_tier` at times of that period to no more than that tier, down and up again
-- included, adds nothing and leaves the allowances as the upgrade left them.
pub change_tier_twice :
    (acct tier now_ms s e : ℕ) (later : List (ℕ × ℕ)) (t : Tables) (p : Plan)
    → lookup acct t.plans ≡ some p
    → slice_at p.period_start_ms p.paid_until_ms p.yearly now_ms ≡ some (s, e)
    → granted_base s p < min tier (length tiers - 1)
    → AreWithin tier p s e later
    → let u = (change_tier acct tier now_ms t).1 in
      let v = change_all acct later u in (v.0 ≡ 0) × (v.1.allowances ≡ u.allowances)
change_tier_twice acct tier now_ms s e later t p h k up within =
    let m = min tier (length tiers - 1) in
    let q = record_granted s m (record p { tier = m }) in
    let extra = prorata_toku (tier_toku m - tier_toku (granted_base s p)) (e - now_ms) (e - s) in
    let raised : Granted acct m s p (apply (put_plan acct q) (apply (add_allowance acct extra) t)) =
      unfold record_granted in
      record {
        plan = q;
        found = put_plan-lookup acct q (apply (add_allowance acct extra) t);
        covers = unfold granted_base in rw (==_refl (period_key s)) (omega arith);
        at = refl;
        same = λ at_ms. refl;
      } in
    rw (change_tier_known acct tier now_ms s e t p h k, lt→ltb (granted_base s p) m up)
      (change_all-Granted acct tier s e later
        (apply (put_plan acct q) (apply (add_allowance acct extra) t)) p within raised)
