-- ===== src/Enclave/Plans/Held.antt =====
-- crates/enclave/src/plans.rs: proofs about what the operations store, and who holds a rail.
pub mod Kept
pub mod Rolled
pub mod Steps
pub mod Runs
use tokumai.Base.{
  ℕ, ◌-◌, ◌/◌, ◌≡◌, refl, sym, ap, ◌∙◌, Bool, true, false, not, ◌&&◌, ◌||◌, ◌⊎◌, inl, inr, Option,
  none, some, String, ◌=ₛ◌, if◌then◌else◌, if_both, ltb, leb, ◌==◌, min, length, arith, Bool-cases,
  Option-cases, starts_with, ==_refl,
}
use tokumai.Base.Result.{Result, ok, err}
use tokumai.Base.Dict.{lookup, insert, erase, lookup-insert, lookup-erase}
use tokumai.Core.Subscription.{slice_at, period_key, tiers, prorata_toku}
use tokumai.Core.Notes.{epochs_covered}
use tokumai.Enclave.Ledger.Tables.{
  Tables, Plan, apply, put_plan, bind_rail, set_allowance, add_allowance, take_allowance,
  lapse_allowance, delete_plan, on_allowance,
}
use tokumai.Enclave.Plans.{
  Names, Refusal, rail_owner, close_period, record_granted, granted_base, current_period, tier_toku,
  grant_slice, sighted, sight_plan, renew_key, attach_refusal_key, any_minted, no_plan, revoke,
  already_minted,
}

-- A plan on the rail, checked at the time, was stored for the account, and else only allowances
-- changed.
pub record Puts (acct : ℕ) (rail : String) (checked : ℕ) (t u : Tables) : Type 0 where
  pub plan : Plan
  pub on_rail : plan.rail ≡ rail
  pub at : plan.checked_at_ms ≡ checked
  pub plans : u.plans ≡ insert acct plan t.plans
  pub rails : u.rails ≡ t.rails
  pub payments : u.payments ≡ t.payments
  pub lots : u.lots ≡ t.lots

pub close_period-same :
    (acct : ℕ) (t : Tables) (p : Plan)
    → ((close_period acct t p).rail ≡ p.rail)
      × ((close_period acct t p).checked_at_ms ≡ p.checked_at_ms)
unfolding close_period
close_period-same acct t p = elim (Option-cases (lookup acct t.allowances)) [
  | inl h ↦ rw (h, close_period) (refl, refl)
  | inr (r, h) ↦ rw (h, close_period) (ground arith, ground arith)
]

-- Only the allowances differ.
abbrev Same : Tables → Tables → Type 0
Same t u = (u.plans ≡ t.plans) × (u.rails ≡ t.rails) × (u.payments ≡ t.payments) × (u.lots ≡ t.lots)

put-Puts :
    (acct : ℕ) (q : Plan) (rail : String) (checked : ℕ) (t u : Tables)
    → q.rail ≡ rail
    → q.checked_at_ms ≡ checked
    → Same t u
    → Puts acct rail checked t (apply (put_plan acct q) u)
unfolding apply
put-Puts acct q rail checked t u on_rail at same = record {
  plan = q;
  on_rail = on_rail;
  at = at;
  plans = ap (insert acct q) same.0;
  rails = same.1;
  payments = same.2;
  lots = same.3;
}

grant_slice-Puts :
    (acct old_tier : ℕ) (was_known : Bool) (now_ms s e : ℕ) (p : Plan) (t : Tables)
    → Puts acct p.rail p.checked_at_ms t (grant_slice acct old_tier was_known now_ms s e p t).1
unfolding grant_slice record_granted
grant_slice-Puts acct old_tier was_known now_ms s e p t =
    let base = granted_base s (record p { tier = old_tier }) in
    let step = prorata_toku (tier_toku p.tier - tier_toku base) (e - now_ms) (e - s) in
    let P : Bool × Tables → Type 0 = λ r. Puts acct p.rail p.checked_at_ms t r.1 in
    let closed = close_period acct t p in
    let same = close_period-same acct t p in
    let set = apply (set_allowance acct (s / 1000) e (tier_toku p.tier)) t in
    let add = apply (add_allowance acct step) t in
    let untouched : Same t set × Same t add =
      unfold apply on_allowance in ((refl, refl, refl, refl), (refl, refl, refl, refl)) in
    if_both P (ltb (current_period acct t) (period_key s))
      (λ _.
        put-Puts acct (record_granted s p.tier closed) p.rail p.checked_at_ms t set same.0 same.1
          untouched.0)
      (λ _.
        if_both P (was_known && ltb base p.tier)
          (λ _.
            put-Puts acct (record_granted s p.tier p) p.rail p.checked_at_ms t add refl refl
              untouched.1)
          (λ _. put-Puts acct p p.rail p.checked_at_ms t t refl refl (refl, refl, refl, refl)))

sight_plan-Puts :
    (rail_key : String → ℕ) (acct tier : ℕ) (yearly : Bool) (rail : String)
    (now_ms start_ms until_ms : ℕ) (before : Plan) (t : Tables)
    → Puts acct rail now_ms
        (apply (bind_rail (rail_key rail) acct) t)
        (sight_plan rail_key acct tier yearly rail now_ms start_ms until_ms before t).1
unfolding sight_plan sighted
sight_plan-Puts rail_key acct tier yearly rail now_ms start_ms until_ms before t =
    let bound = apply (bind_rail (rail_key rail) acct) t in
    let p = sighted (min tier (length tiers - 1)) yearly rail now_ms start_ms until_ms before in
    elim (Option-cases (slice_at p.period_start_ms p.paid_until_ms p.yearly now_ms)) [
      | inl n ↦
          rw (n, sight_plan)
            (put-Puts acct p rail now_ms bound bound refl refl (refl, refl, refl, refl))
      | inr ((s, e), n) ↦
          rw (n, sight_plan)
            (grant_slice-Puts acct before.tier (before.rail =ₛ rail) now_ms s e p bound)
    ]

-- How a renewal ends: refused, without a plan to begin, or with a plan stored for a rail that was
-- free for the account.
abbrev pub Renews : Names → ℕ → String → ℕ → Tables → Result Refusal (Bool × Tables) → Type 0
Renews names acct rail now_ms t (err why) = Unit
Renews names acct rail now_ms t (ok (granted, u)) =
    ((lookup acct t.plans ≡ none) × (u ≡ t))
    ⊎ ((attach_refusal_key names acct rail now_ms t ≡ none)
        × Puts acct rail now_ms (apply (bind_rail (names.rail_key rail) acct) t) u)

pub renew_key-Renews :
    (names : Names) (acct tier : ℕ) (yearly : Bool) (rail : String) (now_ms start_ms until_ms : ℕ)
    (t : Tables)
    → Renews names acct rail now_ms t
        (renew_key names acct tier yearly rail now_ms start_ms until_ms t)
unfolding renew_key
renew_key-Renews names acct tier yearly rail now_ms start_ms until_ms t =
    let epochs = epochs_covered start_ms until_ms yearly in
    let minted = not (starts_with rail "note:") && any_minted names rail epochs t in
    let P = Renews names acct rail now_ms t in
    elim (Option-cases (attach_refusal_key names acct rail now_ms t)) [
      | inr (why, a) ↦ rw (a, renew_key) tt
      | inl a ↦
          rw (a, renew_key)
            (if_both P minted (λ _. tt)
              (λ _. elim (Option-cases (lookup acct t.plans)) [
                | inl n ↦
                    rw (n, renew_key)
                      (if_both P (ltb now_ms until_ms)
                        (λ _. inr (
                          a,
                          sight_plan-Puts names.rail_key acct tier yearly rail now_ms start_ms
                              until_ms no_plan t,
                        ))
                        (λ _. inl (n, refl)))
                | inr (before, b) ↦
                    rw (b, renew_key)
                      (inr (
                        a,
                        sight_plan-Puts names.rail_key acct tier yearly rail now_ms start_ms
                            until_ms before t,
                      ))
              ]))
    ]

-- A rail that is free for an account is nobody else's.
pub free_rail :
    (names : Names) (acct owner : ℕ) (rail : String) (now_ms : ℕ) (t : Tables)
    → attach_refusal_key names acct rail now_ms t ≡ none
    → rail_owner names rail t ≡ some owner
    → owner ≡ acct
unfolding attach_refusal_key
free_rail names acct owner rail now_ms t free held = elim (Bool-cases (owner == acct)) [
  | inl e ↦ ground arith
  | inr e ↦ absurd (ground arith)
]
