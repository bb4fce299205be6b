-- ===== src/Enclave/Plans/Once.antt =====
-- crates/enclave/src/plans.rs: proofs about what renew_key grants.
use tokumai.Base.{
  none, ◌^◌, ℕ, ◌+◌, ◌-◌, ◌/◌, ◌≤◌, ◌<◌, ◌≡◌, refl, ◌∙◌, Bool, true, false, not, ◌||◌, ◌&&◌, some,
  String, ◌=ₛ◌, starts_with, length, ltb, ==_refl, lt→ltb, if_both, min, arith, inl, inr,
  Option-cases,
}
use mathlib.Core.Path.{subst}
use tokumai.Base.Result.{Result, ok, err}
use tokumai.Base.Dict.{lookup, lookup-insert, lookup-update}
use tokumai.Core.Subscription.{tiers, prorata_toku, slice_at, period_key}
use tokumai.Core.Subscription.Slice.{slice_at-contains, slice_at_stable}
use tokumai.Core.Notes.{epochs_covered}
use tokumai.Enclave.Ledger.Tables.{
  Tables, Plan, AllowanceRow, apply, set_allowance, add_allowance, put_plan, on_allowance,
  bind_rail,
}
use tokumai.Enclave.Plans.{
  granted_base, record_granted, close_period, current_period, tier_toku, grant_slice, sight_plan,
  sighted, renew_key, Names, Refusal, already_minted, no_plan, any_minted, attach_refusal_key,
}
use tokumai.Enclave.Plans.Upgrade.{put_plan-lookup}

-- A time in seconds that a u32 holds.
abbrev pub IsU32 : ℕ → Type 0
IsU32 s = s / 1000 < 2 ^ 32

current_period-set :
    (acct s e toku : ℕ) (p : Plan) (t : Tables)
    → IsU32 s
    → current_period acct (apply (put_plan acct p) (apply (set_allowance acct (s / 1000) e toku) t))
      ≡ s / 1000
unfolding current_period apply
current_period-set acct s e toku p t small =
    let row : AllowanceRow = record {
      period = s / 1000;
      ends_ms = e;
      granted = toku;
      left = toku;
    } in
    rw (lookup-insert acct acct row t.allowances, current_period, ==_refl acct) (omega arith)

current_period-add :
    (acct extra : ℕ) (p : Plan) (t : Tables)
    → current_period acct (apply (put_plan acct p) (apply (add_allowance acct extra) t))
      ≡ current_period acct t
unfolding current_period apply on_allowance
current_period-add acct extra p t =
    rw
      (
        lookup-update acct acct
            (λ (r : AllowanceRow). record r { granted = r.granted + extra; left = r.left + extra })
            t.allowances,
        current_period,
        ==_refl acct,
      )
      (elim (Option-cases (lookup acct t.allowances)) [
        | inl h ↦ rw (h, current_period) refl
        | inr (r, h) ↦ rw (h, current_period) refl
      ])

-- What a report of a tier leaves: a period granted, and where the allowance was handed out now or
-- the plan was on the rail before, the tier no higher than what was granted for it.
record Granted (acct tier s : ℕ) (sure : Bool) (x : Bool × Tables) : Type 0 where
  at : period_key s ≤ current_period acct x.1
  plan : Plan
  found : lookup acct x.1.plans ≡ some plan
  covers : (x.0 || sure) ≡ true → tier ≤ granted_base s plan

recorded-enough : (tier s : ℕ) (p : Plan) → tier ≤ granted_base s (record_granted s tier p)
unfolding granted_base record_granted
recorded-enough tier s p = rw (==_refl (period_key s)) (omega arith)

-- Where the tier is no higher than what was granted under the old one, it is no higher than what is
-- granted under its own.
kept-enough :
    (old_tier s : ℕ) (p : Plan)
    → p.tier ≤ granted_base s (record p { tier = old_tier })
    → p.tier ≤ granted_base s p
unfolding granted_base
kept-enough old_tier s p le = ground arith

grant_slice-Granted :
    (acct old_tier : ℕ) (was_known : Bool) (now_ms s e : ℕ) (p : Plan) (t : Tables)
    → IsU32 s
    → Granted acct p.tier s was_known (grant_slice acct old_tier was_known now_ms s e p t)
unfolding grant_slice
grant_slice-Granted acct old_tier was_known now_ms s e p t small =
    let base = granted_base s (record p { tier = old_tier }) in
    let step = prorata_toku (tier_toku p.tier - tier_toku base) (e - now_ms) (e - s) in
    let P : Bool × Tables → Type 0 = Granted acct p.tier s was_known in
    let closed = close_period acct t p in
    let set = apply (set_allowance acct (s / 1000) e (tier_toku p.tier)) t in
    let more = apply (add_allowance acct step) t in
    let kept : current_period acct (apply (put_plan acct p) t) ≡ current_period acct t =
      unfold current_period apply in refl in
    let key : period_key s ≤ s / 1000 = unfold period_key in omega arith in
    if_both P (ltb (current_period acct t) (period_key s))
      (λ _. record {
        at = omega (
          arith,
          key,
          current_period-set acct s e (tier_toku p.tier) (record_granted s p.tier closed) t small,
        );
        plan = record_granted s p.tier closed;
        found = put_plan-lookup acct (record_granted s p.tier closed) set;
        covers = λ _. recorded-enough p.tier s closed;
      })
      (λ old.
        let le : period_key s ≤ current_period acct t = ground arith in
        if_both P (was_known && ltb base p.tier)
          (λ _. record {
            at = omega (arith, le, current_period-add acct step (record_granted s p.tier p) t);
            plan = record_granted s p.tier p;
            found = put_plan-lookup acct (record_granted s p.tier p) more;
            covers = λ _. recorded-enough p.tier s p;
          })
          (λ low. record {
            at = omega (arith, le, kept);
            plan = p;
            found = put_plan-lookup acct p t;
            covers = λ known. kept-enough old_tier s p (ground arith);
          }))

-- A tier that was granted for a period before is not granted again.
grant_slice-old :
    (acct old_tier : ℕ) (was_known : Bool) (now_ms s e : ℕ) (p : Plan) (t : Tables)
    → period_key s ≤ current_period acct t
    → p.tier ≤ granted_base s (record p { tier = old_tier })
    → let u = grant_slice acct old_tier was_known now_ms s e p t in
      (u.0 ≡ false) × (u.1.allowances ≡ t.allowances)
unfolding grant_slice
grant_slice-old acct old_tier was_known now_ms s e p t le enough =
    let base = granted_base s (record p { tier = old_tier }) in
    let old : ltb (current_period acct t) (period_key s) ≡ false = ground arith in
    let low : (was_known && ltb base p.tier) ≡ false = ground arith in
    rw (old, low) (refl, unfold apply in refl)

-- The plan that a report finds.
abbrev pub plan_before : ℕ → Tables → Plan
plan_before acct t = elim (lookup acct t.plans) [ none ↦ no_plan | some p ↦ p ]

sight_plan-Granted :
    (rail_key : String → ℕ) (acct tier : ℕ) (yearly : Bool) (rail : String)
    (now_ms start_ms until_ms s e : ℕ) (before : Plan) (t : Tables)
    → 0 < start_ms
    → IsU32 s
    → slice_at start_ms until_ms yearly now_ms ≡ some (s, e)
    → Granted acct
        (min tier (length tiers - 1))
        s
        (before.rail =ₛ rail)
        (sight_plan rail_key acct tier yearly rail now_ms start_ms until_ms before t)
unfolding sight_plan sighted
sight_plan-Granted rail_key acct tier yearly rail now_ms start_ms until_ms s e before t pos small
      k =
    let c = lt→ltb 0 start_ms pos in
    let p = sighted (min tier (length tiers - 1)) yearly rail now_ms start_ms until_ms before in
    rw (c, sight_plan, k, sight_plan)
      (grant_slice-Granted acct before.tier (before.rail =ₛ rail) now_ms s e p
        (apply (bind_rail (rail_key rail) acct) t) small)

sight_plan-old :
    (rail_key : String → ℕ) (acct tier : ℕ) (yearly : Bool) (rail : String)
    (now_ms start_ms until_ms s e : ℕ) (before : Plan) (t : Tables)
    → 0 < start_ms
    → slice_at start_ms until_ms yearly now_ms ≡ some (s, e)
    → period_key s ≤ current_period acct t
    → min tier (length tiers - 1) ≤ granted_base s before
    → let u = sight_plan rail_key acct tier yearly rail now_ms start_ms until_ms before t in
      (u.0 ≡ false) × (u.1.allowances ≡ t.allowances)
unfolding sight_plan sighted
sight_plan-old rail_key acct tier yearly rail now_ms start_ms until_ms s e before t pos k old
      enough =
    let c = lt→ltb 0 start_ms pos in
    let bound = apply (bind_rail (rail_key rail) acct) t in
    let p = sighted (min tier (length tiers - 1)) yearly rail now_ms start_ms until_ms before in
    let same : current_period acct bound ≡ current_period acct t =
      unfold apply current_period in refl in
    let base : granted_base s (record p { tier = before.tier }) ≡ granted_base s before =
      unfold granted_base in refl in
    let (none_new, kept) =
      grant_slice-old acct before.tier (before.rail =ₛ rail) now_ms s e p bound
        (omega (arith, old, same)) (omega (arith, enough, base)) in
    rw (c, sight_plan, k, sight_plan) (none_new, kept ∙ (unfold apply in refl))

-- A renewal that is not refused leaves the period at hand granted.
abbrev Leaves : ℕ → ℕ → ℕ → Bool → Result Refusal (Bool × Tables) → Type 0
Leaves acct tier s sure (err why) = Unit
Leaves acct tier s sure (ok done) = Granted acct tier s sure done

-- No allowance is handed out, and none changes.
abbrev pub IsNotGranted : Tables → Result Refusal (Bool × Tables) → Type 0
IsNotGranted t (err why) = Unit
IsNotGranted t (ok done) = (done.0 ≡ false) × (done.1.allowances ≡ t.allowances)

-- What holds of every way in which a renewal can end.
renew_key-ends :
    (names : Names) (acct tier : ℕ) (yearly : Bool) (rail : String) (now_ms start_ms until_ms : ℕ)
    (t : Tables) (P : Result Refusal (Bool × Tables) → Type 0)
    → ((why : Refusal) → P (err why))
    → (now_ms < until_ms)
    → P (
        ok (
          sight_plan names.rail_key acct tier yearly rail now_ms start_ms until_ms
            (plan_before acct t)
            t))
    → P (renew_key names acct tier yearly rail now_ms start_ms until_ms t)
unfolding renew_key
renew_key-ends names acct tier yearly rail now_ms start_ms until_ms t P refused paid known =
    let epochs = epochs_covered start_ms until_ms yearly in
    let minted = not (starts_with rail "note:") && any_minted names rail epochs t in
    let now = lt→ltb now_ms until_ms paid in
    let Sighted : Plan → Type 0 = λ before.
      P (ok (sight_plan names.rail_key acct tier yearly rail now_ms start_ms until_ms before t)) in
    elim (Option-cases (attach_refusal_key names acct rail now_ms t)) [
      | inr (why, a) ↦ rw (a, renew_key) (refused why)
      | inl a ↦
          rw (a, renew_key)
            (if_both P minted (λ _. refused already_minted)
              (λ _. elim (Option-cases (lookup acct t.plans)) [
                | inl n ↦
                    rw (n, renew_key, now)
                      (subst Sighted {x = plan_before acct t} {y = no_plan}
                        (rw (n, plan_before) refl) known)
                | inr (before, b) ↦
                    rw (b, renew_key)
                      (subst Sighted {x = plan_before acct t} {y = before}
                        (rw (b, plan_before) refl) known)
              ]))
    ]

-- Where a rail reported a paid period (start not 0, begun by the time of the report) to an account,
-- the report was not refused, it handed out the allowance or the account's plan was on that rail
-- before, and the time lies in the allowance period from s, of fewer than 2 ^ 32 seconds, to e, a
-- second report of the same tier and paid period at any time from s to before e is refused, or
-- hands out no new allowance and leaves all allowances as they are.
pub renew_key_once :
    (names : Names) (acct tier : ℕ) (yearly : Bool) (rail : String)
    (now_ms later_ms start_ms until_ms s e : ℕ) (g : Bool) (t t' : Tables)
    → 0 < start_ms
    → start_ms ≤ now_ms
    → IsU32 s
    → slice_at start_ms until_ms yearly now_ms ≡ some (s, e)
    → s ≤ later_ms
    → later_ms < e
    → renew_key names acct tier yearly rail now_ms start_ms until_ms t ≡ ok (g, t')
    → (g || (plan_before acct t).rail =ₛ rail) ≡ true
    → IsNotGranted t' (renew_key names acct tier yearly rail later_ms start_ms until_ms t')
renew_key_once names acct tier yearly rail now_ms later_ms start_ms until_ms s e g t t' pos begun
      small k from to first sure =
    let m = min tier (length tiers - 1) in
    let known = (plan_before acct t).rail =ₛ rail in
    let within = slice_at-contains start_ms until_ms yearly now_ms s e begun k in
    let k' = slice_at_stable start_ms until_ms yearly now_ms later_ms s e begun k from to in
    let left : Leaves acct m s known
        (renew_key names acct tier yearly rail now_ms start_ms until_ms t) =
      renew_key-ends names acct tier yearly rail now_ms start_ms until_ms t (Leaves acct m s known)
        (λ why. tt) (omega arith)
        (sight_plan-Granted names.rail_key acct tier yearly rail now_ms start_ms until_ms s e
          (plan_before acct t) t pos small k) in
    let done : Granted acct m s known (g, t') = subst (Leaves acct m s known) first left in
    let enough : m ≤ granted_base s (plan_before acct t') =
      rw (done.found, plan_before) (done.covers sure) in
    renew_key-ends names acct tier yearly rail later_ms start_ms until_ms t' (IsNotGranted t')
      (λ why. tt) (omega arith)
      (sight_plan-old names.rail_key acct tier yearly rail later_ms start_ms until_ms s e
        (plan_before acct t') t' pos k' done.at enough)
