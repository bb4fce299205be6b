-- ===== src/Enclave/Plans.antt =====
-- crates/enclave/src/plans.rs: the plan of an account, from either rail. An account is its stored
-- name, a number; `rail_key` is the keyed hash under which a rail is stored, and `mint_reference`
-- the stored form of a minted month. An operation gives the book after it.
pub mod Changes
pub mod Once
pub mod Upgrade
pub mod Ended
pub mod Stale
pub mod Held
use tokumai.Base.{
  ℕ, ◌+◌, ◌-◌, ◌*◌, ◌/◌, ◌%◌, ◌^◌, Bool, true, false, not, ◌||◌, ◌&&◌, Option, none, some, List, [],
  ◌∷◌, ◌++◌, map, String, ◌=ₛ◌, starts_with, get_elem?, length, ltb, leb, ◌==◌, if◌then◌else◌, min,
}
use tokumai.Base.Result.{Result, ok, err}
use tokumai.Base.Dict.{lookup}
use tokumai.Core.Subscription.{tiers, prorata_toku, slice_at, period_key}
use tokumai.Core.Notes.{epochs_covered}
use tokumai.Enclave.Ledger.Tables.{
  Tables, Plan, PeriodUsage, Drawn, AllowanceRow, Change, apply, set_allowance, add_allowance,
  take_allowance, lapse_allowance, put_plan, delete_plan, bind_rail,
}
use tokumai.Enclave.Ledger.Tables.Drawn.{nothing, some_of_it, most_of_it, all_of_it}

abbrev pub no_plan : Plan
no_plan = record {
  tier = 0;
  yearly = false;
  rail = "";
  period_start_ms = 0;
  paid_until_ms = 0;
  active = false;
  checked_at_ms = 0;
  disputed_at_ms = 0;
  usage = [];
  granted_tier = 0;
  granted_period = 0;
}

unfoldable pub granted_base : ℕ → Plan → ℕ
granted_base period_start_ms p =
    if p.granted_period == period_key period_start_ms then p.granted_tier else p.tier

unfoldable pub record_granted : ℕ → ℕ → Plan → Plan
record_granted period_start_ms tier p = record p {
  granted_tier = tier;
  granted_period = period_key period_start_ms;
}

unfoldable pub paid_at : ℕ → Plan → Bool
paid_at now_ms p = p.active && ltb now_ms p.paid_until_ms

abbrev pub usage_keep_ms : ℕ
usage_keep_ms = 120 * 86_400_000

abbrev pub dispute_keep_ms : ℕ
dispute_keep_ms = 180 * 86_400_000

has_period : ℕ → List PeriodUsage → Bool
has_period period [] = false
has_period period (u ∷ us) = u.period == period || has_period period us

drawn_of : ℕ → ℕ → Drawn
drawn_of granted drawn =
    if drawn == 0
    then nothing
    else if ltb (drawn * 2) granted
    then some_of_it
    else if ltb (drawn * 100) (granted * 95)
    then most_of_it
    else all_of_it

-- The period of an allowance as `allowance_of` reads it, a u32.
abbrev pub period_of : AllowanceRow → ℕ
period_of r = r.period % 2 ^ 32

unfoldable pub close_period : ℕ → Tables → Plan → Plan
unfolding has_period drawn_of
close_period acct t p = elim (lookup acct t.allowances) [
  | none ↦ p
  | some r ↦
      if period_of r == 0 || r.granted == 0 || has_period (period_of r) p.usage
      then p
      else record p {
        usage =
            p.usage
            ++ record {
              period = period_of r;
              tier = p.tier;
              drawn = drawn_of r.granted (r.granted - r.left);
            }
              ∷ [];
      }
]

young_usage : ℕ → List PeriodUsage → List PeriodUsage
young_usage now_ms [] = []
young_usage now_ms (u ∷ us) =
    let rest = young_usage now_ms us in
    if ltb (now_ms - u.period * 1000) usage_keep_ms then u ∷ rest else rest

-- The plan, and whether anything went.
unfoldable pub prune_usage : ℕ → Plan → Plan × Bool
unfolding young_usage
prune_usage now_ms p =
    let disputed = ltb 0 p.disputed_at_ms && ltb (now_ms - p.disputed_at_ms) dispute_keep_ms in
    let kept = if disputed then p.usage else young_usage now_ms p.usage in
    (record p { usage = kept }, not (length kept == length p.usage))

unfoldable pub current_period : ℕ → Tables → ℕ
current_period acct t = elim (lookup acct t.allowances) [ none ↦ 0 | some r ↦ period_of r ]

-- `TIERS[tier].0`, of a tier that was cut to the tiers there are.
unfoldable pub tier_toku : ℕ → ℕ
tier_toku tier = elim (get_elem? tiers tier) [ none ↦ 0 | some (toku, cents) ↦ toku ]

pub data Refusal : Type 0 where
  already elsewhere already_minted : Refusal

pub record Names : Type 0 where
  pub rail_key : String → ℕ
  pub mint_reference : String → ℕ → ℕ

module _ (names : Names) where
  unfoldable pub rail_owner : String → Tables → Option ℕ
  rail_owner rail t = lookup (names.rail_key rail) t.rails

  unfoldable pub attach_refusal_key : ℕ → String → ℕ → Tables → Option Refusal
  unfolding rail_owner
  attach_refusal_key acct rail now_ms t =
      let other : Bool = elim (rail_owner rail t) [
        | none ↦ false
        | some owner ↦ not (owner == acct)
      ] in
      let taken : Bool = elim (lookup acct t.plans) [
        | none ↦ false
        | some p ↦ not (p.rail =ₛ "") && not (p.rail =ₛ rail) && paid_at now_ms p
      ] in
      if other then some elsewhere else if taken then some already else none

  unfoldable pub any_minted : String → List ℕ → Tables → Bool
  any_minted rail [] t = false
  any_minted rail (epoch ∷ epochs) t = elim (lookup (names.mint_reference rail epoch) t.minted) [
    | none ↦ any_minted rail epochs t
    | some fingerprint ↦ true
  ]

-- The fields that a sighting sets: `start_ms > 0` leaves the last start otherwise.
unfoldable pub sighted : ℕ → Bool → String → ℕ → ℕ → ℕ → Plan → Plan
sighted tier yearly rail now_ms start_ms until_ms p = record p {
  tier = tier;
  yearly = yearly;
  rail = rail;
  active = ltb now_ms until_ms;
  checked_at_ms = now_ms;
  paid_until_ms = until_ms;
  period_start_ms = if ltb 0 start_ms then start_ms else p.period_start_ms;
}

-- The match on the slice: `granted` for a new period, the step for a higher tier in one that was
-- granted, the tables as they are otherwise; then the plan is stored.
unfoldable pub grant_slice : ℕ → ℕ → Bool → ℕ → ℕ → ℕ → Plan → Tables → Bool × Tables
unfolding tier_toku granted_base record_granted close_period
grant_slice acct old_tier was_known now_ms s e p t =
    let base = granted_base s (record p { tier = old_tier }) in
    let fresh = ltb (current_period acct t) (period_key s) in
    let step = prorata_toku (tier_toku p.tier - tier_toku base) (e - now_ms) (e - s) in
    if fresh
    then (
      true,
      apply (put_plan acct (record_granted s p.tier (close_period acct t p)))
          (apply (set_allowance acct (s / 1000) e (tier_toku p.tier)) t),
    )
    else if was_known && ltb base p.tier
    then (
      false,
      apply (put_plan acct (record_granted s p.tier p)) (apply (add_allowance acct step) t),
    )
    else (false, apply (put_plan acct p) t)

-- A plan that is sighted, the rail being free for the account: `paid_now || existing.is_some()`.
unfoldable pub sight_plan :
    (String → ℕ) → ℕ → ℕ → Bool → String → ℕ → ℕ → ℕ → Plan → Tables → Bool × Tables
unfolding sighted grant_slice
sight_plan rail_key acct tier yearly rail now_ms start_ms until_ms before t =
    let tier' = min tier (length tiers - 1) in
    let bound = apply (bind_rail (rail_key rail) acct) t in
    let p = sighted tier' yearly rail now_ms start_ms until_ms before in
    elim (slice_at p.period_start_ms p.paid_until_ms p.yearly now_ms) [
      | none ↦ (false, apply (put_plan acct p) bound)
      | some (s, e) ↦ grant_slice acct before.tier (before.rail =ₛ rail) now_ms s e p bound
    ]

module _ (names : Names) where
  unfoldable pub renew_key :
      ℕ → ℕ → Bool → String → ℕ → ℕ → ℕ → Tables → Result Refusal (Bool × Tables)
  unfolding attach_refusal_key any_minted sight_plan
  renew_key acct tier yearly rail now_ms start_ms until_ms t =
      let epochs = epochs_covered start_ms until_ms yearly in
      let minted = not (starts_with rail "note:") && any_minted names rail epochs t in
      elim (attach_refusal_key names acct rail now_ms t) [
        | some why ↦ err why
        | none ↦ if minted then err already_minted else elim (lookup acct t.plans) [
          | none ↦
              if ltb now_ms until_ms
              then ok (
                  sight_plan names.rail_key acct tier yearly rail now_ms start_ms until_ms no_plan
                    t)
              else ok (false, t)
          | some before ↦
              ok (sight_plan names.rail_key acct tier yearly rail now_ms start_ms until_ms before t)
        ]
      ]

  -- Nothing happens for a rail that nobody holds.
  unfoldable pub renew_by_rail :
      String → ℕ → Bool → ℕ → ℕ → ℕ → Tables → Result Refusal (Bool × Tables)
  unfolding rail_owner renew_key
  renew_by_rail rail tier yearly now_ms start_ms until_ms t = elim (rail_owner names rail t) [
    | none ↦ ok (false, t)
    | some acct ↦ renew_key acct tier yearly rail now_ms start_ms until_ms t
  ]

  unfoldable pub revoke : String → Bool → ℕ → Tables → Bool × Tables
  unfolding rail_owner close_period
  revoke rail disputed now_ms t = elim (rail_owner names rail t) [
    | none ↦ (false, t)
    | some acct ↦ elim (lookup acct t.plans) [
      | none ↦ (false, t)
      | some p ↦
          let ended = close_period acct t (record p {
            active = false;
            paid_until_ms = min p.paid_until_ms now_ms;
            checked_at_ms = now_ms;
          }) in
          let marked = if disputed then record ended { disputed_at_ms = now_ms } else ended in
          if p.rail =ₛ rail
          then (true, apply (put_plan acct marked) (apply (lapse_allowance acct) t))
          else (false, t)
    ]
  ]
