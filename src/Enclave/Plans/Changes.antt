-- ===== src/Enclave/Plans/Changes.antt =====
-- crates/enclave/src/plans.rs: the changes of a plan after its first sighting: the tier, the account, the
-- check, and the beat.
use tokumai.Base.{
  ℕ, ◌+◌, ◌-◌, ◌*◌, ◌/◌, Bool, true, false, not, ◌||◌, ◌&&◌, Option, none, some, List, [], ◌∷◌, map,
  String, ◌=ₛ◌, length, ltb, leb, ◌==◌, if◌then◌else◌, min,
}
use tokumai.Base.Dict.{lookup}
use tokumai.Core.Subscription.{tiers, prorata_toku, slice_at, period_key}
use tokumai.Enclave.Ledger.Tables.{
  Tables, Plan, apply, set_allowance, add_allowance, take_allowance, lapse_allowance, put_plan,
  delete_plan, bind_rail,
}
use tokumai.Enclave.Plans.{
  granted_base, record_granted, paid_at, close_period, prune_usage, current_period, tier_toku,
  Names, rail_owner, period_of,
}

-- The tier of a plan that Stripe has billed: what was added for it.
unfoldable pub change_tier : ℕ → ℕ → ℕ → Tables → ℕ × Tables
unfolding granted_base record_granted tier_toku
change_tier acct tier now_ms t = elim (lookup acct t.plans) [
  | none ↦ (0, t)
  | some before ↦
      let tier' = min tier (length tiers - 1) in
      let p = record before { tier = tier' } in
      elim (slice_at before.period_start_ms before.paid_until_ms before.yearly now_ms) [
        | none ↦ (0, apply (put_plan acct p) t)
        | some (s, e) ↦
            let base = granted_base s before in
            let extra = prorata_toku (tier_toku tier' - tier_toku base) (e - now_ms) (e - s) in
            if ltb base tier'
            then (
              extra,
              apply (put_plan acct (record_granted s tier' p)) (apply (add_allowance acct extra) t),
            )
            else (0, apply (put_plan acct p) t)
      ]
]

-- What the target takes over of an allowance: the same period, with the used part taken off.
unfoldable pub move_allowance : ℕ → ℕ → Tables → Tables
move_allowance from to t = elim (lookup from t.allowances) [
  | none ↦ t
  | some r ↦
      let set = apply (set_allowance to (period_of r * 1000 / 1000) r.ends_ms r.granted) t in
      let used = r.granted - r.left in
      let less = if ltb 0 used then apply (take_allowance to used) set else set in
      apply (lapse_allowance from) less
]

unfoldable pub pays_another : String → ℕ → Option Plan → Bool
pays_another rail now_ms none = false
pays_another rail now_ms (some p) = not (p.rail =ₛ rail) && paid_at now_ms p

module _ (names : Names) where
  unfoldable pub move_plan : String → ℕ → ℕ → Tables → Bool × Tables
  unfolding rail_owner move_allowance pays_another
  move_plan rail to now_ms t = elim (rail_owner names rail t) [
    | none ↦ (false, t)
    | some from ↦ elim (lookup from t.plans) [
      | none ↦ (false, t)
      | some p ↦
          let put = apply (put_plan to p) (apply (delete_plan from) (move_allowance from to t)) in
          if from == to || pays_another rail now_ms (lookup to t.plans) || not (p.rail =ₛ rail)
          then (false, t)
          else (true, apply (bind_rail (names.rail_key rail) to) put)
    ]
  ]

unfoldable pub mark_checked : ℕ → ℕ → Tables → Tables
mark_checked acct now_ms t = elim (lookup acct t.plans) [
  | none ↦ t
  | some p ↦ apply (put_plan acct (record p { checked_at_ms = now_ms })) t
]

-- One plan of the beat: whether an allowance began or lapsed.
unfoldable pub roll_one : ℕ → ℕ → Plan → Tables → ℕ × Tables
unfolding prune_usage close_period paid_at tier_toku
roll_one acct now_ms before t =
    let pruned = prune_usage now_ms before in
    let ended = pruned.0.active && leb pruned.0.paid_until_ms now_ms in
    let p = if ended then record pruned.0 { active = false } else pruned.0 in
    let dirty = pruned.1 || ended in
    let as_it_is : ℕ × Tables = (0, if dirty then apply (put_plan acct p) t else t) in
    let slice =
      if paid_at now_ms p
      then slice_at p.period_start_ms p.paid_until_ms p.yearly now_ms
      else none in
    elim slice [
      | some (s, e) ↦
          if ltb (current_period acct t) (period_key s)
          then (
            1,
            apply (put_plan acct (close_period acct t p)) (
                apply (set_allowance acct (s / 1000) e (tier_toku (min p.tier (length tiers - 1))))
                  t),
          )
          else as_it_is
      | none ↦ elim (lookup acct t.allowances) [
        | none ↦ as_it_is
        | some r ↦
            if ltb 0 r.granted && leb r.ends_ms now_ms
            then (1, apply (put_plan acct (close_period acct t p)) (apply (lapse_allowance acct) t))
            else as_it_is
      ]
    ]

-- `plan_keys`, in the order of the table.
unfoldable pub roll_keys : List ℕ → ℕ → Tables → ℕ × Tables
unfolding roll_one
roll_keys [] now_ms t = (0, t)
roll_keys (acct ∷ accts) now_ms t =
    let one : ℕ × Tables = elim (lookup acct t.plans) [
      | none ↦ (0, t)
      | some p ↦ roll_one acct now_ms p t
    ] in
    let rest = roll_keys accts now_ms one.1 in (one.0 + rest.0, rest.1)

unfoldable pub roll : ℕ → Tables → ℕ × Tables
unfolding roll_keys
roll now_ms t = roll_keys (map (λ (row : ℕ × Plan). row.0) t.plans) now_ms t
