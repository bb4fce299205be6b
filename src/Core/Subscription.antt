-- ===== src/Core/Subscription.antt =====
-- crates/core/src/subscription.rs: the tiers, the pro rata of an upgrade, the allowance period of
-- a plan (`slice_at`), and the subscriber's month (`Allowance`). u64 amounts are numbers; where
-- the source saturates at 2 ^ 64 - 1, so does `saturating_add`.
pub mod Slice
pub mod Prorata
pub mod Returns
use tokumai.Base.{
  ℕ, zero, suc, ◌+◌, ◌-◌, ◌*◌, ◌/◌, ◌^◌, Bool, true, false, not, ◌||◌, Option, none, some, List, [],
  ◌∷◌, get_elem?, ltb, leb, ◌==◌, if◌then◌else◌, min, max,
}
use tokumai.Core.Calendar.{civil_from_ms, add_months_ms}

abbrev pub u64_max : ℕ
u64_max = 2 ^ 64 - 1

abbrev pub u32_max : ℕ
u32_max = 2 ^ 32 - 1

pub saturating_add : ℕ → ℕ → ℕ
saturating_add a b = min (a + b) u64_max

-- (TOKU a month, euro cents a month)
abbrev entry_tier : ℕ × ℕ
entry_tier = (700_000, 1000)

abbrev pub tiers : List (ℕ × ℕ)
tiers = entry_tier ∷ (1_500_000, 2000) ∷ (4_000_000, 5000) ∷ []

unfoldable pub saving_cents : ℕ → ℕ
saving_cents tier = elim (get_elem? tiers tier) [
  | none ↦ 0
  | some (toku, cents) ↦ toku * entry_tier.1 / entry_tier.0 - cents
]

unfoldable pub yearly_cents : ℕ → ℕ
yearly_cents monthly_cents = monthly_cents * 12 * 90 / 100

unfoldable pub prorata_toku : ℕ → ℕ → ℕ → ℕ
prorata_toku step_toku remaining_ms total_ms =
    if total_ms == 0 then 0 else step_toku * min remaining_ms total_ms / total_ms

-- `while k > 0 && add_months_ms(start, k) > now { k -= 1 }`
unfoldable pub back_to : ℕ → ℕ → ℕ → ℕ
back_to start now zero = zero
back_to start now (suc k) =
    let earlier = back_to start now k in
    if ltb now (add_months_ms start (suc k)) then earlier else suc k

-- Whole months from the start to now, between 0 and 11; a difference below 0 counts as 0.
unfoldable pub months_between : ℕ → ℕ → ℕ
months_between start now =
    let c0 = civil_from_ms start in
    let c1 = civil_from_ms (max now start) in
    min (c1.year * 12 + c1.month - (c0.year * 12 + c0.month)) 11

unfoldable pub slice_at : ℕ → ℕ → Bool → ℕ → Option (ℕ × ℕ)
unfolding back_to months_between
slice_at period_start_ms paid_until_ms yearly now_ms =
    if leb paid_until_ms now_ms || period_start_ms == 0 || leb paid_until_ms period_start_ms
    then none
    else if not yearly
    then some (period_start_ms, paid_until_ms)
    else let k = back_to period_start_ms now_ms (months_between period_start_ms now_ms) in
      let start = add_months_ms period_start_ms k in
      let end =
        if leb 11 k
        then paid_until_ms
        else min (add_months_ms period_start_ms (k + 1)) paid_until_ms in
      some (start, end)

pub record Allowance : Type 0 where
  pub period : ℕ
  pub ends_ms : ℕ
  pub granted : ℕ
  pub left : ℕ
  pub outstanding : ℕ

unfoldable pub period_key : ℕ → ℕ
period_key start_ms = min (start_ms / 1000) u32_max

pub reset : ℕ → ℕ → ℕ → Allowance → Allowance
reset start_ms end_ms granted a = record a {
  period = period_key start_ms;
  ends_ms = end_ms;
  granted = granted;
  left = granted;
}

pub add_upgrade : ℕ → Allowance → Allowance
unfolding saturating_add
add_upgrade extra a = record a {
  granted = saturating_add a.granted extra;
  left = saturating_add a.left extra;
}

pub lapse : Allowance → Allowance
lapse a = record a { granted = 0; left = 0 }

-- What was taken from the allowance, and what is still to be found in the entitlement.
pub spend : ℕ → Allowance → (ℕ × ℕ) × Allowance
unfolding saturating_add
spend want a =
    let from_allowance = min want a.left in
    (
      (from_allowance, want - from_allowance),
      record a {
        left = a.left - from_allowance;
        outstanding = saturating_add a.outstanding from_allowance;
      },
    )

-- What was restored to the allowance, and what is credited as entitlement.
pub give_back : ℕ → Allowance → (ℕ × ℕ) × Allowance
give_back value a =
    let from_allowance = min value a.outstanding in
    let room = a.granted - a.left in
    let restored = min from_allowance room in
    (
      (restored, value - from_allowance),
      record a { outstanding = a.outstanding - from_allowance; left = a.left + restored },
    )
