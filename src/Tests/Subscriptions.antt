-- ===== src/Tests/Subscriptions.antt =====
-- crates/enclave/src/plans.rs and cover.rs on one plan.
use tokumai.Base.{
  inl, ℕ, ◌≤◌, ◌≡◌, refl, Bool, ◌||◌, true, false, some, List, [], ◌∷◌, String, ◌=ₛ◌, if◌then◌else◌,
  arith, length,
}
use tokumai.Base.Result.{ok}
use tokumai.Base.Dict.{lookup}
use tokumai.Core.Subscription.{slice_at, period_key}
use tokumai.Core.Notes.{epochs_covered}
use tokumai.Enclave.Ledger.Tables.{Tables, no_rows, Plan}
use tokumai.Enclave.Plans.{
  Names, no_plan, renew_key, rail_owner, attach_refusal_key, any_minted, sight_plan, granted_base,
  grant_slice, current_period,
}
use tokumai.Enclave.Plans.Changes.{change_tier, pays_another}
use tokumai.Enclave.Plans.Upgrade.{change_all, change_tier_twice}
use tokumai.Enclave.Plans.Once.{plan_before, renew_key_once, IsNotGranted}
use tokumai.Enclave.Notes.{mint_admission}
use tokumai.Enclave.Notes.Redeem.{redeem_loop, renewed_note}
use tokumai.Enclave.Notes.Spent.{redeem_loop_twice}
use tokumai.Core.Notes.{Note}
use tokumai.Base.Bytes.{Bytes}
use tokumai.Base.Dict.{has_key, insert_new, insert}
use tokumai.Enclave.Notes.OneWay.{IsIn, IsRefused, minted-IsRefused}
use tokumai.Enclave.Ledger.Tables.{apply, insert_minted}
use tokumai.Core.Notes.{epochs_from, epoch_of_ms}
use tokumai.Core.Calendar.{
  civil_from_ms, civil_of_day, yoe_of, doy_of, month_of, day_of, add_months_ms, year_of_index,
  month_of_index, is_leap, days_in_month, days_of_month, ms_from_civil, day_from_civil, doy_from,
}
use tokumai.Enclave.Cover.{Cover, text, note, remember}
use tokumai.Enclave.Cover.Crowd.{note-bounded}

abbrev names : Names
names = record {
  rail_key = λ rail. if rail =ₛ "iap:1" then 7 else 8;
  mint_reference = λ rail epoch. epoch;
}

abbrev plan : Plan
plan = record no_plan {
  tier = 0;
  rail = "iap:1";
  period_start_ms = 1_000_000;
  paid_until_ms = 2_000_000;
  active = true;
}

abbrev tables : Tables
tables = record no_rows {
  allowances = (1, record { period = 1_000; ends_ms = 2_000_000; granted = 700; left = 200 }) ∷ [];
  plans = (1, plan) ∷ [];
  rails = (7, 1) ∷ [];
}

slice_now : slice_at 1_000_000 2_000_000 false 1_500_000 ≡ some (1_000_000, 2_000_000)
unfolding slice_at
slice_now = refl

slice_later : slice_at 1_000_000 2_000_000 false 1_600_000 ≡ some (1_000_000, 2_000_000)
unfolding slice_at
slice_later = refl

plan_found : lookup 1 tables.plans ≡ some plan
unfolding lookup
plan_found = refl

-- Down, and up again.
abbrev down_and_up : List (ℕ × ℕ)
down_and_up = (0, 1_500_000) ∷ (2, 1_600_000) ∷ []

base_is : granted_base 1_000_000 plan ≡ 0
unfolding granted_base period_key
base_is = refl

change_tier_twice_example :
    let u = (change_tier 1 2 1_500_000 tables).1 in
    let v = change_all 1 down_and_up u in (v.0 ≡ 0) × (v.1.allowances ≡ u.allowances)
change_tier_twice_example =
    change_tier_twice 1 2 1_500_000 1_000_000 2_000_000 down_and_up tables plan plan_found slice_now
      (omega (arith, base_is)) (omega arith, slice_now, (omega arith, slice_later, tt))

abbrev first : Bool × Tables
first = sight_plan names.rail_key 1 1 false "iap:1" 1_500_000 1_000_000 2_000_000 no_plan no_rows

nothing_minted : (rail : String) (epochs : List ℕ) → any_minted names rail epochs no_rows ≡ false
unfolding any_minted lookup
nothing_minted rail [] = refl
nothing_minted rail (epoch ∷ epochs) = nothing_minted rail epochs

renewed :
    renew_key names 1 1 false "iap:1" 1_500_000 1_000_000 2_000_000 no_rows ≡ ok (first.0, first.1)
unfolding renew_key attach_refusal_key rail_owner lookup
renewed = rw (nothing_minted "iap:1" (epochs_covered 1_000_000 2_000_000 false)) refl

handed_out : (first.0 || (plan_before 1 no_rows).rail =ₛ "iap:1") ≡ true
unfolding sight_plan grant_slice current_period lookup slice_at period_key apply
handed_out = refl

renew_key_once_example :
    IsNotGranted first.1 (renew_key names 1 1 false "iap:1" 1_600_000 1_000_000 2_000_000 first.1)
renew_key_once_example =
    renew_key_once names 1 1 false "iap:1" 1_500_000 1_600_000 1_000_000 2_000_000 1_000_000
      2_000_000 first.0 no_rows first.1 (omega arith) (omega arith) (omega arith) slice_now
      (omega arith) (omega arith) renewed handed_out

owner_is : rail_owner names "iap:1" tables ≡ some 1
unfolding rail_owner lookup
owner_is = refl

row_found :
    lookup 1 tables.allowances
    ≡ some (record { period = 1_000; ends_ms = 2_000_000; granted = 700; left = 200 })
unfolding lookup
row_found = refl

target_is_free : pays_another "iap:1" 1_500_000 (lookup 2 tables.plans) ≡ false
unfolding pays_another lookup
target_is_free = refl

abbrev cover : Cover
cover = record { seen = (0, text) ∷ []; waiting = (1, (1_000, 1_000)) ∷ [] }

waits : lookup 1 cover.waiting ≡ some (1_000, 1_000)
unfolding lookup
waits = refl

note-bounded_example : length (note text 2_000 cover).seen ≤ remember
note-bounded_example = note-bounded text 2_000 cover

admitted :
    mint_admission names "iap:1" 0 "blinded" no_rows
    ≡ ok (true, apply (insert_minted 0 "blinded") no_rows)
unfolding mint_admission rail_owner lookup
admitted = refl

first_month : IsIn 0 (epochs_covered 1_000_000 2_000_000 false)
unfolding epochs_covered epochs_from epoch_of_ms civil_from_ms civil_of_day yoe_of doy_of month_of
    day_of add_months_ms year_of_index month_of_index is_leap days_in_month days_of_month
    ms_from_civil day_from_civil doy_from
first_month = inl refl

minted-IsRefused_example : IsRefused (
    renew_key names 1 1 false "iap:1" 1_500_000 1_000_000 2_000_000
      (apply (insert_minted 0 "blinded") no_rows))
minted-IsRefused_example =
    minted-IsRefused names "iap:1" "blinded" 0 1 1 1_500_000 1_000_000 2_000_000 false true no_rows
      (apply (insert_minted 0 "blinded") no_rows) admitted refl first_month

abbrev a_note : Note
a_note = record { tier = 1; epoch = 9; nonce = 4 ∷ [] }

-- An account whose plan ran out long ago.
abbrev ended_plan : Tables
ended_plan = record no_rows { plans = (1, no_plan) ∷ [] }

abbrev spent_key : ℕ → Bytes → ℕ
spent_key epoch nonce = epoch

redeemed :
    (redeem_loop names spent_key 1 "note:1" 1_500_000 (a_note ∷ []) 0 0 ended_plan).0
    ≡ ok (record { granted = 1; again = 0 })
unfolding redeem_loop renewed_note renew_key attach_refusal_key rail_owner lookup has_key apply
    insert_new insert
redeemed = refl

redeem_loop_twice_example :
    let u = (redeem_loop names spent_key 1 "note:1" 1_500_000 (a_note ∷ []) 0 0 ended_plan).1 in
    redeem_loop names spent_key 2 "note:2" 1_600_000 (a_note ∷ []) 0 0 u
    ≡ (ok (record { granted = 0; again = 1 }), u)
redeem_loop_twice_example =
    redeem_loop_twice names spent_key 1 2 "note:1" "note:2" 1_500_000 1_600_000 (a_note ∷ [])
      ended_plan (record { granted = 1; again = 0 }) redeemed
