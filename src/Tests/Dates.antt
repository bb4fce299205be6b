-- ===== src/Tests/Dates.antt =====
-- crates/core: the calendar, the allowance periods and the notes on dates.
use tokumai.Base.{
  ℕ, ◌+◌, ◌-◌, ◌*◌, ◌≤◌, ◌<◌, ◌≡◌, refl, true, some, List, [], ◌∷◌, ◌++◌, arith, ◌%◌, min,
}
use tokumai.Core.Calendar.{
  day_ms, civil_from_ms, civil_of_day, yoe_of, doy_of, month_of, day_of, add_months_ms,
  year_of_index, month_of_index, is_leap, days_in_month, days_of_month, ms_from_civil,
  day_from_civil, doy_from,
}
use tokumai.Core.Calendar.RoundTrip.{ms_from_civil-civil_from_ms}
use tokumai.Core.Calendar.Months.{civil_from_ms-add_months_ms}
use tokumai.Core.Subscription.{slice_at, back_to, months_between}
use tokumai.Core.Subscription.Slice.{slice_at_stable}
use tokumai.Core.Subscription.Returns.{
  Reach, Step, IsBalanced, new_purse, drawing, Reach-IsBalanced,
}
use tokumai.Core.Notes.{Note, epoch_of_ms, epoch_start_ms}

-- 2026-10-06 12:00, 2026-01-31, and a year of periods that begins with the latter
abbrev october : ℕ
october = 1_791_288_000_000

abbrev january : ℕ
january = 1_769_817_600_000

abbrev year_later : ℕ
year_later = 1_801_353_600_000

civil_october : civil_from_ms october ≡ record { year = 2026; month = 10; day = 6 }
unfolding civil_from_ms civil_of_day yoe_of doy_of month_of day_of
civil_october = refl

ms_from_civil-civil_from_ms_example :
    let c = civil_from_ms october in ms_from_civil c.year c.month c.day + october % day_ms ≡ october
ms_from_civil-civil_from_ms_example = ms_from_civil-civil_from_ms october

february : civil_from_ms (add_months_ms january 1) ≡ record { year = 2026; month = 2; day = 28 }
unfolding civil_from_ms civil_of_day yoe_of doy_of month_of day_of add_months_ms year_of_index
    month_of_index is_leap days_in_month days_of_month ms_from_civil day_from_civil doy_from
february = refl

civil_from_ms-add_months_ms_example :
    let c = civil_from_ms january in
    let c' = civil_from_ms (add_months_ms january 1) in
    (c'.year * 12 + (c'.month - 1) ≡ c.year * 12 + (c.month - 1) + 1)
    × (c'.day ≡ min c.day (days_in_month c'.year c'.month))
    × (add_months_ms january 1 % day_ms ≡ january % day_ms)
civil_from_ms-add_months_ms_example = civil_from_ms-add_months_ms january 1

slice_january : slice_at january year_later true january ≡ some (january, add_months_ms january 1)
unfolding civil_from_ms civil_of_day yoe_of doy_of month_of day_of add_months_ms year_of_index
    month_of_index is_leap days_in_month days_of_month ms_from_civil day_from_civil doy_from
    slice_at back_to months_between
slice_january = refl

january_goes_on : january + 1 < add_months_ms january 1
unfolding civil_from_ms civil_of_day yoe_of doy_of month_of day_of add_months_ms year_of_index
    month_of_index is_leap days_in_month days_of_month ms_from_civil day_from_civil doy_from
january_goes_on = omega arith

slice_at_stable_example :
    slice_at january year_later true (january + 1) ≡ some (january, add_months_ms january 1)
slice_at_stable_example =
    slice_at_stable january year_later true january (january + 1) january (add_months_ms january 1)
      (omega arith) slice_january (omega arith) january_goes_on

Reach-IsBalanced_example : IsBalanced (drawing new_purse 5)
Reach-IsBalanced_example = Reach-IsBalanced (Reach.next Reach.here (Step.draw 5 (omega arith)))

october_since : epoch_start_ms 0 ≤ october
unfolding epoch_start_ms ms_from_civil day_from_civil doy_from
october_since = omega arith

october_small : epoch_of_ms october < 65_535
unfolding epoch_of_ms civil_from_ms civil_of_day yoe_of doy_of month_of day_of
october_small = omega arith

january_end : epoch_of_ms (add_months_ms january 1 - 1) < 65_535
unfolding epoch_of_ms civil_from_ms civil_of_day yoe_of doy_of month_of day_of add_months_ms
    year_of_index month_of_index is_leap days_in_month days_of_month ms_from_civil day_from_civil
    doy_from
january_end = omega arith

abbrev twice : List ℕ → List ℕ
twice l = l ++ l

abbrev nonce : List ℕ
nonce = twice (twice (twice (twice (twice (7 ∷ [])))))

abbrev a_note : Note
a_note = record { tier = 1; epoch = 300; nonce = nonce }
