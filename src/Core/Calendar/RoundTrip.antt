-- ===== src/Core/Calendar/RoundTrip.antt =====
-- Dates and timestamps convert into one another: the proofs about `civil_from_ms` and
-- `ms_from_civil`.
use mathlib.Core.Bool.{true≢false}
use tokumai.Base.{
  ℕ, suc, zero, ◌+◌, ◌-◌, ◌*◌, ◌/◌, ◌%◌, ◌≤◌, ◌<◌, ◌≡◌, refl, Bool, true, false, arith, leb, ◌==◌,
  leb→le, Bool-cases, inl, inr, if◌then◌else◌, ==_iff,
}
use tokumai.Core.Calendar.{
  Civil, day_ms, is_leap, days_of_month, days_in_month, yoe_of, doy_of, month_of, day_of,
  civil_of_day, civil_from_ms, doy_from, day_from_civil, ms_from_civil,
}

-- A test of each day of a year.
holds_to : (ℕ → Bool) → ℕ → Bool
holds_to test zero = true
holds_to test (suc day) = if test day then holds_to test day else false

holds_at :
    (test : ℕ → Bool) (days doy : ℕ) → doy < days → holds_to test days ≡ true → test doy ≡ true
unfolding holds_to
holds_at test zero doy early all = absurd (omega arith)
holds_at test (suc day) doy early all = let before = holds_at test day doy in ground (arith, before)

-- The day of a year that ends in February, back from its month and day.
doy_table : holds_to (λ doy. doy_from (month_of doy) (day_of doy) == doy) 366 ≡ true
unfolding holds_to doy_from month_of day_of
doy_table = refl

day_table : holds_to (λ doy. leb (day_of doy) (days_of_month true (month_of doy))) 366 ≡ true
unfolding holds_to month_of day_of days_of_month
day_table = refl

day_table_common :
    holds_to (λ doy. leb (day_of doy) (days_of_month false (month_of doy))) 365 ≡ true
unfolding holds_to month_of day_of days_of_month
day_table_common = refl

doy-month_of-day_of : (doy : ℕ) → doy < 366 → doy_from (month_of doy) (day_of doy) ≡ doy
doy-month_of-day_of doy h = (==_iff _ doy).0 (holds_at _ 366 doy h doy_table)

day_of-le :
    (leap : Bool) (doy : ℕ)
    → doy < 366
    → (leap ≡ false → doy < 365)
    → day_of doy ≤ days_of_month leap (month_of doy)
day_of-le true doy h k = leb→le _ _ (holds_at _ 366 doy h day_table)
day_of-le false doy h k = leb→le _ _ (holds_at _ 365 doy (k refl) day_table_common)

month_of_bounds :
    (doy : ℕ) → doy < 366 → (1 ≤ month_of doy) × (month_of doy ≤ 12) × (1 ≤ day_of doy)
unfolding month_of day_of
month_of_bounds doy h = ground arith

-- A year of the era, and the day in it.
yoe_bounds :
    (doe : ℕ)
    → doe < 146_097
    → (yoe_of doe ≤ 399)
      × (365 * yoe_of doe + yoe_of doe / 4 - yoe_of doe / 100 ≤ doe)
      × (doy_of doe ≤ 365)
unfolding yoe_of doy_of
yoe_bounds doe h = (omega arith, omega arith, omega arith)

doy_of-leap :
    (era doe : ℕ) → doe < 146_097 → is_leap (yoe_of doe + era * 400 + 1) ≡ false → doy_of doe < 365
unfolding yoe_of doy_of is_leap
doy_of-leap era doe h k = ground arith

-- A date that the calendar has.
pub record IsDate (c : Civil) : Type 0 where
  pub year_pos : 1 ≤ c.year
  pub month_pos : 1 ≤ c.month
  pub month_le : c.month ≤ 12
  pub day_pos : 1 ≤ c.day
  pub day_le : c.day ≤ days_in_month c.year c.month

civil_of_day-year :
    (days : ℕ)
    → let doe = days % 146_097 in
      let c = civil_of_day days in
      (if leb c.month 2 then c.year - 1 else c.year) ≡ yoe_of doe + days / 146_097 * 400
unfolding civil_of_day
civil_of_day-year days = ground arith

-- The day number of a day's date is that day.
pub day_from_civil-civil_of_day :
    (days : ℕ) → let c = civil_of_day days in day_from_civil c.year c.month c.day ≡ days
unfolding day_from_civil
day_from_civil-civil_of_day days =
    let doe = days % 146_097 in
    rw civil_of_day-year (
      unfold civil_of_day doy_of in
      omega (
        arith,
        yoe_bounds doe (omega arith),
        doy-month_of-day_of (doy_of doe) (omega (arith, yoe_bounds doe)),
      ))

-- The milliseconds of a time's date, and its time of day, add up to the time.
pub ms_from_civil-civil_from_ms :
    (ms : ℕ) → let c = civil_from_ms ms in ms_from_civil c.year c.month c.day + ms % day_ms ≡ ms
unfolding civil_from_ms ms_from_civil
ms_from_civil-civil_from_ms ms = omega (arith, day_from_civil-civil_of_day (ms / day_ms + 719_468))

days_of_month-ne_two : (b : Bool) (m : ℕ) → 2 < m → days_of_month true m ≤ days_of_month b m
unfolding days_of_month
days_of_month-ne_two b m h = ground arith

civil_of_day-day : (days : ℕ) → let c = civil_of_day days in c.day ≤ days_in_month c.year c.month
unfolding civil_of_day days_in_month
civil_of_day-day days =
    let doe = days % 146_097 in
    let doy = doy_of doe in
    let m = month_of doy in
    let b = yoe_bounds doe (omega arith) in
    let y = yoe_of doe + days / 146_097 * 400 in
    elim (Bool-cases (leb m 2)) [
      | inl early ↦ rw early (
          day_of-le (is_leap (y + 1)) doy (omega arith)
            (doy_of-leap (days / 146_097) doe (omega arith)))
      | inr late ↦ omega (
        arith,
        days_of_month-ne_two (is_leap (y + (if leb m 2 then 1 else 0))) m (ground arith),
        day_of-le true doy (omega arith) (λ (e : true ≡ false). absurd (true≢false e)),
      )
    ]

-- From the year 400 on (the source reaches no day before 1970) a day has a date.
pub civil_of_day-IsDate : (days : ℕ) → 146_097 ≤ days → IsDate (civil_of_day days)
civil_of_day-IsDate days h =
    let doy = doy_of (days % 146_097) in
    let b = yoe_bounds (days % 146_097) (omega arith) in
    let m = month_of_bounds doy (omega arith) in
    record {
      year_pos = unfold civil_of_day in omega arith;
      month_pos = unfold civil_of_day in m.0;
      month_le = unfold civil_of_day in m.1;
      day_pos = unfold civil_of_day in m.2;
      day_le = civil_of_day-day days;
    }

pub civil_from_ms-IsDate : (ms : ℕ) → IsDate (civil_from_ms ms)
unfolding civil_from_ms
civil_from_ms-IsDate ms = civil_of_day-IsDate (ms / day_ms + 719_468) (omega arith)
