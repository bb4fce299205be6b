-- ===== src/Core/Calendar/Months.antt =====
-- Adding calendar months: the proofs about `add_months_ms` and the inverse of `civil_from_ms`.
use tokumai.Base.{ℕ, ◌+◌, ◌-◌, ◌*◌, ◌/◌, ◌%◌, ◌≤◌, ◌<◌, ◌≡◌, refl, arith, min}
use tokumai.Core.Calendar.{
  Civil, day_ms, days_in_month, civil_from_ms, civil_of_day, day_from_civil, ms_from_civil,
  year_of_index, month_of_index, add_months_ms,
}
use tokumai.Core.Calendar.RoundTrip.{
  IsDate, civil_of_day-IsDate, day_from_civil-civil_of_day, ms_from_civil-civil_from_ms,
  civil_from_ms-IsDate,
}
use tokumai.Core.Calendar.DayNumbers.{
  days_of_month_pos, index_of, index_of-month, day_number, later_month, day_number_injective, epoch,
  epoch-IsDate, day_number-epoch, epoch-le,
}

-- From 1970 on a date's midnight, at any time of that day, reads back as the date.
pub civil_from_ms-ms_from_civil :
    (c : Civil) (t : ℕ)
    → IsDate c
    → 1970 ≤ c.year
    → t < day_ms
    → civil_from_ms (ms_from_civil c.year c.month c.day + t) ≡ c
civil_from_ms-ms_from_civil c t v late h =
    let n : ℕ = day_from_civil c.year c.month c.day in
    let e : (ms_from_civil c.year c.month c.day + t) / day_ms + 719_468 ≡ n =
      unfold ms_from_civil in omega (arith, epoch-le c v late) in
    unfold civil_from_ms in
    rw e (
      day_number_injective (civil_of_day n) c
        (civil_of_day-IsDate n (omega (arith, epoch-le c v late))) v
        (unfold day_number in day_from_civil-civil_of_day n))

day_number_ms : (ms : ℕ) → day_number (civil_from_ms ms) ≡ ms / day_ms + 719_468
unfolding day_number civil_from_ms
day_number_ms ms = day_from_civil-civil_of_day (ms / day_ms + 719_468)

-- A timestamp's year is 1970 or later.
year-ge : (ms : ℕ) → 1970 ≤ (civil_from_ms ms).year
unfolding civil_from_ms
year-ge ms =
    let days : ℕ = ms / day_ms + 719_468 in
    let c = civil_of_day days in
    let n : day_number c ≡ days = unfold day_number in day_from_civil-civil_of_day days in
    let first : index_of epoch ≡ 23_640 = unfold index_of in refl in
    let index : index_of c ≡ c.year * 12 + (c.month - 1) = unfold index_of in refl in
    ground (
      arith,
      n,
      first,
      index,
      day_number-epoch,
      civil_of_day-IsDate days (omega arith),
      later_month c epoch (civil_of_day-IsDate days (omega arith)) epoch-IsDate,
    )

-- The date that `add_months_ms` goes to.
moved : ℕ → ℕ → Civil
moved ms k =
    let c = civil_from_ms ms in
    let idx = index_of c + k in
    record {
      year = year_of_index idx;
      month = month_of_index idx;
      day = min c.day (days_in_month (year_of_index idx) (month_of_index idx));
    }

add_months_ms-moved :
    (ms k : ℕ)
    → add_months_ms ms k
      ≡ ms_from_civil (moved ms k).year (moved ms k).month (moved ms k).day + ms % day_ms
unfolding add_months_ms moved index_of
add_months_ms-moved ms k = refl

moved-IsDate : (ms k : ℕ) → IsDate (moved ms k)
unfolding moved index_of
moved-IsDate ms k =
    let v = civil_from_ms-IsDate ms in
    record {
      year_pos = unfold year_of_index in omega arith;
      month_pos = unfold month_of_index in omega arith;
      month_le = unfold month_of_index in omega arith;
      day_pos = unfold days_in_month in omega (arith, days_of_month_pos);
      day_le = omega arith;
    }

index_of-moved : (ms k : ℕ) → index_of (moved ms k) ≡ index_of (civil_from_ms ms) + k
unfolding moved index_of year_of_index month_of_index
index_of-moved ms k = omega arith

moved-year : (ms k : ℕ) → 1970 ≤ (moved ms k).year
unfolding moved index_of year_of_index
moved-year ms k = omega (arith, year-ge ms)

-- The date of `add_months_ms` is that many calendar months on, its day is the old one cut to the
-- length of the month, and the time of day is the same.
pub civil_from_ms-add_months_ms :
    (ms k : ℕ)
    → let c = civil_from_ms ms in
      let c' = civil_from_ms (add_months_ms ms k) in
      (c'.year * 12 + (c'.month - 1) ≡ c.year * 12 + (c.month - 1) + k)
      × (c'.day ≡ min c.day (days_in_month c'.year c'.month))
      × (add_months_ms ms k % day_ms ≡ ms % day_ms)
civil_from_ms-add_months_ms ms k = rw add_months_ms-moved (
    rw
      (civil_from_ms-ms_from_civil (moved ms k) (ms % day_ms) (moved-IsDate ms k) (moved-year ms k)
        (omega arith))
      (
        unfold index_of in index_of-moved ms k,
        unfold moved in refl,
        unfold ms_from_civil in omega arith,
      ))

-- No months on is the same moment.
pub add_months_ms-zero : (ms : ℕ) → add_months_ms ms 0 ≡ ms
add_months_ms-zero ms =
    let c = civil_from_ms ms in
    let v = civil_from_ms-IsDate ms in
    let e : index_of c + 0 ≡ index_of c = omega arith in
    rw add_months_ms-moved (
      unfold moved in
      rw (e, (index_of-month c v).0, (index_of-month c v).1)
        (let d : min c.day (days_in_month c.year c.month) ≡ c.day = omega (arith, v.day_le) in
          rw d (ms_from_civil-civil_from_ms ms)))

-- Adding more months gives a strictly later time.
pub add_months_ms-lt : (ms j k : ℕ) → j < k → add_months_ms ms j < add_months_ms ms k
add_months_ms-lt ms j k h =
    let before =
      later_month (moved ms j) (moved ms k) (moved-IsDate ms j) (moved-IsDate ms k)
        (omega (arith, index_of-moved ms j, index_of-moved ms k)) in
    rw (add_months_ms-moved ms j, add_months_ms-moved ms k)
      (unfold ms_from_civil day_number in
        omega (arith, before, epoch-le (moved ms j) (moved-IsDate ms j) (moved-year ms j)))

-- A moment of an earlier month than another's is before it.
pub civil_from_ms-lt :
    (s t : ℕ)
    → (civil_from_ms s).year * 12 + (civil_from_ms s).month
      < (civil_from_ms t).year * 12 + (civil_from_ms t).month
    → s < t
civil_from_ms-lt s t h =
    let before =
      later_month (civil_from_ms s) (civil_from_ms t) (civil_from_ms-IsDate s)
        (civil_from_ms-IsDate t)
        (unfold index_of in omega (arith, civil_from_ms-IsDate s, civil_from_ms-IsDate t)) in
    omega (arith, before, day_number_ms s, day_number_ms t)
