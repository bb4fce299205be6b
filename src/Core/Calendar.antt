-- ===== src/Core/Calendar.antt =====
-- crates/core/src/subscription.rs: the UTC calendar (Hinnant's algorithms) and months.
-- A u64 of milliseconds is a number. The years that occur are those from 1970 on (`civil_from_ms`
-- gives no other), so an i32 year, a u32 month and a u32 day are numbers as well, and the
-- Euclidean division of i64 is the plain one. A u64 of milliseconds is fewer than
-- 2 ^ 38 days. For times below 2 ^ 62 ms no step leaves its machine type; beyond about 2 ^ 63 ms the
-- products of `ms_from_civil` and `add_months_ms` do, which is not modelled.
pub mod RoundTrip
pub mod DayNumbers
pub mod Months
use tokumai.Base.{
  ℕ, ◌+◌, ◌-◌, ◌*◌, ◌/◌, ◌%◌, Bool, ◌&&◌, ◌||◌, not, ltb, leb, ◌==◌, if◌then◌else◌, min,
}

abbrev pub day_ms : ℕ
day_ms = 86_400_000

pub record Civil : Type 0 where
  pub year : ℕ
  pub month : ℕ
  pub day : ℕ

-- the guard of the February arm
unfoldable pub is_leap : ℕ → Bool
is_leap year = (year % 4 == 0 && not (year % 100 == 0)) || year % 400 == 0

-- the arms of the match, with its guard as an argument
unfoldable pub days_of_month : Bool → ℕ → ℕ
days_of_month leap month =
    if month == 1
      || month == 3
      || month == 5
      || month == 7
      || month == 8
      || month == 10
      || month == 12
    then 31
    else if month == 4 || month == 6 || month == 9 || month == 11
    then 30
    else if month == 2 && leap
    then 29
    else if month == 2
    then 28
    else 31

unfoldable pub days_in_month : ℕ → ℕ → ℕ
days_in_month year month = days_of_month (is_leap year) month

-- `yoe`, `doy`, `mp`, `m` and `d` of `civil_from_ms`, each from the one before.
unfoldable pub yoe_of : ℕ → ℕ
yoe_of doe = (doe - doe / 1460 + doe / 36_524 - doe / 146_096) / 365

unfoldable pub doy_of : ℕ → ℕ
doy_of doe = let yoe = yoe_of doe in doe - (365 * yoe + yoe / 4 - yoe / 100)

unfoldable pub month_of : ℕ → ℕ
month_of doy = let mp = (5 * doy + 2) / 153 in if ltb mp 10 then mp + 3 else mp - 9

unfoldable pub day_of : ℕ → ℕ
day_of doy = let mp = (5 * doy + 2) / 153 in doy - (153 * mp + 2) / 5 + 1

unfoldable pub civil_of_day : ℕ → Civil
civil_of_day days =
    let era = days / 146_097 in
    let doe = days % 146_097 in
    let y = yoe_of doe + era * 400 in
    let m = month_of (doy_of doe) in
    record { year = y + (if leb m 2 then 1 else 0); month = m; day = day_of (doy_of doe) }

unfoldable pub civil_from_ms : ℕ → Civil
civil_from_ms ms = civil_of_day (ms / day_ms + 719_468)

-- `doy` and `doe` of `ms_from_civil`.
unfoldable pub doy_from : ℕ → ℕ → ℕ
doy_from m d = let mm = if leb m 2 then m + 9 else m - 3 in (153 * mm + 2) / 5 + d - 1

-- The day number, counted from 0000-03-01, that `ms_from_civil` computes before it shifts.
unfoldable pub day_from_civil : ℕ → ℕ → ℕ → ℕ
day_from_civil y m d =
    let yy = if leb m 2 then y - 1 else y in
    let era = yy / 400 in
    let yoe = yy - era * 400 in
    let doe = yoe * 365 + yoe / 4 - yoe / 100 + doy_from m d in era * 146_097 + doe

-- `.max(0)` is the subtraction that stops at 0.
unfoldable pub ms_from_civil : ℕ → ℕ → ℕ → ℕ
ms_from_civil y m d = (day_from_civil y m d - 719_468) * day_ms

-- The year and the month (from 1) of a count of months.
unfoldable pub year_of_index : ℕ → ℕ
year_of_index idx = idx / 12

unfoldable pub month_of_index : ℕ → ℕ
month_of_index idx = idx % 12 + 1

unfoldable pub add_months_ms : ℕ → ℕ → ℕ
add_months_ms ms months =
    let c = civil_from_ms ms in
    let idx = c.year * 12 + (c.month - 1) + months in
    let ty = year_of_index idx in
    let tm = month_of_index idx in
    let td = min c.day (days_in_month ty tm) in ms_from_civil ty tm td + ms % day_ms
