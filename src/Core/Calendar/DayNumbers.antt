-- ===== src/Core/Calendar/DayNumbers.antt =====
-- The numbers of days and of months that dates have: the proofs behind `add_months_ms`.
use native.Mathlib.Decide.{ℕ_discrete}
use tokumai.Base.{
  ℕ, suc, zero, ◌+◌, ◌-◌, ◌*◌, ◌/◌, ◌%◌, ◌≤◌, ◌<◌, ◌≡◌, ap, refl, Bool, arith, inl, inr, leb,
  Bool-cases, if◌then◌else◌,
}
use tokumai.Core.Calendar.{
  Civil, is_leap, days_of_month, days_in_month, doy_from, day_from_civil, year_of_index,
  month_of_index,
}
use tokumai.Core.Calendar.RoundTrip.{IsDate}

pub days_of_month_pos : (b : Bool) (m : ℕ) → 1 ≤ days_of_month b m
unfolding days_of_month
days_of_month_pos b m = ground arith

-- The day number of 1 March of a year.
year_start : ℕ → ℕ
year_start y = let yoe = y - y / 400 * 400 in y / 400 * 146_097 + (yoe * 365 + yoe / 4 - yoe / 100)

year_start_next :
    (y : ℕ) → year_start (y + 1) ≡ year_start y + 337 + days_of_month (is_leap (y + 1)) 2
unfolding year_start is_leap days_of_month
year_start_next y = ground arith

day_from_civil-year_start :
    (y m d : ℕ) → day_from_civil y m d ≡ year_start (if leb m 2 then y - 1 else y) + doy_from m d
unfolding day_from_civil year_start
day_from_civil-year_start y m d = omega arith

doy_from-day : (m d : ℕ) → 1 ≤ d → doy_from m d ≡ doy_from m 1 + (d - 1)
unfolding doy_from
doy_from-day m d h = ground arith

doy_from_next :
    (b : Bool) (m : ℕ)
    → 1 ≤ m
    → m < 12
    → (m ≡ 2 → ⊥)
    → doy_from (m + 1) 1 ≡ doy_from m 1 + days_of_month b m
unfolding doy_from days_of_month
doy_from_next b m h k n = ground arith

-- The first day of the next month of the same year.
next_month :
    (y m : ℕ)
    → 1 ≤ y
    → 1 ≤ m
    → m < 12
    → day_from_civil y (m + 1) 1 ≡ day_from_civil y m 1 + days_in_month y m
unfolding days_in_month
next_month y m hy h k = elim (ℕ_discrete m 2) [
  | yes two ↦
      let feb : doy_from 2 1 ≡ 337 = unfold doy_from in refl in
      let mar : doy_from 3 1 ≡ 0 = unfold doy_from in refl in
      let ey : (y - 1) + 1 ≡ y = omega arith in
      rw two (
        ground (
          arith,
          feb,
          mar,
          ey,
          year_start_next (y - 1),
          day_from_civil-year_start y 3 1,
          day_from_civil-year_start y 2 1,
        ))
  | no other ↦ ground (
    arith,
    doy_from_next (is_leap y) m,
    day_from_civil-year_start y (m + 1) 1,
    day_from_civil-year_start y m 1,
  )
]

-- January follows December.
next_year :
    (y : ℕ) → 1 ≤ y → day_from_civil (y + 1) 1 1 ≡ day_from_civil y 12 1 + days_in_month y 12
unfolding days_in_month doy_from days_of_month
next_year y h = simp day_from_civil-year_start (ground arith)

month_start : ℕ → ℕ
month_start idx = day_from_civil (year_of_index idx) (month_of_index idx) 1

month_start_next :
    (idx : ℕ)
    → 12 ≤ idx
    → month_start (idx + 1)
      ≡ month_start idx + days_in_month (year_of_index idx) (month_of_index idx)
unfolding month_start year_of_index month_of_index
month_start_next idx h = elim (Bool-cases (leb 11 (idx % 12))) [
  | inl last ↦
      let ey : (idx + 1) / 12 ≡ idx / 12 + 1 = ground arith in
      let em : (idx + 1) % 12 + 1 ≡ 1 = ground arith in
      let ed : idx % 12 + 1 ≡ 12 = ground arith in
      rw (ey, em, ed) (next_year (idx / 12) (omega arith))
  | inr mid ↦
      let ey : (idx + 1) / 12 ≡ idx / 12 = ground arith in
      let em : (idx + 1) % 12 + 1 ≡ (idx % 12 + 1) + 1 = ground arith in
      rw (ey, em) (next_month (idx / 12) (idx % 12 + 1) (omega arith) (omega arith) (ground arith))
]

-- The months lie one after the other.
month_start_after :
    (n idx : ℕ)
    → 12 ≤ idx
    → month_start idx + days_in_month (year_of_index idx) (month_of_index idx)
      ≤ month_start (idx + (n + 1))
month_start_after zero idx h = omega (arith, month_start_next idx h)
month_start_after (suc n) idx h =
    let e : idx + (suc n + 1) ≡ (idx + (n + 1)) + 1 = omega arith in
    rw e (omega (arith, month_start_after n idx h, month_start_next (idx + (n + 1)) (omega arith)))

day_from_civil-day : (y m d : ℕ) → 1 ≤ d → day_from_civil y m d ≡ day_from_civil y m 1 + (d - 1)
day_from_civil-day y m d h =
    omega
      (arith, day_from_civil-year_start y m d, day_from_civil-year_start y m 1, doy_from-day m d)

-- Months counted from January of year 0.
unfoldable pub index_of : Civil → ℕ
index_of c = c.year * 12 + (c.month - 1)

pub index_of-month :
    (c : Civil)
    → IsDate c
    → (year_of_index (index_of c) ≡ c.year) × (month_of_index (index_of c) ≡ c.month)
unfolding index_of year_of_index month_of_index
index_of-month c v = (omega arith, omega arith)

unfoldable pub day_number : Civil → ℕ
day_number c = day_from_civil c.year c.month c.day

day_number-month_start :
    (c : Civil) → IsDate c → day_number c ≡ month_start (index_of c) + (c.day - 1)
unfolding day_number month_start
day_number-month_start c v =
    rw ((index_of-month c v).0, (index_of-month c v).1)
      (day_from_civil-day c.year c.month c.day v.day_pos)

-- A later month's days come later.
pub later_month :
    (c c' : Civil) → IsDate c → IsDate c' → index_of c < index_of c' → day_number c < day_number c'
later_month c c' v v' lt =
    let i = index_of c in
    let j = index_of c' in
    let ej : i + ((j - i - 1) + 1) ≡ j = omega arith in
    let fits : c.day ≤ days_in_month (year_of_index i) (month_of_index i) =
      rw ((index_of-month c v).0, (index_of-month c v).1) v.day_le in
    let step : month_start i + days_in_month (year_of_index i) (month_of_index i) ≤ month_start j =
      rw ej at (month_start_after (j - i - 1) i (unfold index_of in omega arith)) in
    omega (arith, day_number-month_start c v, day_number-month_start c' v')

same_year : (c c' : Civil) → IsDate c → IsDate c' → index_of c ≡ index_of c' → c.year ≡ c'.year
unfolding index_of
same_year c c' v v' e = omega arith

same_month : (c c' : Civil) → IsDate c → IsDate c' → index_of c ≡ index_of c' → c.month ≡ c'.month
unfolding index_of
same_month c c' v v' e = omega arith

pub day_number_injective :
    (c c' : Civil) → IsDate c → IsDate c' → day_number c ≡ day_number c' → c ≡ c'
day_number_injective c c' v v' e =
    let same : index_of c ≡ index_of c' =
      ground (arith, later_month c c' v v', later_month c' c v' v) in
    let ed : c.day ≡ c'.day =
      omega
        (arith, day_number-month_start c v, day_number-month_start c' v', ap month_start same) in
    let ey : c.year ≡ c'.year = same_year c c' v v' same in
    let em : c.month ≡ c'.month = same_month c c' v v' same in
    λ i. record { year = ey i; month = em i; day = ed i }

abbrev pub epoch : Civil
epoch = record { year = 1970; month = 1; day = 1 }

pub epoch-IsDate : IsDate epoch
unfolding days_in_month days_of_month is_leap
epoch-IsDate = omega arith

pub day_number-epoch : day_number epoch ≡ 719_468
unfolding day_number day_from_civil doy_from
day_number-epoch = refl

pub epoch-le :
    (c : Civil) → IsDate c → 1970 ≤ c.year → 719_468 ≤ day_from_civil c.year c.month c.day
epoch-le c v late =
    let n : day_number c ≡ day_from_civil c.year c.month c.day = unfold day_number in refl in
    let first : index_of epoch ≡ 23_640 = unfold index_of in refl in
    let from : index_of epoch ≤ index_of c = unfold index_of in omega arith in
    ground (
      arith,
      day_number-epoch,
      later_month epoch c epoch-IsDate v,
      day_number-month_start c v,
      day_number-month_start epoch epoch-IsDate,
      from,
    )
