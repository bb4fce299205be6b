-- ===== src/Core/Notes/Epochs.antt =====
-- crates/core/src/notes.rs: proofs about the epochs, the months covered and the window.
use tokumai.Base.{
  ℕ, ◌+◌, ◌-◌, ◌*◌, ◌/◌, ◌%◌, ◌≤◌, ◌<◌, ◌≡◌, refl, Bool, false, [], ◌∷◌, arith, leb, min, ap, sym,
  ◌∙◌,
}
use tokumai.Core.Calendar.{
  Civil, civil_from_ms, ms_from_civil, add_months_ms, day_ms, days_in_month, days_of_month,
  day_from_civil, doy_from,
}
use tokumai.Core.Calendar.RoundTrip.{IsDate, civil_from_ms-IsDate, ms_from_civil-civil_from_ms}
use tokumai.Core.Calendar.Months.{
  civil_from_ms-ms_from_civil, civil_from_ms-lt, civil_from_ms-add_months_ms, add_months_ms-zero,
}
use tokumai.Core.Notes.{
  epoch_of_ms, epoch_start_ms, epoch_end_ms, epochs_covered, epochs_from, window, u16_max,
  epoch_zero_year,
}

start_civil : ℕ → Civil
start_civil epoch = record { year = epoch_zero_year + epoch / 12; month = epoch % 12 + 1; day = 1 }

days_pos : (leap : Bool) (m : ℕ) → 1 ≤ days_of_month leap m
unfolding days_of_month
days_pos leap m = ground arith

start_civil-IsDate : (epoch : ℕ) → IsDate (start_civil epoch)
unfolding start_civil
start_civil-IsDate epoch = record {
  year_pos = omega arith;
  month_pos = omega arith;
  month_le = omega arith;
  day_pos = omega arith;
  day_le = unfold days_in_month in days_pos _ (epoch % 12 + 1);
}

civil_from_ms-epoch_start_ms :
    (epoch : ℕ) → civil_from_ms (epoch_start_ms epoch) ≡ start_civil epoch
unfolding epoch_start_ms start_civil
civil_from_ms-epoch_start_ms epoch =
    let e =
      civil_from_ms-ms_from_civil (start_civil epoch) 0 (start_civil-IsDate epoch) (omega arith)
        (omega arith) in
    let z : ms_from_civil (epoch_zero_year + epoch / 12) (epoch % 12 + 1) 1 + 0
        ≡ ms_from_civil (epoch_zero_year + epoch / 12) (epoch % 12 + 1) 1 =
      omega arith in
    ap civil_from_ms (sym z) ∙ e

-- The first millisecond of a month is in it.
pub epoch_of_ms-epoch_start_ms :
    (epoch : ℕ) → epoch ≤ u16_max → epoch_of_ms (epoch_start_ms epoch) ≡ epoch
unfolding epoch_of_ms
epoch_of_ms-epoch_start_ms epoch le =
    rw (civil_from_ms-epoch_start_ms epoch) (unfold start_civil in omega arith)

month_start-le : (y m d t : ℕ) → 1 ≤ d → ms_from_civil y m 1 ≤ ms_from_civil y m d + t
unfolding ms_from_civil day_from_civil doy_from
month_start-le y m d t le = omega arith

index_of : ℕ → ℕ
index_of ms = let c = civil_from_ms ms in c.year * 12 + (c.month - 1)

index_of-epoch_start_ms :
    (epoch : ℕ) → index_of (epoch_start_ms epoch) ≡ epoch_zero_year * 12 + epoch
unfolding index_of
index_of-epoch_start_ms epoch =
    rw (civil_from_ms-epoch_start_ms epoch) (unfold start_civil in omega arith)

index_of-lt : (s t : ℕ) → index_of s < index_of t → s < t
unfolding index_of
index_of-lt s t h =
    civil_from_ms-lt s t
      (omega (arith, (civil_from_ms-IsDate s).month_pos, (civil_from_ms-IsDate t).month_pos))

index_of-le : (s t : ℕ) → s ≤ t → index_of s ≤ index_of t
index_of-le s t h = ground (arith, index_of-lt t s)

-- A time from January 2026 on, whose epoch is below the last one, is not before the start of its
-- epoch and before the end of it.
pub epoch_of_ms-bounds :
    (ms : ℕ)
    → epoch_start_ms 0 ≤ ms
    → epoch_of_ms ms < u16_max
    → (epoch_start_ms (epoch_of_ms ms) ≤ ms) × (ms < epoch_end_ms (epoch_of_ms ms))
unfolding epoch_end_ms epoch_of_ms
epoch_of_ms-bounds ms late small =
    let c = civil_from_ms ms in
    let v = civil_from_ms-IsDate ms in
    let i = index_of-le (epoch_start_ms 0) ms late in
    let z = index_of-epoch_start_ms 0 in
    let e : ℕ = epoch_of_ms ms in
    let same : index_of ms ≡ epoch_zero_year * 12 + e = unfold index_of in omega arith in
    let n = index_of-epoch_start_ms (e + 1) in
    let y : epoch_zero_year + e / 12 ≡ c.year =
      unfold index_of in omega (arith, v.month_pos, v.month_le) in
    let m : e % 12 + 1 ≡ c.month = unfold index_of in omega (arith, v.month_pos, v.month_le) in
    let r = ms_from_civil-civil_from_ms ms in
    let first = month_start-le c.year c.month c.day (ms % day_ms) v.day_pos in
    let start : epoch_start_ms e ≡ ms_from_civil c.year c.month 1 =
      unfold epoch_start_ms in rw (y, m) refl in
    (omega arith, index_of-lt ms (epoch_start_ms (e + 1)) (omega arith))

index_of-next : (ms : ℕ) → index_of (add_months_ms ms 1) ≡ index_of ms + 1
unfolding index_of
index_of-next ms = omega (arith, (civil_from_ms-add_months_ms ms 1).0)

-- For a paid period of at most a calendar month that ends before the last epoch, `epochs_covered`
-- names one month, that of its last millisecond, and `window` holds that month at every time of the
-- period.
pub epochs_covered-window :
    (start_ms until_ms now_ms : ℕ)
    → start_ms ≤ now_ms
    → now_ms < until_ms
    → until_ms ≤ add_months_ms start_ms 1
    → epoch_of_ms (until_ms - 1) < u16_max
    → let e = epoch_of_ms (until_ms - 1) in
      (epochs_covered start_ms until_ms false ≡ e ∷ [])
      × ((window now_ms).0 ≤ e)
      × (e ≤ (window now_ms).1)
unfolding epochs_covered epochs_from window
epochs_covered-window start_ms until_ms now_ms from to month small =
    let z = add_months_ms-zero start_ms in
    let e1 : min (add_months_ms start_ms (0 + 1)) until_ms ≡ until_ms = omega arith in
    let e2 : leb until_ms start_ms ≡ false = ground arith in
    let a = index_of-le start_ms now_ms from in
    let b = index_of-le now_ms (until_ms - 1) (omega arith) in
    let c = index_of-le (until_ms - 1) (add_months_ms start_ms 1) (omega arith) in
    let d = index_of-next start_ms in
    (
      rw (z, e1, e2) refl,
      unfold epoch_of_ms index_of in omega arith,
      unfold epoch_of_ms index_of in omega arith,
    )
