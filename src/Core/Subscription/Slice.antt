-- ===== src/Core/Subscription/Slice.antt =====
-- The allowance period that a moment lies in: the proofs about `slice_at`.
use tokumai.Base.{
  ℕ, zero, suc, ◌+◌, ◌*◌, ◌≤◌, ◌<◌, ◌≡◌, refl, Bool, true, false, some, arith, leb, min, max,
  if◌then◌else◌,
}
use tokumai.Core.Calendar.{civil_from_ms, add_months_ms}
use tokumai.Core.Calendar.Months.{
  add_months_ms-lt, add_months_ms-zero, civil_from_ms-lt, civil_from_ms-add_months_ms,
}
use tokumai.Core.Calendar.RoundTrip.{civil_from_ms-IsDate}
use tokumai.Core.Subscription.{back_to, months_between, slice_at}

-- The loop ends at a month that has begun, and the next one, if it was passed over, has not.
back_to_lem :
    (start now k : ℕ)
    → start ≤ now
    → let j = back_to start now k in
      (j ≤ k) × (add_months_ms start j ≤ now) × (j < k → now < add_months_ms start (suc j))
unfolding back_to
back_to_lem start now zero h = ground (arith, add_months_ms-zero start)
back_to_lem start now (suc k) h = ground (arith, back_to_lem start now k h)

-- Month `k` of the paid year is the one that `now` lies in.
record IsMonthAt (start now k : ℕ) : Type 0 where
  capped : k ≤ 11
  begun : add_months_ms start k ≤ now
  not_over : k < 11 → now < add_months_ms start (k + 1)

months_between_uncapped :
    (start now : ℕ)
    → start ≤ now
    → months_between start now < 11
    → (civil_from_ms now).year * 12 + (civil_from_ms now).month
      ≤ months_between start now + ((civil_from_ms start).year * 12 + (civil_from_ms start).month)
unfolding months_between
months_between_uncapped start now h =
    let e : max now start ≡ now = omega arith in rw e (omega arith)

months_between_next :
    (start now : ℕ)
    → start ≤ now
    → months_between start now < 11
    → now < add_months_ms start (months_between start now + 1)
months_between_next start now h k =
    let next : ℕ = add_months_ms start (months_between start now + 1) in
    civil_from_ms-lt now next (
      omega (
        arith,
        months_between_uncapped start now h k,
        (civil_from_ms-add_months_ms start (months_between start now + 1)).0,
        civil_from_ms-IsDate start,
        civil_from_ms-IsDate next,
        civil_from_ms-IsDate now,
      ))

months_between-le : (start now : ℕ) → months_between start now ≤ 11
unfolding months_between
months_between-le start now = omega arith

month_at :
    (start now : ℕ)
    → start ≤ now
    → IsMonthAt start now (back_to start now (months_between start now))
month_at start now h =
    let l = back_to_lem start now (months_between start now) h in
    record {
      capped = omega (arith, months_between-le start now);
      begun = l.1;
      not_over =
          λ k. ground (arith, l, months_between-le start now, months_between_next start now h);
    }

add_months_ms-le : (ms j k : ℕ) → j ≤ k → add_months_ms ms j ≤ add_months_ms ms k
add_months_ms-le ms j k h = ground (arith, add_months_ms-lt ms j k)

IsMonthAt-unique : (start now j k : ℕ) → IsMonthAt start now j → IsMonthAt start now k → j ≡ k
IsMonthAt-unique start now j k p q = ground (
  arith,
  p.not_over,
  q.not_over,
  add_months_ms-le start (j + 1) k,
  add_months_ms-le start (k + 1) j,
)

module _ (start until : ℕ) where
  slice_yearly :
      (now k : ℕ)
      → now < until
      → 0 < start
      → start < until
      → start ≤ now
      → IsMonthAt start now k
      → slice_at start until true now
        ≡ some (
          add_months_ms start k,
          if leb 11 k then until else min (add_months_ms start (k + 1)) until,
        )
  unfolding slice_at
  slice_yearly now k h1 h2 h3 h4 at =
      rw (← IsMonthAt-unique start now _ k (month_at start now h4) at) (ground arith)

  slice_inv :
      (now : ℕ) (yearly : Bool) {p : ℕ × ℕ}
      → slice_at start until yearly now ≡ some p
      → (now < until) × (0 < start) × (start < until)
  unfolding slice_at
  slice_inv now yearly h = ground arith

  -- The allowance period of a moment not before the start begins no earlier than the paid period
  -- and no later than the moment, and ends after the moment and no later than the paid period.
  pub slice_at-contains :
      (yearly : Bool) (now s e : ℕ)
      → start ≤ now
      → slice_at start until yearly now ≡ some (s, e)
      → (start ≤ s) × (s ≤ now) × (now < e) × (e ≤ until)
  slice_at-contains false now s e h p = unfold slice_at in ground arith
  slice_at-contains true now s e h p =
      let (h1, h2, h3) = slice_inv now true p in
      let k = back_to start now (months_between start now) in
      let at = month_at start now h in
      ground (
        arith,
        slice_yearly now k h1 h2 h3 h at,
        at.begun,
        at.not_over,
        add_months_ms-le start 0 k,
        add_months_ms-zero start,
      )

  -- For a moment not before the start whose allowance period is from s to e, every moment from s to
  -- before e has that same period.
  pub slice_at_stable :
      (yearly : Bool) (now later s e : ℕ)
      → start ≤ now
      → slice_at start until yearly now ≡ some (s, e)
      → s ≤ later
      → later < e
      → slice_at start until yearly later ≡ some (s, e)
  slice_at_stable false now later s e h p q r = unfold slice_at in ground arith
  slice_at_stable true now later s e h p q r =
      let (h1, h2, h3) = slice_inv now true p in
      let k : ℕ = back_to start now (months_between start now) in
      let at = month_at start now h in
      let known = slice_yearly now k h1 h2 h3 h at in
      let es : add_months_ms start k ≡ s = ground (arith, known) in
      let ee : (if leb 11 k then until else min (add_months_ms start (k + 1)) until) ≡ e =
        ground (arith, known) in
      let again : IsMonthAt start later k = record {
        capped = at.capped;
        begun = omega arith;
        not_over = λ lt. ground arith;
      } in
      let from : start ≤ later =
        omega (arith, add_months_ms-le start 0 k, add_months_ms-zero start) in
      rw (slice_yearly later k (ground arith) h2 h3 from again) (rw (← p, known) refl)
