-- ===== src/Enclave/Witness.antt =====
-- crates/enclave/src/witness.rs: the rule of a start, and how the witness's answer is read. The
-- signed requests, the XML of a listing and the timestamps are outside the model: a listed object
-- is the place that its key names, where it names one, with the time at which it was written.
pub mod Rewind
use tokumai.Base.{
  ℕ, ◌+◌, ◌-◌, ◌≤◌, ◌<◌, ◌≡◌, refl, Bool, true, false, not, ◌||◌, ◌&&◌, Option, none, some, List,
  [], ◌∷◌, ◌++◌, ltb, leb, ◌==◌, if◌then◌else◌, if_both, arith,
}
use tokumai.Base.Result.{Result, ok, err}

-- Generation and record number.
abbrev pub Mark : Type 0
Mark = ℕ × ℕ

-- The order of pairs.
unfoldable pub newer : Mark → Mark → Bool
newer a b = ltb b.0 a.0 || (a.0 == b.0 && ltb b.1 a.1)

unfoldable pub same_mark : Mark → Mark → Bool
same_mark a b = a.0 == b.0 && a.1 == b.1

pub record Witnessed : Type 0 where
  pub mark : Option (Mark × ℕ)
  pub accepts : List (Mark × ℕ)

unfoldable pub is_accepted : Mark → ℕ → List (Mark × ℕ) → Bool
unfolding same_mark
is_accepted book mark_at [] = false
is_accepted book mark_at ((at, when) ∷ l) =
    (same_mark at book && ltb mark_at when) || is_accepted book mark_at l

-- The refusal names the book's place and the one that the witness has seen.
unfoldable pub may_start : Mark → Witnessed → Result (Mark × Mark) Bool
unfolding newer is_accepted
may_start book seen = elim seen.mark [
  | none ↦ ok false
  | some (mark, mark_at) ↦
      if not (newer mark book)
      then ok false
      else if is_accepted book mark_at seen.accepts
      then ok true
      else err (book, mark)
]

-- The newest place so far, after one more.
unfoldable pub newest : Mark → ℕ → Option (Mark × ℕ) → Option (Mark × ℕ)
unfolding newer
newest at when none = some (at, when)
newest at when (some (m, t)) = if newer at m then some (at, when) else some (m, t)

-- The loop of `read` over the objects of one listing.
unfoldable pub see_marks : List (Option Mark × ℕ) → Witnessed → Witnessed
unfolding newest
see_marks [] seen = seen
see_marks ((none, when) ∷ objects) seen = see_marks objects seen
see_marks ((some at, when) ∷ objects) seen =
    see_marks objects (record seen { mark = newest at when seen.mark })

unfoldable pub see_accepts : List (Option Mark × ℕ) → Witnessed → Witnessed
see_accepts [] seen = seen
see_accepts ((none, when) ∷ objects) seen = see_accepts objects seen
see_accepts ((some at, when) ∷ objects) seen =
    see_accepts objects (record seen { accepts = seen.accepts ++ (at, when) ∷ [] })

-- What the bucket holds under `mark/` and under `accept/`.
unfoldable pub read : List (Option Mark × ℕ) → List (Option Mark × ℕ) → Witnessed
unfolding see_marks see_accepts
read marks accepts = see_accepts accepts (see_marks marks (record { mark = none; accepts = [] }))
