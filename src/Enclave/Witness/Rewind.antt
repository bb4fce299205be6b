-- ===== src/Enclave/Witness/Rewind.antt =====
-- crates/enclave/src/witness.rs: proofs about read and may_start.
use tokumai.Base.{
  ℕ, ◌≡◌, refl, true, false, Option, none, some, List, [], ◌∷◌, ◌++◌, if_both, arith,
}
use tokumai.Base.Result.{ok}
use tokumai.Enclave.Witness.{
  Mark, Witnessed, newer, may_start, newest, see_marks, see_accepts, read,
}

-- No place on the list is newer than the book.
abbrev pub NoneNewer : Mark → List (Option Mark × ℕ) → Type 0
NoneNewer book [] = Unit
NoneNewer book ((none, when) ∷ objects) = NoneNewer book objects
NoneNewer book ((some at, when) ∷ objects) = (newer at book ≡ false) × NoneNewer book objects

-- What the witness has seen is at least a place.
abbrev AtLeast : Mark → Option (Mark × ℕ) → Type 0
AtLeast at none = ⊥
AtLeast at (some (m, when)) = newer at m ≡ false

newer_trans : (a b c : Mark) → newer a b ≡ false → newer b c ≡ false → newer a c ≡ false
unfolding newer
newer_trans a b c h k = ground arith

AtLeast-newer : (a b : Mark) (m : Option (Mark × ℕ)) → newer a b ≡ false → AtLeast b m → AtLeast a m
AtLeast-newer a b none h k = absurd k
AtLeast-newer a b (some (m, when)) h k = newer_trans a b m h k

newer_irrefl : (a : Mark) → newer a a ≡ false
unfolding newer
newer_irrefl a = ground arith

newer_asym : (a b : Mark) → newer a b ≡ true → newer b a ≡ false
unfolding newer
newer_asym a b h = ground arith

newest-keeps :
    (at new : Mark) (when : ℕ) (m : Option (Mark × ℕ))
    → AtLeast at m
    → AtLeast at (newest new when m)
unfolding newest
newest-keeps at new when none h = absurd h
newest-keeps at new when (some (m, t)) h =
    if_both (AtLeast at) (newer new m) (λ e. newer_trans at m new h (newer_asym new m e)) (λ _. h)

newest-sees : (at : Mark) (when : ℕ) (m : Option (Mark × ℕ)) → AtLeast at (newest at when m)
unfolding newest
newest-sees at when none = newer_irrefl at
newest-sees at when (some (m, t)) =
    if_both (AtLeast at) (newer at m) (λ _. newer_irrefl at) (λ e. e)

-- The loop ends no lower than where it began.
see_marks-keeps :
    (objects : List (Option Mark × ℕ)) (seen : Witnessed) (at : Mark)
    → AtLeast at seen.mark
    → AtLeast at (see_marks objects seen).mark
unfolding see_marks
see_marks-keeps [] seen at h = h
see_marks-keeps ((none, when) ∷ objects) seen at h = see_marks-keeps objects seen at h
see_marks-keeps ((some new, when) ∷ objects) seen at h =
    see_marks-keeps objects (record seen { mark = newest new when seen.mark }) at
      (newest-keeps at new when seen.mark h)

-- What is seen is no higher than a book, then neither is what the list names.
see_marks-NoneNewer :
    (objects : List (Option Mark × ℕ)) (seen : Witnessed) (book : Mark)
    → ((at : Mark) → AtLeast at (see_marks objects seen).mark → newer at book ≡ false)
    → NoneNewer book objects
unfolding see_marks
see_marks-NoneNewer [] seen book h = tt
see_marks-NoneNewer ((none, when) ∷ objects) seen book h = see_marks-NoneNewer objects seen book h
see_marks-NoneNewer ((some at, when) ∷ objects) seen book h =
    let next : Witnessed = record seen { mark = newest at when seen.mark } in
    (
      h at (see_marks-keeps objects next at (newest-sees at when seen.mark)),
      see_marks-NoneNewer objects next book h,
    )

see_accepts-mark :
    (objects : List (Option Mark × ℕ)) (seen : Witnessed)
    → (see_accepts objects seen).mark ≡ seen.mark
unfolding see_accepts
see_accepts-mark [] seen = refl
see_accepts-mark ((none, when) ∷ objects) seen = see_accepts-mark objects seen
see_accepts-mark ((some at, when) ∷ objects) seen =
    see_accepts-mark objects (record seen { accepts = seen.accepts ++ (at, when) ∷ [] })

-- A start without an acknowledgement: the book is at least at whatever was seen.
started-AtLeast :
    (book at : Mark) (m : Option (Mark × ℕ)) (accepts : List (Mark × ℕ))
    → may_start book (record { mark = m; accepts = accepts }) ≡ ok false
    → AtLeast at m
    → newer at book ≡ false
unfolding may_start
started-AtLeast book at none accepts e h = absurd h
started-AtLeast book at (some (m, t)) accepts e h = newer_trans at m book h (ground arith)

-- Where `may_start` lets a book start without an acknowledged restore on what `read` found, no
-- place listed under `mark/` is newer than the book's, in whatever order they were listed.
pub may_start-NoneNewer :
    (book : Mark) (marks accepts : List (Option Mark × ℕ))
    → may_start book (read marks accepts) ≡ ok false
    → NoneNewer book marks
unfolding read
may_start-NoneNewer book marks accepts e =
    let first : Witnessed = record { mark = none; accepts = [] } in
    let seen = see_marks marks first in
    let all = see_accepts accepts seen in
    see_marks-NoneNewer marks first book (λ at h.
      started-AtLeast book at all.mark all.accepts e (rw (see_accepts-mark accepts seen) h))
