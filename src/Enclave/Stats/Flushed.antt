-- ===== src/Enclave/Stats/Flushed.antt =====
-- crates/enclave/src/admin.rs: proofs about the counts on their way into the book.
use tokumai.Base.{
  ℕ, ◌+◌, ◌≡◌, refl, List, [], ◌∷◌, String, ◌=ₛ◌, if◌then◌else◌, arith, Bool-cases, inl, inr,
  eq_iff,
}
use tokumai.Enclave.Ledger.Tables.{Tables, apply, add_tally, plus_tally}
use tokumai.Enclave.Stats.{
  Stats, Added, added, not_executed, not_written, is_error, is_executed, add, flush_loop,
  flush_tallies,
}

-- What a list of counts says of a key.
abbrev pub tally_of : String → List (String × ℕ) → ℕ
tally_of key [] = 0
tally_of key ((k, n) ∷ t) = (if k =ₛ key then n else 0) + tally_of key t

tally_of-plus_tally :
    (key k : String) (n : ℕ) (t : List (String × ℕ))
    → tally_of key (plus_tally k n t) ≡ (if k =ₛ key then n else 0) + tally_of key t
unfolding plus_tally
tally_of-plus_tally key k n [] = refl
tally_of-plus_tally key k n ((j, m) ∷ t) = elim (Bool-cases (j =ₛ k)) [
  | inl e ↦
      let same : j ≡ k = (eq_iff j k).0 e in
      rw (e, same)
        (elim (Bool-cases (k =ₛ key)) [ inl f ↦ rw f (omega arith) | inr f ↦ rw f (omega arith) ])
  | inr e ↦ rw e (omega (arith, tally_of-plus_tally key k n t))
]

-- What the book and the counts that wait say of a key together.
abbrev pub both_of : String → Tables × Stats → ℕ
both_of key u = tally_of key u.0.tally + tally_of key u.1.pending

-- What a failure after the statement was executed puts back although the book has it.
abbrev again_of : Added → ℕ → ℕ
again_of added n = 0
again_of not_executed n = 0
again_of not_written n = n

-- What waits and is then both in the book and put back.
abbrev pub again : (String → Added) → String → List (String × ℕ) → ℕ
again outcome key waiting = again_of (outcome key) (tally_of key waiting)

one_count :
    (a : Added) (key k : String) (n : ℕ) (t : Tables) (s : Stats)
    → both_of key
        (if is_executed a then apply (add_tally k n) t else t, if is_error a then add k n s else s)
      ≡ both_of key (t, s) + (if k =ₛ key then n else 0) + again_of a (if k =ₛ key then n else 0)
unfolding add apply
one_count added key k n t s = omega (arith, tally_of-plus_tally key k n t.tally)
one_count not_executed key k n t s = omega (arith, tally_of-plus_tally key k n s.pending)
one_count not_written key k n t s =
    omega (arith, tally_of-plus_tally key k n t.tally, tally_of-plus_tally key k n s.pending)

again_of-zero : (a : Added) → again_of a 0 ≡ 0
again_of-zero added = refl
again_of-zero not_executed = refl
again_of-zero not_written = refl

again_of-add : (a : Added) (n m : ℕ) → again_of a (n + m) ≡ again_of a n + again_of a m
again_of-add added n m = refl
again_of-add not_executed n m = refl
again_of-add not_written n m = refl

again_of-same :
    (outcome : String → Added) (key k : String) (n : ℕ)
    → again_of (outcome key) (if k =ₛ key then n else 0)
      ≡ again_of (outcome k) (if k =ₛ key then n else 0)
again_of-same outcome key k n = elim (Bool-cases (k =ₛ key)) [
  | inl e ↦ let same : k ≡ key = (eq_iff k key).0 e in rw same refl
  | inr e ↦ rw (e, again_of-zero (outcome key), again_of-zero (outcome k)) refl
]

again-cons :
    (outcome : String → Added) (key k : String) (n : ℕ) (waiting : List (String × ℕ))
    → again outcome key ((k, n) ∷ waiting)
      ≡ again_of (outcome k) (if k =ₛ key then n else 0) + again outcome key waiting
again-cons outcome key k n waiting = omega (
  arith,
  again_of-add (outcome key) (if k =ₛ key then n else 0) (tally_of key waiting),
  again_of-same outcome key k n,
)

flush_loop-tally :
    (outcome : String → Added) (key : String) (waiting : List (String × ℕ)) (t : Tables) (s : Stats)
    → both_of key (flush_loop outcome waiting t s)
      ≡ both_of key (t, s) + tally_of key waiting + again outcome key waiting
unfolding flush_loop
flush_loop-tally outcome key [] t s = omega (arith, again_of-zero (outcome key))
flush_loop-tally outcome key ((k, n) ∷ waiting) t s = omega (
  arith,
  one_count (outcome k) key k n t s,
  again-cons outcome key k n waiting,
  flush_loop-tally outcome key waiting
      (if is_executed (outcome k) then apply (add_tally k n) t else t)
      (if is_error (outcome k) then add k n s else s),
)

-- For every key, what the book and what is still waiting say of it together after `flush_tallies`
-- is what they said before, and once more what waited of it where adding a tally to the book is an
-- error after the statement was executed.
pub flush_tallies-tally :
    (outcome : String → Added) (key : String) (t : Tables) (s : Stats)
    → both_of key (flush_tallies outcome t s) ≡ both_of key (t, s) + again outcome key s.pending
unfolding flush_tallies
flush_tallies-tally outcome key t s =
    omega (arith, flush_loop-tally outcome key s.pending t (record s { pending = [] }))
