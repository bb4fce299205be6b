-- ===== src/Egress/Host/Same.antt =====
-- crates/egress/src/lib.rs beside crates/enclave/src/state.rs: proofs about the journal's form, which
-- both sides write down for themselves.
use mathlib.Core.List.{append_assoc}
use tokumai.Base.{
  ℕ, zero, suc, ◌+◌, ◌^◌, ◌≤◌, ◌<◌, ◌≡◌, refl, sym, ◌⊎◌, inl, inr, Bool, true, false, Option, none,
  some, [], ◌∷◌, ◌++◌, length, length-append, take, drop, ltb, if◌then◌else◌, arith, not,
}
use tokumai.Base.Result.{Result, ok, err, ◌>>=◌}
use tokumai.Base.Bytes.{
  Bytes, be_bytes, of_be, length-be_bytes, of_be-be_bytes, take-append, drop-append,
}
use tokumai.Enclave.State.{
  JournalError, FileStore, append, last_number, last_loop, place_of, magic, framed, written,
  is_empty,
}
use tokumai.Egress.Host.{
  Host, HostError, out_of_order, journal_last, journal_loop, journal_magic, add_record, add_placed,
  add_behind, known_last, is_there, fresh_mark,
}

journal_loop-last_loop :
    (fuel : ℕ) (last : Option ℕ) (rest : Bytes)
    → journal_loop fuel last rest ≡ last_loop fuel last rest
unfolding journal_loop last_loop
journal_loop-last_loop zero last rest = refl
journal_loop-last_loop (suc fuel) last rest = ground (
  arith,
  journal_loop-last_loop fuel (some (of_be 0 (take 8 (drop 4 rest))))
      (drop (12 + of_be 0 (take 4 rest)) rest),
)

-- Of any bytes the host's `journal_last` gives what the enclave's `last_number` gives.
pub journal_last-last_number : (bytes : Bytes) → journal_last bytes ≡ last_number bytes
unfolding journal_last last_number journal_magic magic
journal_last-last_number [] = refl
journal_last-last_number (b ∷ bs) =
    rw (journal_loop-last_loop (length (b ∷ bs)) none (drop (length magic) (b ∷ bs))) refl

-- What the enclave hands over: the place of a record, and the record.
abbrev pub offered : ℕ → ℕ → Bytes → Bytes
offered generation number sealed = be_bytes 8 generation ++ (be_bytes 8 number ++ sealed)

-- A host whose last number, where it is known, is the journal's, and whose journal is empty where
-- it has no record.
pub record IsClean (h : Host) : Type 0 where
  pub known : (h.last ≡ none) ⊎ (last_number h.journal ≡ ok h.last)
  pub whole : last_number h.journal ≡ ok none → h.journal ≡ []

-- The host's answer is what the store in a directory answers, and it leaves the same files.
abbrev pub Agrees : Host → Result JournalError FileStore → Host × Result HostError Bool → Type 0
Agrees h (ok s) (h', ok again) = (h'.journal ≡ s.journal) × (h'.snapshot ≡ s.snapshot)
Agrees h (err e) (h', err x) =
    (x ≡ out_of_order e) × (h'.journal ≡ h.journal) × (h'.snapshot ≡ h.snapshot)
Agrees _ _ _ = ⊥

known_last-last_number :
    (last : Option ℕ) (journal : Bytes)
    → (last ≡ none) ⊎ (last_number journal ≡ ok last)
    → known_last last journal ≡ last_number journal
unfolding known_last
known_last-last_number none journal k = journal_last-last_number journal
known_last-last_number (some n) journal (inl k) = cc
known_last-last_number (some n) journal (inr k) = sym k

is_there-place_of :
    (last : Option ℕ) (number : ℕ)
    → is_there last number ≡ (place_of last number >>= λ new. ok (not new))
unfolding is_there place_of
is_there-place_of none number = ground arith
is_there-place_of (some have) number = ground arith

-- Both sides begin a journal with the mark.
mark_agrees :
    (journal : Bytes) (last : Option ℕ)
    → last_number journal ≡ ok last
    → (last_number journal ≡ ok none → journal ≡ [])
    → fresh_mark last ≡ (if is_empty journal then magic else [])
unfolding fresh_mark is_empty last_number journal_magic magic
mark_agrees [] none e whole = refl
mark_agrees [] (some n) e whole = cc
mark_agrees (b ∷ bs) none e whole = cc (whole e)
mark_agrees (b ∷ bs) (some n) e whole = refl

abbrev pub files : Host → FileStore
files h = record { snapshot = h.snapshot; journal = h.journal }

-- What `append` does once the last number is read and the place is judged.
abbrev put_at : Host → ℕ → Bytes → Bool → FileStore
put_at h number sealed new =
    if new
    then record (files h) { journal = h.journal ++ written h.journal number sealed }
    else files h

module _ (number : ℕ) (sealed : Bytes) (h : Host) (v : IsClean h) where
  add_placed-append :
      (last : Option ℕ) (r : Result JournalError Bool)
      → last_number h.journal ≡ ok last
      → Agrees h
          (r >>= λ new. ok (put_at h number sealed new))
          (add_placed number sealed last h (r >>= λ new. ok (not new)))
  unfolding add_placed
  add_placed-append last (err x) e = (refl, refl, refl)
  add_placed-append last (ok false) e = (refl, refl)
  add_placed-append last (ok true) e =
      (unfold written framed in rw (mark_agrees h.journal last e v.whole) refl, refl)

  add_behind-append :
      (r : Result JournalError (Option ℕ))
      → last_number h.journal ≡ r
      → Agrees h
          (r >>= λ last. (place_of last number >>= λ new. ok (put_at h number sealed new)))
          (add_behind number sealed h r)
  unfolding add_behind
  add_behind-append (err x) e = (refl, refl, refl)
  add_behind-append (ok last) e =
      rw (is_there-place_of last number) (add_placed-append last (place_of last number) e)

pub number_of-offered :
    (generation number : ℕ) (sealed : Bytes)
    → number < 2 ^ 64
    → of_be 0 (take 8 (drop 8 (offered generation number sealed))) ≡ number
number_of-offered generation number sealed small =
    rw
      (
        drop-append 8 (be_bytes 8 generation) (be_bytes 8 number ++ sealed)
            (length-be_bytes 8 generation),
        take-append 8 (be_bytes 8 number) sealed (length-be_bytes 8 number),
      )
      (of_be-be_bytes 8 number (omega arith))

pub record_of-offered :
    (generation number : ℕ) (sealed : Bytes) → drop 16 (offered generation number sealed) ≡ sealed
record_of-offered generation number sealed =
    let e : offered generation number sealed
        ≡ (be_bytes 8 generation ++ be_bytes 8 number) ++ sealed =
      sym (append_assoc (be_bytes 8 generation) (be_bytes 8 number) sealed) in
    rw e (
      drop-append 16 (be_bytes 8 generation ++ be_bytes 8 number) sealed (
        omega (
          arith,
          length-append (be_bytes 8 generation) (be_bytes 8 number),
          length-be_bytes 8 generation,
          length-be_bytes 8 number,
        )))

pub length-offered :
    (generation number : ℕ) (sealed : Bytes)
    → length (offered generation number sealed) ≡ 16 + length sealed
length-offered generation number sealed = omega (
  arith,
  length-append (be_bytes 8 generation) (be_bytes 8 number ++ sealed),
  length-append (be_bytes 8 number) sealed,
  length-be_bytes 8 generation,
  length-be_bytes 8 number,
)

-- Where the host's last number is unknown or the journal's, and the journal is empty where it has
-- no record, the host's `add_record`, given a record that is not empty with a generation and a
-- number of 64 bits, leaves the same journal and snapshot as the enclave's `append`, or refuses
-- with the same reason and changes neither.
pub add_record-append :
    (generation number : ℕ) (sealed : Bytes) (h : Host)
    → IsClean h
    → number < 2 ^ 64
    → 1 ≤ length sealed
    → Agrees h
        (append (files h) generation number sealed)
        (add_record (offered generation number sealed) h)
unfolding append add_record
add_record-append generation number sealed h v small size =
    let long : ltb (length (offered generation number sealed)) 17 ≡ false =
      ground (arith, length-offered generation number sealed) in
    rw
      (
        long,
        known_last-last_number h.last h.journal v.known,
        number_of-offered generation number sealed small,
        record_of-offered generation number sealed,
      )
      (add_behind-append number sealed h v (last_number h.journal) refl)
