-- ===== src/Enclave/State/Store.antt =====
-- The store in a directory keeps a log of records: the proofs about `append`.
use mathlib.Core.List.{append-nil, append_assoc}
use tokumai.Base.{
  ℕ, suc, ◌+◌, ◌^◌, ◌<◌, ◌≡◌, refl, ap, sym, ◌∙◌, List, [], ◌∷◌, ◌++◌, arith, length, ltb, ◌==◌,
  if◌then◌else◌,
}
use tokumai.Base.Result.{Result, ok, err}
use tokumai.Base.Bytes.{Bytes}
use tokumai.Enclave.State.{
  JournalError, offered_to_empty, gap, magic, framed, FileStore, append, is_empty, written,
  place_of,
}
use tokumai.Enclave.State.Split.{AllRecords, frames, journal_of, last_of, last_number-journal_of}

-- What an offered record does to a log: the next one is added, one that is there already changes
-- nothing, and a gap is refused.
unfoldable pub log_append : List Bytes → ℕ → Bytes → Result JournalError (List Bytes)
log_append log number sealed =
    if number == length log + 1
    then ok (log ++ sealed ∷ [])
    else if ltb (length log) number
    then err (if length log == 0 then offered_to_empty number else gap number (length log))
    else if length log == 0
    then err (offered_to_empty number)
    else ok log

-- A directory whose journal holds the log.
unfoldable pub holding : Bytes → List Bytes → FileStore
holding snapshot log = record { snapshot = snapshot; journal = journal_of log }

abbrev pub with_log : Bytes → Result JournalError (List Bytes) → Result JournalError FileStore
with_log snapshot (ok log) = ok (holding snapshot log)
with_log snapshot (err e) = err e

frames-snoc :
    (n : ℕ) (log : List Bytes) (x : Bytes)
    → frames n (log ++ x ∷ []) ≡ frames n log ++ framed (n + length log) x
unfolding frames
frames-snoc n [] x = let e : n + 0 ≡ n = omega arith in rw (e, append-nil) refl
frames-snoc n (r ∷ log) x =
    let e : n + suc (length log) ≡ n + 1 + length log = omega arith in
    rw (frames-snoc (n + 1) log x, e) (sym (append_assoc (framed n r) (frames (n + 1) log) _))

-- One more record on a journal is its frame behind it; the first brings the format's mark.
journal-snoc :
    (log : List Bytes) (x : Bytes)
    → journal_of log ++ written (journal_of log) (length log + 1) x ≡ journal_of (log ++ x ∷ [])
journal-snoc [] x =
    let e : 0 + 1 ≡ 1 = omega arith in
    unfold journal_of written is_empty frames in rw append-nil refl
journal-snoc (r ∷ log) x =
    let e : suc (length log) + 1 ≡ 1 + suc (length log) = omega arith in
    let w : written (magic ++ frames 1 (r ∷ log)) (suc (length log) + 1) x
        ≡ framed (suc (length log) + 1) x =
      unfold written is_empty magic in refl in
    unfold journal_of in
    rw (w, e)
      (append_assoc magic (frames 1 (r ∷ log)) (framed (1 + suc (length log)) x)
        ∙ ap (λ b. magic ++ b) (sym (frames-snoc 1 (r ∷ log) x)))

-- On the journal of fewer than 2 ^ 64 records of 1 to 2 ^ 32 - 1 bytes, `append` does what
-- `log_append` does to the list: the next number is added, one that is there already changes
-- nothing, a gap is refused with the numbers.
pub append-log_append :
    (snapshot : Bytes) (log : List Bytes) (generation number : ℕ) (sealed : Bytes)
    → AllRecords log
    → length log < 2 ^ 64
    → append (holding snapshot log) generation number sealed
      ≡ with_log snapshot (log_append log number sealed)
unfolding append log_append place_of last_of holding
append-log_append snapshot log generation number sealed all few =
    rw (last_number-journal_of log all few) (ground (arith, journal-snoc log sealed))

-- The next record is added.
pub append-next :
    (snapshot : Bytes) (log : List Bytes) (generation number : ℕ) (sealed : Bytes)
    → AllRecords log
    → number ≡ length log + 1
    → length log < 2 ^ 64
    → append (holding snapshot log) generation number sealed
      ≡ ok (holding snapshot (log ++ sealed ∷ []))
append-next snapshot log generation number sealed all next few =
    append-log_append snapshot log generation number sealed all few
    ∙ (unfold log_append in ground arith)
