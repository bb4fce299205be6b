-- ===== src/Tests/Records.antt =====
-- crates/enclave/src/state.rs and witness.rs on a short journal.
use tokumai.Base.{◌≡◌, refl, false, none, some, List, [], ◌∷◌, ◌++◌, arith, take}
use tokumai.Base.Bytes.{Bytes}
use tokumai.Base.Result.{ok}
use tokumai.Enclave.State.{framed, split, append}
use tokumai.Enclave.State.Split.{AllRecords, journal_of, split-journal_of}
use tokumai.Enclave.State.Store.{holding, with_log, log_append, append-log_append}
use tokumai.Enclave.Witness.{
  read, may_start, see_marks, see_accepts, newest, newer, is_accepted, same_mark,
}
use tokumai.Enclave.Witness.Rewind.{NoneNewer, may_start-NoneNewer}

abbrev log : List Bytes
log = (1 ∷ 2 ∷ []) ∷ (3 ∷ []) ∷ []

log-AllRecords : AllRecords log
log-AllRecords = ((omega arith, omega arith), ((omega arith, omega arith), tt))

-- The third record was cut off after five bytes.
split-journal_of_example :
    split (journal_of log ++ take 5 (framed 3 (9 ∷ [])))
    ≡ ok (record { records = log; legacy = false })
split-journal_of_example =
    split-journal_of (1 ∷ 2 ∷ []) ((3 ∷ []) ∷ []) (9 ∷ []) 5 log-AllRecords (omega arith)
      (omega arith, omega arith) (omega arith)

append-log_append_example :
    append (holding [] log) 1 3 (9 ∷ []) ≡ with_log [] (log_append log 3 (9 ∷ []))
append-log_append_example = append-log_append [] log 1 3 (9 ∷ []) log-AllRecords (omega arith)

starts :
    may_start (2, 5) (read ((some (2, 4), 10) ∷ (none, 11) ∷ (some (1, 9), 12) ∷ []) []) ≡ ok false
unfolding may_start read see_marks see_accepts newest newer is_accepted same_mark
starts = refl

may_start-NoneNewer_example :
    NoneNewer (2, 5) ((some (2, 4), 10) ∷ (none, 11) ∷ (some (1, 9), 12) ∷ [])
may_start-NoneNewer_example =
    may_start-NoneNewer (2, 5) ((some (2, 4), 10) ∷ (none, 11) ∷ (some (1, 9), 12) ∷ []) [] starts
