-- ===== src/Enclave/State.antt =====
-- crates/enclave/src/state.rs: the journal's format, its reader, and the store in a directory.
-- A u32 or u64 in the format is a number with its width in bytes. What the file system refuses
-- is not modelled: a read finds what was written last.
pub mod Split
pub mod Store
use tokumai.Base.{
  ℕ, zero, suc, ◌+◌, ◌%◌, ◌^◌, Bool, true, false, not, ◌||◌, Option, none, some, List, [], ◌∷◌,
  ◌++◌, length, take, drop, ltb, leb, ◌==◌, if◌then◌else◌,
}
use tokumai.Base.Result.{Result, ok, err, ◌>>=◌}
use tokumai.Base.Bytes.{Bytes, codes, be_bytes, of_be, has_prefix}

unfoldable pub magic : Bytes
magic = codes "tokumai-journal/2\n"

-- `record.len() as u32`
unfoldable pub framed : ℕ → Bytes → Bytes
framed number sealed = be_bytes 4 (length sealed % 2 ^ 32) ++ (be_bytes 8 number ++ sealed)

pub record Journal : Type 0 where
  pub records : List Bytes
  pub legacy : Bool

pub data JournalError : Type 0 where
  -- record `number` where `expected` was expected
  out_of_place : (number expected : ℕ) → JournalError
  old_form : JournalError
  offered_to_empty : (number : ℕ) → JournalError
  gap : (number after : ℕ) → JournalError

-- The loop of `split` over a journal in the old form; `rest` is `bytes[at..]`.
unfoldable pub split_legacy : ℕ → Bytes → List Bytes
split_legacy zero rest = []
split_legacy (suc fuel) rest =
    let len = of_be 0 (take 4 rest) in
    let more = split_legacy fuel (drop (4 + len) rest) in
    if ltb (length rest) 4 || (len == 0 || ltb (length rest) (4 + len))
    then []
    else take len (drop 4 rest) ∷ more

-- The same loop over the current form, after `count` records.
unfoldable pub split_numbered : ℕ → ℕ → Bytes → Result JournalError (List Bytes)
split_numbered zero count rest = ok []
split_numbered (suc fuel) count rest =
    let len = of_be 0 (take 4 rest) in
    let number = of_be 0 (take 8 (drop 4 rest)) in
    let more : Result JournalError (List Bytes) = (do
      records ← split_numbered fuel (count + 1) (drop (12 + len) rest)
      ok (take len (drop 12 rest) ∷ records)) in
    if ltb (length rest) 4 || (len == 0 || ltb (length rest) (12 + len))
    then ok []
    else if number == count + 1
    then more
    else err (out_of_place number (count + 1))

-- Every round takes at least five bytes, so the number of bytes is fuel enough.
unfoldable pub split : Bytes → Result JournalError Journal
split bytes =
    if has_prefix magic bytes
    then (do
      records ← split_numbered (length bytes) 0 (drop (length magic) bytes)
      ok (record { records = records; legacy = false }))
    else ok (record { records = split_legacy (length bytes) bytes; legacy = true })

-- The loop of `last_number`.
unfoldable pub last_loop : ℕ → Option ℕ → Bytes → Option ℕ
last_loop zero last rest = last
last_loop (suc fuel) last rest =
    let len = of_be 0 (take 4 rest) in
    let number = of_be 0 (take 8 (drop 4 rest)) in
    let more = last_loop fuel (some number) (drop (12 + len) rest) in
    if ltb (length rest) 12 || (len == 0 || ltb (length rest) (12 + len)) then last else more

unfoldable pub last_number : Bytes → Result JournalError (Option ℕ)
last_number [] = ok none
last_number (b ∷ bs) =
    let bytes = b ∷ bs in
    if has_prefix magic bytes
    then ok (last_loop (length bytes) none (drop (length magic) bytes))
    else err old_form

-- The two files of the directory; a file that is not there reads as empty.
pub record FileStore : Type 0 where
  pub snapshot : Bytes
  pub journal : Bytes

unfoldable pub put_snapshot : FileStore → Bytes → FileStore
put_snapshot s sealed = record { snapshot = sealed; journal = [] }

-- Whether an offered record is to be written (`true`) or is there already (`false`).
unfoldable pub place_of : Option ℕ → ℕ → Result JournalError Bool
place_of none number = if number == 1 then ok true else err (offered_to_empty number)
place_of (some last) number =
    if leb number last
    then ok false
    else if number == last + 1
    then ok true
    else err (gap number last)

unfoldable pub is_empty : Bytes → Bool
is_empty [] = true
is_empty (b ∷ bs) = false

-- The bytes that an append adds to the file.
unfoldable pub written : Bytes → ℕ → Bytes → Bytes
written have number sealed = (if is_empty have then magic else []) ++ framed number sealed

unfoldable pub append : FileStore → ℕ → ℕ → Bytes → Result JournalError FileStore
unfolding is_empty written
append s generation number sealed = do
  last ← last_number s.journal
  new ← place_of last number
  ok (if new then record s { journal = s.journal ++ written s.journal number sealed } else s)
