-- ===== src/Enclave/Ledger/Kept.antt =====
-- crates/enclave/src/ledger.rs: how the book outlives the enclave. Each change is sealed to its
-- place and queued; the writer carries the queue to the host, one job after the other, and offers a
-- job again until the host has taken it. Waiting, the log of refusals and the hours of the witness
-- are not modelled. A book in a file of its own (`kept: None`) writes nothing down.
pub mod Carried
pub mod Delivered
pub mod Recovery
pub mod Reached
use tokumai.Base.{
  ℕ, zero, suc, ◌+◌, ◌-◌, Bool, true, false, ◌||◌, Option, none, some, List, [], ◌∷◌, ◌++◌, length,
  leb, ltb, ◌==◌, if◌then◌else◌,
}
use tokumai.Base.Bytes.{Bytes}
use tokumai.Base.Result.{Result, ok, err, ◌>>=◌, ok_or}
use tokumai.Enclave.State.{Journal, JournalError, FileStore, append, put_snapshot, split, is_empty}
use tokumai.Enclave.Witness.{Mark, Witnessed, newer, may_start}
use tokumai.Enclave.Ledger.Tables.{Tables, no_rows, Change, Conflict, execute}

-- ChaCha20-Poly1305 under the book's key, and the JSON of a change and of a whole book. A sealing's
-- random nonce is not told apart here: what is relied on is that what was sealed to a place opens
-- there.
pub record Codec : Type 0 where
  pub seal : ℕ → ℕ → Bytes → Bytes
  pub open_at : ℕ → ℕ → Bytes → Option Bytes
  pub encode : Change → Bytes
  pub decode : Bytes → Option Change
  pub encode_book : ℕ → Tables → Bytes
  pub decode_book : Bytes → Option (ℕ × Tables)

abbrev pub changes_per_snapshot : ℕ
changes_per_snapshot = 2_000

pub data Job : Type 0 where
  put_record : (generation number : ℕ) (sealed : Bytes) → Job
  fold : (generation : ℕ) (sealed : Bytes) → Job
  tell_witness : Job

pub record Kept : Type 0 where
  pub generation : ℕ
  pub next : ℕ
  pub since : ℕ
  pub queue : List Job

-- The place of the last change that was written down.
unfoldable pub mark : Kept → Mark
mark k = (k.generation, k.next - 1)

module _ (codec : Codec) where
  unfoldable pub seal_record : Change → Kept → Job
  seal_record c k = put_record k.generation k.next (codec.seal k.generation k.next (codec.encode c))

  -- The loop of `write_down`.
  unfoldable pub queue_all : List Change → Kept → Kept
  unfolding seal_record
  queue_all [] k = k
  queue_all (c ∷ cs) k =
      queue_all cs (record k {
        next = k.next + 1;
        since = k.since + 1;
        queue = k.queue ++ seal_record c k ∷ [];
      })

  -- The whole book as one snapshot, behind what is queued, and a new generation.
  unfoldable pub write_out : Tables → Kept → Kept
  write_out t k =
      let generation = k.generation + 1 in
      record {
        generation = generation;
        next = 1;
        since = 0;
        queue = k.queue ++ fold generation (codec.seal 0 0 (codec.encode_book generation t)) ∷ [];
      }

  -- `t` are the tables after the changes.
  unfoldable pub write_down : List Change → Tables → Kept → Kept
  unfolding queue_all write_out
  write_down cs t k =
      let queued = queue_all cs k in
      if leb changes_per_snapshot queued.since then write_out t queued else queued

-- What the writer does to the store with one job, where the host takes it.
unfoldable pub deliver : Job → FileStore → Result JournalError FileStore
deliver (put_record generation number sealed) store = append store generation number sealed
deliver (fold generation sealed) store = ok (put_snapshot store sealed)
deliver tell_witness store = ok store

-- `Flushed::reached`, with the place of the job.
unfoldable pub reached : Mark → Mark → Mark
unfolding newer
reached new at = if newer new at then new else at

unfoldable pub place_of_job : Job → Mark → Mark
unfolding reached
place_of_job (put_record generation number sealed) at = reached (generation, number) at
place_of_job (fold generation sealed) at = reached (generation, 0) at
place_of_job tell_witness at = at

unfoldable pub deliver_all : List Job → FileStore → Result JournalError FileStore
unfolding deliver
deliver_all [] store = ok store
deliver_all (job ∷ jobs) store = deliver job store >>= deliver_all jobs

pub data OpenError : Type 0 where
  does_not_open : (number : ℕ) → OpenError
  unreadable : (number : ℕ) → OpenError
  no_journal : JournalError → OpenError
  does_not_apply : Conflict → OpenError
  rewound : Mark → Mark → OpenError

pub map_err {ℓ κ μ} : {E : Type ℓ} {F : Type κ} {A : Type μ} → (E → F) → Result E A → Result F A
map_err f (ok a) = ok a
map_err f (err e) = err (f e)

module _ (codec : Codec) where
  -- The snapshot, where there is one.
  unfoldable pub read_snapshot : Bytes → Result OpenError (ℕ × Tables)
  read_snapshot [] = ok (1, no_rows)
  read_snapshot (b ∷ bs) = do
    plain ← ok_or (codec.open_at 0 0 (b ∷ bs)) (does_not_open 0)
    ok_or (codec.decode_book plain) (unreadable 0)

  -- The loop of `open_sealed` from record `number` on.
  unfoldable pub replay_sealed : ℕ → ℕ → List Bytes → Tables → Result OpenError Tables
  unfolding map_err
  replay_sealed generation number [] t = ok t
  replay_sealed generation number (sealed ∷ records) t = do
    plain ← ok_or (codec.open_at generation number sealed) (does_not_open number)
    c ← ok_or (codec.decode plain) (unreadable number)
    t' ← map_err does_not_apply (execute c t)
    replay_sealed generation (number + 1) records t'

  -- Whether the witness lets the book start, and whether the start is an acknowledged restore.
  unfoldable pub ask_witness : Mark → Option Witnessed → Result OpenError Bool
  unfolding map_err
  ask_witness position none = ok false
  ask_witness position (some seen) =
      map_err (λ (e : Mark × Mark). rewound e.0 e.1) (may_start position seen)

  unfoldable pub open_sealed : Option Witnessed → FileStore → Result OpenError (Tables × Kept)
  unfolding read_snapshot replay_sealed ask_witness write_out
  open_sealed witness store = do
    book ← read_snapshot store.snapshot
    journal ← map_err no_journal (split store.journal)
    t ← replay_sealed book.0 1 journal.records book.1
    accepted ← ask_witness (book.0, length journal.records) witness
    let kept : Kept = record {
      generation = book.0;
      next = length journal.records + 1;
      since = length journal.records;
      queue = if accepted then tell_witness ∷ [] else [];
    }
    ok (t, if is_empty store.snapshot || journal.legacy then write_out codec t kept else kept)
