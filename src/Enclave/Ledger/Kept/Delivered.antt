-- ===== src/Enclave/Ledger/Kept/Delivered.antt =====
-- crates/enclave/src/ledger.rs: proofs about the writer, which empties its queue, and about the start
-- that finds what it left.
use mathlib.Core.Path.{subst}
use mathlib.Core.List.{append-nil}
use tokumai.Base.{ℕ, ◌+◌, ◌^◌, ◌≤◌, ◌<◌, ◌≡◌, refl, List, [], ◌∷◌, length, arith, true, false}
use tokumai.Base.Bytes.{Bytes}
use tokumai.Base.Result.{ok, ok_bind}
use tokumai.Enclave.State.{Journal, FileStore, put_snapshot, split}
use tokumai.Enclave.State.Split.{journal_of, split-journal_of, split_nil}
use tokumai.Enclave.Ledger.Tables.{Tables, Change, execute}
use tokumai.Enclave.Ledger.Money.Replay.{replay}
use tokumai.Enclave.Ledger.Kept.{
  Codec, Job, put_record, fold, tell_witness, deliver, deliver_all, read_snapshot, replay_sealed,
}
use tokumai.Enclave.Ledger.Kept.Carried.{
  IsCodec, Place, AllFit, Carries, Stored, sealed_from, length-sealed_from, sealed_from-AllRecords,
  record_carried,
}

module _ (codec : Codec) (Fits : Change → Type 0) (FitsBook : ℕ → Tables → Type 0)
    (law : IsCodec codec Fits FitsBook) where
  read_snapshot-sealed :
      (generation : ℕ) (t : Tables) (bytes : Bytes)
      → bytes ≡ codec.seal 0 0 (codec.encode_book generation t)
      → 1 ≤ length bytes
      → FitsBook generation t
      → read_snapshot codec bytes ≡ ok (generation, t)
  unfolding read_snapshot
  read_snapshot-sealed generation t [] e size f = absurd (omega arith)
  read_snapshot-sealed generation t (b ∷ bs) e size f =
      rw
        (
          e,
          law.open-seal 0 0 (codec.encode_book generation t),
          law.decode_book-encode_book generation t f,
        )
        refl

  -- The whole book takes the place of the snapshot and of the journal.
  fold_carried :
      (store : FileStore) (p : Place)
      → FitsBook (p.generation + 1) p.tables
      → Stored codec Fits FitsBook
          (put_snapshot store (codec.seal 0 0 (codec.encode_book (p.generation + 1) p.tables)))
          (record { generation = p.generation + 1; count = 0; tables = p.tables })
  unfolding put_snapshot
  fold_carried store p f = record {
    base = p.tables;
    changes = [];
    snapshot =
        read_snapshot-sealed (p.generation + 1) p.tables _ refl
          (law.snapshot_size (p.generation + 1) p.tables) f;
    journal = unfold journal_of in refl;
    fit = tt;
    counted = refl;
    few = omega arith;
    replayed = unfold replay in refl;
  }

  -- The host takes the job at the head of the queue, and then holds the place that it leads to.
  pub deliver-Stored :
      (job : Job) (jobs : List Job) (store : FileStore) (p q : Place)
      → Stored codec Fits FitsBook store p
      → Carries codec Fits FitsBook (job ∷ jobs) p q
      → (after : FileStore) × (r : Place) × (deliver job store ≡ ok after)
        × Stored codec Fits FitsBook after r
        × Carries codec Fits FitsBook jobs r q
  unfolding deliver
  deliver-Stored (put_record generation number sealed) jobs store p q v
        (c, t, g, n, small, s, f, done, rest) =
      let (after, taken, w) =
        record_carried codec Fits FitsBook law store p c t v (omega arith) f done in
      (
        after,
        record { generation = p.generation; count = p.count + 1; tables = t },
        rw (s, n, g) taken,
        w,
        rest,
      )
  deliver-Stored (fold generation sealed) jobs store p q v (g, s, f, rest) =
      let f' = subst (λ x. FitsBook x p.tables) g f in
      (
        put_snapshot store sealed,
        record { generation = p.generation + 1; count = 0; tables = p.tables },
        refl,
        (rw (s, g) (fold_carried store p f')),
        rest,
      )
  deliver-Stored tell_witness jobs store p q v rest = (store, p, refl, v, rest)

  -- So it takes them all.
  pub deliver_all-Stored :
      (jobs : List Job) (store : FileStore) (p q : Place)
      → Stored codec Fits FitsBook store p
      → Carries codec Fits FitsBook jobs p q
      → (after : FileStore) × (deliver_all jobs store ≡ ok after)
        × Stored codec Fits FitsBook after q
  unfolding deliver_all
  deliver_all-Stored [] store p q v e = (store, refl, subst (Stored codec Fits FitsBook store) e v)
  deliver_all-Stored (job ∷ jobs) store p q v c =
      let (after, r, taken, w, rest) = deliver-Stored job jobs store p q v c in
      let (last, all, x) = deliver_all-Stored jobs after r q w rest in (last, rw taken all, x)

  -- What was carried out is carried out again from what was sealed.
  pub replay_sealed-sealed_from :
      (generation number : ℕ) (cs : List Change) (t u : Tables)
      → AllFit codec Fits FitsBook cs
      → replay cs t ≡ ok u
      → replay_sealed codec generation number
          (sealed_from codec Fits FitsBook generation number cs)
          t
        ≡ ok u
  unfolding replay_sealed replay
  replay_sealed-sealed_from generation number [] t u fit e = ground arith
  replay_sealed-sealed_from generation number (c ∷ cs) t u fit e =
      let (t', done, rest) = ok_bind (execute c t) (replay cs) u e in
      rw (law.open-seal generation number (codec.encode c), law.decode-encode c fit.0, done)
        (replay_sealed-sealed_from generation (number + 1) cs t' u fit.1 rest)

  -- The split of what the changes left.
  pub split-sealed_from :
      (generation : ℕ) (cs : List Change)
      → AllFit codec Fits FitsBook cs
      → length cs < 2 ^ 64
      → (journal : Journal) × (split (journal_of (sealed_from codec Fits FitsBook generation 1 cs))
          ≡ ok journal)
        × (journal.records ≡ sealed_from codec Fits FitsBook generation 1 cs)
  split-sealed_from generation [] fit few =
      (record { records = []; legacy = true }, unfold journal_of in split_nil, refl)
  split-sealed_from generation (c ∷ cs) fit few =
      let r = codec.seal generation 1 (codec.encode c) in
      let rs = sealed_from codec Fits FitsBook generation 2 cs in
      let all = sealed_from-AllRecords codec Fits FitsBook law generation 1 (c ∷ cs) fit in
      let n : length rs ≡ length cs = length-sealed_from codec Fits FitsBook generation 2 cs in
      (
        record { records = r ∷ rs; legacy = false },
        rw (append-nil (journal_of (r ∷ rs))) at
            (split-journal_of r rs r 0 all (omega (arith, n)) all.0 (omega arith)),
        refl,
      )
