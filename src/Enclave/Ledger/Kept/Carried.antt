-- ===== src/Enclave/Ledger/Kept/Carried.antt =====
-- crates/enclave/src/ledger.rs: what a store holds, what a queue will add to it, and proofs about the
-- delivery of a job.
use tokumai.Base.{
  ℕ, suc, ◌+◌, ◌^◌, ◌≤◌, ◌<◌, ◌≡◌, refl, sym, ap, ◌∙◌, List, [], ◌∷◌, ◌++◌, length, length-append,
  arith, some,
}
use mathlib.Core.Path.{subst}
use tokumai.Base.Bytes.{Bytes}
use tokumai.Base.Result.{ok}
use tokumai.Enclave.State.{FileStore, append}
use tokumai.Enclave.State.Split.{IsRecord, AllRecords, journal_of}
use tokumai.Enclave.State.Store.{holding, append-next}
use tokumai.Enclave.Ledger.Tables.{Tables, Change, execute}
use tokumai.Enclave.Ledger.Money.Replay.{replay, replay-append}
use tokumai.Enclave.Ledger.Kept.{Codec, Job, put_record, fold, tell_witness, read_snapshot}

-- What the code relies on: what was sealed to a place opens there, JSON is read back, and a sealed
-- piece is neither empty nor beyond the 32 bits of its length, for the changes and books that fit.
pub record IsCodec (codec : Codec) (Fits : Change → Type 0) (FitsBook : ℕ → Tables → Type 0)
    : Type 0 where
  pub open-seal :
      (generation number : ℕ) (plain : Bytes)
      → codec.open_at generation number (codec.seal generation number plain) ≡ some plain
  pub decode-encode : (c : Change) → Fits c → codec.decode (codec.encode c) ≡ some c
  pub decode_book-encode_book :
      (generation : ℕ) (t : Tables)
      → FitsBook generation t
      → codec.decode_book (codec.encode_book generation t) ≡ some (generation, t)
  pub record_size :
      (generation number : ℕ) (c : Change)
      → Fits c
      → IsRecord (codec.seal generation number (codec.encode c))
  pub snapshot_size :
      (generation : ℕ) (t : Tables) → 1 ≤ length (codec.seal 0 0 (codec.encode_book generation t))

-- A generation, a count of records in it, and the tables there.
pub record Place : Type 0 where
  pub generation : ℕ
  pub count : ℕ
  pub tables : Tables

module _ (codec : Codec) (Fits : Change → Type 0) (FitsBook : ℕ → Tables → Type 0) where
  abbrev pub AllFit : List Change → Type 0
  AllFit [] = Unit
  AllFit (c ∷ cs) = Fits c × AllFit cs

  -- Done one after the other, the jobs lead from one place to another.
  abbrev pub Carries : List Job → Place → Place → Type 0
  Carries [] p q = p ≡ q
  Carries (put_record generation number sealed ∷ jobs) p q =
      (c : Change) × (t : Tables) × (generation ≡ p.generation)
      × (number ≡ p.count + 1)
      × (number < 2 ^ 64)
      × (sealed ≡ codec.seal generation number (codec.encode c))
      × Fits c
      × (execute c p.tables ≡ ok t)
      × Carries jobs (record { generation = p.generation; count = p.count + 1; tables = t }) q
  Carries (fold generation sealed ∷ jobs) p q =
      (generation ≡ p.generation + 1)
      × (sealed ≡ codec.seal 0 0 (codec.encode_book generation p.tables))
      × FitsBook generation p.tables
      × Carries jobs (record { generation = p.generation + 1; count = 0; tables = p.tables }) q
  Carries (tell_witness ∷ jobs) p q = Carries jobs p q

  pub Carries-append :
      (jobs more : List Job) (p q r : Place)
      → Carries jobs p q
      → Carries more q r
      → Carries (jobs ++ more) p r
  Carries-append [] more p q r e b = subst (λ x. Carries more x r) (sym e) b
  Carries-append (put_record generation number sealed ∷ jobs) more p q r
        (c, t, a1, a2, a3, a4, a5, a6, rest) b =
      (c, t, a1, a2, a3, a4, a5, a6, Carries-append jobs more _ q r rest b)
  Carries-append (fold generation sealed ∷ jobs) more p q r (a1, a2, a3, rest) b =
      (a1, a2, a3, Carries-append jobs more _ q r rest b)
  Carries-append (tell_witness ∷ jobs) more p q r a b = Carries-append jobs more p q r a b

  -- The changes as they lie in the journal, the first with this number.
  abbrev pub sealed_from : ℕ → ℕ → List Change → List Bytes
  sealed_from generation number [] = []
  sealed_from generation number (c ∷ cs) =
      codec.seal generation number (codec.encode c) ∷ sealed_from generation (number + 1) cs

  pub length-sealed_from :
      (generation number : ℕ) (cs : List Change)
      → length (sealed_from generation number cs) ≡ length cs
  length-sealed_from generation number [] = refl
  length-sealed_from generation number (c ∷ cs) =
      ap suc (length-sealed_from generation (number + 1) cs)

  pub sealed_from_snoc :
      (generation number : ℕ) (cs : List Change) (c : Change)
      → sealed_from generation number (cs ++ c ∷ [])
        ≡ sealed_from generation number cs
          ++ codec.seal generation (number + length cs) (codec.encode c) ∷ []
  sealed_from_snoc generation number [] c = let e : number + 0 ≡ number = omega arith in rw e refl
  sealed_from_snoc generation number (d ∷ cs) c =
      let e : number + suc (length cs) ≡ number + 1 + length cs = omega arith in
      rw (sealed_from_snoc generation (number + 1) cs c, e) refl

  -- A store that holds a place: the snapshot of its generation, and the changes since.
  pub record Stored (store : FileStore) (p : Place) : Type 0 where
    pub base : Tables
    pub changes : List Change
    pub snapshot : read_snapshot codec store.snapshot ≡ ok (p.generation, base)
    pub journal : store.journal ≡ journal_of (sealed_from p.generation 1 changes)
    pub fit : AllFit changes
    pub counted : length changes ≡ p.count
    pub few : p.count < 2 ^ 64
    pub replayed : replay changes base ≡ ok p.tables

module _ (codec : Codec) (Fits : Change → Type 0) (FitsBook : ℕ → Tables → Type 0)
    (law : IsCodec codec Fits FitsBook) where
  pub sealed_from-AllRecords :
      (generation number : ℕ) (cs : List Change)
      → AllFit codec Fits FitsBook cs
      → AllRecords (sealed_from codec Fits FitsBook generation number cs)
  sealed_from-AllRecords generation number [] fit = tt
  sealed_from-AllRecords generation number (c ∷ cs) fit = (
    law.record_size generation number c fit.0,
    sealed_from-AllRecords generation (number + 1) cs fit.1,
  )

  AllFit-snoc :
      (cs : List Change) (c : Change)
      → AllFit codec Fits FitsBook cs
      → Fits c
      → AllFit codec Fits FitsBook (cs ++ c ∷ [])
  AllFit-snoc [] c fit f = (f, tt)
  AllFit-snoc (d ∷ cs) c fit f = (fit.0, AllFit-snoc cs c fit.1 f)

  -- The next change of a generation, at its place behind the others.
  pub record_carried :
      (store : FileStore) (p : Place) (c : Change) (t : Tables)
      → Stored codec Fits FitsBook store p
      → p.count + 1 < 2 ^ 64
      → Fits c
      → execute c p.tables ≡ ok t
      → (after : FileStore) × (append store p.generation
            (p.count + 1)
            (codec.seal p.generation (p.count + 1) (codec.encode c))
          ≡ ok after)
        × Stored codec Fits FitsBook after
            (record { generation = p.generation; count = p.count + 1; tables = t })
  record_carried store p c t v small f done =
      let log = sealed_from codec Fits FitsBook p.generation 1 v.changes in
      let sealed = codec.seal p.generation (p.count + 1) (codec.encode c) in
      let n : length log ≡ p.count =
        length-sealed_from codec Fits FitsBook p.generation 1 v.changes ∙ v.counted in
      let was : store ≡ holding store.snapshot log = unfold holding in rw v.journal refl in
      let a =
        append-next store.snapshot log p.generation (p.count + 1) sealed
          (sealed_from-AllRecords p.generation 1 v.changes v.fit) (omega arith) (omega arith) in
      let b = ap (λ (x : FileStore). append x p.generation (p.count + 1) sealed) was ∙ a in
      let m : 1 + length v.changes ≡ p.count + 1 = omega (arith, v.counted) in
      let s = sealed_from_snoc codec Fits FitsBook p.generation 1 v.changes c in
      (
        holding store.snapshot (log ++ sealed ∷ []),
        b,
        record {
          base = v.base;
          changes = v.changes ++ c ∷ [];
          snapshot = unfold holding in v.snapshot;
          journal = unfold holding in ap journal_of (sym (s ∙ rw m refl));
          fit = AllFit-snoc v.changes c v.fit f;
          counted = omega (arith, length-append v.changes (c ∷ []), v.counted);
          few = small;
          replayed =
              rw (replay-append v.changes (c ∷ []) v.base, v.replayed)
                (unfold replay in rw done refl);
        },
      )
