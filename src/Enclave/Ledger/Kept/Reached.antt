-- ===== src/Enclave/Ledger/Kept/Reached.antt =====
-- crates/enclave/src/ledger.rs: proofs about every state that the book, its writer and its restarts
-- can reach.
use tokumai.Base.{
  ℕ, ◌+◌, ◌-◌, ◌≤◌, ◌≡◌, refl, sym, ◌∙◌, Option, none, List, [], ◌∷◌, arith, Bool, false, ◌||◌,
  if◌then◌else◌, if_both,
}
use mathlib.Core.Path.{subst}
use tokumai.Base.Result.{ok, ok_bind}
use tokumai.Enclave.State.{FileStore, is_empty}
use tokumai.Enclave.State.Split.{journal_of, split_nil}
use tokumai.Enclave.Witness.{Witnessed}
use tokumai.Enclave.Ledger.Tables.{Tables, no_rows, Change}
use tokumai.Enclave.Ledger.Money.Replay.{replay}
use tokumai.Enclave.Ledger.Kept.{
  Codec, Kept, Job, tell_witness, deliver_all, write_out, open_sealed, read_snapshot, ask_witness,
  replay_sealed,
}
use tokumai.Enclave.Ledger.Kept.Carried.{IsCodec, Place, Carries, Stored, length-sealed_from}
use tokumai.Enclave.Ledger.Kept.Delivered.{
  deliver-Stored, deliver_all-Stored, replay_sealed-sealed_from, split-sealed_from,
}
use tokumai.Enclave.Ledger.Kept.Recovery.{
  System, here, Step, did, carried, started, Consistent, write_out-Carries, write_down-Carries,
}

-- A host that has nothing yet.
abbrev pub nothing : FileStore
nothing = record { snapshot = []; journal = [] }

module _ (codec : Codec) (Fits : Change → Type 0) (FitsBook : ℕ → Tables → Type 0)
    (law : IsCodec codec Fits FitsBook) where
  -- A start from a store that holds a place: the tables there, and a queue that leads to them.
  record Opened (witness : Option Witnessed) (store : FileStore) (p : Place) (accepted : Bool)
      : Type 0 where
    kept : Kept
    opens : open_sealed codec witness store ≡ ok (p.tables, kept)
    first : 1 ≤ kept.next
    carries :
        FitsBook kept.generation p.tables
        → Carries codec Fits FitsBook kept.queue p (here kept p.tables)

  open_sealed-Stored :
      (witness : Option Witnessed) (store : FileStore) (p : Place) (accepted : Bool)
      → Stored codec Fits FitsBook store p
      → ask_witness codec (p.generation, p.count) witness ≡ ok accepted
      → Opened witness store p accepted
  unfolding open_sealed
  open_sealed-Stored witness store p accepted v asked =
      let (journal, was, records) =
        split-sealed_from codec Fits FitsBook law p.generation v.changes v.fit
          (omega (arith, v.counted, v.few)) in
      let n = length-sealed_from codec Fits FitsBook p.generation 1 v.changes ∙ v.counted in
      let again =
        replay_sealed-sealed_from codec Fits FitsBook law p.generation 1 v.changes v.base p.tables
          v.fit v.replayed in
      let kept : Kept = record {
        generation = p.generation;
        next = p.count + 1;
        since = p.count;
        queue = if accepted then tell_witness ∷ [] else [];
      } in
      let back : p.count + 1 - 1 ≡ p.count = omega arith in
      let lead : Carries codec Fits FitsBook kept.queue p (here kept p.tables) =
        if_both (λ (q : List Job). Carries codec Fits FitsBook q p (here kept p.tables)) accepted
          (λ e. rw back refl) (λ e. rw back refl) in
      record {
        kept =
            if is_empty store.snapshot || journal.legacy
            then write_out codec p.tables kept
            else kept;
        opens = rw (v.snapshot, v.journal, was, records, again, n, asked) refl;
        first =
            if_both (λ (x : Kept). 1 ≤ x.next) (is_empty store.snapshot || journal.legacy)
              (λ e. unfold write_out in omega arith) (λ e. omega arith);
        carries =
            if_both
              (λ (x : Kept).
                FitsBook x.generation p.tables
                → Carries codec Fits FitsBook x.queue p (here x p.tables))
              (is_empty store.snapshot || journal.legacy)
              (λ e f.
                write_out-Carries codec Fits FitsBook kept p.tables p lead (unfold write_out in f))
              (λ e f. lead);
      }

  -- A start that went through was let through by the witness.
  open_sealed-asked :
      (witness : Option Witnessed) (store : FileStore) (p : Place) (r : Tables × Kept)
      → Stored codec Fits FitsBook store p
      → open_sealed codec witness store ≡ ok r
      → (accepted : Bool) × (ask_witness codec (p.generation, p.count) witness ≡ ok accepted)
  unfolding open_sealed
  open_sealed-asked witness store p r v opens =
      let (journal, was, records) =
        split-sealed_from codec Fits FitsBook law p.generation v.changes v.fit
          (omega (arith, v.counted, v.few)) in
      let n = length-sealed_from codec Fits FitsBook p.generation 1 v.changes ∙ v.counted in
      let again =
        replay_sealed-sealed_from codec Fits FitsBook law p.generation 1 v.changes v.base p.tables
          v.fit v.replayed in
      let asks = rw (v.snapshot, v.journal, was, records, again, n) at opens in
      let (accepted, asked, rest) =
        ok_bind (ask_witness codec (p.generation, p.count) witness) _ r asks in
      (accepted, asked)

  -- Each step keeps the store at a place from which the queue leads to the book.
  pub Step-Consistent :
      (s s' : System)
      → Step codec Fits FitsBook s s'
      → Consistent codec Fits FitsBook s
      → Consistent codec Fits FitsBook s'
  Step-Consistent _ _ (did t u k store cs done fit few f) v =
      let w =
        write_down-Carries codec Fits FitsBook cs k t u v.place v.carries v.first few fit done f in
      record { place = v.place; stored = v.stored; carries = w.0; first = w.1 }
  Step-Consistent _ _ (carried t k store after job jobs e taken) v =
      let c = subst (λ x. Carries codec Fits FitsBook x v.place (here k t)) e v.carries in
      let (after', r, taken', w, rest) =
        deliver-Stored codec Fits FitsBook law job jobs store v.place (here k t) v.stored c in
      let same : after' ≡ after = cc in
      record {
        place = r;
        stored = subst (λ x. Stored codec Fits FitsBook x r) same w;
        carries = rest;
        first = v.first;
      }
  Step-Consistent _ _ (started s t k witness opens f) v =
      let (accepted, asked) = open_sealed-asked witness s.store v.place (t, k) v.stored opens in
      let o = open_sealed-Stored witness s.store v.place accepted v.stored asked in
      let tables : v.place.tables ≡ t = cc (opens, o.opens) in
      let kept : o.kept ≡ k = cc (opens, o.opens) in
      let f' =
        subst (λ (x : Kept). FitsBook x.generation v.place.tables) (sym kept)
          (subst (FitsBook k.generation) (sym tables) f) in
      let c =
        subst (λ (x : Kept). Carries codec Fits FitsBook x.queue v.place (here x v.place.tables))
          kept (o.carries f') in
      record {
        place = v.place;
        stored = v.stored;
        carries = subst (λ x. Carries codec Fits FitsBook k.queue v.place (here k x)) tables c;
        first = subst (λ (x : Kept). 1 ≤ x.next) kept o.first;
      }

  -- What a host that has nothing yet stands for.
  nothing-Stored :
      Stored codec Fits FitsBook nothing (record { generation = 1; count = 0; tables = no_rows })
  nothing-Stored = record {
    base = no_rows;
    changes = [];
    snapshot = unfold read_snapshot in refl;
    journal = unfold journal_of in refl;
    fit = tt;
    counted = refl;
    few = omega arith;
    replayed = unfold replay in refl;
  }

  -- The states of the book from a first start on: transactions, deliveries and restarts in any order.
  pub data Reach : System → Type 0 where
    first_start :
        (t : Tables) (k : Kept) (witness : Option Witnessed)
        → open_sealed codec witness nothing ≡ ok (t, k)
        → FitsBook k.generation t
        → Reach (record { tables = t; kept = k; store = nothing })
    then_step : (s s' : System) → Reach s → Step codec Fits FitsBook s s' → Reach s'

  -- In every state that the book reaches from a first start by transactions, deliveries and
  -- restarts in any order, the store holds the snapshot of a generation and changes 1, 2, … of it,
  -- and the queue's jobs lead from there, each at the next place, to the book.
  pub Reach-Consistent : (s : System) → Reach s → Consistent codec Fits FitsBook s
  Reach-Consistent _ (first_start t k witness opens f) =
      let before : System = record {
        tables = no_rows;
        kept = record { generation = 1; next = 1; since = 0; queue = [] };
        store = nothing;
      } in
      Step-Consistent before _ (started before t k witness opens f) (record {
        place = record { generation = 1; count = 0; tables = no_rows };
        stored = nothing-Stored;
        carries = refl;
        first = omega arith;
      })
  Reach-Consistent _ (then_step s s' r step) = Step-Consistent s s' step (Reach-Consistent s r)

  asked_nobody : (p : Place) → ask_witness codec (p.generation, p.count) none ≡ ok false
  unfolding ask_witness
  asked_nobody p = refl

  -- The very first start.
  pub open_sealed-nothing :
      open_sealed codec none nothing
      ≡ ok (
        no_rows,
        write_out codec no_rows (record { generation = 1; next = 1; since = 0; queue = [] }),
      )
  unfolding open_sealed read_snapshot replay_sealed ask_witness
  open_sealed-nothing = rw split_nil (unfold is_empty in refl)

  -- In every state that the book reaches from a first start by transactions, deliveries and
  -- restarts in any order, each delivery taken whole, a start from the host's store as it is, the
  -- witness not asked, succeeds, with tables from which the jobs still in the queue lead to the
  -- book.
  pub open_sealed-Reach :
      (s : System)
      → Reach s
      → (found : Place) × (kept : Kept) × (open_sealed codec none s.store ≡ ok (found.tables, kept))
        × Carries codec Fits FitsBook s.kept.queue found (here s.kept s.tables)
  open_sealed-Reach s r =
      let v = Reach-Consistent s r in
      let o = open_sealed-Stored none s.store v.place false v.stored (asked_nobody v.place) in
      (v.place, o.kept, o.opens, v.carries)

  -- In every state that the book reaches from a first start by transactions, deliveries and
  -- restarts in any order, the host takes all the jobs of the queue one after the other, and a
  -- start from its store then gives the book's tables. The changes and books are those that the
  -- codec reads back, with fewer than 2 ^ 64 changes in a generation.
  pub deliver_all-open_sealed :
      (s : System)
      → Reach s
      → (after : FileStore) × (kept : Kept) × (deliver_all s.kept.queue s.store ≡ ok after)
        × (open_sealed codec none after ≡ ok (s.tables, kept))
  deliver_all-open_sealed s r =
      let v = Reach-Consistent s r in
      let (after, taken, w) =
        deliver_all-Stored codec Fits FitsBook law s.kept.queue s.store v.place
          (here s.kept s.tables) v.stored v.carries in
      let o =
        open_sealed-Stored none after (here s.kept s.tables) false w
          (asked_nobody (here s.kept s.tables)) in
      (after, o.kept, taken, o.opens)
