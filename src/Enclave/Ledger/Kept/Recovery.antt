-- ===== src/Enclave/Ledger/Kept/Recovery.antt =====
-- crates/enclave/src/ledger.rs: proofs about the book that is at work while its writer carries the
-- changes away, stops at any moment, and starts again from what the host has.
use tokumai.Base.{
  ℕ, ◌+◌, ◌-◌, ◌^◌, ◌≤◌, ◌≡◌, refl, Option, List, [], ◌∷◌, length, arith, if_both, ◌++◌, leb,
}
use mathlib.Core.Path.{subst}
use tokumai.Base.Result.{ok}
use tokumai.Enclave.State.{FileStore}
use tokumai.Enclave.Witness.{Witnessed}
use tokumai.Enclave.Ledger.Tables.{Tables, Change, execute}
use tokumai.Enclave.Ledger.Money.Replay.{replay}
use tokumai.Base.Result.{ok_bind}
use tokumai.Enclave.Ledger.Kept.{
  Codec, Kept, Job, deliver, queue_all, write_out, write_down, seal_record, open_sealed,
  changes_per_snapshot,
}
use tokumai.Enclave.Ledger.Kept.Carried.{Place, AllFit, Carries, Carries-append, Stored}

-- The book at work, and what the host has of it.
pub record System : Type 0 where
  pub tables : Tables
  pub kept : Kept
  pub store : FileStore

-- Where everything that is queued leads to.
abbrev pub here : Kept → Tables → Place
here k t = record { generation = k.generation; count = k.next - 1; tables = t }

module _ (codec : Codec) (Fits : Change → Type 0) (FitsBook : ℕ → Tables → Type 0) where
  -- A transaction of the book, a job that the host took, or a start from what the host has.
  pub data Step : System → System → Type 0 where
    did :
        (t u : Tables) (k : Kept) (store : FileStore) (cs : List Change)
        → replay cs t ≡ ok u
        → AllFit codec Fits FitsBook cs
        → k.next + length cs ≤ 2 ^ 64
        → FitsBook (k.generation + 1) u
        → Step
            (record { tables = t; kept = k; store = store })
            (record { tables = u; kept = write_down codec cs u k; store = store })
    carried :
        (t : Tables) (k : Kept) (store after : FileStore) (job : Job) (jobs : List Job)
        → k.queue ≡ job ∷ jobs
        → deliver job store ≡ ok after
        → Step
            (record { tables = t; kept = k; store = store })
            (record { tables = t; kept = record k { queue = jobs }; store = after })
    started :
        (s : System) (t : Tables) (k : Kept) (witness : Option Witnessed)
        → open_sealed codec witness s.store ≡ ok (t, k)
        → FitsBook k.generation t
        → Step s (record { tables = t; kept = k; store = s.store })

  -- The store holds a place from which the queue leads to the book.
  pub record Consistent (s : System) : Type 0 where
    pub place : Place
    pub stored : Stored codec Fits FitsBook s.store place
    pub carries : Carries codec Fits FitsBook s.kept.queue place (here s.kept s.tables)
    pub first : 1 ≤ s.kept.next

  -- What the loop of `write_down` leaves.
  record Queued (p : Place) (k k' : Kept) (u : Tables) (n : ℕ) : Type 0 where
    carries : Carries codec Fits FitsBook k'.queue p (here k' u)
    next : k'.next ≡ k.next + n
    generation : k'.generation ≡ k.generation

  queue_all-Queued :
      (cs : List Change) (k : Kept) (t u : Tables) (p : Place)
      → Carries codec Fits FitsBook k.queue p (here k t)
      → 1 ≤ k.next
      → k.next + length cs ≤ 2 ^ 64
      → AllFit codec Fits FitsBook cs
      → replay cs t ≡ ok u
      → Queued p k (queue_all codec cs k) u (length cs)
  unfolding queue_all replay
  queue_all-Queued [] k t u p c first few fit e =
      let same : t ≡ u = cc in
      record {
        carries = subst (λ x. Carries codec Fits FitsBook k.queue p (here k x)) same c;
        next = omega arith;
        generation = refl;
      }
  queue_all-Queued (x ∷ cs) k t u p c first few fit e =
      let (t', done, rest) = ok_bind (execute x t) (replay cs) u e in
      let job = seal_record codec x k in
      let k' : Kept = record k {
        next = k.next + 1;
        since = k.since + 1;
        queue = k.queue ++ job ∷ [];
      } in
      let n : k.next - 1 + 1 ≡ k.next + 1 - 1 = omega arith in
      let one : Carries codec Fits FitsBook (job ∷ []) (here k t) (here k' t') =
        unfold seal_record in
        (x, t', refl, omega arith, omega arith, refl, fit.0, done, rw n refl) in
      let q =
        queue_all-Queued cs k' t' u p
          (Carries-append codec Fits FitsBook k.queue (job ∷ []) p (here k t) (here k' t') c one)
          (omega arith) (omega arith) fit.1 rest in
      record { carries = q.carries; next = omega (arith, q.next); generation = q.generation }

  pub write_out-Carries :
      (k : Kept) (t : Tables) (p : Place)
      → Carries codec Fits FitsBook k.queue p (here k t)
      → FitsBook (k.generation + 1) t
      → Carries codec Fits FitsBook (write_out codec t k).queue p (here (write_out codec t k) t)
  unfolding write_out
  write_out-Carries k t p c f =
      Carries-append codec Fits FitsBook k.queue _ p (here k t) _ c (refl, refl, f, refl)

  pub write_down-Carries :
      (cs : List Change) (k : Kept) (t u : Tables) (p : Place)
      → Carries codec Fits FitsBook k.queue p (here k t)
      → 1 ≤ k.next
      → k.next + length cs ≤ 2 ^ 64
      → AllFit codec Fits FitsBook cs
      → replay cs t ≡ ok u
      → FitsBook (k.generation + 1) u
      → Carries codec Fits FitsBook
          (write_down codec cs u k).queue
          p
          (here (write_down codec cs u k) u)
        × (1 ≤ (write_down codec cs u k).next)
  unfolding write_down
  write_down-Carries cs k t u p c first few fit e f =
      let q = queue_all-Queued cs k t u p c first few fit e in
      let f' : FitsBook ((queue_all codec cs k).generation + 1) u = rw q.generation f in
      let folded = write_out-Carries (queue_all codec cs k) u p q.carries f' in
      if_both (λ (x : Kept). Carries codec Fits FitsBook x.queue p (here x u) × (1 ≤ x.next))
        (leb changes_per_snapshot (queue_all codec cs k).since)
        (λ b. (folded, unfold write_out in omega arith)) (λ b. (q.carries, omega (arith, q.next)))
