-- ===== src/Enclave/Ledger/Money/Replay.antt =====
-- crates/enclave/src/ledger.rs: the replay of what an operation wrote down, and proofs about it.
use mathlib.Core.List.{reverse}
use tokumai.Base.{
  ℕ, ◌+◌, ◌-◌, ◌≤◌, ◌≡◌, refl, ap, ◌∙◌, false, List, [], ◌∷◌, ◌++◌, String, arith, ltb, ◌==◌, min,
  inl, inr, Option-cases, if_both,
}
use tokumai.Base.Result.{Result, ok, err, ◌>>=◌}
use tokumai.Enclave.Ledger.Tables.{
  Tables, Pocket, Lot, HoldRow, Change, Conflict, apply, execute, has_lot, has_hold, insert_lot,
  insert_hold, draw_allowance, draw_lot, delete_hold,
}
use tokumai.Enclave.Ledger.Money.{
  Book, Done, Draft, Hold, credit_prepaid, draw, draw_from_allowance, draw_from_lots, draft_of,
  hold, give_back, refunds, apply_all, settle, releases_of, releases, release_open_holds, open_lots,
  running_allowance,
}

-- The loop of `open_sealed` over the records of the journal.
unfoldable pub replay : List Change → Tables → Result Conflict Tables
replay [] t = ok t
replay (c ∷ cs) t = execute c t >>= replay cs

pub replay-append :
    (cs ds : List Change) (t : Tables) → replay (cs ++ ds) t ≡ (replay cs t >>= replay ds)
unfolding replay
replay-append [] ds t = refl
replay-append (c ∷ cs) ds t = go (execute c t) (replay-append cs ds)
  where
    go :
        (r : Result Conflict Tables)
        → ((u : Tables) → replay (cs ++ ds) u ≡ (replay cs u >>= replay ds))
        → (r >>= replay (cs ++ ds)) ≡ (r >>= replay cs >>= replay ds)
    go (ok u) later = later u
    go (err e) later = refl

apply_all-append :
    (cs ds : List Change) (t : Tables) → apply_all (cs ++ ds) t ≡ apply_all ds (apply_all cs t)
unfolding apply_all
apply_all-append [] ds t = refl
apply_all-append (c ∷ cs) ds t = apply_all-append cs ds (apply c t)

-- A change that names no new primary key.
abbrev IsPlain : Change → Type 0
IsPlain (insert_lot l) = ⊥
IsPlain (insert_hold id acct parts) = ⊥
IsPlain _ = Unit

abbrev AllPlain : List Change → Type 0
AllPlain [] = Unit
AllPlain (c ∷ cs) = IsPlain c × AllPlain cs

execute_plain : (c : Change) (t : Tables) → IsPlain c → execute c t ≡ ok (apply c t)
unfolding execute
execute_plain (insert_lot l) t p = absurd p
execute_plain (insert_hold id acct parts) t p = absurd p
execute_plain _ t p = refl

replay_plain : (cs : List Change) (t : Tables) → AllPlain cs → replay cs t ≡ ok (apply_all cs t)
unfolding replay apply_all
replay_plain [] t p = refl
replay_plain (c ∷ cs) t p = rw (execute_plain c t p.0) (replay_plain cs (apply c t) p.1)

AllPlain-append : (cs ds : List Change) → AllPlain cs → AllPlain ds → AllPlain (cs ++ ds)
AllPlain-append [] ds p q = q
AllPlain-append (c ∷ cs) ds p q = (p.0, AllPlain-append cs ds p.1 q)

-- The counters are ahead of every id in use.
abbrev LotsBelow : ℕ → List Lot → Type 0
LotsBelow n [] = Unit
LotsBelow n (l ∷ ls) = (l.id ≤ n) × LotsBelow n ls

abbrev HoldsBelow : ℕ → List HoldRow → Type 0
HoldsBelow n [] = Unit
HoldsBelow n (h ∷ hs) = (h.id ≤ n) × HoldsBelow n hs

pub record IsFresh (b : Book) : Type 0 where
  pub lots : LotsBelow b.lot_seq b.tables.lots
  pub holds : HoldsBelow b.hold_seq b.tables.holds

has_lot_fresh : (n : ℕ) (ls : List Lot) → LotsBelow n ls → has_lot (n + 1) ls ≡ false
unfolding has_lot
has_lot_fresh n [] p = refl
has_lot_fresh n (l ∷ ls) p = ground (arith, has_lot_fresh n ls p.1)

has_hold_fresh : (n : ℕ) (hs : List HoldRow) → HoldsBelow n hs → has_hold (n + 1) hs ≡ false
unfolding has_hold
has_hold_fresh n [] p = refl
has_hold_fresh n (h ∷ hs) p = ground (arith, has_hold_fresh n hs p.1)

-- What a running hold has written down leads to its tables, and adds no hold.
record IsDraft (t : Tables) (d : Draft) : Type 0 where
  reached : apply_all d.written t ≡ d.tables
  plain : AllPlain d.written
  holds : d.tables.holds ≡ t.holds

draw-IsDraft :
    (t : Tables) (d : Draft) (p : Pocket) (c : Change) (take : ℕ)
    → IsPlain c
    → (apply c d.tables).holds ≡ d.tables.holds
    → IsDraft t d
    → IsDraft t (draw p c take d)
unfolding draw
draw-IsDraft t d p c take pc same v = record {
  reached = apply_all-append d.written (c ∷ []) t ∙ (unfold apply_all in ap (apply c) v.reached);
  plain = AllPlain-append d.written (c ∷ []) v.plain (pc, tt);
  holds = same ∙ v.holds;
}

allowance-IsDraft :
    (t : Tables) (acct now_ms : ℕ) (d : Draft)
    → IsDraft t d
    → IsDraft t (draw_from_allowance acct now_ms d)
unfolding draw_from_allowance
allowance-IsDraft t acct now_ms d v = elim (Option-cases (running_allowance acct now_ms d.tables)) [
  | inl e ↦ rw (e, draw_from_allowance) v
  | inr (r, e) ↦
      let c = draw_allowance acct (min d.need r.left) in
      rw (e, draw_from_allowance)
        (if_both (IsDraft t) (ltb 0 (min d.need r.left))
          (λ _. draw-IsDraft t d Pocket.allowance c (min d.need r.left) tt (unfold apply in refl) v)
          (λ _. v))
]

lots-IsDraft :
    (t : Tables) (ls : List Lot) (d : Draft) → IsDraft t d → IsDraft t (draw_from_lots ls d)
unfolding draw_from_lots
lots-IsDraft t [] d v = v
lots-IsDraft t (l ∷ ls) d v =
    if_both (IsDraft t) (d.need == 0) (λ _. v)
      (λ _.
        lots-IsDraft t ls _
          (draw-IsDraft t d _ (draw_lot l.id (min d.need l.left)) _ tt (unfold apply in refl) v))

draft_of-IsDraft : (acct amount now_ms : ℕ) (t : Tables) → IsDraft t (draft_of acct amount now_ms t)
unfolding draft_of
draft_of-IsDraft acct amount now_ms t =
    let start : Draft = record { tables = t; parts = []; need = amount; written = [] } in
    let v : IsDraft t start = record {
      reached = unfold apply_all in refl;
      plain = tt;
      holds = refl;
    } in
    let w = allowance-IsDraft t acct now_ms start v in
    let d = draw_from_allowance acct now_ms start in
    let ls = open_lots acct now_ms d.tables.lots in
    if_both (IsDraft t) (ltb 0 d.need) {x = draw_from_lots ls d} (λ _. lots-IsDraft t ls d w)
      (λ _. w)

-- Where no lot or hold has an id above its counter and `hold` grants, replaying the changes that it
-- wrote down over the tables before it succeeds and gives the tables after it.
pub replay-hold :
    (key : String → ℕ) (account : String) (amount now_ms : ℕ) (b : Book) (done : Done Hold)
    → IsFresh b
    → hold key account amount now_ms b ≡ ok done
    → replay done.written b.tables ≡ ok done.book.tables
unfolding hold
replay-hold key account amount now_ms b done fresh h =
    let d = draft_of (key account) amount now_ms b.tables in
    let v = draft_of-IsDraft (key account) amount now_ms b.tables in
    let c = insert_hold (b.hold_seq + 1) (key account) d.parts in
    let free : has_hold (b.hold_seq + 1) d.tables.holds ≡ false =
      rw v.holds (has_hold_fresh b.hold_seq b.tables.holds fresh.holds) in
    let inserted : execute c d.tables ≡ ok (apply c d.tables) = unfold execute in rw free in
    let ew : done.written ≡ d.written ++ c ∷ [] = ground arith in
    let eb : done.book.tables ≡ apply c d.tables = ground arith in
    rw (ew, eb, replay-append, replay_plain d.written b.tables v.plain, v.reached)
      (unfold replay in rw inserted refl)

refunds_plain :
    (acct : ℕ) (parts : List (Pocket × ℕ)) (refund : ℕ) → AllPlain (refunds acct refund parts)
unfolding refunds give_back
refunds_plain acct [] refund = tt
refunds_plain acct ((Pocket.allowance, took) ∷ parts) refund =
    if_both AllPlain (refund == 0) (λ _. tt)
      (λ _. (tt, refunds_plain acct parts (refund - min refund took)))
refunds_plain acct ((Pocket.lot id, took) ∷ parts) refund =
    if_both AllPlain (refund == 0) (λ _. tt)
      (λ _. (tt, refunds_plain acct parts (refund - min refund took)))

-- Replaying the changes that `settle` wrote down over the tables before it succeeds and gives the
-- tables after it.
pub replay-settle :
    (key : String → ℕ) (h : Hold) (cost : ℕ) (b : Book)
    → let done = settle key h cost b in replay done.written b.tables ≡ ok done.book.tables
unfolding settle
replay-settle key h cost b = replay_plain _ b.tables (
    AllPlain-append _ (delete_hold h.id ∷ [])
      (refunds_plain (key h.account) (reverse h.parts) (h.amount - min cost h.amount)) (tt, tt))

releases_of_plain : (acct : ℕ) (parts : List (Pocket × ℕ)) → AllPlain (releases_of acct parts)
unfolding releases_of give_back
releases_of_plain acct [] = tt
releases_of_plain acct ((Pocket.allowance, took) ∷ parts) = (tt, releases_of_plain acct parts)
releases_of_plain acct ((Pocket.lot id, took) ∷ parts) = (tt, releases_of_plain acct parts)

releases_plain : (hs : List HoldRow) → AllPlain (releases hs)
unfolding releases
releases_plain [] = tt
releases_plain (h ∷ hs) =
    AllPlain-append (releases_of h.acct h.parts) (delete_hold h.id ∷ releases hs)
      (releases_of_plain h.acct h.parts) (tt, releases_plain hs)

-- So does the release of the holds that a stop left open.
pub replay-release_open_holds :
    (b : Book)
    → let done = release_open_holds b in replay done.written b.tables ≡ ok done.book.tables
unfolding release_open_holds
replay-release_open_holds b = replay_plain _ b.tables (releases_plain b.tables.holds)

-- Where no lot or hold has an id above its counter, replaying the change that `credit_prepaid`
-- wrote down over the tables before it succeeds and gives the tables after it.
pub replay-credit_prepaid :
    (key : String → ℕ) (account : String) (toku now_ms : ℕ) (b : Book)
    → IsFresh b
    → let done = credit_prepaid key account toku now_ms b in
      replay done.written b.tables ≡ ok done.book.tables
unfolding credit_prepaid replay execute
replay-credit_prepaid key account toku now_ms b fresh =
    rw (has_lot_fresh b.lot_seq b.tables.lots fresh.lots) refl
