-- ===== src/Enclave/Ledger/Money/Drawn.antt =====
-- crates/enclave/src/ledger.rs: proofs about the funds of an account while a hold takes its parts.
use tokumai.Base.{
  ℕ, ◌+◌, ◌-◌, ◌≤◌, ◌≡◌, refl, ap, false, some, List, [], ◌∷◌, ◌++◌, arith, ltb, ◌==◌, if_both, inl,
  inr, sum_of, sum_of-append, Option-cases, min,
}
use tokumai.Base.Dict.{lookup-update}
use tokumai.Enclave.Ledger.Tables.{
  Tables, Pocket, Lot, AllowanceRow, apply, on_lot, has_lot, on_allowance, draw_allowance, draw_lot,
}
use tokumai.Enclave.Ledger.Money.{
  Draft, draw, draw_from_allowance, draw_from_lots, draft_of, open_lots, running_allowance,
}
use tokumai.Enclave.Ledger.Money.Funds.{taken, allowance_in, draw_from_allowance-lots}
use tokumai.Enclave.Ledger.Money.Lots.{
  counts, Payable, Payable-draw, Payable-other, Payable-any, Distinct, AllPayable,
  open_lots-AllPayable,
}

module _ (acct now_ms : ℕ) where
  -- What the account can pay with at this time.
  abbrev pub funds : Tables → ℕ
  funds t = allowance_in (running_allowance acct now_ms t) + sum_of (counts acct now_ms) t.lots

  pub running_allowance-on_allowance :
      (f : AllowanceRow → AllowanceRow) (t : Tables) (r : AllowanceRow)
      → running_allowance acct now_ms t ≡ some r
      → (f r).ends_ms ≡ r.ends_ms
      → running_allowance acct now_ms (on_allowance acct f t) ≡ some (f r)
  unfolding running_allowance on_allowance
  running_allowance-on_allowance f t r e same =
      ground (arith, lookup-update acct acct f t.allowances, same, e)

  -- The pockets that parts of a hold came from are still there.
  abbrev pub Returnable : List (Pocket × ℕ) → Tables → Type 0
  Returnable [] t = Unit
  Returnable ((Pocket.allowance, n) ∷ ps) t =
      ((r : AllowanceRow) × (running_allowance acct now_ms t ≡ some r)) × Returnable ps t
  Returnable ((Pocket.lot id, n) ∷ ps) t = Payable acct now_ms id 0 t.lots × Returnable ps t

  -- Every pocket of one table that can take money back can do so in another.
  pub record Stays (t u : Tables) : Type 0 where
    pub lots : (id : ℕ) → Payable acct now_ms id 0 t.lots → Payable acct now_ms id 0 u.lots
    pub row :
        (r : AllowanceRow)
        → running_allowance acct now_ms t ≡ some r
        → (s : AllowanceRow) × (running_allowance acct now_ms u ≡ some s)

  pub Returnable-Stays :
      (ps : List (Pocket × ℕ)) (t u : Tables) → Stays t u → Returnable ps t → Returnable ps u
  Returnable-Stays [] t u s r = tt
  Returnable-Stays ((Pocket.allowance, n) ∷ ps) t u s r =
      (s.row r.0.0 r.0.1, Returnable-Stays ps t u s r.1)
  Returnable-Stays ((Pocket.lot id, n) ∷ ps) t u s r =
      (s.lots id r.0, Returnable-Stays ps t u s r.1)

  pub Returnable-append :
      (ps qs : List (Pocket × ℕ)) (t : Tables)
      → Returnable ps t
      → Returnable qs t
      → Returnable (ps ++ qs) t
  Returnable-append [] qs t r s = s
  Returnable-append ((Pocket.allowance, n) ∷ ps) qs t r s = (r.0, Returnable-append ps qs t r.1 s)
  Returnable-append ((Pocket.lot id, n) ∷ ps) qs t r s = (r.0, Returnable-append ps qs t r.1 s)

  pub lot-Stays :
      (id : ℕ) (f : ℕ → ℕ) (t : Tables) → Stays t (record t { lots = on_lot id f t.lots })
  lot-Stays id f t = record {
    lots = λ i p. Payable-any acct now_ms i 0 id f t.lots p;
    row = λ r e. (r, unfold running_allowance in e);
  }

  pub allowance-Stays :
      (f : AllowanceRow → AllowanceRow) (t : Tables)
      → ((r : AllowanceRow) → (f r).ends_ms ≡ r.ends_ms)
      → Stays t (on_allowance acct f t)
  allowance-Stays f t same = record {
    lots = λ i p. unfold on_allowance in p;
    row = λ r e. (f r, running_allowance-on_allowance f t r e (same r));
  }

  -- A running hold: what it took and what is left are the funds of the start, and what it took can go
  -- back.
  pub record Holding (start : ℕ) (d : Draft) : Type 0 where
    pub whole : funds d.tables + taken d.parts ≡ start
    pub parts : Returnable d.parts d.tables

  weaken :
      (id n m : ℕ) (ls : List Lot)
      → m ≤ n
      → Payable acct now_ms id n ls
      → Payable acct now_ms id m ls
  weaken id n m [] le p = absurd p
  weaken id n m (l ∷ ls) le (inl p) = inl (p.0, p.1, p.2, omega arith, p.4)
  weaken id n m (l ∷ ls) le (inr p) = inr (p.0, weaken id n m ls le p.1)

  -- One lot's part.
  draw_lot-Holding :
      (start : ℕ) (d : Draft) (l : Lot) (take : ℕ)
      → Holding start d
      → take ≤ l.left
      → Payable acct now_ms l.id l.left d.tables.lots
      → Holding start (draw (Pocket.lot l.id) (draw_lot l.id take) take d)
  unfolding draw apply
  draw_lot-Holding start d l take v le p =
      let t = d.tables in
      let u = record t { lots = on_lot l.id (λ left. left - take) t.lots } in
      let same : running_allowance acct now_ms u ≡ running_allowance acct now_ms t =
        unfold running_allowance in refl in
      let less = Payable-draw acct now_ms l.id take t.lots (weaken l.id l.left take t.lots le p) in
      let more = sum_of-append (λ (q : Pocket × ℕ). q.1) d.parts ((Pocket.lot l.id, take) ∷ []) in
      record {
        whole = rw same (omega (arith, v.whole));
        parts =
            Returnable-append d.parts ((Pocket.lot l.id, take) ∷ []) u
              (Returnable-Stays d.parts t u (lot-Stays l.id (λ left. left - take) t) v.parts)
              (Payable-any acct now_ms l.id l.left l.id (λ left. left - take) t.lots p, tt);
      }

  AllPayable-other :
      (id : ℕ) (f : ℕ → ℕ) (os ls : List Lot)
      → has_lot id os ≡ false
      → AllPayable acct now_ms os ls
      → AllPayable acct now_ms os (on_lot id f ls)
  unfolding has_lot
  AllPayable-other id f [] ls new p = tt
  AllPayable-other id f (o ∷ os) ls new p = (
    Payable-other acct now_ms o.id o.left id f ls clash p.0,
    AllPayable-other id f os ls (ground arith) p.1,
  )
    where
      clash : id ≡ o.id → ⊥
      clash e = ground arith

  draw_from_lots-Holding :
      (start : ℕ) (os : List Lot) (d : Draft)
      → Holding start d
      → AllPayable acct now_ms os d.tables.lots
      → Distinct os
      → Holding start (draw_from_lots os d)
  unfolding draw_from_lots
  draw_from_lots-Holding start [] d v p distinct = v
  draw_from_lots-Holding start (l ∷ ls) d v p distinct =
      let take = min d.need l.left in
      let next = draw (Pocket.lot l.id) (draw_lot l.id take) take d in
      let w = draw_lot-Holding start d l take v (omega arith) p.0 in
      let rest = AllPayable-other l.id (λ left. left - take) ls d.tables.lots distinct.0 p.1 in
      if_both (Holding start) (d.need == 0) {x = d} (λ _. v)
        (λ _. draw_from_lots-Holding start ls next w (unfold draw apply in rest) distinct.1)

  -- The allowance's part.
  draw_allowance-Holding :
      (start : ℕ) (d : Draft) (r : AllowanceRow) (take : ℕ)
      → Holding start d
      → take ≤ r.left
      → running_allowance acct now_ms d.tables ≡ some r
      → Holding start (draw Pocket.allowance (draw_allowance acct take) take d)
  unfolding draw apply
  draw_allowance-Holding start d r take v le e =
      let f : AllowanceRow → AllowanceRow = λ x. record x { left = x.left - take } in
      let t = d.tables in
      let u = on_allowance acct f t in
      let after : running_allowance acct now_ms u ≡ some (f r) =
        running_allowance-on_allowance f t r e refl in
      let lots : u.lots ≡ t.lots = unfold on_allowance in refl in
      let before : allowance_in (running_allowance acct now_ms t) ≡ r.left = ap allowance_in e in
      let more = sum_of-append (λ (q : Pocket × ℕ). q.1) d.parts ((Pocket.allowance, take) ∷ []) in
      record {
        whole = rw (after, lots) (omega (arith, v.whole));
        parts =
            Returnable-append d.parts ((Pocket.allowance, take) ∷ []) u
              (Returnable-Stays d.parts t u (allowance-Stays f t (λ x. refl)) v.parts)
              ((f r, after), tt);
      }

  draw_from_allowance-Holding :
      (start : ℕ) (d : Draft) → Holding start d → Holding start (draw_from_allowance acct now_ms d)
  unfolding draw_from_allowance
  draw_from_allowance-Holding start d v =
      elim (Option-cases (running_allowance acct now_ms d.tables)) [
        | inl e ↦ rw (e, draw_from_allowance) v
        | inr (r, e) ↦
            let take = min d.need r.left in
            rw (e, draw_from_allowance)
              (if_both (Holding start) (ltb 0 take) {y = d}
                (λ _. draw_allowance-Holding start d r take v (omega arith) e) (λ _. v))
      ]

  pub draft_of-Holding :
      (amount : ℕ) (t : Tables)
      → Distinct t.lots
      → Holding (funds t) (draft_of acct amount now_ms t)
  unfolding draft_of
  draft_of-Holding amount t distinct =
      let start : Draft = record { tables = t; parts = []; need = amount; written = [] } in
      let d = draw_from_allowance acct now_ms start in
      let v =
        draw_from_allowance-Holding (funds t) start (record { whole = omega arith; parts = tt }) in
      let same : d.tables.lots ≡ t.lots = draw_from_allowance-lots acct now_ms start in
      let (p, ds) = open_lots-AllPayable acct now_ms d.tables.lots (rw same distinct) in
      if_both (Holding (funds t)) (ltb 0 d.need)
        {x = draw_from_lots (open_lots acct now_ms d.tables.lots) d} {y = d}
        (λ _. draw_from_lots-Holding (funds t) (open_lots acct now_ms d.tables.lots) d v p ds)
        (λ _. v)
