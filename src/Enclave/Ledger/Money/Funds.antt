-- ===== src/Enclave/Ledger/Money/Funds.antt =====
-- crates/enclave/src/ledger.rs: proofs about what a hold takes, against the balance.
use tokumai.Base.{
  ℕ, ◌+◌, ◌-◌, ◌≤◌, ◌<◌, ◌≡◌, refl, ◌∙◌, true, false, Option, none, some, List, [], ◌∷◌, String,
  arith, ltb, ◌==◌, min, inl, inr, Option-cases, if_both, lt→ltb, ==_iff, sum_of, sum_of-append,
}
use tokumai.Base.Result.{Result, ok, err}
use tokumai.Enclave.Ledger.Tables.{
  Tables, Pocket, Lot, AllowanceRow, Change, apply, draw_allowance, draw_lot, on_allowance,
}
use tokumai.Enclave.Ledger.Money.Lots.{left_in}
use tokumai.Enclave.Ledger.Money.{
  Book, Done, Draft, Hold, NotEnough, balance, draw, draw_from_allowance, draw_from_lots, draft_of,
  hold, open_lots, running_allowance,
}

-- What the parts of a hold add up to.
abbrev pub taken : List (Pocket × ℕ) → ℕ
taken = sum_of (λ (p : Pocket × ℕ). p.1)

abbrev pub allowance_in : Option AllowanceRow → ℕ
allowance_in none = 0
allowance_in (some r) = r.left

not_ltb : (n : ℕ) → ltb 0 n ≡ false → n ≡ 0
not_ltb n h = ground arith

-- What a running hold has found and what it still needs.
abbrev asked : Draft → ℕ
asked d = taken d.parts + d.need

draw-asked :
    (d : Draft) (p : Pocket) (c : Change) (take : ℕ)
    → take ≤ d.need
    → asked (draw p c take d) ≡ asked d
unfolding draw
draw-asked d p c take le =
    let e = sum_of-append (λ (p : Pocket × ℕ). p.1) d.parts ((p, take) ∷ []) in omega arith

draw_from_allowance-asked :
    (acct now_ms : ℕ) (d : Draft) → asked (draw_from_allowance acct now_ms d) ≡ asked d
unfolding draw_from_allowance
draw_from_allowance-asked acct now_ms d =
    elim (Option-cases (running_allowance acct now_ms d.tables)) [
      | inl e ↦ rw (e, draw_from_allowance) refl
      | inr (r, e) ↦
          let take = min d.need r.left in
          let one = draw-asked d Pocket.allowance (draw_allowance acct take) take (omega arith) in
          rw (e, draw_from_allowance)
            (if_both (λ x. asked x ≡ asked d) (ltb 0 take) (λ _. one) (λ _. refl))
    ]

draw_from_allowance-need :
    (acct now_ms : ℕ) (d : Draft)
    → (draw_from_allowance acct now_ms d).need
      ≡ d.need - allowance_in (running_allowance acct now_ms d.tables)
unfolding draw_from_allowance draw
draw_from_allowance-need acct now_ms d =
    elim (Option-cases (running_allowance acct now_ms d.tables)) [
      | inl e ↦ rw (e, draw_from_allowance) (omega arith)
      | inr (r, e) ↦ rw (e, draw_from_allowance) (ground arith)
    ]

pub draw_from_allowance-lots :
    (acct now_ms : ℕ) (d : Draft) → (draw_from_allowance acct now_ms d).tables.lots ≡ d.tables.lots
unfolding draw_from_allowance draw apply on_allowance
draw_from_allowance-lots acct now_ms d =
    elim (Option-cases (running_allowance acct now_ms d.tables)) [
      | inl e ↦ rw (e, draw_from_allowance) refl
      | inr (r, e) ↦ rw (e, draw_from_allowance) (ground arith)
    ]

draw_from_lots-asked : (ls : List Lot) (d : Draft) → asked (draw_from_lots ls d) ≡ asked d
unfolding draw_from_lots
draw_from_lots-asked [] d = refl
draw_from_lots-asked (l ∷ ls) d =
    let take = min d.need l.left in
    let next = draw (Pocket.lot l.id) (draw_lot l.id take) take d in
    let one = draw-asked d (Pocket.lot l.id) (draw_lot l.id take) take (omega arith) in
    if_both (λ x. asked x ≡ asked d) (d.need == 0) {x = d} (λ _. refl)
      (λ _. draw_from_lots-asked ls next ∙ one)

draw_from_lots-need : (ls : List Lot) (d : Draft) → (draw_from_lots ls d).need ≡ d.need - left_in ls
unfolding draw_from_lots
draw_from_lots-need [] d = omega arith
draw_from_lots-need (l ∷ ls) d =
    let take = min d.need l.left in
    let next = draw (Pocket.lot l.id) (draw_lot l.id take) take d in
    let step : next.need ≡ d.need - take = unfold draw in refl in
    let rest = draw_from_lots-need ls next in
    if_both (λ x. x.need ≡ d.need - left_in (l ∷ ls)) (d.need == 0) {x = d}
      {y = draw_from_lots ls next} (λ h. let z = (==_iff d.need 0).0 h in omega arith)
      (λ _. omega arith)

pub balance-total :
    (key : String → ℕ) (account : String) (now_ms : ℕ) (b : Book)
    → (balance key account now_ms b).total
      ≡ allowance_in (running_allowance (key account) now_ms b.tables)
        + left_in (open_lots (key account) now_ms b.tables.lots)
unfolding balance
balance-total key account now_ms b =
    elim (Option-cases (running_allowance (key account) now_ms b.tables)) [
      | inl e ↦ rw e refl
      | inr (r, e) ↦ rw e refl
    ]

-- A running hold ends with what the funds leave open.
pub draft_of-need :
    (key : String → ℕ) (account : String) (amount now_ms : ℕ) (b : Book)
    → (draft_of (key account) amount now_ms b.tables).need
      ≡ amount - (balance key account now_ms b).total
unfolding draft_of
draft_of-need key account amount now_ms b =
    let acct = key account in
    let start : Draft = record { tables = b.tables; parts = []; need = amount; written = [] } in
    let d = draw_from_allowance acct now_ms start in
    let e1 = draw_from_allowance-need acct now_ms start in
    let ls = open_lots acct now_ms d.tables.lots in
    let e3 = draw_from_lots-need ls d in
    let e4 : left_in ls ≡ left_in (open_lots acct now_ms b.tables.lots) =
      rw (draw_from_allowance-lots acct now_ms start) refl in
    let e5 = balance-total key account now_ms b in
    let need = amount - (balance key account now_ms b).total in
    if_both (λ x. x.need ≡ need) (ltb 0 d.need) {x = draw_from_lots ls d} {y = d} (λ _. omega arith)
      (λ h. let z = not_ltb d.need h in omega arith)

pub draft_of-asked :
    (acct amount now_ms : ℕ) (t : Tables) → asked (draft_of acct amount now_ms t) ≡ amount
unfolding draft_of
draft_of-asked acct amount now_ms t =
    let start : Draft = record { tables = t; parts = []; need = amount; written = [] } in
    let d = draw_from_allowance acct now_ms start in
    let e1 : asked d ≡ amount = draw_from_allowance-asked acct now_ms start ∙ omega arith in
    let ls = open_lots acct now_ms d.tables.lots in
    if_both (λ x. asked x ≡ amount) (ltb 0 d.need) {x = draw_from_lots ls d} {y = d}
      (λ _. draw_from_lots-asked ls d ∙ e1) (λ _. e1)

-- The outcome of a hold.
abbrev pub IsGranted : ℕ → Book → Result NotEnough (Done Hold) → Type 0
IsGranted amount b (err e) = ⊥
IsGranted amount b (ok done) =
    (done.result.amount ≡ amount)
    × (taken done.result.parts ≡ amount)
    × (done.result.id ≡ b.hold_seq + 1)
    × (done.book.hold_seq ≡ b.hold_seq + 1)

-- Where the amount is no more than the balance at that time, `hold` grants a hold of that amount
-- whose parts add up to it, with the next id.
pub hold-IsGranted :
    (key : String → ℕ) (account : String) (amount now_ms : ℕ) (b : Book)
    → amount ≤ (balance key account now_ms b).total
    → IsGranted amount b (hold key account amount now_ms b)
unfolding hold
hold-IsGranted key account amount now_ms b le =
    let d = draft_of (key account) amount now_ms b.tables in
    let n = draft_of-need key account amount now_ms b in
    let w = draft_of-asked (key account) amount now_ms b.tables in
    let z : d.need ≡ 0 = omega arith in
    if_both (IsGranted amount b) (ltb 0 d.need) (λ h. absurd (positive z h))
      (λ _. (refl, omega arith, refl, refl))
  where
    positive : {n : ℕ} → n ≡ 0 → ltb 0 n ≡ true → ⊥
    positive e h = ground arith

-- Where the amount is more than the balance at that time, `hold` refuses and names the amount and
-- the balance.
pub hold_refused :
    (key : String → ℕ) (account : String) (amount now_ms : ℕ) (b : Book)
    → (balance key account now_ms b).total < amount
    → hold key account amount now_ms b
      ≡ err (record { amount = amount; available = (balance key account now_ms b).total })
unfolding hold
hold_refused key account amount now_ms b lt =
    let d = draft_of (key account) amount now_ms b.tables in
    let n = draft_of-need key account amount now_ms b in
    let t : ltb 0 d.need ≡ true = lt→ltb 0 d.need (omega arith) in
    let a : amount - d.need ≡ (balance key account now_ms b).total = omega arith in rw (t, a) refl
