-- ===== src/Enclave/Ledger/Money/Conserved.antt =====
-- crates/enclave/src/ledger.rs: proofs that TOKU neither appear nor vanish between a hold and its
-- settlement.
use mathlib.Core.List.{reverse, reverse_aux}
use mathlib.Core.Path.{subst}
use tokumai.Base.{
  ℕ, ◌+◌, ◌-◌, ◌≡◌, refl, sym, ap, ◌∙◌, some, List, [], ◌∷◌, ◌++◌, String, arith, ltb, ◌==◌,
  if_both, inl, inr, Bool-cases, min,
}
use tokumai.Base.Result.{Result, ok, err}
use tokumai.Enclave.Ledger.Tables.{
  Tables, Pocket, AllowanceRow, Change, apply, on_lot, on_allowance, insert_hold, delete_hold,
}
use tokumai.Enclave.Ledger.Money.{
  Book, Done, Hold, NotEnough, balance, draft_of, hold, running_allowance, give_back, refunds,
  apply_all, settle,
}
use tokumai.Enclave.Ledger.Money.Funds.{taken, allowance_in, balance-total, draft_of-asked}
use tokumai.Enclave.Ledger.Money.Settling.{
  give_back-returned, refunds-returned, taken-reverse_aux, apply_all-append, returned_by,
}
use tokumai.Enclave.Ledger.Money.Lots.{open_lots-left_in, Payable-return, Distinct}
use tokumai.Enclave.Ledger.Money.Drawn.{
  funds, running_allowance-on_allowance, Returnable, Stays, Returnable-Stays, lot-Stays,
  allowance-Stays, draft_of-Holding,
}

module _ (acct now_ms : ℕ) where
  -- One part goes back.
  give_back-funds :
      (p : Pocket) (n took : ℕ) (t : Tables)
      → Returnable acct now_ms ((p, took) ∷ []) t
      → (funds acct now_ms (apply (give_back acct p n) t) ≡ funds acct now_ms t + n)
        × Stays acct now_ms t (apply (give_back acct p n) t)
  unfolding give_back apply
  give_back-funds Pocket.allowance n took t r =
      let (x, e) = r.0 in
      let f : AllowanceRow → AllowanceRow = λ y. record y { left = y.left + n } in
      let after : running_allowance acct now_ms (on_allowance acct f t) ≡ some (f x) =
        running_allowance-on_allowance acct now_ms f t x e refl in
      let lots : (on_allowance acct f t).lots ≡ t.lots = unfold on_allowance in refl in
      let before : allowance_in (running_allowance acct now_ms t) ≡ x.left = ap allowance_in e in
      (rw (after, lots) (omega arith), allowance-Stays acct now_ms f t (λ y. refl))
  give_back-funds (Pocket.lot id) n took t r =
      let u = record t { lots = on_lot id (λ left. left + n) t.lots } in
      let same : running_allowance acct now_ms u ≡ running_allowance acct now_ms t =
        unfold running_allowance in refl in
      let more = Payable-return acct now_ms id 0 n t.lots r.0 in
      (rw same (omega arith), lot-Stays acct now_ms id (λ left. left + n) t)

  refunds-funds :
      (parts : List (Pocket × ℕ)) (refund : ℕ) (t : Tables)
      → Returnable acct now_ms parts t
      → funds acct now_ms (apply_all (refunds acct refund parts) t)
        ≡ funds acct now_ms t + returned_by (refunds acct refund parts)
  unfolding refunds apply_all
  refunds-funds [] refund t r = omega arith
  refunds-funds ((p, took) ∷ parts) refund t r =
      let back = min refund took in
      let u = apply (give_back acct p back) t in
      let more = refunds acct (refund - back) parts in
      let (paid, stays) = give_back-funds p back took t (first p r) in
      let rest =
        refunds-funds parts (refund - back) u
          (Returnable-Stays acct now_ms parts t u stays (others p r)) in
      let one = give_back-returned acct p back in
      if_both
        (λ (cs : List Change).
          funds acct now_ms (apply_all cs t) ≡ funds acct now_ms t + returned_by cs)
        (refund == 0) {x = []} {y = give_back acct p back ∷ more} (λ _. omega arith)
        (λ _. omega arith)
    where
      first :
          (q : Pocket)
          → Returnable acct now_ms ((q, took) ∷ parts) t
          → Returnable acct now_ms ((q, took) ∷ []) t
      first Pocket.allowance x = (x.0, tt)
      first (Pocket.lot id) x = (x.0, tt)

      others :
          (q : Pocket)
          → Returnable acct now_ms ((q, took) ∷ parts) t
          → Returnable acct now_ms parts t
      others Pocket.allowance x = x.1
      others (Pocket.lot id) x = x.1

  Returnable-reverse_aux :
      (ps qs : List (Pocket × ℕ)) (t : Tables)
      → Returnable acct now_ms ps t
      → Returnable acct now_ms qs t
      → Returnable acct now_ms (reverse_aux ps qs) t
  Returnable-reverse_aux [] qs t r s = s
  Returnable-reverse_aux ((Pocket.allowance, n) ∷ ps) qs t r s =
      Returnable-reverse_aux ps ((Pocket.allowance, n) ∷ qs) t r.1 (r.0, s)
  Returnable-reverse_aux ((Pocket.lot id, n) ∷ ps) qs t r s =
      Returnable-reverse_aux ps ((Pocket.lot id, n) ∷ qs) t r.1 (r.0, s)

  -- What a granted hold leaves.
  record IsHeld (who : String) (amount : ℕ) (t : Tables) (done : Done Hold) : Type 0 where
    owner : done.result.account ≡ who
    held : done.result.amount ≡ amount
    whole : taken done.result.parts ≡ amount
    left : funds acct now_ms done.book.tables + amount ≡ funds acct now_ms t
    parts : Returnable acct now_ms done.result.parts done.book.tables

  -- The row of the hold itself is no money.
  hold_row-Stays :
      (id acct' : ℕ) (ps : List (Pocket × ℕ)) (t : Tables)
      → Stays acct now_ms t (apply (insert_hold id acct' ps) t)
  hold_row-Stays id acct' ps t = record {
    lots = λ i p. unfold apply in p;
    row = λ r e. (r, unfold apply running_allowance in e);
  }

  hold_row-funds :
      (id acct' : ℕ) (ps : List (Pocket × ℕ)) (t : Tables)
      → funds acct now_ms (apply (insert_hold id acct' ps) t) ≡ funds acct now_ms t
  unfolding apply running_allowance
  hold_row-funds id acct' ps t = refl

  delete_hold-funds :
      (id : ℕ) (t : Tables) → funds acct now_ms (apply (delete_hold id) t) ≡ funds acct now_ms t
  unfolding apply running_allowance
  delete_hold-funds id t = refl

balance-funds :
    (key : String → ℕ) (account : String) (now_ms : ℕ) (b : Book)
    → (balance key account now_ms b).total ≡ funds (key account) now_ms b.tables
balance-funds key account now_ms b =
    balance-total key account now_ms b
    ∙ ap (λ (n : ℕ). allowance_in (running_allowance (key account) now_ms b.tables) + n)
        (open_lots-left_in (key account) now_ms b.tables.lots)

hold-IsHeld :
    (key : String → ℕ) (account : String) (amount now_ms : ℕ) (b : Book) (done : Done Hold)
    → Distinct b.tables.lots
    → hold key account amount now_ms b ≡ ok done
    → IsHeld (key account) now_ms account amount b.tables done
unfolding hold
hold-IsHeld key account amount now_ms b done distinct e =
    let acct = key account in
    let d = draft_of acct amount now_ms b.tables in
    let v = draft_of-Holding acct now_ms amount b.tables distinct in
    let w = draft_of-asked acct amount now_ms b.tables in
    let id = b.hold_seq + 1 in
    let c = insert_hold id acct d.parts in
    let made : Done Hold = record {
      result = record { id = id; account = account; amount = amount; parts = d.parts };
      book = record b { tables = apply c d.tables; hold_seq = id };
      written = d.written ++ c ∷ [];
    } in
    elim (Bool-cases (ltb 0 d.need)) [
      | inl short ↦ absurd (refused (rw short at e))
      | inr enough ↦
          let same : made ≡ done = granted (rw enough at e) in
          let n : d.need ≡ 0 = ground (arith, enough) in
          subst (IsHeld acct now_ms account amount b.tables) same (record {
            owner = refl;
            held = refl;
            whole = omega (arith, n, w);
            left =
                omega (arith, n, w, v.whole, hold_row-funds acct now_ms id acct d.parts d.tables);
            parts =
                Returnable-Stays acct now_ms d.parts d.tables _
                  (hold_row-Stays acct now_ms id acct d.parts d.tables) v.parts;
          })
    ]
  where
    refused : {x : NotEnough} → err x ≡ ok done → ⊥
    refused x = cc

    granted : {m : Done Hold} → ◌≡◌ {A = Result NotEnough (Done Hold)} (ok m) (ok done) → m ≡ done
    granted x = cc

settle-funds :
    (key : String → ℕ) (now_ms cost : ℕ) (h : Hold) (b : Book)
    → taken h.parts ≡ h.amount
    → Returnable (key h.account) now_ms h.parts b.tables
    → funds (key h.account) now_ms (settle key h cost b).book.tables + (settle key h cost b).result
      ≡ funds (key h.account) now_ms b.tables + h.amount
unfolding settle
settle-funds key now_ms cost h b whole r =
    let acct = key h.account in
    let refund = h.amount - min cost h.amount in
    let cs = refunds acct refund (reverse h.parts) in
    let back =
      refunds-funds acct now_ms (reverse h.parts) refund b.tables
        (Returnable-reverse_aux acct now_ms h.parts [] b.tables r tt) in
    let e1 = refunds-returned acct (reverse h.parts) refund in
    let e2 = taken-reverse_aux h.parts [] in
    let two = apply_all-append cs (delete_hold h.id ∷ []) b.tables in
    let done = delete_hold-funds acct now_ms h.id (apply_all cs b.tables) in
    let last : funds acct now_ms (apply_all (cs ++ delete_hold h.id ∷ []) b.tables)
        ≡ funds acct now_ms (apply_all cs b.tables) =
      ap (funds acct now_ms) two ∙ (unfold apply_all in done) in
    omega (arith, last, back, e1, e2, whole)

-- Where no two lots have the same id and `hold` grants an amount, the balance at that time is less
-- by the amount, and after the settlement, for any cost, what was kept and the balance add up to
-- the balance before.
pub settle-hold-total :
    (key : String → ℕ) (account : String) (amount cost now_ms : ℕ) (b : Book) (done : Done Hold)
    → Distinct b.tables.lots
    → hold key account amount now_ms b ≡ ok done
    → ((balance key account now_ms done.book).total + amount ≡ (balance key account now_ms b).total)
      × ((balance key account now_ms (settle key done.result cost done.book).book).total
            + (settle key done.result cost done.book).result
          ≡ (balance key account now_ms b).total)
settle-hold-total key account amount cost now_ms b done distinct e =
    let v = hold-IsHeld key account amount now_ms b done distinct e in
    let settled = settle key done.result cost done.book in
    let f0 = balance-funds key account now_ms b in
    let f1 = balance-funds key account now_ms done.book in
    let f2 = balance-funds key account now_ms settled.book in
    let s = settle-funds key now_ms cost done.result done.book (v.whole ∙ sym v.held) (
      subst (λ who. Returnable (key who) now_ms done.result.parts done.book.tables) (sym v.owner)
        v.parts) in
    let s' =
      subst
        (λ who.
          funds (key who) now_ms settled.book.tables + settled.result
          ≡ funds (key who) now_ms done.book.tables + done.result.amount)
        v.owner s in
    (omega (arith, v.left), omega (arith, v.left, v.held))
