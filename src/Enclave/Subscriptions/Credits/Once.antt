-- ===== src/Enclave/Subscriptions/Credits/Once.antt =====
-- crates/enclave/src/subscriptions.rs: proofs about any sequence of App Store transactions.
use tokumai.Base.{
  ℕ, ◌≡◌, refl, sym, ap, ◌∙◌, Bool, true, false, inl, inr, List, [], ◌∷◌, String, if_both, ◌==◌,
  ==_refl,
}
use tokumai.Base.Dict.{has_key}
use tokumai.Enclave.Ledger.Tables.{Tables}
use tokumai.Enclave.Plans.{Names}
use tokumai.Enclave.Apple.{AppleTx}
use tokumai.Enclave.Subscriptions.{Shop, Reply, iap_apply, credited}
use tokumai.Enclave.Subscriptions.Credits.Outcome.{
  is_credited, credited_of, Outcome, uncredited, has_key-insert_new, iap_apply-Outcome,
}

module _ (names : Names) (key payment_ref : String → ℕ) (sandbox : Bool) where
  pub record Call : Type 0 where
    pub account : String
    pub tx : AppleTx
    pub restore : Bool
    pub now_ms : ℕ

  abbrev pub iap_all : List Call → Shop → Shop
  iap_all [] s = s
  iap_all (c ∷ cs) s =
      iap_all cs (iap_apply names key payment_ref sandbox c.account c.tx c.restore c.now_ms s).1

  known_after :
      (ref j now_ms : ℕ) (tx : AppleTx) (t : Tables) (r : Reply × Shop)
      → Outcome sandbox j tx now_ms t r
      → has_key ref t.payments ≡ true
      → has_key ref r.1.book.tables.payments ≡ true
  known_after ref j now_ms tx t r (inl (plain, same)) h = ap (has_key ref) same.payments ∙ h
  known_after ref j now_ms tx t r (inr (inl (none_of_it, k, same))) h =
      ap (has_key ref) same.payments ∙ h
  known_after ref j now_ms tx t r (inr (inr b)) h =
      ap (has_key ref) b.payments
      ∙ has_key-insert_new ref j now_ms t.payments
      ∙ if_both (λ (x : Bool). x ≡ true) (j == ref) (λ _. refl) (λ _. h)

  all_known :
      (ref : ℕ) (cs : List Call) (s : Shop)
      → has_key ref s.book.tables.payments ≡ true
      → has_key ref (iap_all cs s).book.tables.payments ≡ true
  all_known ref [] s h = h
  all_known ref (c ∷ cs) s h =
      all_known ref cs
        (iap_apply names key payment_ref sandbox c.account c.tx c.restore c.now_ms s).1
        (known_after ref (payment_ref c.tx.transaction_id) c.now_ms c.tx s.book.tables
          (iap_apply names key payment_ref sandbox c.account c.tx c.restore c.now_ms s)
          (iap_apply-Outcome names key payment_ref sandbox c.account c.tx c.restore c.now_ms s) h)

  credited_known :
      (ref toku total now_ms : ℕ) (tx : AppleTx) (t : Tables) (r : Reply × Shop)
      → Outcome sandbox ref tx now_ms t r
      → r.0 ≡ credited toku total
      → has_key ref r.1.book.tables.payments ≡ true
  credited_known ref toku total now_ms tx t r (inl (plain, same)) e =
      absurd (clash (sym plain ∙ ap is_credited e))
    where
      clash : false ≡ true → ⊥
      clash h = cc
  credited_known ref toku total now_ms tx t r (inr (inl (none_of_it, k, same))) e =
      ap (has_key ref) same.payments ∙ k
  credited_known ref toku total now_ms tx t r (inr (inr b)) e =
      ap (has_key ref) b.payments
      ∙ has_key-insert_new ref ref now_ms t.payments
      ∙ rw (==_refl ref) refl

  nothing_more :
      (ref now_ms : ℕ) (tx : AppleTx) (t : Tables) (r : Reply × Shop)
      → Outcome sandbox ref tx now_ms t r
      → has_key ref t.payments ≡ true
      → (credited_of r.0 ≡ 0) × (r.1.book.tables.lots ≡ t.lots)
  nothing_more ref now_ms tx t r (inl (plain, same)) h = (uncredited r.0 plain, same.lots)
  nothing_more ref now_ms tx t r (inr (inl (none_of_it, k, same))) h = (none_of_it, same.lots)
  nothing_more ref now_ms tx t r (inr (inr b)) h = absurd (clash (sym b.unseen ∙ h))
    where
      clash : false ≡ true → ⊥
      clash e = cc

  -- Once a transaction was answered with a credit, then whatever transactions any accounts hand in
  -- afterwards, no transaction of that number, handed in by any account, is credited again: it
  -- credits nothing, and the lots of prepaid credit stay as they are.
  pub iap_apply_once :
      (account account' : String) (tx tx' : AppleTx) (restore restore' : Bool)
      (now_ms now_ms' toku total : ℕ) (cs : List Call) (s : Shop)
      → (iap_apply names key payment_ref sandbox account tx restore now_ms s).0
        ≡ credited toku total
      → tx'.transaction_id ≡ tx.transaction_id
      → let before =
          iap_all cs (iap_apply names key payment_ref sandbox account tx restore now_ms s).1 in
        let after = iap_apply names key payment_ref sandbox account' tx' restore' now_ms' before in
        (credited_of after.0 ≡ 0) × (after.1.book.tables.lots ≡ before.book.tables.lots)
  iap_apply_once account account' tx tx' restore restore' now_ms now_ms' toku total cs s e same =
      let first = iap_apply names key payment_ref sandbox account tx restore now_ms s in
      let before = iap_all cs first.1 in
      let ref = payment_ref tx.transaction_id in
      let known : has_key ref before.book.tables.payments ≡ true = all_known ref cs first.1 (
        credited_known ref toku total now_ms tx s.book.tables first
          (iap_apply-Outcome names key payment_ref sandbox account tx restore now_ms s) e) in
      nothing_more (payment_ref tx'.transaction_id) now_ms' tx' before.book.tables
        (iap_apply names key payment_ref sandbox account' tx' restore' now_ms' before)
        (iap_apply-Outcome names key payment_ref sandbox account' tx' restore' now_ms' before)
        (ap (λ (x : String). has_key (payment_ref x) before.book.tables.payments) same ∙ known)
