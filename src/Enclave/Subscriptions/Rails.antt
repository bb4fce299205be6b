-- ===== src/Enclave/Subscriptions/Rails.antt =====
-- crates/enclave/src/subscriptions.rs: proofs about whose plan an App Store transaction touches.
use mathlib.Core.Path.{subst}
use tokumai.Base.{
  ℕ, ◌≡◌, refl, sym, ap, ◌∙◌, Bool, false, ◌⊎◌, inl, inr, some, String, ◌=ₛ◌, if_both, ◌==◌, arith,
  Bool-cases, Option-cases,
}
use tokumai.Base.Result.{Result, ok, err}
use tokumai.Base.Dict.{lookup, lookup-insert}
use tokumai.Enclave.Ledger.Tables.{Tables, apply}
use tokumai.Enclave.Ledger.Money.{first_payment, credit_prepaid}
use tokumai.Enclave.Plans.{Names, Refusal, rail_owner, renew_key}
use tokumai.Enclave.Plans.Held.{Renews, renew_key-Renews, free_rail}
use tokumai.Enclave.Apple.{AppleTx, Why, credit_for, plan_for, revoked_plan, plan_kind}
use tokumai.Enclave.Cover.{paid}
use tokumai.Enclave.Subscriptions.{
  Shop, Reply, Owned, mine, anothers, with_tables, after_renewal, owned_by, plan_bought,
  credit_bought, iap_bought, iap_apply, apple_rail, plan_ok,
}

-- The account's plan is the same, and the rails that it holds are still its own.
pub record Keeps (names : Names) (acct : ℕ) (t u : Tables) : Type 0 where
  pub plan : lookup acct u.plans ≡ lookup acct t.plans
  pub rails :
      (rail : String) → rail_owner names rail t ≡ some acct → rail_owner names rail u ≡ some acct

abbrev unmoved : (names : Names) (acct : ℕ) (t : Tables) → Keeps names acct t t
unmoved names acct t = record { plan = refl; rails = λ rail h. h }

module _ (names : Names) (acct : ℕ) where
  Renews-Keeps :
      (payer : ℕ) (rail : String) (now_ms : ℕ) (t u : Tables) (granted : Bool)
      → (payer == acct) ≡ false
      → Renews names payer rail now_ms t (ok (granted, u))
      → Keeps names acct t u
  unfolding rail_owner apply
  Renews-Keeps payer rail now_ms t u granted other (inl (n, same)) =
      subst (Keeps names acct t) (sym same) (unmoved names acct t)
  Renews-Keeps payer rail now_ms t u granted other (inr (free, puts)) = record {
    plan = ap (lookup acct) puts.plans ∙ lookup-insert acct payer puts.plan t.plans ∙ rw other refl;
    rails = λ rail' h.
        let k = names.rail_key rail in
        let k' = names.rail_key rail' in
        ap (lookup k') puts.rails ∙ lookup-insert k' k payer t.rails ∙ elim (Bool-cases (k == k')) [
          | inl same ↦
              let key : k ≡ k' = ground arith in
              let at : rail_owner names rail t ≡ some acct =
                ap (λ (j : ℕ). lookup j t.rails) key ∙ h in
              let its = free_rail names payer acct rail now_ms t free at in absurd (ground arith)
          | inr e ↦ rw e h
        ];
  }

  after_renewal-Keeps :
      (payer : ℕ) (rail : String) (now_ms : ℕ) (r : Result Refusal (Bool × Tables)) (s : Shop)
      → (payer == acct) ≡ false
      → Renews names payer rail now_ms s.book.tables r
      → Keeps names acct s.book.tables (after_renewal plan_ok payer now_ms r s).1.book.tables
  unfolding after_renewal
  after_renewal-Keeps payer rail now_ms (err why) s other renews = unmoved names acct s.book.tables
  after_renewal-Keeps payer rail now_ms (ok (granted, u)) s other renews =
      Renews-Keeps payer rail now_ms s.book.tables u granted other renews

  module _ (key payment_ref : String → ℕ) (sandbox : Bool) where
    owned_by-mine :
        (rail : String) (to now_ms : ℕ) (t : Tables)
        → (owned_by names key payment_ref sandbox rail to false now_ms t ≡ mine t)
          ⊎ (owned_by names key payment_ref sandbox rail to false now_ms t ≡ anothers)
    unfolding owned_by
    owned_by-mine rail to now_ms t = elim (Option-cases (rail_owner names rail t)) [
      | inl n ↦ inl (rw (n, owned_by) refl)
      | inr (owner, n) ↦ elim (Bool-cases (owner == to)) [
        | inl e ↦ inl (ground arith)
        | inr e ↦ inr (ground arith)
      ]
    ]

    plan_bought-Keeps :
        (to : ℕ) (tx : AppleTx) (plan : ℕ × Bool) (now_ms : ℕ) (o : Owned) (s : Shop)
        → (to == acct) ≡ false
        → ((o ≡ mine s.book.tables) ⊎ (o ≡ anothers))
        → Keeps names acct s.book.tables
            (plan_bought names key payment_ref sandbox to tx plan now_ms o s).1.book.tables
    unfolding plan_bought
    plan_bought-Keeps to tx (tier, yearly) now_ms o s other (inr e) =
        rw e (unmoved names acct s.book.tables)
    plan_bought-Keeps to tx (tier, yearly) now_ms o s other (inl e) =
        let rail = apple_rail tx.original_transaction_id in
        let r =
          renew_key names to tier yearly rail now_ms tx.purchased_at_ms tx.expires_at_ms
            s.book.tables in
        rw e (
          after_renewal-Keeps to rail now_ms r
            (with_tables s.book.tables (record s { cover = paid to now_ms s.cover })) other
            (renew_key-Renews names to tier yearly rail now_ms tx.purchased_at_ms tx.expires_at_ms
              s.book.tables))

    credit_bought-Keeps :
        (account : String) (tx : AppleTx) (r : Result Why ℕ) (now_ms : ℕ) (s : Shop)
        → Keeps names acct s.book.tables
            (credit_bought names key payment_ref sandbox account tx r now_ms s).1.book.tables
    unfolding credit_bought first_payment credit_prepaid apply rail_owner
    credit_bought-Keeps account tx (err why) now_ms s = unmoved names acct s.book.tables
    credit_bought-Keeps account tx (ok toku) now_ms s =
        let first = first_payment (payment_ref tx.transaction_id) now_ms s.book in
        if_both (λ (x : Reply × Shop). Keeps names acct s.book.tables x.1.book.tables) first.result
          (λ _. record { plan = refl; rails = λ rail h. h })
          (λ _. record { plan = refl; rails = λ rail h. h })

    iap_bought-Keeps :
        (account : String) (tx : AppleTx) (r : Result Why (ℕ × Bool)) (now_ms : ℕ) (s : Shop)
        → (key account == acct) ≡ false
        → Keeps names acct s.book.tables
            (iap_bought names key payment_ref sandbox account tx r false now_ms s).1.book.tables
    unfolding iap_bought
    iap_bought-Keeps account tx (ok plan) now_ms s other =
        let rail = apple_rail tx.original_transaction_id in
        plan_bought-Keeps (key account) tx plan now_ms
          (owned_by names key payment_ref sandbox rail (key account) false now_ms s.book.tables) s
          other (owned_by-mine rail (key account) now_ms s.book.tables)
    iap_bought-Keeps account tx (err why) now_ms s other =
        let P : Reply × Shop → Type 0 = λ x. Keeps names acct s.book.tables x.1.book.tables in
        if_both P (tx.kind =ₛ plan_kind) (λ _. unmoved names acct s.book.tables)
          (λ _. credit_bought-Keeps account tx (credit_for sandbox tx) now_ms s)

    -- A transaction that an account hands in without asking to restore, and that is no refund of a
    -- plan, leaves the plan of every other account, and every rail that the other account holds, as
    -- they are.
    pub iap_apply-Keeps :
        (account : String) (tx : AppleTx) (now_ms : ℕ) (s : Shop)
        → revoked_plan sandbox tx ≡ false
        → (key account == acct) ≡ false
        → Keeps names acct s.book.tables
            (iap_apply names key payment_ref sandbox account tx false now_ms s).1.book.tables
    unfolding iap_apply
    iap_apply-Keeps account tx now_ms s live other =
        rw live (iap_bought-Keeps account tx (plan_for sandbox tx now_ms) now_ms s other)
