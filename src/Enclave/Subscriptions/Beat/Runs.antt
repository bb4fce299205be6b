-- ===== src/Enclave/Subscriptions/Beat/Runs.antt =====
-- crates/enclave/src/subscriptions.rs: any run of the operations, and proofs about what it reaches.
use mathlib.Core.Path.{subst}
use tokumai.Base.{
  ℕ, ◌-◌, ◌≡◌, min, length, arith, refl, ap, Bool, true, false, Option, none, some, String, ◌=ₛ◌,
  if◌then◌else◌, if_both, ◌==◌, Option-cases, inl, inr,
}
use tokumai.Base.Result.{Result, ok, err}
use tokumai.Base.Dict.{lookup}
use tokumai.Enclave.Ledger.Tables.{Tables, apply}
use tokumai.Enclave.Ledger.Money.{first_payment, credit_prepaid}
use tokumai.Enclave.Plans.{Names, rail_owner, renew_key}
use tokumai.Enclave.Plans.Changes.{move_plan}
use tokumai.Enclave.Plans.Held.Runs.{Step, Reach}
use tokumai.Core.Subscription.{tiers}
use tokumai.Enclave.Cover.{paid}
use tokumai.Enclave.Stripe.{SubState}
use tokumai.Enclave.Apple.{AppleTx, Why, credit_for, plan_for, revoked_plan, plan_kind}
use tokumai.Enclave.Subscriptions.{
  Shop, Reply, with_tables, Processor, after_renewal, cover_paid, status_bound, status_claimed,
  plan_status, change_answered, change_asked, change_refusal, plan_change, Owned, mine, target_pays,
  anothers, after_move, owned_by, plan_bought, credit_bought, iap_bought, iap_apply, apple_rail,
  stripe_rail, plan_ok, plan_paid, row_of,
}
use tokumai.Enclave.Subscriptions.Beat.Served.{renewal-Reach}

mine_same : (t u : Tables) → mine t ≡ mine u → t ≡ u
mine_same t u h = cc

module _ (names : Names) where
  abbrev Reaches : Reply × Shop → Type 0
  Reaches r = Reach names r.1.book.tables

  cover_paid-Kept :
      (acct now_ms : ℕ) (r : Reply × Shop) → Reaches r → Reaches (cover_paid acct now_ms r)
  cover_paid-Kept acct now_ms r k = k

  status_bound-Kept :
      (acct : ℕ) (sub : String) (r : Result String SubState) (now_ms : ℕ) (s : Shop)
      → Reach names s.book.tables
      → Reaches (status_bound names acct sub r now_ms s)
  unfolding status_bound
  status_bound-Kept acct sub (err e) now_ms s k = k
  status_bound-Kept acct sub (ok st) now_ms s k =
      let r =
        renew_key names acct st.tier st.yearly (stripe_rail sub) now_ms st.start_ms st.end_ms
          s.book.tables in
      if_both Reaches st.paid
        (λ _. cover_paid-Kept acct now_ms (after_renewal plan_paid acct now_ms r s) (
          renewal-Reach names plan_paid acct st.tier st.yearly (stripe_rail sub) now_ms st.start_ms
            st.end_ms r s refl k))
        (λ _. k)

  claimed-Kept :
      (stripe : Processor) (acct : ℕ) (tag : String) (o : Result String (Option (String × String)))
      (now_ms : ℕ) (s : Shop)
      → Reach names s.book.tables
      → Reaches (status_claimed names stripe acct tag o now_ms s)
  unfolding status_claimed
  claimed-Kept stripe acct tag (err e) now_ms s k = k
  claimed-Kept stripe acct tag (ok none) now_ms s k = k
  claimed-Kept stripe acct tag (ok (some (sub, opener))) now_ms s k =
      if_both Reaches (opener =ₛ tag)
        (λ _. status_bound-Kept acct sub (stripe.subscription sub) now_ms s k) (λ _. k)

  pub plan_status-Kept :
      (stripe : Option Processor) (acct : ℕ) (tag session : String) (now_ms : ℕ) (s : Shop)
      → Reach names s.book.tables
      → Reaches (plan_status names stripe acct tag session now_ms s)
  unfolding plan_status
  plan_status-Kept none acct tag session now_ms s k = k
  plan_status-Kept (some stripe) acct tag session now_ms s k =
      claimed-Kept stripe acct tag (stripe.checkout session) now_ms s k

  change_answered-Reach :
      (acct tier now_ms : ℕ) (r : Result String ℕ) (s : Shop)
      → Reach names s.book.tables
      → Reaches (change_answered acct tier now_ms r s)
  unfolding change_answered
  change_answered-Reach acct tier now_ms (err e) s k = k
  change_answered-Reach acct tier now_ms (ok applied) s k =
      Reach.next k (Step.changed acct tier now_ms refl)

  pub plan_change-Reach :
      (stripe : Option Processor) (acct wanted : ℕ) (yearly : Bool) (now_ms : ℕ) (s : Shop)
      → Reach names s.book.tables
      → Reach names (plan_change stripe acct wanted yearly now_ms s).1.book.tables
  unfolding plan_change
  plan_change-Reach none acct wanted yearly now_ms s k = k
  plan_change-Reach (some stripe) acct wanted yearly now_ms s k =
      elim (Option-cases (lookup acct s.book.tables.plans)) [
        | inl n ↦ rw (n, plan_change) k
        | inr (p, n) ↦
            let tier = min wanted (length tiers - 1) in
            let period = (row_of (lookup acct s.book.tables.allowances)).period in
            let ask = change_asked tier yearly p period in
            let answer = stripe.change ask.sub ask.tier ask.yearly ask.upgrade ask.reference in
            elim (Option-cases (change_refusal tier yearly now_ms p)) [
              | inl m ↦
                  rw (n, plan_change, m, plan_change)
                    (change_answered-Reach acct tier now_ms answer s k)
              | inr (why, m) ↦ rw (n, plan_change, m, plan_change) k
            ]
      ]

  moved-Reach :
      (rail : String) (acct now_ms : ℕ) (t u : Tables) (r : Bool × Tables)
      → move_plan names rail acct now_ms t ≡ r
      → after_move r ≡ mine u
      → Reach names t
      → Reach names u
  moved-Reach rail acct now_ms t u (true, v) e h k =
      let same : v ≡ u = cc in
      subst (Reach names) (same)
        (Reach.next k (Step.moved rail acct now_ms (ap (λ (x : Bool × Tables). x.1) e)))
  moved-Reach rail acct now_ms t u (false, v) e h k = absurd (no_move h)
    where
      no_move : target_pays ≡ mine u → ⊥
      no_move x = cc

  module _ (key payment_ref : String → ℕ) (sandbox : Bool) where
    owned-Reach :
        (rail : String) (acct : ℕ) (restore : Bool) (now_ms : ℕ) (t u : Tables)
        → owned_by names key payment_ref sandbox rail acct restore now_ms t ≡ mine u
        → Reach names t
        → Reach names u
    unfolding owned_by
    owned-Reach rail acct restore now_ms t u e k =
        let P : Owned → Type 0 = λ o. o ≡ mine u → Reach names u in
        let same : mine t ≡ mine u → Reach names u = λ h. subst (Reach names) (mine_same t u h) k in
        elim (Option-cases (rail_owner names rail t)) [
          | inl n ↦ same (ground arith)
          | inr (owner, n) ↦
              let o : Owned =
                if owner == acct
                then mine t
                else if restore
                then after_move (move_plan names rail acct now_ms t)
                else anothers in
              let h : o ≡ mine u = ground arith in
              if_both P (owner == acct) {x = mine t}
                {y = if restore then after_move (move_plan names rail acct now_ms t) else anothers}
                (λ _. same)
                (λ _.
                  if_both P restore {x = after_move (move_plan names rail acct now_ms t)}
                    {y = anothers}
                    (λ _ m.
                      moved-Reach rail acct now_ms t u (move_plan names rail acct now_ms t) refl m
                        k)
                    (λ _ m. absurd (not_mine m)))
                h
        ]
      where
        not_mine : anothers ≡ mine u → ⊥
        not_mine m = cc

    bought-Reach :
        (acct : ℕ) (tx : AppleTx) (plan : ℕ × Bool) (now_ms : ℕ) (o : Owned) (s : Shop)
        → ((t : Tables) → o ≡ mine t → Reach names t)
        → Reach names s.book.tables
        → Reaches (plan_bought names key payment_ref sandbox acct tx plan now_ms o s)
    unfolding plan_bought
    bought-Reach acct tx (tier, yearly) now_ms target_pays s own k = k
    bought-Reach acct tx (tier, yearly) now_ms anothers s own k = k
    bought-Reach acct tx (tier, yearly) now_ms (mine t) s own k =
        let rail = apple_rail tx.original_transaction_id in
        renewal-Reach names plan_ok acct tier yearly rail now_ms tx.purchased_at_ms tx.expires_at_ms
          (renew_key names acct tier yearly rail now_ms tx.purchased_at_ms tx.expires_at_ms t)
          (with_tables t (record s { cover = paid acct now_ms s.cover })) refl (own t refl)

    credit-Reach :
        (account : String) (tx : AppleTx) (r : Result Why ℕ) (now_ms : ℕ) (s : Shop)
        → Reach names s.book.tables
        → Reaches (credit_bought names key payment_ref sandbox account tx r now_ms s)
    unfolding credit_bought first_payment credit_prepaid apply
    credit-Reach account tx (err why) now_ms s k = k
    credit-Reach account tx (ok toku) now_ms s k =
        let first = first_payment (payment_ref tx.transaction_id) now_ms s.book in
        if_both Reaches first.result (λ _. Reach.next k (Step.other refl refl))
          (λ _. Reach.next k (Step.other refl refl))

    iap_bought-Reach :
        (account : String) (tx : AppleTx) (r : Result Why (ℕ × Bool)) (restore : Bool) (now_ms : ℕ)
        (s : Shop)
        → Reach names s.book.tables
        → Reaches (iap_bought names key payment_ref sandbox account tx r restore now_ms s)
    unfolding iap_bought
    iap_bought-Reach account tx (ok plan) restore now_ms s k =
        let rail = apple_rail tx.original_transaction_id in
        bought-Reach (key account) tx plan now_ms
          (owned_by names key payment_ref sandbox rail (key account) restore now_ms s.book.tables) s
          (λ t e. owned-Reach rail (key account) restore now_ms s.book.tables t e k) k
    iap_bought-Reach account tx (err why) restore now_ms s k =
        if_both Reaches (tx.kind =ₛ plan_kind) (λ _. k)
          (λ _. credit-Reach account tx (credit_for sandbox tx) now_ms s k)

    pub iap_apply-Reach :
        (account : String) (tx : AppleTx) (restore : Bool) (now_ms : ℕ) (s : Shop)
        → Reach names s.book.tables
        → Reaches (iap_apply names key payment_ref sandbox account tx restore now_ms s)
    unfolding iap_apply
    iap_apply-Reach account tx restore now_ms s k =
        if_both Reaches (revoked_plan sandbox tx)
          (λ _.
            Reach.next k (Step.revoked (apple_rail tx.original_transaction_id) false now_ms refl))
          (λ _. iap_bought-Reach account tx (plan_for sandbox tx now_ms) restore now_ms s k)
