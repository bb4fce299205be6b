-- ===== src/Enclave/Subscriptions/Credits/Outcome.antt =====
-- crates/enclave/src/subscriptions.rs: proofs about what an App Store transaction does to the money.
use mathlib.Core.Path.{subst}
use tokumai.Base.{
  ℕ, ◌+◌, ◌≡◌, refl, Bool, true, false, ◌⊎◌, inl, inr, [], ◌∷◌, ◌++◌, String, ◌=ₛ◌, if◌then◌else◌,
  if_both, ◌==◌, arith, Bool-cases, Option-cases,
}
use tokumai.Base.Result.{Result, ok, err}
use tokumai.Base.Dict.{Dict, insert_new, has_key, lookup-insert_new}
use tokumai.Enclave.Ledger.Tables.{Tables, Lot, apply}
use tokumai.Enclave.Ledger.Money.{first_payment, credit_prepaid, prepaid_months}
use tokumai.Core.Calendar.{add_months_ms}
use tokumai.Enclave.Plans.{Names, Refusal, rail_owner, renew_key}
use tokumai.Enclave.Plans.Changes.{move_plan}
use tokumai.Enclave.Plans.Held.{renew_key-Renews}
use tokumai.Enclave.Apple.{AppleTx, Why, credit_for, plan_for, revoked_plan, plan_kind}
use tokumai.Enclave.Cover.{paid}
use tokumai.Enclave.Subscriptions.{
  Shop, Reply, Owned, mine, target_pays, anothers, with_tables, after_renewal, after_move, owned_by,
  plan_bought, credit_bought, iap_bought, iap_apply, apple_rail, credited, plan_ok,
}
use tokumai.Enclave.Subscriptions.Credits.{
  SameMoney, unmoved, revoke-SameMoney, move_plan-SameMoney, after_renewal-SameMoney,
}

abbrev pub is_credited : Reply → Bool
is_credited (credited toku total) = true
is_credited _ = false

abbrev pub credited_of : Reply → ℕ
credited_of (credited toku total) = toku
credited_of _ = 0

pub uncredited : (r : Reply) → is_credited r ≡ false → credited_of r ≡ 0
uncredited r h = grind arith

insert_new-known : (k v : ℕ) (d : Dict ℕ) → has_key k d ≡ true → insert_new k v d ≡ d
unfolding insert_new
insert_new-known k v d h = rw h refl

pub has_key-insert_new :
    (j k v : ℕ) (d : Dict ℕ) → has_key j (insert_new k v d) ≡ (if k == j then true else has_key j d)
unfolding has_key
has_key-insert_new j k v d = ground (arith, lookup-insert_new j k v d)

-- A lot of what the transaction is worth, for a payment that is seen now for the first time.
pub record Bought (sandbox : Bool) (ref : ℕ) (tx : AppleTx) (toku now_ms : ℕ) (t u : Tables)
    : Type 0 where
  pub unseen : has_key ref t.payments ≡ false
  pub payments : u.payments ≡ insert_new ref now_ms t.payments
  pub lot : Lot
  pub lots : u.lots ≡ t.lots ++ lot ∷ []
  pub worth : (credit_for sandbox tx ≡ ok toku) × (lot.left ≡ toku)

-- What a transaction does to the money.
abbrev pub Outcome : Bool → ℕ → AppleTx → ℕ → Tables → Reply × Shop → Type 0
Outcome sandbox ref tx now_ms t r =
    ((is_credited r.0 ≡ false) × SameMoney t r.1.book.tables)
    ⊎ (((credited_of r.0 ≡ 0) × (has_key ref t.payments ≡ true) × SameMoney t r.1.book.tables)
        ⊎ Bought sandbox ref tx (credited_of r.0) now_ms t r.1.book.tables)

renewal_uncredited :
    (r : Result Refusal (Bool × Tables)) (acct now_ms : ℕ) (s : Shop)
    → is_credited (after_renewal plan_ok acct now_ms r s).0 ≡ false
unfolding after_renewal
renewal_uncredited (err why) acct now_ms s = refl
renewal_uncredited (ok (granted, t)) acct now_ms s = refl

mine_same : (t u : Tables) → mine t ≡ mine u → t ≡ u
mine_same t u h = cc

moved_same :
    (r : Bool × Tables) (t u : Tables) → SameMoney t r.1 → after_move r ≡ mine u → SameMoney t u
moved_same (true, v) t u same h = subst (SameMoney t) (mine_same v u h) same
moved_same (false, v) t u same h = absurd (no h)
  where
    no : target_pays ≡ mine u → ⊥
    no e = cc

module _ (names : Names) (key payment_ref : String → ℕ) (sandbox : Bool) where
  credit_bought-Outcome :
      (account : String) (tx : AppleTx) (r : Result Why ℕ) (now_ms : ℕ) (s : Shop)
      → credit_for sandbox tx ≡ r
      → Outcome sandbox
          (payment_ref tx.transaction_id)
          tx
          now_ms
          s.book.tables
          (credit_bought names key payment_ref sandbox account tx r now_ms s)
  unfolding credit_bought first_payment credit_prepaid apply
  credit_bought-Outcome account tx (err why) now_ms s e = inl (refl, unmoved s.book.tables)
  credit_bought-Outcome account tx (ok toku) now_ms s e =
      let ref = payment_ref tx.transaction_id in
      elim (Bool-cases (has_key ref s.book.tables.payments)) [
        | inl k ↦
            rw (k, first_payment)
              (inr (
                inl (
                  refl,
                  refl,
                  record {
                    payments = insert_new-known ref now_ms s.book.tables.payments k;
                    lots = refl;
                  },
                )))
        | inr k ↦
            rw (k, first_payment)
              (inr (
                inr (record {
                  unseen = k;
                  payments = refl;
                  lot = record {
                    id = s.book.lot_seq + 1;
                    acct = key account;
                    left = toku;
                    expires_ms = add_months_ms now_ms prepaid_months;
                    bought_ms = now_ms;
                  };
                  lots = refl;
                  worth = (e, refl);
                })))
      ]

  plan_bought-Outcome :
      (acct : ℕ) (tx : AppleTx) (plan : ℕ × Bool) (now_ms : ℕ) (o : Owned) (s : Shop)
      → ((t : Tables) → o ≡ mine t → SameMoney s.book.tables t)
      → (is_credited (plan_bought names key payment_ref sandbox acct tx plan now_ms o s).0 ≡ false)
        × SameMoney s.book.tables
            (plan_bought names key payment_ref sandbox acct tx plan now_ms o s).1.book.tables
  unfolding plan_bought
  plan_bought-Outcome acct tx (tier, yearly) now_ms target_pays s same =
      (refl, unmoved s.book.tables)
  plan_bought-Outcome acct tx (tier, yearly) now_ms anothers s same = (refl, unmoved s.book.tables)
  plan_bought-Outcome acct tx (tier, yearly) now_ms (mine t) s same =
      let rail = apple_rail tx.original_transaction_id in
      let r = renew_key names acct tier yearly rail now_ms tx.purchased_at_ms tx.expires_at_ms t in
      let s' = with_tables t (record s { cover = paid acct now_ms s.cover }) in
      (
        renewal_uncredited r acct now_ms s',
        after_renewal-SameMoney names plan_ok acct rail now_ms r s.book.tables s' (same t refl) (
            renew_key-Renews names acct tier yearly rail now_ms tx.purchased_at_ms tx.expires_at_ms
              t),
      )

  owned_by-SameMoney :
      (rail : String) (acct : ℕ) (restore : Bool) (now_ms : ℕ) (t u : Tables)
      → owned_by names key payment_ref sandbox rail acct restore now_ms t ≡ mine u
      → SameMoney t u
  unfolding owned_by
  owned_by-SameMoney rail acct restore now_ms t u e =
      let P : Owned → Type 0 = λ o. o ≡ mine u → SameMoney t u in
      let same : mine t ≡ mine u → SameMoney t u =
        λ h. subst (SameMoney t) (mine_same t u h) (unmoved t) in
      elim (Option-cases (rail_owner names rail t)) [
        | inl n ↦ same (ground arith)
        | inr (owner, n) ↦
            let o : Owned =
              if owner == acct
              then mine t
              else if restore
              then after_move (move_plan names rail acct now_ms t)
              else anothers in
            let h : o ≡ mine u = ground arith in
            if_both P (owner == acct) {x = mine t}
              {y = if restore then after_move (move_plan names rail acct now_ms t) else anothers}
              (λ _. same)
              (λ _.
                if_both P restore {x = after_move (move_plan names rail acct now_ms t)}
                  {y = anothers}
                  (λ _.
                    moved_same (move_plan names rail acct now_ms t) t u
                      (move_plan-SameMoney names rail acct now_ms t))
                  (λ _ h'. absurd (not_mine h')))
              h
      ]
    where
      not_mine : anothers ≡ mine u → ⊥
      not_mine h' = cc

  iap_bought-Outcome :
      (account : String) (tx : AppleTx) (r : Result Why (ℕ × Bool)) (restore : Bool) (now_ms : ℕ)
      (s : Shop)
      → Outcome sandbox
          (payment_ref tx.transaction_id)
          tx
          now_ms
          s.book.tables
          (iap_bought names key payment_ref sandbox account tx r restore now_ms s)
  unfolding iap_bought
  iap_bought-Outcome account tx (ok plan) restore now_ms s =
      let rail = apple_rail tx.original_transaction_id in
      inl (
        plan_bought-Outcome (key account) tx plan now_ms
          (owned_by names key payment_ref sandbox rail (key account) restore now_ms s.book.tables) s
          (λ t e. owned_by-SameMoney rail (key account) restore now_ms s.book.tables t e))
  iap_bought-Outcome account tx (err why) restore now_ms s =
      if_both (Outcome sandbox (payment_ref tx.transaction_id) tx now_ms s.book.tables)
        (tx.kind =ₛ plan_kind) (λ _. inl (refl, unmoved s.book.tables))
        (λ _. credit_bought-Outcome account tx (credit_for sandbox tx) now_ms s refl)

  -- A transaction either leaves prepaid credit and the payments as they are, crediting nothing, or it
  -- adds one lot of what the transaction is worth, and its number was not seen before.
  pub iap_apply-Outcome :
      (account : String) (tx : AppleTx) (restore : Bool) (now_ms : ℕ) (s : Shop)
      → Outcome sandbox
          (payment_ref tx.transaction_id)
          tx
          now_ms
          s.book.tables
          (iap_apply names key payment_ref sandbox account tx restore now_ms s)
  unfolding iap_apply
  iap_apply-Outcome account tx restore now_ms s =
      let rail = apple_rail tx.original_transaction_id in
      if_both (Outcome sandbox (payment_ref tx.transaction_id) tx now_ms s.book.tables)
        (revoked_plan sandbox tx)
        (λ _. inl (refl, revoke-SameMoney names rail false now_ms s.book.tables))
        (λ _. iap_bought-Outcome account tx (plan_for sandbox tx now_ms) restore now_ms s)
