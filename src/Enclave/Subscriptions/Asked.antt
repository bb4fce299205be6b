-- ===== src/Enclave/Subscriptions/Asked.antt =====
-- crates/enclave/src/subscriptions.rs: proofs about the renewal check of one plan.
use tokumai.Base.{
  ℕ, ◌≡◌, refl, sym, ap, ◌∙◌, Bool, true, false, inl, inr, Option, none, some, String, ◌=ₛ◌,
  if◌then◌else◌, if_both, ◌==◌, ==_refl, eq_refl, min, ◌||◌,
}
use tokumai.Base.Result.{Result, ok, err}
use tokumai.Base.Dict.{lookup, insert, lookup-insert}
use tokumai.Enclave.Ledger.Tables.{Tables, Plan, apply, put_plan, lapse_allowance}
use tokumai.Enclave.Plans.{
  Names, Refusal, rail_owner, close_period, renew_key, renew_by_rail, revoke,
}
use tokumai.Enclave.Plans.Changes.{mark_checked}
use tokumai.Enclave.Plans.Held.{Renews, renew_key-Renews, close_period-same}
use tokumai.Enclave.Plans.Held.Steps.{IsHeld}
use tokumai.Enclave.Apple.{AppleTx, product_plan, revoked_plan}
use tokumai.Enclave.Stripe.{SubState, MoneyBack}
use tokumai.Enclave.Subscriptions.{
  Processor, AppStore, told, not_configured, no_answer, or_marked, stripe_said, check_stripe,
  renewed_by_apple, check_apple, trim_start_matches,
}

-- The account has a plan on the rail that was checked at the time.
abbrev pub WasChecked : ℕ → String → ℕ → Tables → Type 0
WasChecked acct rail now_ms u =
    (q : Plan) × (lookup acct u.plans ≡ some q) × (q.rail ≡ rail) × (q.checked_at_ms ≡ now_ms)

put-WasChecked :
    (acct : ℕ) (rail : String) (now_ms : ℕ) (q : Plan) (t u : Tables)
    → u.plans ≡ insert acct q t.plans
    → q.rail ≡ rail
    → q.checked_at_ms ≡ now_ms
    → WasChecked acct rail now_ms u
put-WasChecked acct rail now_ms q t u plans on at =
    (q, ap (lookup acct) plans ∙ lookup-insert acct acct q t.plans ∙ rw (==_refl acct) refl, on, at)

mark_checked-WasChecked :
    (acct now_ms : ℕ) (p : Plan) (t : Tables)
    → lookup acct t.plans ≡ some p
    → WasChecked acct p.rail now_ms (mark_checked acct now_ms t)
unfolding mark_checked apply
mark_checked-WasChecked acct now_ms p t h =
    let q = record p { checked_at_ms = now_ms } in
    rw (h, mark_checked)
      (put-WasChecked acct p.rail now_ms q t (apply (put_plan acct q) t) refl refl refl)

module _ (names : Names) where
  or_marked-WasChecked :
      (acct now_ms : ℕ) (p : Plan) (t : Tables) (r : Result Refusal (Bool × Tables))
      → lookup acct t.plans ≡ some p
      → Renews names acct p.rail now_ms t r
      → WasChecked acct p.rail now_ms (or_marked acct now_ms t r)
  unfolding apply
  or_marked-WasChecked acct now_ms p t (err why) h r = mark_checked-WasChecked acct now_ms p t h
  or_marked-WasChecked acct now_ms p t (ok (granted, u)) h (inl (n, same)) = absurd (no (sym n ∙ h))
    where
      no : none ≡ some p → ⊥
      no e = cc
  or_marked-WasChecked acct now_ms p t (ok (granted, u)) h (inr (free, puts)) =
      put-WasChecked acct p.rail now_ms puts.plan t u puts.plans puts.on_rail puts.at

  renewed-WasChecked :
      (acct tier : ℕ) (yearly : Bool) (now_ms start_ms until_ms : ℕ) (p : Plan) (t : Tables)
      → lookup acct t.plans ≡ some p
      → rail_owner names p.rail t ≡ some acct
      → WasChecked acct p.rail now_ms (
          or_marked acct now_ms t
            (renew_by_rail names p.rail tier yearly now_ms start_ms until_ms t))
  unfolding renew_by_rail
  renewed-WasChecked acct tier yearly now_ms start_ms until_ms p t h owner =
      rw (owner, renew_by_rail)
        (or_marked-WasChecked acct now_ms p t
          (renew_key names acct tier yearly p.rail now_ms start_ms until_ms t) h
          (renew_key-Renews names acct tier yearly p.rail now_ms start_ms until_ms t))

  revoke-WasChecked :
      (acct now_ms : ℕ) (disputed : Bool) (p : Plan) (t : Tables)
      → lookup acct t.plans ≡ some p
      → rail_owner names p.rail t ≡ some acct
      → WasChecked acct p.rail now_ms (revoke names p.rail disputed now_ms t).1
  unfolding revoke
  revoke-WasChecked acct now_ms disputed p t h owner =
      let off = record p {
        active = false;
        paid_until_ms = min p.paid_until_ms now_ms;
        checked_at_ms = now_ms;
      } in
      let ended = close_period acct t off in
      let marked : Plan = if disputed then record ended { disputed_at_ms = now_ms } else ended in
      let same = close_period-same acct t off in
      let on : marked.rail ≡ p.rail =
        if_both (λ (q : Plan). q.rail ≡ p.rail) disputed (λ _. same.0) (λ _. same.0) in
      let at : marked.checked_at_ms ≡ now_ms =
        if_both (λ (q : Plan). q.checked_at_ms ≡ now_ms) disputed (λ _. same.1) (λ _. same.1) in
      let lapsed = apply (lapse_allowance acct) t in
      let u = apply (put_plan acct marked) lapsed in
      let plans : u.plans ≡ insert acct marked t.plans = unfold apply in refl in
      rw (owner, revoke, h, revoke, eq_refl p.rail)
        (put-WasChecked acct p.rail now_ms marked t u plans on at)

  stripe_said-WasChecked :
      (acct now_ms : ℕ) (p : Plan) (t : Tables) (r : Result String SubState)
      → lookup acct t.plans ≡ some p
      → rail_owner names p.rail t ≡ some acct
      → WasChecked acct p.rail now_ms (stripe_said names acct p now_ms r t).0
  unfolding stripe_said
  stripe_said-WasChecked acct now_ms p t (err e) h owner = mark_checked-WasChecked acct now_ms p t h
  stripe_said-WasChecked acct now_ms p t (ok st) h owner =
      elim st.back
        as (λ b.
          WasChecked acct p.rail now_ms
            (stripe_said names acct p now_ms (ok (record st { back = b })) t).0) [
              | MoneyBack.disputed ↦ revoke-WasChecked acct now_ms true p t h owner
              | MoneyBack.refunded ↦ revoke-WasChecked acct now_ms false p t h owner
              | MoneyBack.nothing ↦
                  renewed-WasChecked acct st.tier st.yearly now_ms st.start_ms
                    (if st.paid then st.end_ms else 0) p t h owner
            ]

  renewed_by_apple-WasChecked :
      (acct now_ms : ℕ) (p : Plan) (tx : AppleTx) (plan : Option (ℕ × Bool)) (t : Tables)
      → lookup acct t.plans ≡ some p
      → rail_owner names p.rail t ≡ some acct
      → WasChecked acct p.rail now_ms (renewed_by_apple names acct p tx plan now_ms t)
  unfolding renewed_by_apple
  renewed_by_apple-WasChecked acct now_ms p tx none t h owner =
      mark_checked-WasChecked acct now_ms p t h
  renewed_by_apple-WasChecked acct now_ms p tx (some (tier, yearly)) t h owner =
      renewed-WasChecked acct tier yearly now_ms tx.purchased_at_ms tx.expires_at_ms p t h owner

  -- Where the rail of every plan is held by the plan's account, a check of an account's plan at
  -- Stripe, whatever Stripe answers, leaves the account with a plan on that rail that was checked
  -- now.
  pub check_stripe-WasChecked :
      (stripe : Processor) (acct now_ms : ℕ) (p : Plan) (t : Tables)
      → IsHeld names t
      → lookup acct t.plans ≡ some p
      → WasChecked acct p.rail now_ms (check_stripe names (some stripe) acct p now_ms t).0
  unfolding check_stripe
  check_stripe-WasChecked stripe acct now_ms p t held h =
      stripe_said-WasChecked acct now_ms p t
        (stripe.subscription (trim_start_matches "stripe:" p.rail)) h (held acct p h)

  -- The same of a check at Apple, whatever Apple answers and also where no key is configured.
  pub check_apple-WasChecked :
      (sandbox : Bool) (store : AppStore) (acct now_ms : ℕ) (p : Plan) (t : Tables)
      → IsHeld names t
      → lookup acct t.plans ≡ some p
      → WasChecked acct p.rail now_ms (check_apple names sandbox store acct p now_ms t)
  unfolding check_apple
  check_apple-WasChecked sandbox not_configured acct now_ms p t held h =
      mark_checked-WasChecked acct now_ms p t h
  check_apple-WasChecked sandbox no_answer acct now_ms p t held h =
      mark_checked-WasChecked acct now_ms p t h
  check_apple-WasChecked sandbox (told status none) acct now_ms p t held h =
      mark_checked-WasChecked acct now_ms p t h
  check_apple-WasChecked sandbox (told status (some tx)) acct now_ms p t held h =
      let P = WasChecked acct p.rail now_ms in
      if_both P (tx.original_transaction_id =ₛ trim_start_matches "iap:" p.rail)
        (λ _.
          if_both P (revoked_plan sandbox tx || status == 5)
            (λ _. revoke-WasChecked acct now_ms false p t h (held acct p h))
            (λ _.
              renewed_by_apple-WasChecked acct now_ms p tx (product_plan tx.product_id) t h
                (held acct p h)))
        (λ _. mark_checked-WasChecked acct now_ms p t h)
