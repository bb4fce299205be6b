-- ===== src/Enclave/Subscriptions/Beat/Served.antt =====
-- crates/enclave/src/subscriptions.rs: the operations as runs of steps on plans, and proofs about them.
use tokumai.Base.{
  ℕ, ◌≡◌, refl, Bool, true, false, ◌||◌, Option, none, some, String, ◌=ₛ◌, if◌then◌else◌, if_both,
  ◌==◌, Option-cases, inl, inr,
}
use tokumai.Base.Result.{Result, ok, err}
use tokumai.Enclave.Ledger.Tables.{Tables, Plan}
use tokumai.Enclave.Plans.{Names, Refusal, rail_owner, renew_key, renew_by_rail}
use tokumai.Enclave.Plans.Held.Runs.{Step, Reach}
use tokumai.Enclave.Stripe.{SubState, MoneyBack}
use tokumai.Enclave.Apple.{AppleTx, revoked_plan, product_plan}
use tokumai.Enclave.Subscriptions.{
  Shop, Summary, Reply, Processor, AppStore, told, not_configured, no_answer, after_renewal,
  or_marked, stripe_said, check_stripe, renewed_by_apple, check_apple, trim_start_matches,
}
use tokumai.Enclave.Subscriptions.Beat.{ask_stripe}

module _ (names : Names) where
  abbrev Reaches : Shop → Type 0
  Reaches s = Reach names s.book.tables

  pub renewal-Reach :
      (reply : Option Summary → Reply) (acct tier : ℕ) (yearly : Bool) (rail : String)
      (now_ms start_ms until_ms : ℕ) (r : Result Refusal (Bool × Tables)) (s : Shop)
      → renew_key names acct tier yearly rail now_ms start_ms until_ms s.book.tables ≡ r
      → Reaches s
      → Reaches (after_renewal reply acct now_ms r s).1
  unfolding after_renewal
  renewal-Reach reply acct tier yearly rail now_ms start_ms until_ms (err why) s e k = k
  renewal-Reach reply acct tier yearly rail now_ms start_ms until_ms (ok (granted, t)) s e k =
      Reach.next k (Step.renewed acct tier yearly rail now_ms start_ms until_ms granted e)

  or_marked-Reach :
      (acct now_ms : ℕ) (rail : String) (a tier : ℕ) (yearly : Bool) (start_ms until_ms : ℕ)
      (t : Tables) (r : Result Refusal (Bool × Tables))
      → renew_key names a tier yearly rail now_ms start_ms until_ms t ≡ r
      → Reach names t
      → Reach names (or_marked acct now_ms t r)
  or_marked-Reach acct now_ms rail a tier yearly start_ms until_ms t (err why) e k =
      Reach.next k (Step.marked acct now_ms refl)
  or_marked-Reach acct now_ms rail a tier yearly start_ms until_ms t (ok (granted, u)) e k =
      Reach.next k (Step.renewed a tier yearly rail now_ms start_ms until_ms granted e)

  by_rail-Reach :
      (acct now_ms : ℕ) (rail : String) (tier : ℕ) (yearly : Bool) (start_ms until_ms : ℕ)
      (t : Tables)
      → Reach names t
      → Reach names (
          or_marked acct now_ms t (renew_by_rail names rail tier yearly now_ms start_ms until_ms t))
  unfolding renew_by_rail
  by_rail-Reach acct now_ms rail tier yearly start_ms until_ms t k =
      elim (Option-cases (rail_owner names rail t)) [
        | inl n ↦ rw (n, renew_by_rail) k
        | inr (a, n) ↦
            rw (n, renew_by_rail)
              (or_marked-Reach acct now_ms rail a tier yearly start_ms until_ms t
                (renew_key names a tier yearly rail now_ms start_ms until_ms t) refl k)
      ]

  stripe_said-Reach :
      (acct now_ms : ℕ) (p : Plan) (t : Tables) (r : Result String SubState)
      → Reach names t
      → Reach names (stripe_said names acct p now_ms r t).0
  unfolding stripe_said
  stripe_said-Reach acct now_ms p t (err e) k = Reach.next k (Step.marked acct now_ms refl)
  stripe_said-Reach acct now_ms p t (ok st) k =
      elim st.back
        as (λ b. Reach names (stripe_said names acct p now_ms (ok (record st { back = b })) t).0) [
          | MoneyBack.disputed ↦ Reach.next k (Step.revoked p.rail true now_ms refl)
          | MoneyBack.refunded ↦ Reach.next k (Step.revoked p.rail false now_ms refl)
          | MoneyBack.nothing ↦
              by_rail-Reach acct now_ms p.rail st.tier st.yearly st.start_ms
                (if st.paid then st.end_ms else 0) t k
        ]

  pub ask_stripe-Reach :
      (sandbox : Bool) (stripe : Option Processor) (plan : Option (ℕ × Plan)) (now_ms : ℕ)
      (t : Tables)
      → Reach names t
      → Reach names (ask_stripe names sandbox stripe plan now_ms t)
  unfolding ask_stripe check_stripe
  ask_stripe-Reach sandbox stripe none now_ms t k = k
  ask_stripe-Reach sandbox none (some (key, p)) now_ms t k = k
  ask_stripe-Reach sandbox (some stripe) (some (key, p)) now_ms t k =
      stripe_said-Reach key now_ms p t (stripe.subscription (trim_start_matches "stripe:" p.rail)) k

  by_apple-Reach :
      (acct now_ms : ℕ) (p : Plan) (tx : AppleTx) (plan : Option (ℕ × Bool)) (t : Tables)
      → Reach names t
      → Reach names (renewed_by_apple names acct p tx plan now_ms t)
  unfolding renewed_by_apple
  by_apple-Reach acct now_ms p tx none t k = Reach.next k (Step.marked acct now_ms refl)
  by_apple-Reach acct now_ms p tx (some (tier, yearly)) t k =
      by_rail-Reach acct now_ms p.rail tier yearly tx.purchased_at_ms tx.expires_at_ms t k

  pub check_apple-Reach :
      (sandbox : Bool) (store : AppStore) (acct now_ms : ℕ) (p : Plan) (t : Tables)
      → Reach names t
      → Reach names (check_apple names sandbox store acct p now_ms t)
  unfolding check_apple
  check_apple-Reach sandbox not_configured acct now_ms p t k =
      Reach.next k (Step.marked acct now_ms refl)
  check_apple-Reach sandbox no_answer acct now_ms p t k =
      Reach.next k (Step.marked acct now_ms refl)
  check_apple-Reach sandbox (told status none) acct now_ms p t k =
      Reach.next k (Step.marked acct now_ms refl)
  check_apple-Reach sandbox (told status (some tx)) acct now_ms p t k =
      let P = Reach names in
      if_both P (tx.original_transaction_id =ₛ trim_start_matches "iap:" p.rail)
        (λ _.
          if_both P (revoked_plan sandbox tx || status == 5)
            (λ _. Reach.next k (Step.revoked p.rail false now_ms refl))
            (λ _. by_apple-Reach acct now_ms p tx (product_plan tx.product_id) t k))
        (λ _. Reach.next k (Step.marked acct now_ms refl))
