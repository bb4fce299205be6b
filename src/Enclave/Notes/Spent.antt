-- ===== src/Enclave/Notes/Spent.antt =====
-- crates/enclave/src/notes.rs: proofs about a note that comes again.
use tokumai.Base.{
  ℕ, ◌+◌, ◌||◌, suc, ◌≡◌, refl, ap, ◌∙◌, Bool, true, false, none, some, List, [], ◌∷◌, String,
  length, arith, if◌then◌else◌, if_both, ◌==◌, ◌-◌, min, ltb, ◌&&◌, not, inl, inr, Option-cases,
  Bool-cases, ◌=ₛ◌, starts_with,
}
use tokumai.Base.Result.{Result, ok, err}
use tokumai.Base.Bytes.{Bytes}
use tokumai.Base.Dict.{Dict, lookup, has_key, insert_new, lookup-insert_new}
use tokumai.Core.Notes.{Note, epochs_covered, epoch_end_ms, grace_ms}
use tokumai.Core.Subscription.{tiers, slice_at, period_key}
use tokumai.Enclave.Ledger.Tables.{Tables, Plan, apply, on_allowance, insert_payment}
use tokumai.Enclave.Plans.{
  Names, Refusal, renew_key, sight_plan, grant_slice, sighted, granted_base, current_period,
  attach_refusal_key, any_minted, no_plan,
}
use tokumai.Enclave.Notes.Redeem.{Redeemed, renewed_note, redeem_loop}

grant_slice-payments :
    (acct old_tier : ℕ) (was_known : Bool) (now_ms s e : ℕ) (q : Plan) (t : Tables)
    → (grant_slice acct old_tier was_known now_ms s e q t).1.payments ≡ t.payments
unfolding grant_slice apply on_allowance
grant_slice-payments acct old_tier was_known now_ms s e q t =
    let base = granted_base s (record q { tier = old_tier }) in
    if_both (λ (x : Bool × Tables). x.1.payments ≡ t.payments)
      (ltb (current_period acct t) (period_key s)) (λ _. refl)
      (λ _.
        if_both (λ (x : Bool × Tables). x.1.payments ≡ t.payments) (was_known && ltb base q.tier)
          (λ _. refl) (λ _. refl))

sight_plan-payments :
    (rail_key : String → ℕ) (acct tier : ℕ) (yearly : Bool) (rail : String)
    (now_ms start_ms until_ms : ℕ) (before : Plan) (t : Tables)
    → (sight_plan rail_key acct tier yearly rail now_ms start_ms until_ms before t).1.payments
      ≡ t.payments
unfolding sight_plan apply
sight_plan-payments rail_key acct tier yearly rail now_ms start_ms until_ms before t =
    let p = sighted (min tier (length tiers - 1)) yearly rail now_ms start_ms until_ms before in
    elim (Option-cases (slice_at p.period_start_ms p.paid_until_ms p.yearly now_ms)) [
      | inl e ↦ rw (e, sight_plan) refl
      | inr ((s, u), e) ↦
          rw (e, sight_plan)
            (grant_slice-payments acct before.tier (before.rail =ₛ rail) now_ms s u p _)
    ]

-- A renewal that is not refused leaves the marks of payments.
abbrev Leaves : Dict ℕ → Result Refusal (Bool × Tables) → Type 0
Leaves payments (err why) = Unit
Leaves payments (ok x) = x.1.payments ≡ payments

renew_key-Leaves :
    (names : Names) (acct tier : ℕ) (yearly : Bool) (rail : String) (now_ms start_ms until_ms : ℕ)
    (t : Tables)
    → Leaves t.payments (renew_key names acct tier yearly rail now_ms start_ms until_ms t)
unfolding renew_key
renew_key-Leaves names acct tier yearly rail now_ms start_ms until_ms t =
    elim (Option-cases (attach_refusal_key names acct rail now_ms t)) [
      | inr (why, e) ↦ rw (e, renew_key) tt
      | inl e ↦
          rw (e, renew_key)
            (if_both (Leaves t.payments)
              (not (starts_with rail "note:")
                && any_minted names rail (epochs_covered start_ms until_ms yearly) t)
              (λ _. tt)
              (λ _.
                elim (lookup acct t.plans)
                  as (λ l. Leaves t.payments (elim l [
                    | none ↦
                        if ltb now_ms until_ms
                        then ok (
                            sight_plan names.rail_key acct tier yearly rail now_ms start_ms until_ms
                              no_plan t)
                        else ok (false, t)
                    | some before ↦ ok (
                        sight_plan names.rail_key acct tier yearly rail now_ms start_ms until_ms
                          before t)
                  ])) [
                    | none ↦
                        if_both (Leaves t.payments) (ltb now_ms until_ms)
                          (λ _.
                            sight_plan-payments names.rail_key acct tier yearly rail now_ms start_ms
                              until_ms no_plan t)
                          (λ _. refl)
                    | some before ↦
                        sight_plan-payments names.rail_key acct tier yearly rail now_ms start_ms
                          until_ms before t
                  ]))
    ]

has_key-insert_new :
    (j k v : ℕ) (d : Dict ℕ) → has_key j (insert_new k v d) ≡ (k == j || has_key j d)
unfolding has_key
has_key-insert_new j k v d = ground (arith, lookup-insert_new j k v d)

module _ (names : Names) (spent_key : ℕ → Bytes → ℕ) where
  abbrev pub AllSpent : List Note → Tables → Type 0
  AllSpent [] t = Unit
  AllSpent (n ∷ ns) t = (has_key (spent_key n.epoch n.nonce) t.payments ≡ true) × AllSpent ns t

  -- What a loop that ends well leaves: every note marked, and every older mark.
  record Grown (ns : List Note) (t u : Tables) : Type 0 where
    spent : AllSpent ns u
    older : (k : ℕ) → has_key k t.payments ≡ true → has_key k u.payments ≡ true

  module _ (acct : ℕ) (rail : String) (now_ms : ℕ) where
    renewed_note-Grown :
        (n : Note) (ns : List Note) (granted again : ℕ) (r : Result Refusal (Bool × Tables))
        (t marked : Tables) (done : Redeemed)
        → Leaves marked.payments r
        → has_key (spent_key n.epoch n.nonce) marked.payments ≡ true
        → ((k : ℕ) → has_key k t.payments ≡ true → has_key k marked.payments ≡ true)
        → ((u : Tables)
            → (redeem_loop names spent_key acct rail now_ms ns granted again u).0 ≡ ok done
            → Grown ns u (redeem_loop names spent_key acct rail now_ms ns granted again u).1)
        → (renewed_note names spent_key acct rail now_ms
            (redeem_loop names spent_key acct rail now_ms ns granted again)
            r
            marked).0
          ≡ ok done
        → Grown
            (n ∷ ns)
            t
            (renewed_note names spent_key acct rail now_ms
              (redeem_loop names spent_key acct rail now_ms ns granted again)
              r
              marked).1
    unfolding renewed_note
    renewed_note-Grown n ns granted again (err why) t marked done l s o loop e = cc
    renewed_note-Grown n ns granted again (ok (fresh, u)) t marked done l s o loop e =
        let g = loop u e in
        record {
          spent = (g.older (spent_key n.epoch n.nonce) (rw l s), g.spent);
          older = λ k h. g.older k (rw l (o k h));
        }

    redeem_loop-Grown :
        (ns : List Note) (granted again : ℕ) (t : Tables) (done : Redeemed)
        → (redeem_loop names spent_key acct rail now_ms ns granted again t).0 ≡ ok done
        → Grown ns t (redeem_loop names spent_key acct rail now_ms ns granted again t).1
    unfolding redeem_loop
    redeem_loop-Grown [] granted again t done e = record { spent = tt; older = λ k h. h }
    redeem_loop-Grown (n ∷ ns) granted again t done e =
        let spent = spent_key n.epoch n.nonce in
        let marked = apply (insert_payment spent now_ms) t in
        let until_ms = epoch_end_ms n.epoch + grace_ms in
        let r = renew_key names acct n.tier false rail now_ms now_ms until_ms marked in
        let is_marked : (k : ℕ) → has_key k marked.payments ≡ (spent == k || has_key k t.payments) =
          λ k. unfold apply in has_key-insert_new k spent now_ms t.payments in
        elim (Bool-cases (has_key spent t.payments)) [
          | inl known ↦
              let g = redeem_loop-Grown ns granted (again + 1) t done (rw known at e) in
              rw known (record { spent = (g.older spent known, g.spent); older = g.older })
          | inr new ↦ rw new (
              renewed_note-Grown n ns (granted + 1) again r t marked done
                (renew_key-Leaves names acct n.tier false rail now_ms now_ms until_ms marked)
                (is_marked spent ∙ ground arith) (λ k h. is_marked k ∙ ground (arith, h))
                (λ u f. redeem_loop-Grown ns (granted + 1) again u done f) (rw new at e))
        ]

  redeem_loop-spent :
      (acct : ℕ) (rail : String) (now_ms : ℕ) (ns : List Note) (granted again : ℕ) (t : Tables)
      → AllSpent ns t
      → redeem_loop names spent_key acct rail now_ms ns granted again t
        ≡ (ok (record { granted = granted; again = again + length ns }), t)
  unfolding redeem_loop
  redeem_loop-spent acct rail now_ms [] granted again t s =
      let e : again + 0 ≡ again = omega arith in rw e refl
  redeem_loop-spent acct rail now_ms (n ∷ ns) granted again t s =
      let e : again + suc (length ns) ≡ again + 1 + length ns = omega arith in
      rw (s.0, e) (redeem_loop-spent acct rail now_ms ns granted (again + 1) t s.1)

  -- Where the loop over a list of notes went through, the loop over the same notes on the tables
  -- that it left, for any account and at any time, counts all of them as spent before and leaves
  -- the tables as they are.
  pub redeem_loop_twice :
      (acct acct' : ℕ) (rail rail' : String) (now_ms later_ms : ℕ) (ns : List Note) (t : Tables)
      (done : Redeemed)
      → (redeem_loop names spent_key acct rail now_ms ns 0 0 t).0 ≡ ok done
      → let u = (redeem_loop names spent_key acct rail now_ms ns 0 0 t).1 in
        redeem_loop names spent_key acct' rail' later_ms ns 0 0 u
        ≡ (ok (record { granted = 0; again = length ns }), u)
  redeem_loop_twice acct acct' rail rail' now_ms later_ms ns t done e =
      let u = (redeem_loop names spent_key acct rail now_ms ns 0 0 t).1 in
      let n : 0 + length ns ≡ length ns = omega arith in
      redeem_loop-spent acct' rail' later_ms ns 0 0 u
        (redeem_loop-Grown acct rail now_ms ns 0 0 t done e).spent
      ∙ ap (λ (k : ℕ). (ok (record { granted = 0; again = k }), u)) n
