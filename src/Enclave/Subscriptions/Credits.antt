-- ===== src/Enclave/Subscriptions/Credits.antt =====
-- crates/enclave/src/subscriptions.rs: proofs about the credit that App Store transactions buy.
pub mod Outcome
pub mod Once
use mathlib.Core.Path.{subst}
use tokumai.Base.{
  ℕ, ◌+◌, ◌-◌, ◌*◌, ◌/◌, ◌≡◌, refl, sym, ap, ◌∙◌, Bool, true, false, not, inl, inr, Option, none,
  some, List, [], ◌∷◌, ◌++◌, String, ◌=ₛ◌, if◌then◌else◌, if_both, ltb, ◌==◌, arith, Bool-cases,
  Option-cases, min, ◌||◌,
}
use tokumai.Base.Result.{Result, ok, err}
use tokumai.Base.Dict.{Dict, lookup, insert_new, has_key, lookup-insert_new}
use tokumai.Enclave.Ledger.Tables.{
  Tables, Plan, Lot, AllowanceRow, apply, put_plan, lapse_allowance, bind_rail, delete_plan,
  set_allowance, take_allowance, insert_payment, insert_lot, on_allowance,
}
use tokumai.Enclave.Ledger.Money.{Book, Done, first_payment, credit_prepaid, balance}
use tokumai.Enclave.Plans.{
  Names, Refusal, rail_owner, close_period, renew_key, revoke, attach_refusal_key,
}
use tokumai.Enclave.Plans.Changes.{move_plan, move_allowance, pays_another}
use tokumai.Enclave.Plans.Held.{Puts, Renews, renew_key-Renews}
use tokumai.Enclave.Apple.{AppleTx, Why, credit_for, plan_for, revoked_plan, plan_kind}
use tokumai.Enclave.Subscriptions.{
  Shop, Summary, Reply, Owned, mine, target_pays, anothers, with_tables, after_renewal, after_move,
  owned_by, plan_bought, credit_bought, iap_bought, iap_apply, apple_rail, credited, plan_ok,
}

-- Prepaid credit and the payments seen are the same.
pub record SameMoney (t u : Tables) : Type 0 where
  pub payments : u.payments ≡ t.payments
  pub lots : u.lots ≡ t.lots

abbrev pub unmoved : (t : Tables) → SameMoney t t
unmoved t = record { payments = refl; lots = refl }

pub revoke-SameMoney :
    (names : Names) (rail : String) (disputed : Bool) (now_ms : ℕ) (t : Tables)
    → SameMoney t (revoke names rail disputed now_ms t).1
unfolding revoke apply on_allowance
revoke-SameMoney names rail disputed now_ms t = elim (Option-cases (rail_owner names rail t)) [
  | inl n ↦ rw (n, revoke) (unmoved t)
  | inr (acct, n) ↦ elim (Option-cases (lookup acct t.plans)) [
    | inl h ↦ rw (n, revoke, h, revoke) (unmoved t)
    | inr (p, h) ↦
        rw (n, revoke, h, revoke)
          (elim (Bool-cases (p.rail =ₛ rail)) [
            | inl e ↦ rw e (record { payments = refl; lots = refl })
            | inr e ↦ rw e (unmoved t)
          ])
  ]
]

move_allowance-SameMoney : (from to : ℕ) (t : Tables) → SameMoney t (move_allowance from to t)
unfolding move_allowance apply on_allowance
move_allowance-SameMoney from to t = elim (Option-cases (lookup from t.allowances)) [
  | inl n ↦ rw (n, move_allowance) (unmoved t)
  | inr (r, n) ↦
      rw (n, move_allowance)
        (elim (Bool-cases (ltb 0 (r.granted - r.left))) [
          | inl e ↦ rw e (record { payments = refl; lots = refl })
          | inr e ↦ rw e (record { payments = refl; lots = refl })
        ])
]

pub move_plan-SameMoney :
    (names : Names) (rail : String) (to now_ms : ℕ) (t : Tables)
    → SameMoney t (move_plan names rail to now_ms t).1
unfolding move_plan
move_plan-SameMoney names rail to now_ms t = elim (Option-cases (rail_owner names rail t)) [
  | inl n ↦ rw (n, move_plan) (unmoved t)
  | inr (from, n) ↦ elim (Option-cases (lookup from t.plans)) [
    | inl h ↦ rw (n, move_plan, h, move_plan) (unmoved t)
    | inr (p, h) ↦
        let put = apply (put_plan to p) (apply (delete_plan from) (move_allowance from to t)) in
        let u = apply (bind_rail (names.rail_key rail) to) put in
        let money = move_allowance-SameMoney from to t in
        let after : SameMoney t u =
          unfold apply in (record { payments = money.payments; lots = money.lots }) in
        let stays =
          from == to || pays_another rail now_ms (lookup to t.plans) || not (p.rail =ₛ rail) in
        rw (n, move_plan, h, move_plan)
          (if_both (λ (r : Bool × Tables). SameMoney t r.1) stays (λ _. unmoved t) (λ _. after))
  ]
]

Renews-SameMoney :
    (names : Names) (acct : ℕ) (rail : String) (now_ms : ℕ) (t u : Tables) (granted : Bool)
    → Renews names acct rail now_ms t (ok (granted, u))
    → SameMoney t u
unfolding apply
Renews-SameMoney names acct rail now_ms t u granted (inl (n, same)) =
    subst (SameMoney t) (sym same) (unmoved t)
Renews-SameMoney names acct rail now_ms t u granted (inr (free, puts)) = record {
  payments = puts.payments;
  lots = puts.lots;
}

pub after_renewal-SameMoney :
    (names : Names) (reply : Option Summary → Reply) (acct : ℕ) (rail : String) (now_ms : ℕ)
    (r : Result Refusal (Bool × Tables)) (t : Tables) (s : Shop)
    → SameMoney t s.book.tables
    → Renews names acct rail now_ms s.book.tables r
    → SameMoney t (after_renewal reply acct now_ms r s).1.book.tables
unfolding after_renewal
after_renewal-SameMoney names reply acct rail now_ms (err why) t s same renews = same
after_renewal-SameMoney names reply acct rail now_ms (ok (granted, u)) t s same renews =
    let more = Renews-SameMoney names acct rail now_ms s.book.tables u granted renews in
    record { payments = more.payments ∙ same.payments; lots = more.lots ∙ same.lots }
