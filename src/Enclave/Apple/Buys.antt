-- ===== src/Enclave/Apple/Buys.antt =====
-- crates/enclave/src/apple.rs: proofs about what a transaction buys.
use native.Mathlib.Nat.{mul-le-mul}
use tokumai.Base.{
  ℕ, ◌*◌, ◌≤◌, ◌≡◌, refl, sym, ap, ◌∙◌, Bool, true, false, not, Option, none, some, String, ◌=ₛ◌,
  eq_iff, min, max, arith, Bool-cases, inl, inr,
}
use tokumai.Base.Result.{ok, err, ok_bind, ok_or, require}
use tokumai.Enclave.Apple.{
  AppleTx, Why, bundle_id, plan_kind, tiles, has_tile, on_sale, product_usd, toku_per_usd,
  revoked_plan, environment_accepted, plan_for, credit_for, another_app, not_a_plan, not_credit,
  refunded, not_yours, no_number, not_on_sale,
}

require_ok : (b : Bool) (e : Why) (u : Unit {0}) → require b e ≡ ok u → b ≡ true
require_ok true e u h = refl
require_ok false e u h = absurd (no h)
  where
    no : err e ≡ ok u → ⊥
    no h = cc

ok_or_ok : {A : Type 0} (o : Option A) (e : Why) (a : A) → ok_or o e ≡ ok a → o ≡ some a
ok_or_ok none e a h = cc
ok_or_ok (some b) e a h = cc

on_sale-tile : (o : Option ℕ) (usd : ℕ) → on_sale o ≡ some usd → has_tile usd tiles ≡ true
unfolding on_sale
on_sale-tile none usd e = absurd (cc)
on_sale-tile (some n) usd e = elim (Bool-cases (has_tile n tiles)) [
  | inl h ↦ let same : n ≡ usd = ground arith in ap (λ (k : ℕ). has_tile k tiles) (sym same) ∙ h
  | inr h ↦ absurd (ground arith)
]

tile-bounded : (usd : ℕ) → has_tile usd tiles ≡ true → usd ≤ 50
unfolding has_tile
tile-bounded usd h = ground arith

environment-Production :
    (environment : String) (u : Unit {0})
    → environment_accepted false environment ≡ ok u
    → environment ≡ "Production"
unfolding environment_accepted
environment-Production environment u e = elim (Bool-cases (environment =ₛ "Production")) [
  | inl h ↦ (eq_iff environment "Production").0 h
  | inr h ↦ absurd (ground arith)
]

module _ (sandbox : Bool) where
  -- What a transaction must be to buy credit.
  pub record IsCredit (tx : AppleTx) (toku : ℕ) : Type 0 where
    pub ours : tx.bundle_id ≡ bundle_id
    pub consumable : tx.kind ≡ "Consumable"
    pub kept : tx.revoked ≡ false
    pub owned : tx.ownership ≡ "PURCHASED"
    pub accepted : Unit {0}
    pub from : environment_accepted sandbox tx.environment ≡ ok accepted
    pub usd : ℕ
    pub tile : product_usd tx.product_id ≡ some usd
    pub worth : usd * toku_per_usd * min (max tx.quantity 1) 10 ≡ toku

  pub credit_for-IsCredit :
      (tx : AppleTx) (toku : ℕ) → credit_for sandbox tx ≡ ok toku → IsCredit tx toku
  unfolding credit_for
  credit_for-IsCredit tx toku e =
      let s1 = ok_bind (require (tx.bundle_id =ₛ bundle_id) another_app) _ toku e in
      let s2 = ok_bind (require (tx.kind =ₛ "Consumable") not_credit) _ toku s1.2 in
      let s3 = ok_bind (require (not tx.revoked) refunded) _ toku s2.2 in
      let s4 = ok_bind (require (tx.ownership =ₛ "PURCHASED") not_yours) _ toku s3.2 in
      let s5 = ok_bind (require (not (tx.transaction_id =ₛ "")) no_number) _ toku s4.2 in
      let s6 = ok_bind (environment_accepted sandbox tx.environment) _ toku s5.2 in
      let s7 = ok_bind (ok_or (product_usd tx.product_id) not_on_sale) _ toku s6.2 in
      let live = require_ok (not tx.revoked) refunded s3.0 s3.1 in
      record {
        ours =
            (eq_iff tx.bundle_id bundle_id).0
              (require_ok (tx.bundle_id =ₛ bundle_id) another_app s1.0 s1.1);
        consumable =
            (eq_iff tx.kind "Consumable").0
              (require_ok (tx.kind =ₛ "Consumable") not_credit s2.0 s2.1);
        kept = ground arith;
        owned =
            (eq_iff tx.ownership "PURCHASED").0
              (require_ok (tx.ownership =ₛ "PURCHASED") not_yours s4.0 s4.1);
        accepted = s6.0;
        from = s6.1;
        usd = s7.0;
        tile = ok_or_ok (product_usd tx.product_id) not_on_sale s7.0 s7.1;
        worth = ground arith;
      }

  -- A transaction that buys credit buys no plan at any time and is no refund of one, its worth is
  -- at most 50,000,000, and where the build takes no sandbox purchases it is one of Production.
  pub credit_for-only :
      (tx : AppleTx) (toku now_ms : ℕ) (plan : ℕ × Bool)
      → credit_for sandbox tx ≡ ok toku
      → ((plan_for sandbox tx now_ms ≡ ok plan) → ⊥)
        × (revoked_plan sandbox tx ≡ false)
        × (toku ≤ 50_000_000)
        × ((sandbox ≡ false) → tx.environment ≡ "Production")
  unfolding plan_for revoked_plan product_usd
  credit_for-only tx toku now_ms plan e =
      let c = credit_for-IsCredit tx toku e in
      let usd = tile-bounded c.usd (on_sale-tile _ c.usd c.tile) in
      (
        λ p.
            let s1 = ok_bind (require (tx.bundle_id =ₛ bundle_id) another_app) _ plan p in
            let s2 = ok_bind (require (tx.kind =ₛ plan_kind) not_a_plan) _ plan s1.2 in
            let k =
              (eq_iff tx.kind plan_kind).0
                (require_ok (tx.kind =ₛ plan_kind) not_a_plan s2.0 s2.1) in
            differ (sym c.consumable ∙ k),
        ground (arith, c.kept),
        worth c.usd tx.quantity toku usd c.worth,
        λ off.
            environment-Production tx.environment c.accepted
              (ap (λ (b : Bool). environment_accepted b tx.environment) (sym off) ∙ c.from),
      )
    where
      differ : ◌≡◌ {A = String} "Consumable" plan_kind → ⊥
      differ h = absurd (differ_bool (ap (λ (s : String). s =ₛ "Consumable") h))
        where
          differ_bool : true ≡ false → ⊥
          differ_bool x = cc

      worth :
          (usd q toku : ℕ)
          → usd ≤ 50
          → usd * toku_per_usd * min (max q 1) 10 ≡ toku
          → toku ≤ 50_000_000
      worth usd q toku le w =
          let a : usd * toku_per_usd ≤ 5_000_000 = omega arith in
          let b : min (max q 1) 10 ≤ 10 = omega arith in omega (arith, w, mul-le-mul a b)
