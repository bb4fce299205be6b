-- ===== src/Enclave/Stripe/Prices.antt =====
-- crates/enclave/src/stripe.rs: proofs about the prices of the plans.
use tokumai.Base.{
  ℕ, zero, suc, ◌+◌, ◌-◌, ◌*◌, ◌%◌, ◌≤◌, ◌<◌, ◌≡◌, refl, sym, ap, ◌∙◌, Bool, true, false, none,
  some, List, [], ◌∷◌, get_elem?, length, leb, if◌then◌else◌, if_both, arith, Bool-cases,
  Option-cases, inl, inr,
}
use tokumai.Base.Bytes.{Bytes}
use tokumai.Base.Text.{equal_bytes, equal_bytes→≡, equal_bytes_refl}
use tokumai.Core.Subscription.{tiers}
use tokumai.Enclave.Stripe.{price_for, position, tier_at_place, tier_of_price}

abbrev pub stands_in : Bytes → List Bytes → Bool
stands_in id [] = false
stands_in id (p ∷ ps) = if equal_bytes p id then true else stands_in id ps

-- No price stands twice.
abbrev pub is_distinct : List Bytes → Bool
is_distinct [] = true
is_distinct (p ∷ ps) = if stands_in p ps then false else is_distinct ps

stands_in-found :
    (id : Bytes) (ids : List Bytes) (n : ℕ) → get_elem? ids n ≡ some id → stands_in id ids ≡ true
stands_in-found id [] n e = absurd (cc)
stands_in-found id (p ∷ ps) zero e =
    let same : p ≡ id = ground arith in
    let h : equal_bytes p id ≡ true = rw same (equal_bytes_refl id) in rw h refl
stands_in-found id (p ∷ ps) (suc n) e =
    if_both (λ (b : Bool). b ≡ true) (equal_bytes p id) (λ _. refl) (λ _. stands_in-found id ps n e)

distinct_place :
    (ids : List Bytes) (i j : ℕ) (id : Bytes)
    → is_distinct ids ≡ true
    → get_elem? ids i ≡ some id
    → get_elem? ids j ≡ some id
    → i ≡ j
distinct_place [] i j id d a b = absurd (cc)
distinct_place (p ∷ ps) zero zero id d a b = refl
distinct_place (p ∷ ps) zero (suc j) id d a b =
    let same : p ≡ id = ground arith in
    let again : stands_in p ps ≡ true = rw same (stands_in-found id ps j b) in absurd (ground arith)
distinct_place (p ∷ ps) (suc i) zero id d a b =
    let same : p ≡ id = ground arith in
    let again : stands_in p ps ≡ true = rw same (stands_in-found id ps i a) in absurd (ground arith)
distinct_place (p ∷ ps) (suc i) (suc j) id d a b =
    let rest : is_distinct ps ≡ true = ground arith in ap suc (distinct_place ps i j id rest a b)

position-found :
    (i : ℕ) (id : Bytes) (ids : List Bytes) (n : ℕ)
    → position i id ids ≡ some n
    → (i ≤ n) × (get_elem? ids (n - i) ≡ some id)
unfolding position
position-found i id [] n e = absurd (cc)
position-found i id (p ∷ ps) n e = elim (Bool-cases (equal_bytes p id)) [
  | inl h ↦
      let same : p ≡ id = equal_bytes→≡ p id h in
      let here : i ≡ n = ground arith in
      let at : n - i ≡ 0 = omega arith in (omega arith, rw at (ap some same))
  | inr h ↦
      let ih = position-found (i + 1) id ps n (ground arith) in
      let at : n - i ≡ suc (n - (i + 1)) = omega (arith, ih.0) in (omega (arith, ih.0), rw at ih.1)
]

position-total :
    (i : ℕ) (id : Bytes) (ids : List Bytes) (k : ℕ)
    → get_elem? ids k ≡ some id
    → (n : ℕ) × (position i id ids ≡ some n)
unfolding position
position-total i id [] k e = absurd (cc)
position-total i id (p ∷ ps) zero e =
    let same : p ≡ id = ground arith in
    let h : equal_bytes p id ≡ true = rw same (equal_bytes_refl id) in (i, rw h refl)
position-total i id (p ∷ ps) (suc k) e = elim (Bool-cases (equal_bytes p id)) [
  | inl h ↦ (i, rw h refl)
  | inr h ↦ let ih = position-total (i + 1) id ps k e in (ih.0, rw h ih.1)
]

-- Where no price stands twice, the price of a plan, monthly or yearly, names that plan again.
pub tier_of_price-price_for :
    (ids : List Bytes) (tier : ℕ) (yearly : Bool) (id : Bytes)
    → is_distinct ids ≡ true
    → tier < length tiers
    → price_for ids tier yearly ≡ some id
    → tier_of_price ids id ≡ some (tier, yearly)
unfolding tier_of_price price_for
tier_of_price-price_for ids tier yearly id distinct small e =
    let found = position-total 0 id ids (tier + (if yearly then length tiers else 0)) e in
    let at = position-found 0 id ids found.0 found.1 in
    let n : found.0 - 0 ≡ tier + (if yearly then length tiers else 0) =
      distinct_place ids (found.0 - 0) (tier + (if yearly then length tiers else 0)) id distinct
        at.1 e in
    rw found.1 (plan_at yearly found.0 tier small (omega arith))
  where
    plan_at :
        (yearly : Bool) (n tier : ℕ)
        → tier < length tiers
        → n ≡ tier + (if yearly then length tiers else 0)
        → tier_at_place (some n) ≡ some (tier, yearly)
    plan_at true n tier small e = ground arith
    plan_at false n tier small e = ground arith

get_elem?-bounded :
    (ids : List Bytes) (n : ℕ) (id : Bytes) → get_elem? ids n ≡ some id → n < length ids
get_elem?-bounded [] n id e = absurd (cc)
get_elem?-bounded (p ∷ ps) zero id e = omega arith
get_elem?-bounded (p ∷ ps) (suc n) id e = omega (arith, get_elem?-bounded ps n id e)

plan_place :
    (n tier : ℕ) (yearly : Bool)
    → n < 6
    → n % 3 ≡ tier
    → leb 3 n ≡ yearly
    → n ≡ tier + (if yearly then 3 else 0)
plan_place n tier true small e f = ground arith
plan_place n tier false small e f = ground arith

-- A price that names a plan is that plan's price, where there is one for each plan.
pub price_for-tier_of_price :
    (ids : List Bytes) (tier : ℕ) (yearly : Bool) (id : Bytes)
    → length ids ≡ length tiers * 2
    → tier_of_price ids id ≡ some (tier, yearly)
    → price_for ids tier yearly ≡ some id
unfolding tier_of_price price_for
price_for-tier_of_price ids tier yearly id six e = elim (Option-cases (position 0 id ids)) [
  | inl h ↦ absurd (nothing (sym (ap tier_at_place h) ∙ e))
  | inr (n, h) ↦
      let at = position-found 0 id ids n h in
      let bound = get_elem?-bounded ids (n - 0) id at.1 in
      let plan : tier_at_place (some n) ≡ some (tier, yearly) = sym (ap tier_at_place h) ∙ e in
      let t : n % 3 ≡ tier = ground arith in
      let y : leb 3 n ≡ yearly = ground arith in
      let where_it_is : n - 0 ≡ tier + (if yearly then 3 else 0) =
        omega (arith, plan_place n tier yearly (omega (arith, bound)) t y) in
      rw (sym where_it_is) at.1
]
  where
    nothing : tier_at_place none ≡ some (tier, yearly) → ⊥
    nothing x = cc
