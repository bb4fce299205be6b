-- ===== src/Enclave/Apple/Products.antt =====
-- crates/enclave/src/apple.rs: proofs about the product ids.
use tokumai.Base.{
  ℕ, zero, suc, ◌+◌, ◌<◌, ◌≡◌, refl, Bool, true, false, Option, some, List, [], ◌∷◌, get_elem?,
  length, if◌then◌else◌, arith,
}
use tokumai.Base.Bytes.{Bytes}
use tokumai.Base.Text.{
  strip_prefix, strip_suffix, parse_below, decimal, digits_from, digits, ends_with, equal_bytes,
}
use tokumai.Core.Subscription.{tiers}
use tokumai.Enclave.Apple.{plan_ids, month_id, year_id, tier_at, product_plan}

abbrev place : ℕ → Bool → ℕ
place tier yearly = if yearly then tier + 3 else tier

carried :
    (f : Bytes → Option (ℕ × Bool)) (x y : Bytes) (v : Option (ℕ × Bool))
    → some x ≡ some y
    → f x ≡ v
    → f y ≡ v
carried f x y v e h = cc

pub product_plan-plan_ids :
    (tier : ℕ) (yearly : Bool) (id : Bytes)
    → tier < length tiers
    → get_elem? plan_ids (place tier yearly) ≡ some id
    → product_plan id ≡ some (tier, yearly)
unfolding plan_ids month_id year_id decimal digits_from product_plan strip_prefix strip_suffix
    parse_below digits ends_with equal_bytes tier_at
product_plan-plan_ids zero false id h e = carried product_plan _ id _ e refl
product_plan-plan_ids zero true id h e = carried product_plan _ id _ e refl
product_plan-plan_ids (suc zero) false id h e = carried product_plan _ id _ e refl
product_plan-plan_ids (suc zero) true id h e = carried product_plan _ id _ e refl
product_plan-plan_ids (suc (suc zero)) false id h e = carried product_plan _ id _ e refl
product_plan-plan_ids (suc (suc zero)) true id h e = carried product_plan _ id _ e refl
product_plan-plan_ids (suc (suc (suc n))) yearly id h e = absurd (omega arith)

tier_at-bounded :
    (i cents tier : ℕ) (ts : List (ℕ × ℕ)) → tier_at i cents ts ≡ some tier → tier < i + length ts
unfolding tier_at
tier_at-bounded i cents tier [] h = cc
tier_at-bounded i cents tier ((toku, c) ∷ ts) h =
    ground (arith, tier_at-bounded (i + 1) cents tier ts)
