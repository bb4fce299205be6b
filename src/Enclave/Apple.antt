-- ===== src/Enclave/Apple.antt =====
-- crates/enclave/src/apple.rs: the App Store transactions, from the signed message to what they buy.
-- Product ids are bytes, since they are read; the other texts are compared only. The decoding of
-- base64, JSON and certificates and the checks of signatures are the fields of `Reader` and
-- `Certificates`. The configuration of policy.rs stands here as constants, the build's sandbox
-- switch as the parameter `sandbox`.
pub mod Products
pub mod Buys
pub mod Chain
use tokumai.Base.{
  ℕ, ◌+◌, ◌-◌, ◌*◌, ◌/◌, ◌%◌, ◌^◌, Bool, true, false, not, ◌||◌, ◌&&◌, Option, none, some, List, [],
  ◌∷◌, ◌++◌, map, String, ◌=ₛ◌, length, ltb, leb, ◌==◌, if◌then◌else◌, min, max,
}
use tokumai.Base.Result.{Result, ok, err, ◌>>=◌, ◌>>◌, require, ok_or}
use tokumai.Base.Bytes.{Bytes, codes}
use tokumai.Base.Text.{strip_prefix, strip_suffix, parse_below, decimal}
use tokumai.Core.Subscription.{tiers}

pub record AppleTx : Type 0 where
  pub bundle_id : String
  pub product_id : Bytes
  pub transaction_id : String
  pub original_transaction_id : String
  pub environment : String
  pub kind : String
  pub quantity : ℕ
  pub purchased_at_ms : ℕ
  pub revoked : Bool
  pub ownership : String
  pub storefront : String
  pub expires_at_ms : ℕ

abbrev pub bundle_id : String
bundle_id = "com.tokumai.app"

abbrev pub credit_prefix : Bytes
credit_prefix = codes "com.tokumai.app.credit."

abbrev pub plan_prefix : Bytes
plan_prefix = codes "com.tokumai.app.plan."

abbrev pub year_suffix : Bytes
year_suffix = codes ".year"

-- `tiers` of apple.rs, in dollars.
abbrev pub tiles : List ℕ
tiles = 10 ∷ 20 ∷ 50 ∷ []

abbrev pub toku_per_usd : ℕ
toku_per_usd = 100_000

unfoldable pub product_ids : List Bytes
unfolding decimal
product_ids = map (λ (usd : ℕ). credit_prefix ++ decimal usd) tiles

unfoldable pub has_tile : ℕ → List ℕ → Bool
has_tile n [] = false
has_tile n (m ∷ ms) = m == n || has_tile n ms

abbrev pub on_sale : Option ℕ → Option ℕ
unfolding has_tile
on_sale none = none
on_sale (some usd) = if has_tile usd tiles then some usd else none

abbrev pub number_in : ℕ → Option Bytes → Option ℕ
unfolding parse_below
number_in limit none = none
number_in limit (some digits) = parse_below limit digits

unfoldable pub product_usd : Bytes → Option ℕ
unfolding strip_prefix
product_usd id = on_sale (number_in (2 ^ 32) (strip_prefix credit_prefix id))

unfoldable pub month_id : ℕ × ℕ → Bytes
unfolding decimal
month_id tier = plan_prefix ++ decimal (tier.1 / 100)

unfoldable pub year_id : ℕ × ℕ → Bytes
unfolding month_id
year_id tier = month_id tier ++ year_suffix

unfoldable pub plan_ids : List Bytes
unfolding month_id year_id
plan_ids = map month_id tiers ++ map year_id tiers

-- `position` of the tier that costs so many cents.
unfoldable pub tier_at : ℕ → ℕ → List (ℕ × ℕ) → Option ℕ
tier_at i cents [] = none
tier_at i cents ((toku, c) ∷ ts) =
    let rest = tier_at (i + 1) cents ts in if c == cents then some i else rest

abbrev pub with_period : Bool → Option ℕ → Option (ℕ × Bool)
with_period yearly none = none
with_period yearly (some tier) = some (tier, yearly)

-- A release build multiplies modulo 2 ^ 64.
abbrev pub tier_of_euro : Option ℕ → Option ℕ
unfolding tier_at
tier_of_euro none = none
tier_of_euro (some euro) = tier_at 0 (euro * 100 % 2 ^ 64) tiers

abbrev pub plan_of_rest : Option Bytes → Option (ℕ × Bool)
unfolding strip_suffix
plan_of_rest none = none
plan_of_rest (some rest) = elim (strip_suffix year_suffix rest) [
  | some euro ↦ with_period true (tier_of_euro (number_in (2 ^ 64) (some euro)))
  | none ↦ with_period false (tier_of_euro (number_in (2 ^ 64) (some rest)))
]

unfoldable pub product_plan : Bytes → Option (ℕ × Bool)
unfolding strip_prefix
product_plan id = plan_of_rest (strip_prefix plan_prefix id)

pub data Why : Type 0 where
  another_app not_a_plan not_credit refunded not_yours no_number no_sandbox : Why
  unknown_environment ended not_on_sale : Why

abbrev pub is_some {ℓ} : {A : Type ℓ} → Option A → Bool
is_some none = false
is_some (some a) = true

abbrev pub plan_kind : String
plan_kind = "Auto-Renewable Subscription"

module _ (sandbox : Bool) where
  unfoldable pub revoked_plan : AppleTx → Bool
  revoked_plan tx =
      tx.revoked
      && ((tx.bundle_id =ₛ bundle_id)
          && ((tx.kind =ₛ plan_kind)
              && (not (tx.original_transaction_id =ₛ "")
                  && (is_some (product_plan tx.product_id)
                      && ((tx.environment =ₛ "Production")
                          || ((tx.environment =ₛ "Sandbox") && sandbox))))))

  -- The match on the environment.
  unfoldable pub environment_accepted : String → Result Why (Unit {0})
  environment_accepted environment =
      if environment =ₛ "Production"
      then ok tt
      else if environment =ₛ "Sandbox"
      then if sandbox then ok tt else err no_sandbox
      else err unknown_environment

  unfoldable pub plan_for : AppleTx → ℕ → Result Why (ℕ × Bool)
  unfolding environment_accepted
  plan_for tx now_ms = do
    require (tx.bundle_id =ₛ bundle_id) another_app
    require (tx.kind =ₛ plan_kind) not_a_plan
    require (not tx.revoked) refunded
    require (tx.ownership =ₛ "PURCHASED") not_yours
    require (not (tx.original_transaction_id =ₛ "")) no_number
    environment_accepted tx.environment
    require (not (tx.expires_at_ms == 0 || leb tx.expires_at_ms now_ms)) ended
    ok_or (product_plan tx.product_id) not_on_sale

  unfoldable pub credit_for : AppleTx → Result Why ℕ
  unfolding environment_accepted
  credit_for tx = do
    require (tx.bundle_id =ₛ bundle_id) another_app
    require (tx.kind =ₛ "Consumable") not_credit
    require (not tx.revoked) refunded
    require (tx.ownership =ₛ "PURCHASED") not_yours
    require (not (tx.transaction_id =ₛ "")) no_number
    environment_accepted tx.environment
    usd ← ok_or (product_usd tx.product_id) not_on_sale
    ok (usd * toku_per_usd * min (max tx.quantity 1) 10)
