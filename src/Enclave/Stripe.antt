-- ===== src/Enclave/Stripe.antt =====
-- crates/enclave/src/stripe.rs: what the enclave reads out of Stripe's answers, and what it asks for. An
-- answer is the fields that the source reads from its JSON, each missing or there; texts are bytes
-- where they are looked into. `Calls` is what the processor answers at the time of a call.
pub mod Prices
pub mod Changes
use tokumai.Base.{
  ℕ, zero, suc, ◌+◌, ◌-◌, ◌*◌, ◌%◌, Bool, true, false, not, ◌||◌, ◌&&◌, Option, none, some, List,
  [], ◌∷◌, ◌++◌, map, get_elem?, length, ltb, leb, ◌==◌, if◌then◌else◌,
}
use tokumai.Base.Result.{Result, ok, err, ◌>>=◌, ◌>>◌, require, ok_or}
use tokumai.Base.Bytes.{Bytes, codes, has_prefix}
use tokumai.Base.Text.{equal_bytes, strip_prefix, split_at, trim, lower, first_of}
use tokumai.Core.Subscription.{tiers}

pub data MoneyBack : Type 0 where
  nothing refunded disputed : MoneyBack

pub record SubState : Type 0 where
  pub tier : ℕ
  pub yearly : Bool
  pub paid : Bool
  pub start_ms : ℕ
  pub end_ms : ℕ
  pub back : MoneyBack

abbrev pub id_byte : ℕ → Bool
id_byte b = leb 48 b && leb b 57 || leb 65 b && leb b 90 || leb 97 b && leb b 122 || b == 95

unfoldable pub all_bytes : (ℕ → Bool) → Bytes → Bool
all_bytes f [] = true
all_bytes f (b ∷ bs) = let rest = all_bytes f bs in if f b then rest else false

unfoldable pub safe_id : Bytes → Bytes → Bool
unfolding all_bytes
safe_id id prefix = has_prefix prefix id && (ltb (length id) 100 && all_bytes id_byte id)

-- `/`, `?` and `#`
abbrev pub url_stop : ℕ → Bool
url_stop b = b == 47 || (b == 63 || b == 35)

abbrev pub stripe_host : Option Bytes → Bool
unfolding split_at equal_bytes
stripe_host none = false
stripe_host (some rest) =
    equal_bytes (first_of (split_at url_stop rest)) (codes "checkout.stripe.com")

unfoldable pub is_stripe_url : Bytes → Bool
unfolding strip_prefix
is_stripe_url u = stripe_host (strip_prefix (codes "https://") u)

pub record Price : Type 0 where
  pub active : Option Bool
  pub currency : Option Bytes
  pub interval : Option Bytes
  pub interval_count : Option ℕ
  pub unit_amount : Option ℕ

pub data PriceError : Type 0 where
  archived other_currency other_interval no_amount : PriceError

abbrev pub or_else {ℓ} : {A : Type ℓ} → A → Option A → A
or_else d none = d
or_else d (some a) = a

abbrev pub positive : Option ℕ → Option ℕ
positive none = none
positive (some n) = if ltb 0 n then some n else none

unfoldable pub plan_price_cents : Price → Bytes → Result PriceError ℕ
unfolding equal_bytes
plan_price_cents v interval = do
  require (or_else false v.active) archived
  require (equal_bytes (map lower (or_else [] v.currency)) (codes "eur")) other_currency
  require
      (equal_bytes (or_else (codes "one-off") v.interval) interval
        && or_else 1 v.interval_count == 1)
      other_interval
  ok_or (positive v.unit_amount) no_amount

pub record Charge : Type 0 where
  pub created : Option ℕ
  pub refunded : Option Bool
  pub disputed : Option Bool

unfoldable pub any_disputed : List Charge → Bool
any_disputed [] = false
any_disputed (c ∷ cs) = or_else false c.disputed || any_disputed cs

abbrev pub day_ms : ℕ
day_ms = 86_400_000

-- A full refund within a day of the period's start.
unfoldable pub refunded_at : ℕ → Charge → Bool
refunded_at period_start_ms c =
    let at = or_else 0 c.created * 1000 in
    leb period_start_ms (at + day_ms)
    && (leb at (period_start_ms + day_ms) && or_else false c.refunded)

unfoldable pub any_refunded : ℕ → List Charge → Bool
unfolding refunded_at
any_refunded period_start_ms [] = false
any_refunded period_start_ms (c ∷ cs) =
    refunded_at period_start_ms c || any_refunded period_start_ms cs

unfoldable pub money_back : List Charge → ℕ → MoneyBack
unfolding any_disputed any_refunded
money_back charges period_start_ms =
    if any_disputed charges
    then disputed
    else if any_refunded period_start_ms charges
    then refunded
    else nothing

-- `STRIPE_PRICES`, split at commas: the prices, if there are as many as plans.
unfoldable pub safe_prices : List Bytes → List Bytes
unfolding safe_id trim
safe_prices [] = []
safe_prices (p ∷ ps) =
    let rest = safe_prices ps in if safe_id (trim p) (codes "price_") then trim p ∷ rest else rest

unfoldable pub from_secrets : Bytes → Option (List Bytes)
unfolding safe_prices split_at
from_secrets prices =
    let ids = safe_prices (split_at (λ (b : ℕ). b == 44) prices) in
    if length ids == length tiers * 2 then some ids else none

unfoldable pub price_for : List Bytes → ℕ → Bool → Option Bytes
price_for ids tier yearly = get_elem? ids (tier + (if yearly then length tiers else 0))

unfoldable pub position : ℕ → Bytes → List Bytes → Option ℕ
unfolding equal_bytes
position i id [] = none
position i id (p ∷ ps) =
    let rest = position (i + 1) id ps in if equal_bytes p id then some i else rest

abbrev pub tier_at_place : Option ℕ → Option (ℕ × Bool)
tier_at_place none = none
tier_at_place (some at) = some (at % length tiers, leb (length tiers) at)

unfoldable pub tier_of_price : List Bytes → Bytes → Option (ℕ × Bool)
unfolding position
tier_of_price ids id = tier_at_place (position 0 id ids)

-- What a call fails with.
pub data Fail : Type 0 where
  rate_limited other : Fail

pub record SubObject : Type 0 where
  pub price : Option Bytes
  pub status : Option Bytes
  pub customer : Option Bytes
  pub item : Option Bytes
  pub latest_invoice : Option Bytes
  -- the seconds of the first item, and of the subscription itself
  pub item_start : Option ℕ
  pub start : Option ℕ
  pub item_end : Option ℕ
  pub end : Option ℕ

pub record Session : Type 0 where
  pub status : Option Bytes
  pub payment_status : Option Bytes
  pub client_reference_id : Option Bytes
  pub subscription : Option Bytes

pub data StripeError : Type 0 where
  not_a_session not_a_subscription no_price not_sold_here no_item not_applied : StripeError
  call_failed : Fail → StripeError

unfoldable pub period_ms : Option ℕ → Option ℕ → ℕ
period_ms (some item) top = item * 1000
period_ms none top = or_else 0 top * 1000

abbrev pub by_call {ℓ} : {A : Type ℓ} → Result Fail A → Result StripeError A
by_call (ok a) = ok a
by_call (err e) = err (call_failed e)

abbrev pub says : Option Bytes → Bytes → Bool
says none what = false
says (some s) what = equal_bytes s what

unfoldable pub safe : Bytes → Option Bytes → Option Bytes
unfolding safe_id
safe prefix none = none
safe prefix (some id) = if safe_id id prefix then some id else none

abbrev pub with_tag : Bytes → Option Bytes → Option (Bytes × Bytes)
with_tag tag none = none
with_tag tag (some sub) = some (sub, tag)

-- With the session.
unfoldable pub session_read : Result Fail Session → Result StripeError (Option (Bytes × Bytes))
unfolding safe equal_bytes
session_read (err rate_limited) = ok none
session_read (err other) = err (call_failed other)
session_read (ok v) =
    if not (says v.status (codes "complete")) || not (says v.payment_status (codes "paid"))
    then ok none
    else ok (with_tag (or_else [] v.client_reference_id) (safe (codes "sub_") v.subscription))

unfoldable pub checkout_subscription :
    (Bytes → Result Fail Session) → Bytes → Result StripeError (Option (Bytes × Bytes))
unfolding session_read
checkout_subscription read session =
    if safe_id session (codes "cs_") then session_read (read session) else err not_a_session

-- Nothing known is not a revocation.
abbrev pub back_of : Result Fail (List Charge) → ℕ → MoneyBack
unfolding money_back
back_of (ok charges) start_ms = money_back charges start_ms
back_of (err e) start_ms = nothing

abbrev pub customer_back : (Bytes → Result Fail (List Charge)) → Option Bytes → ℕ → MoneyBack
unfolding back_of
customer_back charges none start_ms = nothing
customer_back charges (some customer) start_ms = back_of (charges customer) start_ms

-- The prices are those that the enclave was started with.
module _ (ids : List Bytes) where
  unfoldable pub subscription :
      (Bytes → Result Fail SubObject)
      → (Bytes → Result Fail (List Charge))
      → Bytes
      → Result StripeError SubState
  unfolding tier_of_price period_ms customer_back safe equal_bytes
  subscription read charges sub = do
    require (safe_id sub (codes "sub_")) not_a_subscription
    v ← by_call (read sub)
    price ← ok_or v.price no_price
    plan ← ok_or (tier_of_price ids price) not_sold_here
    ok (record {
      tier = plan.0;
      yearly = plan.1;
      paid = says v.status (codes "active") || says v.status (codes "trialing");
      start_ms = period_ms v.item_start v.start;
      end_ms = period_ms v.item_end v.end;
      back =
          customer_back charges (safe (codes "cus_") v.customer) (period_ms v.item_start v.start);
    })

  -- What is posted for a change: the item, the price, and whether it is billed at once. The key is the
  -- reference with the latest invoice.
  pub record ChangeForm : Type 0 where
    pub item : Bytes
    pub price : Bytes
    pub upgrade : Bool
    pub reference : Bytes
    pub invoice : Bytes

  unfoldable pub applied_tier : ℕ → Bool → Option (ℕ × Bool) → Result StripeError ℕ
  applied_tier tier yearly none = err not_applied
  applied_tier tier yearly (some (t, y)) =
      if t == tier && (y && yearly || not y && not yearly) then ok t else err not_applied

  -- `before` and `after` are what the subscription reads as before the change and after it.
  unfoldable pub change_subscription :
      (Bytes → Result Fail SubObject)
      → (ChangeForm → Result Fail (Unit {0}))
      → (Bytes → Result Fail SubObject)
      → Bytes
      → ℕ
      → Bool
      → Bool
      → Bytes
      → Result StripeError ℕ
  unfolding price_for tier_of_price safe applied_tier
  change_subscription before post after sub tier yearly upgrade reference = do
    require (safe_id sub (codes "sub_")) not_a_subscription
    price ← ok_or (price_for ids tier yearly) not_sold_here
    cur ← by_call (before sub)
    item ← ok_or (safe (codes "si_") cur.item) no_item
    by_call (
        post (record {
          item = item;
          price = price;
          upgrade = upgrade;
          reference = reference;
          invoice = or_else (codes "none") (safe (codes "in_") cur.latest_invoice);
        }))
    applied ← by_call (after sub)
    applied_tier tier yearly (tier_of_price ids (or_else [] applied.price))
