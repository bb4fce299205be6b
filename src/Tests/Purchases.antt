-- ===== src/Tests/Purchases.antt =====
-- crates/enclave/src/apple.rs, stripe.rs, subscriptions.rs, admin.rs and ghost.rs on small inputs.
use tokumai.Base.{
  ℕ, ◌≤◌, ◌≡◌, refl, Bool, true, false, none, some, [], ◌∷◌, String, ◌=ₛ◌, if◌then◌else◌, arith,
  ◌==◌, ap, Bool-cases, inl, inr,
}
use tokumai.Base.Result.{ok, err}
use tokumai.Base.Bytes.{codes}
use tokumai.Base.Text.{strip_prefix, parse_below, digits}
use tokumai.Base.Dict.{lookup, insert_new, has_key}
use tokumai.Core.Calendar.{
  civil_from_ms, civil_of_day, yoe_of, doy_of, month_of, day_of, add_months_ms, year_of_index,
  month_of_index, is_leap, days_in_month, days_of_month, ms_from_civil, day_from_civil, doy_from,
}
use tokumai.Enclave.Ledger.Tables.{Tables, Plan, no_rows, apply}
use tokumai.Enclave.Ledger.Money.{
  first_payment, credit_prepaid, balance, running_allowance, open_lots, is_open, by_expiry,
}
use tokumai.Enclave.Plans.{Names, no_plan, rail_owner}
use tokumai.Enclave.Plans.Stale.{stale}
use tokumai.Enclave.Apple.{
  AppleTx, revoked_plan, environment_accepted, plan_for, credit_for, product_usd, has_tile,
}
use tokumai.Enclave.Subscriptions.{Shop, credited, iap_apply, iap_bought, credit_bought}
use tokumai.Enclave.Subscriptions.Credits.Outcome.{credited_of}
use tokumai.Enclave.Subscriptions.Credits.Once.{iap_all, iap_apply_once}
use mathlib.Core.List.{Perm}
use mathlib.Core.Path.{subst}
use tokumai.Enclave.Subscriptions.{Processor, AppStore, told, check_stripe}
use tokumai.Enclave.Subscriptions.Asked.{WasChecked, check_stripe-WasChecked}
use tokumai.Enclave.Subscriptions.Rails.{Keeps, iap_apply-Keeps}
use tokumai.Enclave.Stats.{added}
use tokumai.Enclave.Subscriptions.Beat.{House, tick}
use tokumai.Enclave.Subscriptions.Beat.Always.{Served, Served-IsHeld}
use tokumai.Enclave.Plans.Held.Steps.{IsHeld}
use tokumai.Enclave.Plans.Stale.Order.{due, StalestFirst, stale-StalestFirst}
use tokumai.Enclave.Apple.Buys.{credit_for-only}

abbrev names : Names
names = record {
  rail_key = λ rail. if rail =ₛ "iap:1" then 7 else 8;
  mint_reference = λ rail epoch. epoch;
}

abbrev key : String → ℕ
key account = if account =ₛ "anna" then 1 else 2

abbrev payment_ref : String → ℕ
payment_ref transaction = if transaction =ₛ "tx" then 3 else 4

abbrev credit_tx : AppleTx
credit_tx = record {
  bundle_id = "com.tokumai.app";
  product_id = codes "com.tokumai.app.credit.10";
  transaction_id = "tx";
  original_transaction_id = "tx";
  environment = "Production";
  kind = "Consumable";
  quantity = 1;
  purchased_at_ms = 1000;
  revoked = false;
  ownership = "PURCHASED";
  storefront = "DEU";
  expires_at_ms = 0;
}

abbrev plan_tx : AppleTx
plan_tx = record credit_tx {
  product_id = codes "com.tokumai.app.plan.10";
  original_transaction_id = "1";
  kind = "Auto-Renewable Subscription";
  purchased_at_ms = 1_000_000;
  expires_at_ms = 9_000_000;
}

abbrev shop : Shop
shop = record {
  book = record { tables = no_rows; lot_seq = 0; hold_seq = 0; nonces = [] };
  cover = record { seen = []; waiting = [] };
}

credited_first :
    (iap_apply names key payment_ref false "anna" credit_tx false 5_000 shop).0
    ≡ credited 1_000_000 1_000_000
unfolding iap_apply iap_bought credit_bought plan_for environment_accepted credit_for product_usd
    strip_prefix parse_below digits has_tile revoked_plan first_payment credit_prepaid balance
    running_allowance open_lots is_open by_expiry lookup insert_new has_key apply add_months_ms
    civil_from_ms civil_of_day yoe_of doy_of month_of day_of year_of_index month_of_index is_leap
    days_in_month days_of_month ms_from_civil day_from_civil doy_from
credited_first = refl

iap_apply_once_example :
    let first = iap_apply names key payment_ref false "anna" credit_tx false 5_000 shop in
    let before =
      iap_all names key payment_ref false
        (record { account = "bert"; tx = plan_tx; restore = true; now_ms = 2_000_000 } ∷ [])
        first.1 in
    let after = iap_apply names key payment_ref false "bert" credit_tx true 6_000 before in
    (credited_of after.0 ≡ 0) × (after.1.book.tables.lots ≡ before.book.tables.lots)
iap_apply_once_example =
    iap_apply_once names key payment_ref false "anna" "bert" credit_tx credit_tx false true 5_000
      6_000 1_000_000 1_000_000
      (record { account = "bert"; tx = plan_tx; restore = true; now_ms = 2_000_000 } ∷ []) shop
      credited_first refl

abbrev house : House
house = record {
  shop = shop;
  stats = record {
    hours = [];
    pending = ("d:1:m:text:requests", 2) ∷ [];
    active = record { day = 0; today = []; yesterday = [] };
    events = [];
  };
  plan_prices = [];
  prices_at_ms = 0;
}

abbrev with_plan : House
with_plan = record house {
  shop = (iap_apply names key payment_ref false "anna" plan_tx false 2_000_000 shop).1;
}

abbrev answers : String → AppStore
answers transaction = told 5 none

Served-IsHeld_example :
    IsHeld names (tick names false none answers (λ k. added) 30_000_000 with_plan).shop.book.tables
Served-IsHeld_example =
    Served-IsHeld names key payment_ref false
      (tick names false none answers (λ k. added) 30_000_000 with_plan)
      (Served.beat none answers (λ k. added) 30_000_000
        (Served.bought {h = house} "anna" plan_tx false 2_000_000 (Served.begun {h = house} refl)
          refl)
        refl)

live : revoked_plan false plan_tx ≡ false
unfolding revoked_plan
live = refl

iap_apply-Keeps_example :
    Keeps names 1 with_plan.shop.book.tables
      (iap_apply names key payment_ref false "bert" plan_tx false 3_000_000
        with_plan.shop).1.book.tables
iap_apply-Keeps_example =
    iap_apply-Keeps names 1 key payment_ref false "bert" plan_tx 3_000_000 with_plan.shop live refl

abbrev card_plan : Plan
card_plan = record no_plan { rail = "stripe:sub_1"; active = true; paid_until_ms = 9_000_000 }

abbrev card_tables : Tables
card_tables = record no_rows { plans = (1, card_plan) ∷ []; rails = (8, 1) ∷ [] }

card-IsHeld : IsHeld names card_tables
unfolding lookup rail_owner
card-IsHeld acct p h = elim (Bool-cases (1 == acct)) [
  | inl e ↦
      let this : card_plan ≡ p = ground arith in
      let same : 1 ≡ acct = ground arith in
      subst (λ (x : Plan). rail_owner names x.rail card_tables ≡ some acct) (this) (ap some same)
  | inr e ↦ absurd (ground arith)
]

abbrev stripe : Processor
stripe = record {
  open_checkout = λ tier yearly reference tag consent. err "closed";
  checkout = λ session. ok none;
  subscription = λ sub. err "busy";
  change = λ sub tier yearly upgrade reference. ok tier;
  plan_prices = err "busy";
}

card_found : lookup 1 card_tables.plans ≡ some card_plan
unfolding lookup
card_found = refl

check_stripe-WasChecked_example :
    WasChecked 1 "stripe:sub_1" 5_000_000
      (check_stripe names (some stripe) 1 card_plan 5_000_000 card_tables).0
check_stripe-WasChecked_example =
    check_stripe-WasChecked names stripe 1 5_000_000 card_plan card_tables card-IsHeld card_found

stale-StalestFirst_example :
    Perm (stale 30_000_000 21_600_000 card_tables) (due 30_000_000 21_600_000 card_tables.plans)
    × StalestFirst (stale 30_000_000 21_600_000 card_tables)
stale-StalestFirst_example = stale-StalestFirst 30_000_000 21_600_000 card_tables

buys : credit_for false credit_tx ≡ ok 1_000_000
unfolding credit_for environment_accepted product_usd strip_prefix parse_below digits has_tile
buys = refl

credit_for-only_example :
    ((plan_for false credit_tx 5_000 ≡ ok (0, false)) → ⊥)
    × (revoked_plan false credit_tx ≡ false)
    × (1_000_000 ≤ 50_000_000)
    × (◌≡◌ {A = Bool} false false → credit_tx.environment ≡ "Production")
credit_for-only_example = credit_for-only false credit_tx 1_000_000 5_000 (0, false) buys
