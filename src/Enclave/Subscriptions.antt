-- ===== src/Enclave/Subscriptions.antt =====
-- crates/enclave/src/subscriptions.rs: the plan operations that the app calls, and the renewal check of
-- one plan. A request is its parsed fields; what Stripe and Apple answer at the time of a call are
-- the functions of `Processor` and `AppStore`. An account is its stored name, a number. The
-- reference of a change is its three parts.
pub mod Beat
pub mod Rails
pub mod Credits
pub mod Asked
use Prim.Native.String.{◌++◌ as ◌++ₛ◌, slice, len}
use tokumai.Base.{
  ℕ, zero, suc, ◌+◌, ◌-◌, ◌*◌, Bool, true, false, not, ◌||◌, ◌&&◌, Option, none, some, List, [],
  ◌∷◌, String, ◌=ₛ◌, starts_with, length, ltb, leb, ◌==◌, if◌then◌else◌, min,
}
use tokumai.Base.Result.{Result, ok, err}
use tokumai.Base.Dict.{lookup}
use tokumai.Core.Subscription.{tiers}
use tokumai.Enclave.Ledger.Tables.{Tables, Plan, AllowanceRow}
use tokumai.Enclave.Ledger.Money.{Book, Done, first_payment, credit_prepaid, balance}
use tokumai.Enclave.Plans.{
  Names, Refusal, already, paid_at, tier_toku, rail_owner, renew_key, renew_by_rail, revoke,
}
use tokumai.Enclave.Plans.Changes.{change_tier, move_plan, mark_checked}
use tokumai.Enclave.Plans.Stale.{is_app_store, is_note, has_paid_plan}
use tokumai.Enclave.Apple.{
  AppleTx, Why, revoked_plan, plan_for, credit_for, product_plan, plan_kind,
}
use tokumai.Enclave.Cover.{Cover, paid}
use tokumai.Enclave.Stripe.{SubState, MoneyBack}

-- The enclave's state that these operations change.
pub record Shop : Type 0 where
  pub book : Book
  pub cover : Cover

abbrev pub with_tables : Tables → Shop → Shop
with_tables t s = record s { book = record s.book { tables = t } }

pub record Summary : Type 0 where
  pub tier : ℕ
  pub yearly : Bool
  pub rail : String
  pub active : Bool
  pub paid_until_ms : ℕ
  pub period_end_ms : ℕ
  pub granted : ℕ
  pub left : ℕ
  pub toku_per_month : ℕ

abbrev no_allowance : AllowanceRow
no_allowance = record { period = 0; ends_ms = 0; granted = 0; left = 0 }

abbrev row_of : Option AllowanceRow → AllowanceRow
row_of none = no_allowance
row_of (some r) = r

unfoldable pub plan_summary : ℕ → ℕ → Tables → Option Summary
unfolding paid_at tier_toku is_note is_app_store
plan_summary acct now_ms t = elim (lookup acct t.plans) [
  | none ↦ none
  | some p ↦
      let r = row_of (lookup acct t.allowances) in
      some (record {
        tier = p.tier;
        yearly = p.yearly;
        rail = if is_note p then "note" else if is_app_store p then "appstore" else "stripe";
        active = paid_at now_ms p;
        paid_until_ms = p.paid_until_ms;
        period_end_ms = r.ends_ms;
        granted = r.granted;
        left = r.left;
        toku_per_month = tier_toku (min p.tier (length tiers - 1));
      })
]

pub record ChangeRef : Type 0 where
  pub sub : String
  pub tier : ℕ
  pub period : ℕ

pub record Processor : Type 0 where
  -- tier, yearly, reference, tag, consent
  pub open_checkout : ℕ → Bool → String → String → String → Result String (String × String × ℕ)
  pub checkout : String → Result String (Option (String × String))
  pub subscription : String → Result String SubState
  pub change : String → ℕ → Bool → Bool → ChangeRef → Result String ℕ
  pub plan_prices : Result String (List ℕ)

pub data Reply : Type 0 where
  failed : String → Reply
  not_by_card no_such_plan needs_consent plan_already : Reply
  plan_open : (session link : String) (expires_at : ℕ) → Reply
  plan_pending not_this_account no_plan not_paid app_store other_interval same_plan : Reply
  plan_paid plan_ok : Option Summary → Reply
  plan_changed : (added : ℕ) → Option Summary → Reply
  plan_refused : Refusal → Reply
  refunded_by_apple other_account : Reply
  not_bought : Why → Reply
  credited : (toku total : ℕ) → Reply

pub record Consent : Type 0 where
  pub version : Option String
  pub immediate_start : Bool
  pub waiver_ack : Bool

pub record PlanRequest : Type 0 where
  pub tier : ℕ
  pub yearly : Bool
  pub consent : Consent

abbrev pub consent_version : String
consent_version = "2026-09-22"

abbrev or_empty : Option String → String
or_empty none = ""
or_empty (some s) = s

unfoldable pub gave_consent : Consent → Bool
gave_consent c = c.immediate_start && (c.waiver_ack && (or_empty c.version =ₛ consent_version))

abbrev opened : Result String (String × String × ℕ) → Reply
opened (ok (session, link, expires_at)) = plan_open session link expires_at
opened (err e) = failed e

-- `tag` is the account's own, `reference` the random name of the checkout. No state changes.
unfoldable pub plan_create : Option Processor → ℕ → String → String → PlanRequest → ℕ → Shop → Reply
unfolding gave_consent has_paid_plan
plan_create none acct tag reference req now_ms s = not_by_card
plan_create (some stripe) acct tag reference req now_ms s =
    if leb (length tiers) req.tier
    then no_such_plan
    else if not (gave_consent req.consent)
    then needs_consent
    else if has_paid_plan acct now_ms s.book.tables
    then plan_already
    else opened
        (stripe.open_checkout req.tier req.yearly reference tag (or_empty req.consent.version))

-- `trim_start_matches`, on the length of the text as fuel.
unfoldable pub trim_matches : ℕ → String → String → String
trim_matches zero p s = s
trim_matches (suc k) p s = elim (starts_with s p) [
  | true ↦ trim_matches k p (slice s (len p) (len s))
  | false ↦ s
]

unfoldable pub trim_start_matches : String → String → String
unfolding trim_matches
trim_start_matches p s = trim_matches (len s) p s

abbrev pub stripe_rail : String → String
stripe_rail sub = "stripe:" ++ₛ sub

abbrev pub apple_rail : String → String
apple_rail transaction = "iap:" ++ₛ transaction

-- The answer of a renewal, after which the cover watches.
unfoldable pub after_renewal :
    (Option Summary → Reply) → ℕ → ℕ → Result Refusal (Bool × Tables) → Shop → Reply × Shop
unfolding plan_summary
after_renewal reply acct now_ms (err why) s = (plan_refused why, s)
after_renewal reply acct now_ms (ok (granted, t)) s =
    (reply (plan_summary acct now_ms t), with_tables t s)

abbrev pub was_refused : Reply → Bool
was_refused (plan_refused why) = true
was_refused _ = false

-- `if done.is_ok()`: the cover watches from here.
abbrev pub cover_paid : ℕ → ℕ → Reply × Shop → Reply × Shop
cover_paid acct now_ms r =
    (r.0, record r.1 { cover = if was_refused r.0 then r.1.cover else paid acct now_ms r.1.cover })

module _ (names : Names) where
  -- With the subscription that Stripe describes.
  unfoldable pub status_bound : ℕ → String → Result String SubState → ℕ → Shop → Reply × Shop
  unfolding after_renewal
  status_bound acct sub (err e) now_ms s = (failed e, s)
  status_bound acct sub (ok st) now_ms s =
      if st.paid
      then cover_paid acct now_ms (
          after_renewal plan_paid acct now_ms
            (renew_key names acct st.tier st.yearly (stripe_rail sub) now_ms st.start_ms st.end_ms
              s.book.tables)
            s)
      else (plan_pending, s)

  -- With the checkout.
  unfoldable pub status_claimed :
      Processor → ℕ → String → Result String (Option (String × String)) → ℕ → Shop → Reply × Shop
  unfolding status_bound
  status_claimed stripe acct tag (err e) now_ms s = (failed e, s)
  status_claimed stripe acct tag (ok none) now_ms s = (plan_pending, s)
  status_claimed stripe acct tag (ok (some (sub, opener))) now_ms s =
      if opener =ₛ tag
      then status_bound acct sub (stripe.subscription sub) now_ms s
      else (not_this_account, s)

  unfoldable pub plan_status : Option Processor → ℕ → String → String → ℕ → Shop → Reply × Shop
  unfolding status_claimed
  plan_status none acct tag session now_ms s = (not_by_card, s)
  plan_status (some stripe) acct tag session now_ms s =
      status_claimed stripe acct tag (stripe.checkout session) now_ms s

-- What a change asks of Stripe.
pub record ChangeAsked : Type 0 where
  pub sub : String
  pub tier : ℕ
  pub yearly : Bool
  pub upgrade : Bool
  pub reference : ChangeRef

unfoldable pub change_asked : ℕ → Bool → Plan → ℕ → ChangeAsked
unfolding trim_start_matches trim_matches tier_toku
change_asked tier yearly p period =
    let sub = trim_start_matches "stripe:" p.rail in
    record {
      sub = sub;
      tier = tier;
      yearly = yearly;
      upgrade = ltb (tier_toku p.tier) (tier_toku tier);
      reference = record { sub = sub; tier = tier; period = period };
    }

-- The reason for which a plan cannot be changed so.
unfoldable pub change_refusal : ℕ → Bool → ℕ → Plan → Option Reply
unfolding paid_at is_app_store
change_refusal tier yearly now_ms p =
    if not (paid_at now_ms p)
    then some not_paid
    else if is_app_store p
    then some app_store
    else if not (p.yearly && yearly || not p.yearly && not yearly)
    then some other_interval
    else if p.tier == tier
    then some same_plan
    else none

unfoldable pub change_answered : ℕ → ℕ → ℕ → Result String ℕ → Shop → Reply × Shop
unfolding plan_summary
change_answered acct tier now_ms (err e) s = (failed e, s)
change_answered acct tier now_ms (ok applied) s =
    let done = change_tier acct tier now_ms s.book.tables in
    (plan_changed done.0 (plan_summary acct now_ms done.1), with_tables done.1 s)

-- The reply and the state, and what Stripe was asked.
unfoldable pub plan_change :
    Option Processor → ℕ → ℕ → Bool → ℕ → Shop → Reply × Shop × Option ChangeAsked
unfolding change_asked change_refusal change_answered
plan_change none acct wanted yearly now_ms s = (not_by_card, s, none)
plan_change (some stripe) acct wanted yearly now_ms s = elim (lookup acct s.book.tables.plans) [
  | none ↦ (no_plan, s, none)
  | some p ↦
      let tier = min wanted (length tiers - 1) in
      let period = (row_of (lookup acct s.book.tables.allowances)).period in
      let ask = change_asked tier yearly p period in
      let answer = stripe.change ask.sub ask.tier ask.yearly ask.upgrade ask.reference in
      let after = change_answered acct tier now_ms answer s in
      elim (change_refusal tier yearly now_ms p) [
        | some why ↦ (why, s, none)
        | none ↦ (after.0, after.1, some ask)
      ]
]

-- Whose plan a transaction is about.
pub data Owned : Type 0 where
  mine : Tables → Owned
  target_pays : Owned
  anothers : Owned

abbrev after_move : Bool × Tables → Owned
after_move (true, t) = mine t
after_move (false, t) = target_pays

-- `payment_ref` is the stored form of the reference "apple-tx:…".
module _ (names : Names) (key payment_ref : String → ℕ) (sandbox : Bool) where
  unfoldable pub owned_by : String → ℕ → Bool → ℕ → Tables → Owned
  owned_by rail acct restore now_ms t = elim (rail_owner names rail t) [
    | none ↦ mine t
    | some owner ↦
        if owner == acct
        then mine t
        else if restore
        then after_move (move_plan names rail acct now_ms t)
        else anothers
  ]

  unfoldable pub plan_bought : ℕ → AppleTx → ℕ × Bool → ℕ → Owned → Shop → Reply × Shop
  unfolding after_renewal
  plan_bought acct tx (tier, yearly) now_ms target_pays s = (plan_already, s)
  plan_bought acct tx (tier, yearly) now_ms anothers s = (other_account, s)
  plan_bought acct tx (tier, yearly) now_ms (mine t) s =
      after_renewal plan_ok acct now_ms
        (renew_key names acct tier yearly (apple_rail tx.original_transaction_id) now_ms
          tx.purchased_at_ms tx.expires_at_ms t)
        (with_tables t (record s { cover = paid acct now_ms s.cover }))

  unfoldable pub credit_bought : String → AppleTx → Result Why ℕ → ℕ → Shop → Reply × Shop
  unfolding balance
  credit_bought account tx (err why) now_ms s = (not_bought why, s)
  credit_bought account tx (ok toku) now_ms s =
      let first = first_payment (payment_ref tx.transaction_id) now_ms s.book in
      let done = credit_prepaid key account toku now_ms first.book in
      if first.result
      then (
        credited toku (balance key account now_ms done.book).total,
        record { book = done.book; cover = paid (key account) now_ms s.cover },
      )
      else (
        credited 0 (balance key account now_ms first.book).total,
        record s { book = first.book },
      )

  unfoldable pub iap_bought :
      String → AppleTx → Result Why (ℕ × Bool) → Bool → ℕ → Shop → Reply × Shop
  unfolding owned_by plan_bought credit_bought
  iap_bought account tx (ok plan) restore now_ms s =
      plan_bought (key account) tx plan now_ms
        (owned_by (apple_rail tx.original_transaction_id) (key account) restore now_ms
          s.book.tables)
        s
  iap_bought account tx (err why) restore now_ms s =
      if tx.kind =ₛ plan_kind
      then (not_bought why, s)
      else credit_bought account tx (credit_for sandbox tx) now_ms s

  unfoldable pub iap_apply : String → AppleTx → Bool → ℕ → Shop → Reply × Shop
  unfolding iap_bought
  iap_apply account tx restore now_ms s =
      if revoked_plan sandbox tx
      then (
        refunded_by_apple,
        with_tables
            (revoke names (apple_rail tx.original_transaction_id) false now_ms s.book.tables).1 s,
      )
      else iap_bought account tx (plan_for sandbox tx now_ms) restore now_ms s

pub data AppStore : Type 0 where
  -- no key among the secrets
  not_configured : AppStore
  -- an error, or a transaction that Apple does not know
  no_answer : AppStore
  -- the status, and the transaction if its signature verifies
  told : (status : ℕ) → Option AppleTx → AppStore

abbrev or_marked : ℕ → ℕ → Tables → Result Refusal (Bool × Tables) → Tables
or_marked acct now_ms t (ok (granted, after)) = after
or_marked acct now_ms t (err why) = mark_checked acct now_ms t

module _ (names : Names) where
  -- With what Stripe says of the subscription: the tables, and whether it is cancelled there.
  unfoldable pub stripe_said : ℕ → Plan → ℕ → Result String SubState → Tables → Tables × Bool
  stripe_said acct p now_ms (err e) t = (mark_checked acct now_ms t, false)
  stripe_said acct p now_ms (ok st) t = elim st.back [
    | MoneyBack.disputed ↦ ((revoke names p.rail true now_ms t).1, true)
    | MoneyBack.refunded ↦ ((revoke names p.rail false now_ms t).1, false)
    | MoneyBack.nothing ↦ (
      or_marked acct now_ms t (
          renew_by_rail names p.rail st.tier st.yearly now_ms st.start_ms
            (if st.paid then st.end_ms else 0) t),
      false,
    )
  ]

  unfoldable pub check_stripe : Option Processor → ℕ → Plan → ℕ → Tables → Tables × Bool
  unfolding stripe_said trim_start_matches trim_matches
  check_stripe none acct p now_ms t = (t, false)
  check_stripe (some stripe) acct p now_ms t =
      stripe_said acct p now_ms (stripe.subscription (trim_start_matches "stripe:" p.rail)) t

  unfoldable pub renewed_by_apple : ℕ → Plan → AppleTx → Option (ℕ × Bool) → ℕ → Tables → Tables
  renewed_by_apple acct p tx none now_ms t = mark_checked acct now_ms t
  renewed_by_apple acct p tx (some (tier, yearly)) now_ms t =
      or_marked acct now_ms t
        (renew_by_rail names p.rail tier yearly now_ms tx.purchased_at_ms tx.expires_at_ms t)

  -- `sandbox` is the build's switch.
  unfoldable pub check_apple : Bool → AppStore → ℕ → Plan → ℕ → Tables → Tables
  unfolding renewed_by_apple trim_start_matches trim_matches
  check_apple sandbox (told status (some tx)) acct p now_ms t =
      if tx.original_transaction_id =ₛ trim_start_matches "iap:" p.rail
      then if revoked_plan sandbox tx || status == 5
        then (revoke names p.rail false now_ms t).1
        else renewed_by_apple acct p tx (product_plan tx.product_id) now_ms t
      else mark_checked acct now_ms t
  check_apple sandbox _ acct p now_ms t = mark_checked acct now_ms t
