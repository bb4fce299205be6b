-- ===== src/Enclave/Subscriptions/Beat.antt =====
-- crates/enclave/src/subscriptions.rs: the beat of every 30 seconds.
pub mod Served
pub mod Runs
pub mod Always
use tokumai.Base.{
  ℕ, ◌*◌, Bool, true, false, not, Option, none, some, List, [], ◌∷◌, String, if◌then◌else◌,
}
use tokumai.Base.Result.{Result, ok, err}
use tokumai.Enclave.Ledger.Tables.{Tables, Plan}
use tokumai.Enclave.Plans.{Names}
use tokumai.Enclave.Plans.Changes.{roll}
use tokumai.Enclave.Plans.Stale.{is_app_store, is_note, stale}
use tokumai.Enclave.Stats.{Stats, Added, flush_tallies}
use tokumai.Enclave.Subscriptions.{
  Shop, with_tables, Processor, AppStore, check_stripe, check_apple, trim_start_matches,
}

abbrev pub stale_ms : ℕ
stale_ms = 6 * 3_600_000

-- What the beat reads and changes: the prices, and when they were read.
pub record House : Type 0 where
  pub shop : Shop
  pub stats : Stats
  pub plan_prices : List ℕ
  pub prices_at_ms : ℕ

-- A note plan has no rail to ask.
unfoldable pub without_notes : List (ℕ × Plan) → List (ℕ × Plan)
unfolding is_note
without_notes [] = []
without_notes ((key, p) ∷ rows) =
    let rest = without_notes rows in if is_note p then rest else (key, p) ∷ rest

-- The first plan that is, or is not, an App Store plan.
unfoldable pub first_plan : Bool → List (ℕ × Plan) → Option (ℕ × Plan)
unfolding is_app_store
first_plan app_store [] = none
first_plan app_store ((key, p) ∷ rows) =
    let rest = first_plan app_store rows in
    if is_app_store p
    then if app_store then some (key, p) else rest
    else if app_store
    then rest
    else some (key, p)

module _ (names : Names) (sandbox : Bool) where
  unfoldable pub ask_stripe : Option Processor → Option (ℕ × Plan) → ℕ → Tables → Tables
  unfolding check_stripe
  ask_stripe stripe none now_ms t = t
  ask_stripe stripe (some (key, p)) now_ms t = (check_stripe names stripe key p now_ms t).0

  -- `apple` answers for a transaction number.
  unfoldable pub ask_apple : (String → AppStore) → Option (ℕ × Plan) → ℕ → Tables → Tables
  unfolding check_apple trim_start_matches
  ask_apple apple none now_ms t = t
  ask_apple apple (some (key, p)) now_ms t =
      check_apple names sandbox (apple (trim_start_matches "iap:" p.rail)) key p now_ms t

  abbrev pub prices_read : Result String (List ℕ) → ℕ → House → House
  prices_read (ok prices) now_ms h = record h { plan_prices = prices; prices_at_ms = now_ms }
  prices_read (err e) now_ms h = record h { prices_at_ms = now_ms }

  -- Where no plan was asked about, the prices are.
  unfoldable pub ask_prices : Option Processor → Option (ℕ × Plan) → ℕ → House → House
  ask_prices none plan now_ms h = h
  ask_prices (some stripe) (some plan) now_ms h = h
  ask_prices (some stripe) none now_ms h = prices_read stripe.plan_prices now_ms h

  -- `outcome` says what adding a tally to the book comes to.
  unfoldable pub tick :
      Option Processor → (String → AppStore) → (String → Added) → ℕ → House → House
  unfolding flush_tallies roll stale without_notes first_plan ask_stripe ask_apple ask_prices
  tick stripe apple outcome now_ms h =
      let flushed = flush_tallies outcome h.shop.book.tables h.stats in
      let rolled = (roll now_ms flushed.0).1 in
      let rows = without_notes (stale now_ms stale_ms rolled) in
      let card = first_plan false rows in
      let asked = ask_stripe stripe card now_ms rolled in
      let tables = ask_apple apple (first_plan true rows) now_ms asked in
      ask_prices stripe card now_ms
        (record h { shop = with_tables tables h.shop; stats = flushed.1 })
