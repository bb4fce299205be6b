-- ===== src/Enclave/Subscriptions/Beat/Always.antt =====
-- crates/enclave/src/subscriptions.rs: what any run of the plan operations and the beat reaches, and proofs
-- about it.
use mathlib.Core.Path.{subst}
use tokumai.Base.{
  ℕ, ◌≡◌, refl, sym, Bool, true, false, Option, none, some, List, [], ◌∷◌, String, if◌then◌else◌,
  if_both,
}
use tokumai.Base.Result.{Result, ok, err}
use tokumai.Enclave.Ledger.Tables.{Tables, Plan, apply, add_tally, no_rows}
use tokumai.Enclave.Plans.{Names}
use tokumai.Enclave.Plans.Changes.{roll}
use tokumai.Enclave.Plans.Stale.{stale}
use tokumai.Enclave.Plans.Held.Runs.{Step, Reach, Reach-IsHeld}
use tokumai.Enclave.Plans.Held.Steps.{IsHeld}
use tokumai.Enclave.Stats.{Stats, Added, is_executed, is_error, add, flush_loop, flush_tallies}
use tokumai.Enclave.Apple.{AppleTx}
use tokumai.Enclave.Subscriptions.{
  Shop, with_tables, Processor, AppStore, plan_status, plan_change, iap_apply, trim_start_matches,
}
use tokumai.Enclave.Subscriptions.Beat.{
  House, tick, first_plan, without_notes, stale_ms, ask_stripe, ask_apple, ask_prices, prices_read,
}
use tokumai.Enclave.Subscriptions.Beat.Served.{ask_stripe-Reach, check_apple-Reach}
use tokumai.Enclave.Subscriptions.Beat.Runs.{plan_status-Kept, plan_change-Reach, iap_apply-Reach}

module _ (names : Names) (sandbox : Bool) where
  flush-Reach :
      (outcome : String → Added) (waiting : List (String × ℕ)) (t : Tables) (s : Stats)
      → Reach names t
      → Reach names (flush_loop outcome waiting t s).0
  unfolding flush_loop
  flush-Reach outcome [] t s k = k
  flush-Reach outcome ((key, n) ∷ waiting) t s k =
      flush-Reach outcome waiting
        (if is_executed (outcome key) then apply (add_tally key n) t else t)
        (if is_error (outcome key) then add key n s else s)
        (if_both (Reach names) (is_executed (outcome key))
          (λ _. unfold apply in Reach.next k (Step.other refl refl)) (λ _. k))

  ask_apple-Reach :
      (apple : String → AppStore) (plan : Option (ℕ × Plan)) (now_ms : ℕ) (t : Tables)
      → Reach names t
      → Reach names (ask_apple names sandbox apple plan now_ms t)
  unfolding ask_apple
  ask_apple-Reach apple none now_ms t k = k
  ask_apple-Reach apple (some (key, p)) now_ms t k =
      check_apple-Reach names sandbox (apple (trim_start_matches "iap:" p.rail)) key now_ms p t k

  prices-same :
      (r : Result String (List ℕ)) (now_ms : ℕ) (h : House)
      → (prices_read names sandbox r now_ms h).shop ≡ h.shop
  prices-same (ok prices) now_ms h = refl
  prices-same (err e) now_ms h = refl

  ask_prices-same :
      (stripe : Option Processor) (plan : Option (ℕ × Plan)) (now_ms : ℕ) (h : House)
      → (ask_prices names sandbox stripe plan now_ms h).shop ≡ h.shop
  unfolding ask_prices
  ask_prices-same none plan now_ms h = refl
  ask_prices-same (some stripe) (some plan) now_ms h = refl
  ask_prices-same (some stripe) none now_ms h = prices-same stripe.plan_prices now_ms h

  tick-Reach :
      (stripe : Option Processor) (apple : String → AppStore) (outcome : String → Added)
      (now_ms : ℕ) (h : House)
      → Reach names h.shop.book.tables
      → Reach names (tick names sandbox stripe apple outcome now_ms h).shop.book.tables
  unfolding tick flush_tallies
  tick-Reach stripe apple outcome now_ms h k =
      let flushed = flush_tallies outcome h.shop.book.tables h.stats in
      let first =
        flush-Reach outcome h.stats.pending h.shop.book.tables (record h.stats { pending = [] })
          k in
      let rolled = (roll now_ms flushed.0).1 in
      let rows = without_notes (stale now_ms stale_ms rolled) in
      let card = first_plan false rows in
      let asked = ask_stripe names sandbox stripe card now_ms rolled in
      let tables = ask_apple names sandbox apple (first_plan true rows) now_ms asked in
      let after : House = record h { shop = with_tables tables h.shop; stats = flushed.1 } in
      let k' : Reach names tables = ask_apple-Reach apple (first_plan true rows) now_ms asked (
        ask_stripe-Reach names sandbox stripe card now_ms rolled
          (Reach.next first (Step.rolled now_ms refl))) in
      subst (λ (s : Shop). Reach names s.book.tables)
        (sym (ask_prices-same stripe card now_ms after)) k'

-- What can happen to the enclave's state, one operation after the other. `otherwise` is an operation
-- that leaves the plans and their rails alone.
pub data Served (names : Names) (key payment_ref : String → ℕ) (sandbox : Bool)
    : House → Type 0 where
  begun : {h : House} → h.shop.book.tables ≡ no_rows → Served names key payment_ref sandbox h
  bought :
      {h h' : House} (account : String) (tx : AppleTx) (restore : Bool) (now_ms : ℕ)
      → Served names key payment_ref sandbox h
      → (iap_apply names key payment_ref sandbox account tx restore now_ms h.shop).1 ≡ h'.shop
      → Served names key payment_ref sandbox h'
  claimed :
      {h h' : House} (stripe : Option Processor) (acct : ℕ) (tag session : String) (now_ms : ℕ)
      → Served names key payment_ref sandbox h
      → (plan_status names stripe acct tag session now_ms h.shop).1 ≡ h'.shop
      → Served names key payment_ref sandbox h'
  changed :
      {h h' : House} (stripe : Option Processor) (acct wanted : ℕ) (yearly : Bool) (now_ms : ℕ)
      → Served names key payment_ref sandbox h
      → (plan_change stripe acct wanted yearly now_ms h.shop).1 ≡ h'.shop
      → Served names key payment_ref sandbox h'
  beat :
      {h h' : House} (stripe : Option Processor) (apple : String → AppStore)
      (outcome : String → Added) (now_ms : ℕ)
      → Served names key payment_ref sandbox h
      → tick names sandbox stripe apple outcome now_ms h ≡ h'
      → Served names key payment_ref sandbox h'
  otherwise :
      {h h' : House}
      → Served names key payment_ref sandbox h
      → h'.shop.book.tables.plans ≡ h.shop.book.tables.plans
      → h'.shop.book.tables.rails ≡ h.shop.book.tables.rails
      → Served names key payment_ref sandbox h'

module _ (names : Names) (key payment_ref : String → ℕ) (sandbox : Bool) where
  Served-Reach :
      (h : House) → Served names key payment_ref sandbox h → Reach names h.shop.book.tables
  Served-Reach h (Served.begun e) = Reach.start e
  Served-Reach h (Served.bought {h = g} account tx restore now_ms s e) =
      subst (λ (x : Shop). Reach names x.book.tables) (e)
        (iap_apply-Reach names key payment_ref sandbox account tx restore now_ms g.shop
          (Served-Reach g s))
  Served-Reach h (Served.claimed {h = g} stripe acct tag session now_ms s e) =
      subst (λ (x : Shop). Reach names x.book.tables) (e)
        (plan_status-Kept names stripe acct tag session now_ms g.shop (Served-Reach g s))
  Served-Reach h (Served.changed {h = g} stripe acct wanted yearly now_ms s e) =
      subst (λ (x : Shop). Reach names x.book.tables) (e)
        (plan_change-Reach names stripe acct wanted yearly now_ms g.shop (Served-Reach g s))
  Served-Reach h (Served.beat {h = g} stripe apple outcome now_ms s e) =
      subst (λ (x : House). Reach names x.shop.book.tables) (e)
        (tick-Reach names sandbox stripe apple outcome now_ms g (Served-Reach g s))
  Served-Reach h (Served.otherwise {h = g} s plans rails) =
      Reach.next (Served-Reach g s) (Step.other plans rails)

  -- In every state that App Store transactions, claimed checkouts, changes of plan, beats and
  -- operations that leave plans and rails alone, in any order and with any answers of Stripe and
  -- Apple, reach from an empty book, the rail of every plan is held by the account that has the
  -- plan.
  pub Served-IsHeld :
      (h : House) → Served names key payment_ref sandbox h → IsHeld names h.shop.book.tables
  Served-IsHeld h s = Reach-IsHeld names h.shop.book.tables (Served-Reach h s)
