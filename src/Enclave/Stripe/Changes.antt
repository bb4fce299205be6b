-- ===== src/Enclave/Stripe/Changes.antt =====
-- crates/enclave/src/stripe.rs: proofs about a change of plan and about the links that are opened.
use tokumai.Base.{
  ℕ, ◌≡◌, refl, sym, ap, ◌∙◌, Bool, true, false, Option, none, some, List, [], ◌∷◌, ◌++◌, inl, inr,
  ◌==◌, arith, Bool-cases, Option-cases,
}
use tokumai.Base.Result.{Result, ok, err, ok_bind, ok_or, require}
use tokumai.Base.Bytes.{Bytes, codes}
use tokumai.Base.Text.{strip_prefix, split_at, onto_first, first_of, equal_bytes, equal_bytes→≡}
use tokumai.Enclave.Stripe.{
  price_for, tier_of_price, Fail, SubObject, StripeError, ChangeForm, applied_tier,
  change_subscription, by_call, or_else, safe_id, safe, is_stripe_url, stripe_host, url_stop,
}

by_call_ok : {A : Type 0} (m : Result Fail A) (a : A) → by_call m ≡ ok a → m ≡ ok a
by_call_ok (ok b) a h = cc
by_call_ok (err e) a h = cc

ok_or_ok : {A : Type 0} (o : Option A) (e : StripeError) (a : A) → ok_or o e ≡ ok a → o ≡ some a
ok_or_ok none e a h = cc
ok_or_ok (some b) e a h = cc

-- What a change that is taken as applied rests on: the price of the plan was posted, Stripe took it, and
-- what the subscription reads as afterwards is the plan.
pub record IsApplied (ids : List Bytes) (post : ChangeForm ids → Result Fail (Unit {0}))
    (after : Bytes → Result Fail SubObject) (sub : Bytes) (tier : ℕ) (yearly upgrade : Bool)
    (reference : Bytes) : Type 0 where
  pub form : ChangeForm ids
  pub read : SubObject
  pub done : Unit {0}
  pub price : price_for ids tier yearly ≡ some form.price
  pub asked : (form.upgrade ≡ upgrade) × (form.reference ≡ reference)
  pub posted : post form ≡ ok done
  pub reads : after sub ≡ ok read
  pub plan : tier_of_price ids (or_else [] read.price) ≡ some (tier, yearly)

applied_tier→ :
    (ids : List Bytes) (tier applied : ℕ) (yearly : Bool) (o : Option (ℕ × Bool))
    → applied_tier ids tier yearly o ≡ ok applied
    → (o ≡ some (tier, yearly)) × (applied ≡ tier)
unfolding applied_tier
applied_tier→ ids tier applied yearly none e = absurd (cc)
applied_tier→ ids tier applied true (some (t, true)) e =
    let same : t ≡ tier = ground arith in (ap (λ (n : ℕ). some (n, true)) same, ground arith)
applied_tier→ ids tier applied true (some (t, false)) e = absurd (ground arith)
applied_tier→ ids tier applied false (some (t, true)) e = absurd (ground arith)
applied_tier→ ids tier applied false (some (t, false)) e =
    let same : t ≡ tier = ground arith in (ap (λ (n : ℕ). some (n, false)) same, ground arith)

-- Where a change is taken as applied, Stripe took a form with the price of the plan, this reference
-- and the upgrade as it was asked for, the subscription read again afterwards has a price of
-- exactly this plan, and the tier returned is the one asked for.
pub change_subscription-IsApplied :
    (ids : List Bytes) (before : Bytes → Result Fail SubObject)
    (post : ChangeForm ids → Result Fail (Unit {0})) (after : Bytes → Result Fail SubObject)
    (sub : Bytes) (tier : ℕ) (yearly upgrade : Bool) (reference : Bytes) (applied : ℕ)
    → change_subscription ids before post after sub tier yearly upgrade reference ≡ ok applied
    → IsApplied ids post after sub tier yearly upgrade reference × (applied ≡ tier)
unfolding change_subscription
change_subscription-IsApplied ids before post after sub tier yearly upgrade reference applied e =
    let s1 =
      ok_bind (require (safe_id sub (codes "sub_")) StripeError.not_a_subscription) _ applied e in
    let s2 = ok_bind (ok_or (price_for ids tier yearly) StripeError.not_sold_here) _ applied s1.2 in
    let s3 = ok_bind (by_call (before sub)) _ applied s2.2 in
    let s4 = ok_bind (ok_or (safe (codes "si_") s3.0.item) StripeError.no_item) _ applied s3.2 in
    let form : ChangeForm ids = record {
      item = s4.0;
      price = s2.0;
      upgrade = upgrade;
      reference = reference;
      invoice = or_else (codes "none") (safe (codes "in_") s3.0.latest_invoice);
    } in
    let s5 = ok_bind (by_call (post form)) _ applied s4.2 in
    let s6 = ok_bind (by_call (after sub)) _ applied s5.2 in
    let plan =
      applied_tier→ ids tier applied yearly (tier_of_price ids (or_else [] s6.0.price)) s6.2 in
    (
      record {
        form = form;
        read = s6.0;
        done = s5.0;
        price = ok_or_ok (price_for ids tier yearly) StripeError.not_sold_here s2.0 s2.1;
        asked = (refl, refl);
        posted = by_call_ok (post form) s5.0 s5.1;
        reads = by_call_ok (after sub) s6.0 s6.1;
        plan = plan.0;
      },
      plan.1,
    )

strip_prefix→ : (p bs rest : Bytes) → strip_prefix p bs ≡ some rest → bs ≡ p ++ rest
unfolding strip_prefix
strip_prefix→ [] bs rest e = ground arith
strip_prefix→ (a ∷ p) [] rest e = absurd (cc)
strip_prefix→ (a ∷ p) (b ∷ bs) rest e = elim (Bool-cases (a == b)) [
  | inl h ↦
      let same : a ≡ b = ground arith in
      let ih = strip_prefix→ p bs rest (ground arith) in λ i. sym same i ∷ ih i
  | inr h ↦ absurd (ground arith)
]

-- The end of a text, or a byte of a kind.
abbrev pub EndsAt : (ℕ → Bool) → Bytes → Type 0
EndsAt f [] = Unit
EndsAt f (b ∷ bs) = f b ≡ true

first_of-onto_first : (b : ℕ) (ps : List Bytes) → first_of (onto_first b ps) ≡ b ∷ first_of ps
first_of-onto_first b [] = refl
first_of-onto_first b (p ∷ ps) = refl

first_of-split_at :
    (f : ℕ → Bool) (bs : Bytes)
    → (rest : Bytes) × (bs ≡ first_of (split_at f bs) ++ rest) × EndsAt f rest
unfolding split_at
first_of-split_at f [] = ([], refl, tt)
first_of-split_at f (b ∷ bs) = elim (Bool-cases (f b)) [
  | inl h ↦ (b ∷ bs, rw h refl, h)
  | inr h ↦
      let ih = first_of-split_at f bs in
      (ih.0, rw (h, first_of-onto_first b (split_at f bs)) (ap (λ (t : Bytes). b ∷ t) ih.1), ih.2)
]

-- A link that is opened is `https://checkout.stripe.com`, with nothing behind it or something that begins
-- with `/`, `?` or `#`.
pub is_stripe_url-host :
    (u : Bytes)
    → is_stripe_url u ≡ true
    → (rest : Bytes) × (u ≡ codes "https://" ++ (codes "checkout.stripe.com" ++ rest))
      × EndsAt url_stop rest
unfolding is_stripe_url stripe_host
is_stripe_url-host u e = elim (Option-cases (strip_prefix (codes "https://") u)) [
  | inl h ↦ absurd (ground arith)
  | inr (rest, h) ↦
      let parts = first_of-split_at url_stop rest in
      let same : equal_bytes (first_of (split_at url_stop rest)) (codes "checkout.stripe.com")
          ≡ true =
        sym (ap stripe_host h) ∙ e in
      let host =
        equal_bytes→≡ (first_of (split_at url_stop rest)) (codes "checkout.stripe.com") same in
      (
        parts.0,
        strip_prefix→ (codes "https://") u rest h
            ∙ ap (λ (t : Bytes). codes "https://" ++ t)
                (parts.1 ∙ ap (λ (t : Bytes). t ++ parts.0) host),
        parts.2,
      )
]
