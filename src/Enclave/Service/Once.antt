-- ===== src/Enclave/Service/Once.antt =====
-- crates/enclave/src/service.rs: proofs about a request that comes again.
use tokumai.Base.{
  ℕ, ◌+◌, ◌≤◌, ◌<◌, ◌≡◌, refl, sym, ap, ◌∙◌, Bool, true, false, Option, none, some, List, [], ◌∷◌,
  String, arith, ltb, inl, inr, ◌⊎◌, if_both,
}
use mathlib.Core.Path.{subst}
use native.Mathlib.Decide.{dec_le}
use tokumai.Base.Bytes.{Bytes}
use tokumai.Enclave.Ledger.Money.{Book, first_sight, nonce_keep_ms}
use tokumai.Enclave.Ledger.Money.Nonces.{
  Keeps, first_sight-Keeps, first_sight-true-Keeps, Keeps-first_sight, first_sight-tables,
}
use tokumai.Enclave.Service.{
  Envelope, Inner, Refused, Said, Clock, Desk, clock_skew_ms, cached, carry_out, signed,
  check_request, opened, sealed_again, sealed, abs_diff,
}

-- What a desk shows of the money and of the operations' own state.
pub record Same {W : Type 0} (d d' : Desk W) : Type 0 where
  pub tables : d'.book.tables ≡ d.book.tables
  pub rest : d'.rest ≡ d.rest

module _ {A W : Type 0} (hash : Bytes → Bytes) (opens : Envelope → Option (Option Inner))
    (seal : Envelope → Said A → Bytes) (plain_err : Refused → Bytes) (owner : Inner → Option String)
    (dispatch : String → Inner → ℕ → Book → W → A × (Book × W))
    (law : (account : String) (req : Inner) (now_ms : ℕ) (b : Book) (w : W)
      → (dispatch account req now_ms b w).1.0.nonces ≡ b.nonces) where
  abbrev pub run : Option Envelope → Clock → Desk W → Desk W
  run e clock d = (sealed hash opens seal plain_err owner dispatch e clock d).1

  -- The request is carried out: it is not answered from the cache, opens, is in time and signed, and
  -- its nonce is new.
  pub record IsCarriedOut (e : Envelope) (req : Inner) (clock : Clock) (d : Desk W) : Type 0 where
    pub fresh : cached (hash e.ct) d.replies ≡ none
    pub inside : opens e ≡ some (some req)
    pub in_time : abs_diff req.ts clock.now_ms ≤ clock_skew_ms
    pub owned : (account : String) × (owner req ≡ some account)
    pub is_new : (first_sight req.nonce clock.now_ms d.book).0 ≡ true

  -- The calls of a time, one after the other.
  pub after_requests : List (Option Envelope × Clock) → Desk W → Desk W
  after_requests [] d = d
  after_requests ((e, clock) ∷ calls) d = after_requests calls (run e clock d)

  -- No clock reading is later.
  abbrev pub AllBefore : ℕ → List (Option Envelope × Clock) → Type 0
  AllBefore limit [] = Unit
  AllBefore limit ((e, clock) ∷ calls) = (clock.now_ms ≤ limit) × AllBefore limit calls

  -- A request, whatever it is, forgets no nonce that must still be known.
  module _ (nonce : String) (at_ms : ℕ) (clock : Clock) (le : clock.now_ms ≤ at_ms + nonce_keep_ms)
      (d : Desk W) (k : Keeps nonce at_ms d.book.nonces) where
    carry_out-Keeps :
        (e : Envelope) (req : Inner) (account : String)
        → Keeps nonce at_ms
            (carry_out hash opens seal plain_err owner dispatch e req account clock d).1.book.nonces
    unfolding carry_out
    carry_out-Keeps e req account =
        let sight = first_sight req.nonce clock.now_ms d.book in
        let known = first_sight-Keeps nonce req.nonce at_ms clock.now_ms d.book le k in
        if_both (λ (x : Bytes × Desk W). Keeps nonce at_ms x.1.book.nonces) sight.0
          (λ _. subst (Keeps nonce at_ms) (sym (law account req clock.now_ms sight.1 d.rest)) known)
          (λ _. known)

    signed-Keeps :
        (e : Envelope) (req : Inner) (o : Option String)
        → Keeps nonce at_ms
            (signed hash opens seal plain_err owner dispatch e req o clock d).1.book.nonces
    unfolding signed
    signed-Keeps e req none = k
    signed-Keeps e req (some account) = carry_out-Keeps e req account

    opened-Keeps :
        (e : Envelope) (o : Option (Option Inner))
        → Keeps nonce at_ms
            (opened hash opens seal plain_err owner dispatch e o clock d).1.book.nonces
    unfolding opened check_request
    opened-Keeps e none = k
    opened-Keeps e (some none) = k
    opened-Keeps e (some (some req)) =
        if_both (λ (x : Bytes × Desk W). Keeps nonce at_ms x.1.book.nonces)
          (ltb clock_skew_ms (abs_diff req.ts clock.now_ms)) (λ _. k)
          (λ _. signed-Keeps e req (owner req))

    sealed_again-Keeps :
        (e : Envelope) (o : Option Bytes)
        → Keeps nonce at_ms
            (sealed_again hash opens seal plain_err owner dispatch e o clock d).1.book.nonces
    unfolding sealed_again
    sealed_again-Keeps e none = opened-Keeps e (opens e)
    sealed_again-Keeps e (some out) = k

    sealed-Keeps : (e : Option Envelope) → Keeps nonce at_ms (run e clock d).book.nonces
    unfolding sealed
    sealed-Keeps none = k
    sealed-Keeps (some e) = sealed_again-Keeps e (cached (hash e.ct) d.replies)

  after_requests-Keeps :
      (nonce : String) (at_ms : ℕ) (calls : List (Option Envelope × Clock)) (d : Desk W)
      → AllBefore (at_ms + nonce_keep_ms) calls
      → Keeps nonce at_ms d.book.nonces
      → Keeps nonce at_ms (after_requests calls d).book.nonces
  unfolding after_requests
  after_requests-Keeps nonce at_ms [] d le k = k
  after_requests-Keeps nonce at_ms ((e, clock) ∷ calls) d le k =
      after_requests-Keeps nonce at_ms calls (run e clock d) le.1
        (sealed-Keeps nonce at_ms clock le.0 d k e)

  run-carry_out :
      (e : Envelope) (req : Inner) (clock : Clock) (d : Desk W) (v : IsCarriedOut e req clock d)
      → run (some e) clock d
        ≡ (carry_out hash opens seal plain_err owner dispatch e req v.owned.0 clock d).1
  run-carry_out e req clock d v =
      let in_time : ltb clock_skew_ms (abs_diff req.ts clock.now_ms) ≡ false =
        ground (arith, v.in_time) in
      let again : run (some e) clock d
          ≡ (sealed_again hash opens seal plain_err owner dispatch e none clock d).1 =
        unfold sealed in
        ap (λ o. (sealed_again hash opens seal plain_err owner dispatch e o clock d).1) v.fresh in
      let inner : (sealed_again hash opens seal plain_err owner dispatch e none clock d).1
          ≡ (opened hash opens seal plain_err owner dispatch e (some (some req)) clock d).1 =
        unfold sealed_again in
        ap (λ o. (opened hash opens seal plain_err owner dispatch e o clock d).1) v.inside in
      let check : (opened hash opens seal plain_err owner dispatch e (some (some req)) clock d).1
          ≡ (signed hash opens seal plain_err owner dispatch e req (owner req) clock d).1 =
        unfold opened check_request in rw in_time refl in
      let sign : (signed hash opens seal plain_err owner dispatch e req (owner req) clock d).1
          ≡ (carry_out hash opens seal plain_err owner dispatch e req v.owned.0 clock d).1 =
        unfold signed in
        ap (λ o. (signed hash opens seal plain_err owner dispatch e req o clock d).1) v.owned.1 in
      again ∙ inner ∙ check ∙ sign

  -- The request that was carried out is known.
  IsCarriedOut-Keeps :
      (e : Envelope) (req : Inner) (clock : Clock) (d : Desk W)
      → IsCarriedOut e req clock d
      → Keeps req.nonce clock.now_ms (run (some e) clock d).book.nonces
  unfolding carry_out
  IsCarriedOut-Keeps e req clock d v =
      let account = v.owned.0 in
      let sight = first_sight req.nonce clock.now_ms d.book in
      let known : Keeps req.nonce clock.now_ms
          (carry_out hash opens seal plain_err owner dispatch e req account clock d).1.book.nonces =
        if_both (λ (x : Bytes × Desk W). Keeps req.nonce clock.now_ms x.1.book.nonces) sight.0
          (λ _.
            subst (Keeps req.nonce clock.now_ms) (sym (law account req clock.now_ms sight.1 d.rest))
              (first_sight-true-Keeps req.nonce clock.now_ms d.book v.is_new))
          (λ _. first_sight-true-Keeps req.nonce clock.now_ms d.book v.is_new) in
      subst (λ (x : Desk W). Keeps req.nonce clock.now_ms x.book.nonces)
        (sym (run-carry_out e req clock d v)) known

  -- A request whose nonce is known changes nothing.
  signed-Same :
      (e : Envelope) (req : Inner) (o : Option String) (at_ms : ℕ) (clock : Clock) (d : Desk W)
      → Keeps req.nonce at_ms d.book.nonces
      → clock.now_ms ≤ at_ms + nonce_keep_ms
      → Same d (signed hash opens seal plain_err owner dispatch e req o clock d).1
  unfolding signed carry_out
  signed-Same e req none at_ms clock d k le = record { tables = refl; rest = refl }
  signed-Same e req (some account) at_ms clock d k le =
      if_both (λ (x : Bytes × Desk W). Same d x.1) (first_sight req.nonce clock.now_ms d.book).0
        (λ new. absurd (clash new (Keeps-first_sight req.nonce at_ms clock.now_ms d.book le k)))
        (λ _. record { tables = first_sight-tables req.nonce clock.now_ms d.book; rest = refl })
    where
      clash : {b : Bool} → b ≡ true → b ≡ false → ⊥
      clash yes_it not_it = cc

  check_request-Same :
      (e : Envelope) (req : Inner) (at_ms : ℕ) (clock : Clock) (d : Desk W)
      → Keeps req.nonce at_ms d.book.nonces ⊎ (at_ms + nonce_keep_ms < clock.now_ms)
      → abs_diff req.ts at_ms ≤ clock_skew_ms
      → Same d (check_request hash opens seal plain_err owner dispatch e req clock d).1
  unfolding check_request
  check_request-Same e req at_ms clock d known ts =
      if_both (λ (x : Bytes × Desk W). Same d x.1)
        (ltb clock_skew_ms (abs_diff req.ts clock.now_ms))
        (λ late. record { tables = refl; rest = refl })
        (λ in_time.
          let near : abs_diff req.ts clock.now_ms ≤ clock_skew_ms = ground (arith, in_time) in
          let soon : clock.now_ms ≤ at_ms + nonce_keep_ms =
            unfold abs_diff in omega (arith, near, ts) in
          elim known [
            | inl k ↦ signed-Same e req (owner req) at_ms clock d k soon
            | inr gone ↦ absurd (omega arith)
          ])

  sealed-Same :
      (e : Envelope) (req : Inner) (at_ms : ℕ) (clock : Clock) (d : Desk W)
      → opens e ≡ some (some req)
      → Keeps req.nonce at_ms d.book.nonces ⊎ (at_ms + nonce_keep_ms < clock.now_ms)
      → abs_diff req.ts at_ms ≤ clock_skew_ms
      → (o : Option Bytes)
      → Same d (sealed_again hash opens seal plain_err owner dispatch e o clock d).1
  unfolding sealed_again opened
  sealed-Same e req at_ms clock d inside known ts (some out) = record { tables = refl; rest = refl }
  sealed-Same e req at_ms clock d inside known ts none =
      subst (λ o. Same d (opened hash opens seal plain_err owner dispatch e o clock d).1)
        (sym inside) (check_request-Same e req at_ms clock d known ts)

  AllBefore-more :
      (limit more : ℕ) (calls : List (Option Envelope × Clock))
      → limit ≤ more
      → AllBefore limit calls
      → AllBefore more calls
  AllBefore-more limit more [] le before = tt
  AllBefore-more limit more ((e, clock) ∷ calls) le before =
      (omega (arith, before.0), AllBefore-more limit more calls le before.1)

  -- Where the operations leave the nonces alone, requests are handled one after another, and a
  -- request was carried out, a request with its nonce and timestamp, in whatever envelope, leaves
  -- the tables and the operations' state as they are, after any requests whose clock readings are
  -- not later than its own.
  pub sealed_once :
      (e e' : Envelope) (req req' : Inner) (clock clock' : Clock) (d : Desk W)
      (calls : List (Option Envelope × Clock))
      → IsCarriedOut e req clock d
      → opens e' ≡ some (some req')
      → req'.nonce ≡ req.nonce
      → req'.ts ≡ req.ts
      → AllBefore clock'.now_ms calls
      → Same
          (after_requests calls (run (some e) clock d))
          (run (some e') clock' (after_requests calls (run (some e) clock d)))
  unfolding sealed
  sealed_once e e' req req' clock clock' d calls v inside nonce ts before =
      let after = after_requests calls (run (some e) clock d) in
      let known : Keeps req'.nonce clock.now_ms after.book.nonces
          ⊎ (clock.now_ms + nonce_keep_ms < clock'.now_ms) =
        elim (dec_le clock'.now_ms (clock.now_ms + nonce_keep_ms)) [
          | yes soon ↦ inl (
              subst (λ n. Keeps n clock.now_ms after.book.nonces) (sym nonce)
                (after_requests-Keeps req.nonce clock.now_ms calls (run (some e) clock d)
                  (AllBefore-more clock'.now_ms (clock.now_ms + nonce_keep_ms) calls soon before)
                  (IsCarriedOut-Keeps e req clock d v)))
          | no late ↦ inr (omega arith)
        ] in
      sealed-Same e' req' clock.now_ms clock' after inside known (rw ts v.in_time)
        (cached (hash e'.ct) after.replies)
