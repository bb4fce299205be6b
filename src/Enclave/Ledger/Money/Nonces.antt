-- ===== src/Enclave/Ledger/Money/Nonces.antt =====
-- crates/enclave/src/ledger.rs: proofs about first_sight.
use tokumai.Base.{
  ℕ, ◌+◌, ◌-◌, ◌≤◌, ◌≡◌, refl, Bool, true, false, List, [], ◌∷◌, String, ◌=ₛ◌, eq_refl, ◌⊎◌, inl,
  inr, arith, ltb, if◌then◌else◌, if_both,
}
use tokumai.Enclave.Ledger.Money.{Book, first_sight, without_old, has_nonce, nonce_keep_ms}

-- The nonce is among those kept, with the time at which it was accepted.
abbrev pub Keeps : String → ℕ → List (String × ℕ) → Type 0
Keeps nonce at_ms [] = ⊥
Keeps nonce at_ms ((n, ts) ∷ l) = ((n ≡ nonce) × (ts ≡ at_ms)) ⊎ Keeps nonce at_ms l

pub has_nonce-Keeps :
    (nonce : String) (at_ms : ℕ) (l : List (String × ℕ))
    → Keeps nonce at_ms l
    → has_nonce nonce l ≡ true
unfolding has_nonce
has_nonce-Keeps nonce at_ms [] k = absurd k
has_nonce-Keeps nonce at_ms ((n, ts) ∷ l) (inl e) = rw (e.0, eq_refl nonce) refl
has_nonce-Keeps nonce at_ms ((n, ts) ∷ l) (inr k) =
    if_both (λ b. b ≡ true) (n =ₛ nonce) (λ _. refl) (λ _. has_nonce-Keeps nonce at_ms l k)

pub without_old-Keeps :
    (nonce : String) (at_ms before : ℕ) (l : List (String × ℕ))
    → before ≤ at_ms
    → Keeps nonce at_ms l
    → Keeps nonce at_ms (without_old before l)
unfolding without_old
without_old-Keeps nonce at_ms before [] le k = k
without_old-Keeps nonce at_ms before ((n, ts) ∷ l) le (inl e) =
    let young : ltb ts before ≡ false = ground arith in rw young (inl e)
without_old-Keeps nonce at_ms before ((n, ts) ∷ l) le (inr k) =
    let rest = without_old-Keeps nonce at_ms before l le k in
    if_both (Keeps nonce at_ms) (ltb ts before) (λ _. rest) (λ _. inr rest)

pub first_sight-Keeps :
    (nonce other : String) (at_ms now_ms : ℕ) (b : Book)
    → now_ms ≤ at_ms + nonce_keep_ms
    → Keeps nonce at_ms b.nonces
    → Keeps nonce at_ms (first_sight other now_ms b).1.nonces
unfolding first_sight
first_sight-Keeps nonce other at_ms now_ms b le k =
    let old = now_ms - nonce_keep_ms in
    let kept = without_old old b.nonces in
    let r = without_old-Keeps nonce at_ms old b.nonces (omega arith) k in
    if_both (λ (x : Bool × Book). Keeps nonce at_ms x.1.nonces) (has_nonce other kept) (λ _. r)
      (λ _. inr r)

-- The calls of a time, one after another: each a nonce and a clock reading.
pub after_calls : List (String × ℕ) → Book → Book
after_calls [] b = b
after_calls ((nonce, now_ms) ∷ calls) b = after_calls calls (first_sight nonce now_ms b).1

abbrev pub AllBy : ℕ → List (String × ℕ) → Type 0
AllBy limit [] = Unit
AllBy limit ((nonce, now_ms) ∷ calls) = (now_ms ≤ limit) × AllBy limit calls

after_calls-Keeps :
    (nonce : String) (at_ms : ℕ) (calls : List (String × ℕ)) (b : Book)
    → AllBy (at_ms + nonce_keep_ms) calls
    → Keeps nonce at_ms b.nonces
    → Keeps nonce at_ms (after_calls calls b).nonces
unfolding after_calls
after_calls-Keeps nonce at_ms [] b le k = k
after_calls-Keeps nonce at_ms ((other, now_ms) ∷ calls) b le k =
    after_calls-Keeps nonce at_ms calls (first_sight other now_ms b).1 le.1
      (first_sight-Keeps nonce other at_ms now_ms b le.0 k)

-- The two outcomes of `first_sight`.
sight : String → ℕ → Book → Bool → List (String × ℕ) → Bool × Book
sight nonce at_ms b h l =
    if h then (false, record b { nonces = l }) else (true, record b { nonces = (nonce, at_ms) ∷ l })

accepted-Keeps :
    (nonce : String) (at_ms : ℕ) (b : Book) (h : Bool) (l : List (String × ℕ))
    → (sight nonce at_ms b h l).0 ≡ true
    → Keeps nonce at_ms (sight nonce at_ms b h l).1.nonces
unfolding sight
accepted-Keeps nonce at_ms b true l e = absurd (ground arith)
accepted-Keeps nonce at_ms b false l e = inl (refl, refl)

-- A nonce that `first_sight` accepted is refused later, after any calls about any nonces, as long
-- as no clock reading since is more than the keeping time past its acceptance.
pub first_sight_once :
    (nonce : String) (at_ms now_ms : ℕ) (calls : List (String × ℕ)) (b : Book)
    → (first_sight nonce at_ms b).0 ≡ true
    → AllBy (at_ms + nonce_keep_ms) calls
    → now_ms ≤ at_ms + nonce_keep_ms
    → (first_sight nonce now_ms (after_calls calls (first_sight nonce at_ms b).1)).0 ≡ false
unfolding first_sight sight
first_sight_once nonce at_ms now_ms calls b new le now =
    let c = after_calls calls (first_sight nonce at_ms b).1 in
    let first : Keeps nonce at_ms (first_sight nonce at_ms b).1.nonces =
      accepted-Keeps nonce at_ms b (has_nonce nonce (without_old (at_ms - nonce_keep_ms) b.nonces))
        (without_old (at_ms - nonce_keep_ms) b.nonces) new in
    let k = after_calls-Keeps nonce at_ms calls (first_sight nonce at_ms b).1 le first in
    let old = now_ms - nonce_keep_ms in
    let r = without_old-Keeps nonce at_ms old c.nonces (omega arith) k in
    rw (has_nonce-Keeps nonce at_ms (without_old old c.nonces) r) refl

-- The nonce that was just accepted, and one that is still kept.
pub first_sight-true-Keeps :
    (nonce : String) (at_ms : ℕ) (b : Book)
    → (first_sight nonce at_ms b).0 ≡ true
    → Keeps nonce at_ms (first_sight nonce at_ms b).1.nonces
unfolding first_sight sight
first_sight-true-Keeps nonce at_ms b new =
    accepted-Keeps nonce at_ms b (has_nonce nonce (without_old (at_ms - nonce_keep_ms) b.nonces))
      (without_old (at_ms - nonce_keep_ms) b.nonces) new

pub Keeps-first_sight :
    (nonce : String) (at_ms now_ms : ℕ) (b : Book)
    → now_ms ≤ at_ms + nonce_keep_ms
    → Keeps nonce at_ms b.nonces
    → (first_sight nonce now_ms b).0 ≡ false
unfolding first_sight
Keeps-first_sight nonce at_ms now_ms b le k =
    let old = now_ms - nonce_keep_ms in
    let r = without_old-Keeps nonce at_ms old b.nonces (omega arith) k in
    rw (has_nonce-Keeps nonce at_ms (without_old old b.nonces) r) refl

pub first_sight-tables :
    (nonce : String) (now_ms : ℕ) (b : Book) → (first_sight nonce now_ms b).1.tables ≡ b.tables
unfolding first_sight
first_sight-tables nonce now_ms b =
    if_both (λ (x : Bool × Book). x.1.tables ≡ b.tables)
      (has_nonce nonce (without_old (now_ms - nonce_keep_ms) b.nonces)) (λ _. refl) (λ _. refl)
