-- ===== src/Enclave/Stats/Accounts.antt =====
-- crates/enclave/src/admin.rs: proofs about the accounts that were heard from.
use tokumai.Base.{
  ℕ, ◌+◌, ◌/◌, ◌≡◌, refl, ap, ◌∙◌, true, false, List, [], ◌∷◌, String, ◌=ₛ◌, length, if◌then◌else◌,
  if_both, arith, ◌==◌, Bool-cases, inl, inr, eq_iff, sym,
}
use tokumai.Enclave.Stats.{
  Stats, Active, day_ms, is_in, insert_account, turned, seen, active_counts,
}

-- How many of the accounts are not among those behind them.
abbrev pub distinct : List String → ℕ
distinct [] = 0
distinct (a ∷ as') = (if is_in a as' then 0 else 1) + distinct as'

-- The accounts are heard from, the last of the list first.
abbrev pub heard : List String → ℕ → Stats → Stats
heard [] now_ms s = s
heard (a ∷ as') now_ms s = seen a now_ms (heard as' now_ms s)

abbrev Agree : List String → List String → Type 0
Agree xs ys = (a : String) → is_in a xs ≡ is_in a ys

is_in-cons :
    (a b : String) (xs : List String) → is_in a (b ∷ xs) ≡ (if b =ₛ a then true else is_in a xs)
unfolding is_in
is_in-cons a b xs = refl

insert_account-Agree :
    (b : String) (xs ys : List String) → Agree xs ys → Agree (insert_account b xs) (b ∷ ys)
unfolding insert_account
insert_account-Agree b xs ys same a = elim (Bool-cases (is_in b xs)) [
  | inl e ↦ elim (Bool-cases (b =ₛ a)) [
    | inl f ↦
        let eq : b ≡ a = (eq_iff b a).0 f in
        rw (e, is_in-cons a b ys, f) (ap (λ (x : String). is_in x xs) (sym eq) ∙ e)
    | inr f ↦ rw (e, is_in-cons a b ys, f) (same a)
  ]
  | inr e ↦ rw (e, is_in-cons a b ys, is_in-cons a b xs, same a) refl
]

length-insert_account :
    (b : String) (xs ys : List String)
    → Agree xs ys
    → length xs ≡ distinct ys
    → length (insert_account b xs) ≡ distinct (b ∷ ys)
unfolding insert_account
length-insert_account b xs ys same n = elim (Bool-cases (is_in b xs)) [
  | inl e ↦ rw (e, sym (same b), e) (omega arith)
  | inr e ↦ rw (e, sym (same b), e) (omega arith)
]

-- The sets of a day on which the accounts were heard from.
record Heard (day : ℕ) (xs : List String) (before : Active) (v : Active) : Type 0 where
  at : v.day ≡ day
  earlier : v.yesterday ≡ (if before.day + 1 == day then before.today else [])
  agree : Agree v.today xs
  many : length v.today ≡ distinct xs

turned-day : (day : ℕ) (v : Active) → v.day ≡ day → turned day v ≡ v
unfolding turned
turned-day day v e = let c : (v.day == day) ≡ true = ground arith in rw c refl

heard-Heard :
    (xs : List String) (now_ms : ℕ) (s : Stats)
    → (s.active.day == now_ms / day_ms) ≡ false
    → Heard (now_ms / day_ms) xs s.active (turned (now_ms / day_ms) (heard xs now_ms s).active)
unfolding seen
heard-Heard [] now_ms s new =
    unfold turned in rw new (record { at = refl; earlier = refl; agree = λ a. refl; many = refl })
heard-Heard (a ∷ as') now_ms s new =
    let day = now_ms / day_ms in
    let ih = heard-Heard as' now_ms s new in
    let v = turned day (heard as' now_ms s).active in
    let u : Active = record v { today = insert_account a v.today } in
    rw (turned-day day u ih.at) (record {
      at = ih.at;
      earlier = ih.earlier;
      agree = insert_account-Agree a v.today as' ih.agree;
      many = length-insert_account a v.today as' ih.agree ih.many;
    })

same_counts :
    (now_ms : ℕ) (v : Active)
    → v.day ≡ now_ms / day_ms
    → active_counts now_ms v ≡ (length v.today, length v.yesterday)
unfolding active_counts
same_counts now_ms v e = let c : (v.day == now_ms / day_ms) ≡ true = ground arith in rw c refl

-- Where at least one account is heard from on a new day, the count of today is that of the different
-- accounts heard from, however often each came, and yesterday's is that of the day before, or 0
-- where the last day that was counted lies further back.
pub heard-active_counts :
    (a : String) (as' : List String) (now_ms : ℕ) (s : Stats)
    → (s.active.day == now_ms / day_ms) ≡ false
    → active_counts now_ms (heard (a ∷ as') now_ms s).active ≡ (
      distinct (a ∷ as'),
      if s.active.day + 1 == now_ms / day_ms then length s.active.today else 0,
    )
unfolding seen
heard-active_counts a as' now_ms s new =
    let day = now_ms / day_ms in
    let ih = heard-Heard as' now_ms s new in
    let v = turned day (heard as' now_ms s).active in
    let many = length-insert_account a v.today as' ih.agree ih.many in
    let before : length v.yesterday
        ≡ (if s.active.day + 1 == day then length s.active.today else 0) =
      ap (λ (l : List String). length l) ih.earlier
      ∙ if_both
          (λ (l : List String).
            length l ≡ (if s.active.day + 1 == day then length s.active.today else 0))
          (s.active.day + 1 == day) (λ e. rw e refl) (λ e. rw e refl) in
    same_counts now_ms (record v { today = insert_account a v.today }) ih.at
    ∙ (λ i. (many i, before i))
