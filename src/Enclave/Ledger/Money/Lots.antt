-- ===== src/Enclave/Ledger/Money/Lots.antt =====
-- crates/enclave/src/ledger.rs: proofs about the lots that can pay for an account at a time.
use tokumai.Base.{
  ℕ, ◌+◌, ◌-◌, ◌≤◌, ◌<◌, ◌≡◌, ◌≢◌, refl, ◌∙◌, Bool, true, false, ◌||◌, ◌&&◌, List, [], ◌∷◌, arith,
  ltb, leb, ◌==◌, if◌then◌else◌, if_both, ◌⊎◌, inl, inr, sum_of,
}
use tokumai.Enclave.Ledger.Tables.{Lot, on_lot, has_lot}
use tokumai.Enclave.Ledger.Money.{is_open, by_expiry, open_lots}

abbrev pub left_in : List Lot → ℕ
left_in = sum_of (λ (l : Lot). l.left)

-- No id stands twice.
abbrev pub Distinct : List Lot → Type 0
Distinct [] = Unit
Distinct (l ∷ ls) = (has_lot l.id ls ≡ false) × Distinct ls

module _ (acct now_ms : ℕ) where
  -- What a lot pays for the account at this time.
  abbrev pub counts : Lot → ℕ
  counts l = if (l.acct == acct) && ltb now_ms l.expires_ms then l.left else 0

  by_expiry-left_in : (l : Lot) (ms : List Lot) → left_in (by_expiry l ms) ≡ l.left + left_in ms
  unfolding by_expiry
  by_expiry-left_in l [] = refl
  by_expiry-left_in l (m ∷ ms) =
      if_both (λ (x : List Lot). left_in x ≡ l.left + (m.left + left_in ms))
        (leb l.expires_ms m.expires_ms) (λ _. refl) (λ _. omega (arith, by_expiry-left_in l ms))

  pub open_lots-left_in : (ls : List Lot) → left_in (open_lots acct now_ms ls) ≡ sum_of counts ls
  unfolding open_lots is_open
  open_lots-left_in [] = refl
  open_lots-left_in (l ∷ ls) =
      ground (arith, open_lots-left_in ls, by_expiry-left_in l (open_lots acct now_ms ls))

  -- The one lot with the id is the account's, has not expired, and has this much left.
  abbrev pub Payable : ℕ → ℕ → List Lot → Type 0
  Payable id n [] = ⊥
  Payable id n (l ∷ ls) =
      ((l.id ≡ id)
        × (l.acct ≡ acct)
        × (now_ms < l.expires_ms)
        × (n ≤ l.left)
        × (has_lot id ls ≡ false))
      ⊎ ((l.id ≢ id) × Payable id n ls)

  pub on_lot_none :
      (id : ℕ) (f : ℕ → ℕ) (ls : List Lot) → has_lot id ls ≡ false → on_lot id f ls ≡ ls
  unfolding on_lot has_lot
  on_lot_none id f [] e = refl
  on_lot_none id f (l ∷ ls) e = ground (arith, on_lot_none id f ls)

  pub Payable-has_lot : (id n : ℕ) (ls : List Lot) → Payable id n ls → has_lot id ls ≡ true
  unfolding has_lot
  Payable-has_lot id n [] p = absurd p
  Payable-has_lot id n (l ∷ ls) (inl p) = ground (arith, p.0)
  Payable-has_lot id n (l ∷ ls) (inr p) = ground (arith, Payable-has_lot id n ls p.1)

  -- A draw of no more than is left, and a return.
  pub Payable-draw :
      (id n : ℕ) (ls : List Lot)
      → Payable id n ls
      → sum_of counts (on_lot id (λ left. left - n) ls) + n ≡ sum_of counts ls
  unfolding on_lot
  Payable-draw id n [] p = absurd p
  Payable-draw id n (l ∷ ls) (inl p) =
      let rest = on_lot_none id (λ left. left - n) ls p.4 in
      rw rest (ground (arith, p.0, p.1, p.2, p.3))
  Payable-draw id n (l ∷ ls) (inr p) = ground (arith, p.0, Payable-draw id n ls p.1)

  pub Payable-return :
      (id m n : ℕ) (ls : List Lot)
      → Payable id m ls
      → sum_of counts (on_lot id (λ left. left + n) ls) ≡ sum_of counts ls + n
  unfolding on_lot
  Payable-return id m n [] p = absurd p
  Payable-return id m n (l ∷ ls) (inl p) =
      let rest = on_lot_none id (λ left. left + n) ls p.4 in rw rest (ground (arith, p.0, p.1, p.2))
  Payable-return id m n (l ∷ ls) (inr p) = ground (arith, p.0, Payable-return id m n ls p.1)

  has_lot-on_lot :
      (id other : ℕ) (f : ℕ → ℕ) (ls : List Lot) → has_lot id (on_lot other f ls) ≡ has_lot id ls
  unfolding has_lot on_lot
  has_lot-on_lot id other f [] = refl
  has_lot-on_lot id other f (l ∷ ls) = ground (arith, has_lot-on_lot id other f ls)

  -- A change of a lot keeps the identities.
  on_lot_other :
      (id other : ℕ) (f : ℕ → ℕ) (l : Lot)
      → l.id ≢ id
      → (if l.id == other then record l { left = f l.left } else l).id ≢ id
  on_lot_other id other f l d =
      if_both (λ (x : Lot). x.id ≢ id) (l.id == other) {x = record l { left = f l.left }} {y = l}
        (λ _. d) (λ _. d)

  abbrev Fits : ℕ → ℕ → List Lot → Lot → Type 0
  Fits id n ls x =
      (x.id ≡ id)
      × (x.acct ≡ acct)
      × (now_ms < x.expires_ms)
      × (n ≤ x.left)
      × (has_lot id ls ≡ false)

  -- Another lot's change leaves it as payable as it was.
  pub Payable-other :
      (id n other : ℕ) (f : ℕ → ℕ) (ls : List Lot)
      → other ≢ id
      → Payable id n ls
      → Payable id n (on_lot other f ls)
  unfolding on_lot
  Payable-other id n other f [] d p = absurd p
  Payable-other id n other f (l ∷ ls) d (inl p) =
      let none_behind = has_lot-on_lot id other f ls ∙ p.4 in
      inl (
        if_both (Fits id n (on_lot other f ls)) (l.id == other) {x = record l { left = f l.left }}
          {y = l} (λ e. absurd (d (ground (arith, p.0)))) (λ _. (p.0, p.1, p.2, p.3, none_behind)))
  Payable-other id n other f (l ∷ ls) d (inr p) =
      inr (on_lot_other id other f l p.0, Payable-other id n other f ls d p.1)

  -- Any change leaves it there, to return to.
  pub Payable-any :
      (id n other : ℕ) (f : ℕ → ℕ) (ls : List Lot)
      → Payable id n ls
      → Payable id 0 (on_lot other f ls)
  unfolding on_lot
  Payable-any id n other f [] p = absurd p
  Payable-any id n other f (l ∷ ls) (inl p) =
      let none_behind = has_lot-on_lot id other f ls ∙ p.4 in
      inl (
        if_both (Fits id 0 (on_lot other f ls)) (l.id == other) {x = record l { left = f l.left }}
          {y = l} (λ _. (p.0, p.1, p.2, omega arith, none_behind))
          (λ _. (p.0, p.1, p.2, omega arith, none_behind)))
  Payable-any id n other f (l ∷ ls) (inr p) =
      inr (on_lot_other id other f l p.0, Payable-any id n other f ls p.1)

  -- The lots of one list can all be drawn on in another.
  abbrev pub AllPayable : List Lot → List Lot → Type 0
  AllPayable [] ls = Unit
  AllPayable (o ∷ os) ls = Payable o.id o.left ls × AllPayable os ls

  AllPayable-cons :
      (os : List Lot) (l : Lot) (ls : List Lot)
      → has_lot l.id ls ≡ false
      → AllPayable os ls
      → AllPayable os (l ∷ ls)
  AllPayable-cons [] l ls new p = tt
  AllPayable-cons (o ∷ os) l ls new p =
      let there = Payable-has_lot o.id o.left ls p.0 in
      (inr ((λ e. clash (rw e at new) there), p.0), AllPayable-cons os l ls new p.1)
    where
      clash : {b : Bool} → b ≡ false → b ≡ true → ⊥
      clash not_it yes_it = cc

  has_lot-by_expiry :
      (id : ℕ) (l : Lot) (ms : List Lot)
      → has_lot id (by_expiry l ms) ≡ (l.id == id || has_lot id ms)
  unfolding has_lot by_expiry
  has_lot-by_expiry id l [] = refl
  has_lot-by_expiry id l (m ∷ ms) = ground (arith, has_lot-by_expiry id l ms)

  by_expiry-AllPayable :
      (l : Lot) (os ls : List Lot)
      → Payable l.id l.left ls
      → AllPayable os ls
      → AllPayable (by_expiry l os) ls
  unfolding by_expiry
  by_expiry-AllPayable l [] ls p ps = (p, tt)
  by_expiry-AllPayable l (m ∷ ms) ls p ps =
      if_both (λ (x : List Lot). AllPayable x ls) (leb l.expires_ms m.expires_ms) (λ _. (p, ps))
        (λ _. (ps.0, by_expiry-AllPayable l ms ls p ps.1))

  by_expiry-Distinct :
      (l : Lot) (os : List Lot) → has_lot l.id os ≡ false → Distinct os → Distinct (by_expiry l os)
  unfolding by_expiry has_lot
  by_expiry-Distinct l [] new d = (refl, tt)
  by_expiry-Distinct l (m ∷ ms) new d =
      if_both Distinct (leb l.expires_ms m.expires_ms) (λ _. (new, d))
        (λ _. (
          has_lot-by_expiry m.id l ms ∙ ground (arith, new, d.0),
          by_expiry-Distinct l ms (ground arith) d.1,
        ))

  open_lots-has_lot :
      (id : ℕ) (ls : List Lot)
      → has_lot id ls ≡ false
      → has_lot id (open_lots acct now_ms ls) ≡ false
  unfolding open_lots has_lot
  open_lots-has_lot id [] e = refl
  open_lots-has_lot id (l ∷ ls) e =
      let more = open_lots-has_lot id ls (ground arith) in
      if_both (λ (x : List Lot). has_lot id x ≡ false) (is_open acct now_ms l)
        (λ _. has_lot-by_expiry id l (open_lots acct now_ms ls) ∙ ground (arith, more)) (λ _. more)

  -- Every lot of the list that a hold goes through.
  pub open_lots-AllPayable :
      (ls : List Lot)
      → Distinct ls
      → AllPayable (open_lots acct now_ms ls) ls × Distinct (open_lots acct now_ms ls)
  unfolding open_lots is_open
  open_lots-AllPayable [] d = (tt, tt)
  open_lots-AllPayable (l ∷ ls) d =
      let (ps, ds) = open_lots-AllPayable ls d.1 in
      let os = open_lots acct now_ms ls in
      let more = AllPayable-cons os l ls d.0 ps in
      if_both (λ (x : List Lot). AllPayable x (l ∷ ls) × Distinct x) (is_open acct now_ms l)
        (λ opened.
          let mine : l.acct ≡ acct = ground arith in
          let valid : now_ms < l.expires_ms = ground arith in
          (
            by_expiry-AllPayable l os (l ∷ ls) (inl (refl, mine, valid, omega arith, d.0)) more,
            by_expiry-Distinct l os (open_lots-has_lot l.id ls d.0) ds,
          ))
        (λ _. (more, ds))
