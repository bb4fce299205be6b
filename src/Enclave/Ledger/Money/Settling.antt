-- ===== src/Enclave/Ledger/Money/Settling.antt =====
-- crates/enclave/src/ledger.rs: proofs about settle and release_open_holds.
use mathlib.Core.List.{reverse, reverse_aux}
use tokumai.Base.{
  ℕ, ◌+◌, ◌-◌, ◌≡◌, refl, false, List, [], ◌∷◌, ◌++◌, String, arith, ◌==◌, min, ◌⊎◌, inl, inr,
  length, if_both, ==_iff, sum_of, sum_of-append,
}
use tokumai.Enclave.Ledger.Tables.{
  Tables, Pocket, HoldRow, Change, apply, return_allowance, return_lot, delete_hold, on_allowance,
  without_hold,
}
use tokumai.Enclave.Ledger.Money.{
  Book, Hold, give_back, refunds, apply_all, settle, releases_of, releases, release_open_holds,
}
use tokumai.Enclave.Ledger.Money.Funds.{taken}

-- What a change puts back into a pocket.
abbrev pub returned : Change → ℕ
returned (return_allowance acct amount) = amount
returned (return_lot id amount) = amount
returned _ = 0

abbrev pub returned_by : List Change → ℕ
returned_by = sum_of returned

pub give_back-returned : (acct : ℕ) (p : Pocket) (n : ℕ) → returned (give_back acct p n) ≡ n
unfolding give_back
give_back-returned acct Pocket.allowance n = refl
give_back-returned acct (Pocket.lot id) n = refl

pub refunds-returned :
    (acct : ℕ) (parts : List (Pocket × ℕ)) (refund : ℕ)
    → returned_by (refunds acct refund parts) ≡ min refund (taken parts)
unfolding refunds
refunds-returned acct [] refund = omega arith
refunds-returned acct ((p, took) ∷ parts) refund =
    let back = min refund took in
    let more = refunds acct (refund - back) parts in
    let rest = refunds-returned acct parts (refund - back) in
    let one = give_back-returned acct p back in
    if_both (λ cs. returned_by cs ≡ min refund (took + taken parts)) (refund == 0) {x = []}
      {y = give_back acct p back ∷ more} (λ h. let z = (==_iff refund 0).0 h in omega arith)
      (λ _. omega arith)

pub taken-reverse_aux :
    (parts done : List (Pocket × ℕ)) → taken (reverse_aux parts done) ≡ taken parts + taken done
taken-reverse_aux [] done = omega arith
taken-reverse_aux (p ∷ parts) done = omega (arith, taken-reverse_aux parts (p ∷ done))

-- For a hold whose parts add up to its amount, `settle` keeps the cost or, where that is more, the
-- whole hold, and what it keeps and what it writes down as given back add up to the hold.
pub settle_whole :
    (key : String → ℕ) (h : Hold) (cost : ℕ) (b : Book)
    → taken h.parts ≡ h.amount
    → let done = settle key h cost b in
      (done.result ≡ min cost h.amount) × (done.result + returned_by done.written ≡ h.amount)
unfolding settle
settle_whole key h cost b whole =
    let refund = h.amount - min cost h.amount in
    let cs = refunds (key h.account) refund (reverse h.parts) in
    let e1 = refunds-returned (key h.account) (reverse h.parts) refund in
    let e2 = taken-reverse_aux h.parts [] in
    let e3 = sum_of-append returned cs (delete_hold h.id ∷ []) in (refl, omega arith)

pub apply_all-append :
    (cs ds : List Change) (t : Tables) → apply_all (cs ++ ds) t ≡ apply_all ds (apply_all cs t)
unfolding apply_all
apply_all-append [] ds t = refl
apply_all-append (c ∷ cs) ds t = apply_all-append cs ds (apply c t)

releases_of-holds :
    (acct : ℕ) (parts : List (Pocket × ℕ)) (t : Tables)
    → (apply_all (releases_of acct parts) t).holds ≡ t.holds
unfolding releases_of apply_all give_back apply on_allowance
releases_of-holds acct [] t = refl
releases_of-holds acct ((Pocket.allowance, took) ∷ parts) t =
    releases_of-holds acct parts (apply (return_allowance acct took) t)
releases_of-holds acct ((Pocket.lot id, took) ∷ parts) t =
    releases_of-holds acct parts (apply (return_lot id took) t)

-- Every id of one list of holds is an id of the other.
abbrev Has : ℕ → List HoldRow → Type 0
Has id [] = ⊥
Has id (h ∷ hs) = (h.id ≡ id) ⊎ Has id hs

abbrev Within : List HoldRow → List HoldRow → Type 0
Within [] hs = Unit
Within (g ∷ gs) hs = Has g.id hs × Within gs hs

Within-more : (gs hs : List HoldRow) (h : HoldRow) → Within gs hs → Within gs (h ∷ hs)
Within-more [] hs h w = tt
Within-more (g ∷ gs) hs h w = (inr w.0, Within-more gs hs h w.1)

Within-refl : (hs : List HoldRow) → Within hs hs
Within-refl [] = tt
Within-refl (h ∷ hs) = (inl refl, Within-more hs hs h (Within-refl hs))

Within-none : (gs : List HoldRow) → Within gs [] → gs ≡ []
Within-none [] w = refl
Within-none (g ∷ gs) w = absurd w.0

Has-other :
    (id : ℕ) (h : HoldRow) (hs : List HoldRow) → (id == h.id) ≡ false → Has id (h ∷ hs) → Has id hs
Has-other id h hs e (inl same) = absurd (ground arith)
Has-other id h hs e (inr w) = w

without_hold-Within :
    (gs : List HoldRow) (h : HoldRow) (hs : List HoldRow)
    → Within gs (h ∷ hs)
    → Within (without_hold h.id gs) hs
unfolding without_hold
without_hold-Within [] h hs w = tt
without_hold-Within (g ∷ gs) h hs w =
    let rest = without_hold-Within gs h hs w.1 in
    if_both (λ l. Within l hs) (g.id == h.id) (λ _. rest) (λ e. (Has-other g.id h hs e w.0, rest))

releases-none :
    (hs : List HoldRow) (t : Tables) → Within t.holds hs → (apply_all (releases hs) t).holds ≡ []
unfolding releases apply_all
releases-none [] t w = Within-none t.holds w
releases-none (h ∷ hs) t w =
    let u = apply_all (releases_of h.acct h.parts) t in
    let e : u.holds ≡ t.holds = releases_of-holds h.acct h.parts t in
    let next : Tables = apply (delete_hold h.id) u in
    let e2 : next.holds ≡ without_hold h.id t.holds = unfold apply in rw e refl in
    let w2 : Within next.holds hs = rw e2 (without_hold-Within t.holds h hs w) in
    rw (apply_all-append (releases_of h.acct h.parts) (delete_hold h.id ∷ releases hs) t)
      (releases-none hs next w2)

-- After `release_open_holds` no hold is open, and its result is how many there were.
pub release_open_holds-none :
    (b : Book)
    → let done = release_open_holds b in
      (done.book.tables.holds ≡ []) × (done.result ≡ length b.tables.holds)
unfolding release_open_holds
release_open_holds-none b =
    (releases-none b.tables.holds b.tables (Within-refl b.tables.holds), refl)
