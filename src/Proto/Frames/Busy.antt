-- ===== src/Proto/Frames/Busy.antt =====
-- crates/proto/src/frames.rs: proofs that a question that is being answered stays so.
use tokumai.Base.{
  ℕ, zero, suc, ◌+◌, ◌≤◌, ◌≡◌, refl, ap, ◌∙◌, ◌⊎◌, false, Option, none, some, [], ◌∷◌, length, leb,
  arith, ◌==◌, ==_refl, if◌then◌else◌, if_both, inl, inr, Option-cases, Bool-cases,
}
use tokumai.Base.Dict.{lookup, insert, erase, lookup-insert, lookup-erase}
use tokumai.Proto.Frames.{
  Held, answering, Frames, at_of, max_kept, young, oldest, total, trim_to, trim,
}

-- How often a key stands in the map.
abbrev pub count : ℕ → Frames → ℕ
count k [] = 0
count k ((j, h) ∷ held) = (if j == k then 1 else 0) + count k held

-- The question with the key is being answered.
pub record IsBusy (k : ℕ) (held : Frames) : Type 0 where
  pub here : lookup k held ≡ some answering
  pub once : count k held ≤ 1

pub count-erase : (k j : ℕ) (held : Frames) → count k (erase j held) ≤ count k held
unfolding erase
count-erase k j [] = omega arith
count-erase k j ((i, h) ∷ held) = ground (arith, count-erase k j held)

pub count-absent : (k : ℕ) (held : Frames) → lookup k held ≡ none → count k held ≡ 0
unfolding lookup
count-absent k [] e = refl
count-absent k ((i, h) ∷ held) e = elim (Bool-cases (i == k)) [
  | inl b ↦ absurd (ground arith)
  | inr b ↦ rw b (omega (arith, count-absent k held (rw b at e)))
]

count-insert_other :
    (k j : ℕ) (h : Held) (held : Frames)
    → (j == k) ≡ false
    → count k (insert j h held) ≡ count k held
unfolding insert
count-insert_other k j h [] e = rw e refl
count-insert_other k j h ((i, g) ∷ held) e = ground (arith, count-insert_other k j h held e)

pub count-insert :
    (k j : ℕ) (h : Held) (held : Frames) → count k held ≤ 1 → count k (insert j h held) ≤ 1
unfolding insert
count-insert k j h [] le = ground arith
count-insert k j h ((i, g) ∷ held) le = elim (Bool-cases (j == k)) [
  | inr e ↦ omega (arith, le, count-insert_other k j h ((i, g) ∷ held) e)
  | inl e ↦ ground (arith, count-insert k j h held)
]

count-young : (k now_ms : ℕ) (held : Frames) → count k (young now_ms held) ≤ count k held
unfolding young
count-young k now_ms [] = omega arith
count-young k now_ms ((i, h) ∷ held) = ground (arith, count-young k now_ms held)

timed-IsNotBusy : (h : Held) (at : ℕ) → at_of h ≡ some at → ¬ (h ≡ answering)
unfolding at_of
timed-IsNotBusy h at e b = absurd (ground arith)

lookup-young :
    (k now_ms : ℕ) (held : Frames)
    → lookup k held ≡ some answering
    → lookup k (young now_ms held) ≡ some answering
unfolding lookup young
lookup-young k now_ms [] e = cc
lookup-young k now_ms ((i, h) ∷ held) e = elim (Option-cases (at_of h)) [
  | inl n ↦ rw (n, young) (ground (arith, lookup-young k now_ms held))
  | inr (at, n) ↦ rw (n, young) (ground (arith, lookup-young k now_ms held, timed-IsNotBusy h at n))
]

row_key : {i k t at : ℕ} → ◌≡◌ {A = Option (ℕ × ℕ)} (some (i, t)) (some (k, at)) → i ≡ k
row_key {i} e = ap (λ (o : Option (ℕ × ℕ)). elim o [ none ↦ i | some row ↦ row.0 ]) e

-- The oldest row is the first one, or the oldest of the others.
oldest-cases :
    (i j at : ℕ) (h : Held) (held : Frames)
    → oldest ((i, h) ∷ held) ≡ some (j, at)
    → ((i ≡ j) × (¬ (h ≡ answering))) ⊎ (oldest held ≡ some (j, at))
unfolding oldest
oldest-cases i j at h held e = elim (Option-cases (at_of h)) [
  | inl n ↦ inr (rw (n, oldest) at e)
  | inr (t, n) ↦ elim (Option-cases (oldest held)) [
    | inl m ↦ inl (row_key (rw (n, oldest, m) at e), timed-IsNotBusy h t n)
    | inr ((k, u), m) ↦ elim (Bool-cases (leb t u)) [
      | inl b ↦ inl (row_key (rw (n, oldest, m, b) at e), timed-IsNotBusy h t n)
      | inr b ↦ inr (m ∙ rw (n, oldest, m, b) at e)
    ]
  ]
]

oldest-count : (k at : ℕ) (held : Frames) → oldest held ≡ some (k, at) → 1 ≤ count k held
oldest-count k at [] e = absurd (unfold oldest in ground arith)
oldest-count k at ((i, h) ∷ held) e = elim (oldest-cases i k at h held e) [
  | inl (same, timed) ↦ rw (same, ==_refl k) (omega arith)
  | inr rest ↦ omega (arith, oldest-count k at held rest)
]

oldest-other :
    (k j at : ℕ) (held : Frames) → IsBusy k held → oldest held ≡ some (j, at) → (j == k) ≡ false
unfolding lookup
oldest-other k j at [] b e = absurd (unfold oldest in ground arith)
oldest-other k j at ((i, h) ∷ held) b e = elim (oldest-cases i j at h held e) [
  | inl (same, timed) ↦ elim (Bool-cases (i == k)) [
    | inl f ↦ absurd (timed (ground (arith, b.here)))
    | inr f ↦ rw (← same) f
  ]
  | inr rest ↦ elim (Bool-cases (i == k)) [
    | inl f ↦ elim (Bool-cases (j == k)) [
      | inl g ↦
          let same : j ≡ k = ground arith in
          let first : ◌≡◌ {A = ℕ} (if i == k then 1 else 0) 1 = rw f refl in
          absurd (omega (arith, b.once, first, oldest-count k at held (rw same at rest)))
      | inr g ↦ g
    ]
    | inr f ↦
        oldest-other k j at held (record { here = rw f at b.here; once = omega (arith, b.once) })
          rest
  ]
]

pub erase-IsBusy :
    (k j : ℕ) (held : Frames) → (j == k) ≡ false → IsBusy k held → IsBusy k (erase j held)
erase-IsBusy k j held e b = record {
  here = rw (lookup-erase k j held, e) b.here;
  once = omega (arith, b.once, count-erase k j held);
}

pub insert-IsBusy :
    (k j : ℕ) (h : Held) (held : Frames)
    → (j == k) ≡ false
    → IsBusy k held
    → IsBusy k (insert j h held)
insert-IsBusy k j h held e b = record {
  here = rw (lookup-insert k j h held, e) b.here;
  once = count-insert k j h held b.once;
}

trim_to-IsBusy : (k fuel : ℕ) (held : Frames) → IsBusy k held → IsBusy k (trim_to fuel held)
unfolding trim_to
trim_to-IsBusy k zero held b = b
trim_to-IsBusy k (suc fuel) held b = elim (Option-cases (oldest held)) [
  | inl n ↦ rw (n, trim_to) (if_both (IsBusy k) (leb (total held) max_kept) (λ _. b) (λ _. b))
  | inr ((j, at), n) ↦
      rw (n, trim_to)
        (if_both (IsBusy k) (leb (total held) max_kept) (λ _. b)
          (λ _.
            trim_to-IsBusy k fuel (erase j held)
              (erase-IsBusy k j held (oldest-other k j at held b n) b)))
]

pub trim-IsBusy : (k now_ms : ℕ) (held : Frames) → IsBusy k held → IsBusy k (trim now_ms held)
unfolding trim
trim-IsBusy k now_ms held b =
    let kept = young now_ms held in
    trim_to-IsBusy k (length kept) kept (record {
      here = lookup-young k now_ms held b.here;
      once = omega (arith, b.once, count-young k now_ms held);
    })

count-trim_to : (k fuel : ℕ) (held : Frames) → count k (trim_to fuel held) ≤ count k held
unfolding trim_to
count-trim_to k zero held = omega arith
count-trim_to k (suc fuel) held =
    let P : Frames → Type 0 = λ u. count k u ≤ count k held in
    elim (Option-cases (oldest held)) [
      | inl n ↦
          rw (n, trim_to)
            (if_both P (leb (total held) max_kept) (λ _. omega arith) (λ _. omega arith))
      | inr ((j, at), n) ↦
          rw (n, trim_to)
            (if_both P (leb (total held) max_kept) (λ _. omega arith)
              (λ _. omega (arith, count-trim_to k fuel (erase j held), count-erase k j held)))
    ]

pub count-trim : (k now_ms : ℕ) (held : Frames) → count k (trim now_ms held) ≤ count k held
unfolding trim
count-trim k now_ms held =
    let kept = young now_ms held in
    omega (arith, count-trim_to k (length kept) kept, count-young k now_ms held)
