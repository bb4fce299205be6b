-- ===== src/Enclave/Cover/Crowd.antt =====
-- crates/enclave/src/cover.rs: proofs about note and decoys_needed.
use tokumai.Base.{
  ℕ, zero, suc, ◌+◌, ◌-◌, ◌≤◌, ◌<◌, ◌≡◌, refl, false, some, List, [], ◌∷◌, ◌++◌, leb, arith, length,
  drop, length-drop, ==_refl,
}
use tokumai.Base.Dict.{lookup, insert, lookup-insert}
use tokumai.Enclave.Cover.{
  Cover, Shape, enough, cover_keep_ms, remember, note, cover_since, decoys_needed,
}

-- However many calls there are, no more than `remember` are kept.
pub note-bounded :
    (shape : Shape) (now_ms : ℕ) (c : Cover) → length (note shape now_ms c).seen ≤ remember
unfolding note
note-bounded shape now_ms c =
    let seen = c.seen ++ (now_ms, shape) ∷ [] in
    omega (arith, length-drop (length seen - remember) seen)

abbrev pub AllSeenBy : ℕ → List (ℕ × Shape) → Type 0
AllSeenBy limit [] = Unit
AllSeenBy limit ((at, s) ∷ seen) = (at ≤ limit) × AllSeenBy limit seen

AllSeenBy-append :
    (limit at : ℕ) (s : Shape) (seen : List (ℕ × Shape))
    → AllSeenBy limit seen
    → at ≤ limit
    → AllSeenBy limit (seen ++ (at, s) ∷ [])
AllSeenBy-append limit at s [] h le = (le, tt)
AllSeenBy-append limit at s (x ∷ seen) h le = (h.0, AllSeenBy-append limit at s seen h.1 le)

AllSeenBy-drop :
    (limit n : ℕ) (seen : List (ℕ × Shape)) → AllSeenBy limit seen → AllSeenBy limit (drop n seen)
AllSeenBy-drop limit zero seen h = h
AllSeenBy-drop limit (suc n) [] h = h
AllSeenBy-drop limit (suc n) (x ∷ seen) h = AllSeenBy-drop limit n seen h.1

cover_since-none :
    (shape : Shape) (paid_at since : ℕ) (seen : List (ℕ × Shape))
    → paid_at < since
    → AllSeenBy since seen
    → cover_since shape paid_at since seen ≡ 0
unfolding cover_since
cover_since-none shape paid_at since [] lt h = refl
cover_since-none shape paid_at since ((at, s) ∷ seen) lt h =
    let rest = cover_since-none shape paid_at since seen lt h.1 in ground arith

decoys_needed-armed :
    (account paid_at since now_ms : ℕ) (shape : Shape) (c : Cover)
    → lookup account c.waiting ≡ some (paid_at, since)
    → now_ms < paid_at + cover_keep_ms
    → decoys_needed account shape now_ms c ≡ (
      enough - cover_since shape paid_at since c.seen,
      record c { waiting = insert account (paid_at, now_ms) c.waiting },
    )
unfolding decoys_needed
decoys_needed-armed account paid_at since now_ms shape c w within =
    let late : leb cover_keep_ms (now_ms - paid_at) ≡ false = ground arith in
    rw (w, decoys_needed, late) refl

-- Where an account is in the window of its payment, all calls seen were no later than its question
-- and that question is later than its payment, its next question in the window needs the full
-- number of decoys, although its own call was noted in between.
pub decoys_needed-alone :
    (account paid_at since now_ms next_ms : ℕ) (shape next : Shape) (c : Cover)
    → lookup account c.waiting ≡ some (paid_at, since)
    → AllSeenBy now_ms c.seen
    → paid_at < now_ms
    → now_ms < paid_at + cover_keep_ms
    → next_ms < paid_at + cover_keep_ms
    → (decoys_needed account next next_ms
        (note shape now_ms (decoys_needed account shape now_ms c).1)).0
      ≡ enough
unfolding note
decoys_needed-alone account paid_at since now_ms next_ms shape next c w h lt in1 in2 =
    let seen = c.seen ++ (now_ms, shape) ∷ [] in
    let kept = drop (length seen - remember) seen in
    let waiting = insert account (paid_at, now_ms) c.waiting in
    let armed : lookup account waiting ≡ some (paid_at, now_ms) =
      rw (lookup-insert account account (paid_at, now_ms) c.waiting, ==_refl account) refl in
    let all =
      AllSeenBy-drop now_ms (length seen - remember) seen
        (AllSeenBy-append now_ms now_ms shape c.seen h (omega arith)) in
    let z = cover_since-none next paid_at now_ms kept lt all in
    rw
      (
        decoys_needed-armed account paid_at since now_ms shape c w in1,
        decoys_needed-armed account paid_at now_ms next_ms next
            (record { seen = kept; waiting = waiting }) armed in2,
        z,
      )
      refl
