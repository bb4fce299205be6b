-- ===== src/Proto/Frames/Asked.antt =====
-- crates/proto/src/frames.rs: proofs that a question is asked once, over any history of the map.
use tokumai.Base.{
  ℕ, ◌+◌, ◌≤◌, ◌≡◌, refl, Bool, true, false, none, some, List, [], ◌∷◌, length, arith, ◌==◌, ◌&&◌,
  if◌then◌else◌, inl, inr, Option-cases, Bool-cases,
}
use mathlib.Core.Path.{subst}
use tokumai.Base.Bytes.{Bytes}
use tokumai.Base.Dict.{lookup, insert}
use tokumai.Proto.Frames.{
  reply_again, FrameId, answered, Frames, key_of, max_kept, young, total, Outcome, silent, back,
  ask, handle, id_of, chunks_of, is_whole, keep,
}
use tokumai.Proto.Frames.Busy.{
  count, IsBusy, count-erase, count-insert, count-trim, erase-IsBusy, insert-IsBusy, trim-IsBusy,
}
use tokumai.Proto.Frames.Kept.{IsFree, handle-keeps}
use tokumai.Proto.Frames.Claimed.{Claims, handle-Claims, keep-reply_again}
use tokumai.Proto.Frames.Once.{IsNotAsk, handle_taken}

-- A frame came, or the answer to a question is there to be kept.
pub data Happening : Type 0 where
  came : Bytes → Happening
  replied : (id : FrameId) (reply : Bytes) (parted : Bool) → Happening

abbrev pub step : ℕ → Happening → Frames → Outcome × Frames
step now_ms (came f) held = handle now_ms f held
step now_ms (replied id reply parted) held = (silent, (keep now_ms id reply parted held).1)

-- The map after events, each with its time.
abbrev pub run : List (ℕ × Happening) → Frames → Frames
run [] held = held
run ((now_ms, e) ∷ es) held = run es (step now_ms e held).1

abbrev is_ask : Outcome → Bool
is_ask (ask message parted) = true
is_ask other = false

abbrev is_from : ℕ → Happening → Bool
is_from k (came f) = elim (id_of f) [ none ↦ false | some id ↦ key_of id == k ]
is_from k (replied id reply parted) = false

-- How many frames with the id are handed on as a question.
abbrev pub asks : ℕ → List (ℕ × Happening) → Frames → ℕ
asks k [] held = 0
asks k ((now_ms, e) ∷ es) held =
    let out = step now_ms e held in (if is_from k e && is_ask out.0 then 1 else 0) + asks k es out.1

-- None of the events is the answer to the question.
abbrev pub IsUnanswered : ℕ → List (ℕ × Happening) → Type 0
IsUnanswered k [] = Unit
IsUnanswered k ((now_ms, came f) ∷ es) = IsUnanswered k es
IsUnanswered k ((now_ms, replied id reply parted) ∷ es) =
    ((key_of id == k) ≡ false) × IsUnanswered k es

step-count :
    (k now_ms : ℕ) (e : Happening) (held : Frames)
    → count k held ≤ 1
    → count k (step now_ms e held).1 ≤ 1
unfolding keep
step-count k now_ms (came f) held le =
    handle-keeps (λ u. count k u ≤ 1) (λ j h u free. count-insert k j h u)
      (λ j u free once. omega (arith, count-erase k j u))
      (λ at u once. omega (arith, count-trim k at u)) now_ms f held le
step-count k now_ms (replied id reply parted) held le =
    let w = is_whole parted reply in
    let row = answered (chunks_of w reply) (length reply) w now_ms in
    omega (
      arith,
      count-trim k now_ms (insert (key_of id) row held),
      count-insert k (key_of id) row held le,
    )

run-count :
    (k : ℕ) (es : List (ℕ × Happening)) (held : Frames)
    → count k held ≤ 1
    → count k (run es held) ≤ 1
run-count k [] held le = le
run-count k ((now_ms, e) ∷ es) held le =
    run-count k es (step now_ms e held).1 (step-count k now_ms e held le)

IsFree-other : (k j : ℕ) (held : Frames) → IsBusy k held → IsFree (lookup j held) → (j == k) ≡ false
IsFree-other k j held b free = elim (Bool-cases (j == k)) [
  | inr e ↦ e
  | inl e ↦ let same : j ≡ k = ground arith in absurd (rw (same, b.here) at free)
]

step-IsBusy :
    (k now_ms : ℕ) (e : Happening) (es : List (ℕ × Happening)) (held : Frames)
    → IsUnanswered k ((now_ms, e) ∷ es)
    → IsBusy k held
    → IsBusy k (step now_ms e held).1
unfolding keep
step-IsBusy k now_ms (came f) es held u b =
    handle-keeps (IsBusy k)
      (λ j h v free busy. insert-IsBusy k j h v (IsFree-other k j v busy free) busy)
      (λ j v free busy. erase-IsBusy k j v (IsFree-other k j v busy free) busy)
      (λ at v busy. trim-IsBusy k at v busy) now_ms f held b
step-IsBusy k now_ms (replied id reply parted) es held u b =
    let w = is_whole parted reply in
    let row = answered (chunks_of w reply) (length reply) w now_ms in
    trim-IsBusy k now_ms (insert (key_of id) row held) (insert-IsBusy k (key_of id) row held u.0 b)

is_ask-IsNotAsk : (o : Outcome) → IsNotAsk o → is_ask o ≡ false
is_ask-IsNotAsk silent n = refl
is_ask-IsNotAsk (back f) n = refl
is_ask-IsNotAsk (ask message parted) n = absurd n

IsUnanswered-next :
    (k now_ms : ℕ) (e : Happening) (es : List (ℕ × Happening))
    → IsUnanswered k ((now_ms, e) ∷ es)
    → IsUnanswered k es
IsUnanswered-next k now_ms (came f) es u = u
IsUnanswered-next k now_ms (replied id reply parted) es u = u.1

step-asks :
    (k now_ms : ℕ) (e : Happening) (held : Frames)
    → IsBusy k held
    → (is_from k e && is_ask (step now_ms e held).0) ≡ false
step-asks k now_ms (replied id reply parted) held b = refl
step-asks k now_ms (came f) held b = elim (Option-cases (id_of f)) [
  | inl n ↦ rw (is_from, n) refl
  | inr (id, n) ↦ elim (Bool-cases (key_of id == k)) [
    | inr e ↦ rw (is_from, n, e) refl
    | inl e ↦
        let same : k ≡ key_of id = ground arith in
        let taken = handle_taken now_ms f id held n (rw (← same, b.here) tt) in
        rw (is_from, n, e) (is_ask-IsNotAsk (handle now_ms f held).0 taken)
  ]
]

asks-IsBusy :
    (k : ℕ) (es : List (ℕ × Happening)) (held : Frames)
    → IsUnanswered k es
    → IsBusy k held
    → (asks k es held ≡ 0) × IsBusy k (run es held)
asks-IsBusy k [] held u b = (refl, b)
asks-IsBusy k ((now_ms, e) ∷ es) held u b =
    let (rest, busy) =
      asks-IsBusy k es (step now_ms e held).1 (IsUnanswered-next k now_ms e es u)
        (step-IsBusy k now_ms e es held u b) in
    (rw (step-asks k now_ms e held b) (omega (arith, rest)), busy)

-- Where, after any history from an empty map, `handle` hands a question on, no frame with its id is
-- handed on while frames and replies to other ids come in any order and number; and where its reply
-- is then kept, with all that is kept within 256 MiB, the next frame with its id, at any time, is
-- not handed on, and `reply_again` gives the very frame that `keep` sent.
pub asked_once :
    (past later : List (ℕ × Happening)) (now_ms kept_ms again_ms : ℕ) (f g : Bytes) (id : FrameId)
    (message : Bytes) (parted : Bool) (reply : Bytes) (parted' : Bool) (held : Frames)
    → id_of f ≡ some id
    → id_of g ≡ some id
    → handle now_ms f (run past []) ≡ (ask message parted, held)
    → IsUnanswered (key_of id) later
    → total (
        young kept_ms (
          insert
            (key_of id)
            (answered
              (chunks_of (is_whole parted' reply) reply)
              (length reply)
              (is_whole parted' reply)
              kept_ms)
            (run later held)))
      ≤ max_kept
    → (asks (key_of id) later held ≡ 0)
      × IsNotAsk (handle again_ms g (keep kept_ms id reply parted' (run later held)).1).0
      × (reply_again id (keep kept_ms id reply parted' (run later held)).1
          ≡ some (keep kept_ms id reply parted' (run later held)).0)
asked_once past later now_ms kept_ms again_ms f g id message parted reply parted' held n m first
      unanswered fits =
    let k = key_of id in
    let Once : Outcome × Frames → Type 0 = λ x. count k x.1 ≤ 1 in
    let busy : IsBusy k held = record {
      here = subst (Claims k) first (handle-Claims now_ms f id (run past []) n);
      once =
          subst Once first
            (step-count k now_ms (came f) (run past []) (run-count k past [] (omega arith)));
    } in
    let kept = keep-reply_again kept_ms id reply parted' (run later held) fits in
    let (none_asked, still) = asks-IsBusy k later held unanswered busy in
    (
      none_asked,
      handle_taken again_ms g id (keep kept_ms id reply parted' (run later held)).1 m kept.0,
      kept.1,
    )
