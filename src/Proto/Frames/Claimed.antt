-- ===== src/Proto/Frames/Claimed.antt =====
-- crates/proto/src/frames.rs: proofs about the id of a question that is handed on, and of a reply that
-- is kept.
use tokumai.Base.{
  if◌then◌else◌, ap, ◌∙◌, ℕ, zero, suc, ◌-◌, ◌≤◌, ◌≡◌, refl, Bool, true, false, Option, none, some,
  [], ◌∷◌, drop, length, ltb, leb, arith, ◌==◌, ==_refl, if_both, inl, inr, Option-cases,
}
use tokumai.Base.Bytes.{Bytes}
use tokumai.Base.Result.{Result, ok, err}
use tokumai.Base.Dict.{lookup, insert, lookup-insert}
use tokumai.Proto.Kind
use tokumai.Proto.Frames.{
  frame, kept_frame, FrameId, Held, arriving, answering, answered, Frames, key_of, at_of, keep_ms,
  max_kept, young, total, trim_to, trim, state, claim, part, PartError, Outcome, silent, back, ask,
  or_silent, ask_once, handle_whole, handle_part, handle_fetch, handle, id_of, kind_of, part_back,
  after_part, reply_again, chunks_of, is_whole, keep,
}
use tokumai.Proto.Frames.Once.{
  reply_of-chunks, IsNotAsk, IsTaken, part_back-IsNotAsk, fetch-IsNotAsk, or_silent-IsNotAsk,
}

abbrev WhereAsk : Outcome → Type 0 → Type 0
WhereAsk (ask message parted) A = A
WhereAsk other A = Unit

-- Where a question is handed on, its id is claimed.
abbrev pub Claims : ℕ → Outcome × Frames → Type 0
Claims k x = WhereAsk x.0 (lookup k x.1 ≡ some answering)

IsNotAsk-Claims : (k : ℕ) (o : Outcome) (held : Frames) → IsNotAsk o → Claims k (o, held)
IsNotAsk-Claims k silent held n = tt
IsNotAsk-Claims k (back f) held n = tt
IsNotAsk-Claims k (ask message parted) held n = absurd n

claimed : (k : ℕ) (held : Frames) → lookup k (insert k answering held) ≡ some answering
claimed k held = rw (lookup-insert k k answering held, ==_refl k) refl

ask_once-Claims :
    (id : FrameId) (message : Bytes) (parted : Bool) (held : Frames) (o : Option Held)
    → lookup (key_of id) held ≡ o
    → Claims (key_of id) (ask_once id message parted held)
unfolding ask_once claim
ask_once-Claims id message parted held none e = rw (e, claim) (claimed (key_of id) held)
ask_once-Claims id message parted held (some (arriving parts bytes at)) e =
    rw (e, claim) (claimed (key_of id) held)
ask_once-Claims id message parted held (some answering) e = rw (e, claim) tt
ask_once-Claims id message parted held (some (answered chunks bytes whole at)) e = rw (e, claim) tt

whole-Claims :
    (id : FrameId) (f : Bytes) (held : Frames) (o : Option Held)
    → lookup (key_of id) held ≡ o
    → Claims (key_of id) (handle_whole id f held)
unfolding handle_whole state
whole-Claims id f held none e =
    rw (e, state, handle_whole) (ask_once-Claims id (drop 17 f) false held none e)
whole-Claims id f held (some (arriving parts bytes at)) e =
    rw (e, state, handle_whole)
      (ask_once-Claims id (drop 17 f) false held (some (arriving parts bytes at)) e)
whole-Claims id f held (some answering) e = rw (e, state, handle_whole) tt
whole-Claims id f held (some (answered chunks bytes whole at)) e =
    rw (e, state, handle_whole)
      (IsNotAsk-Claims (key_of id) (or_silent (reply_again id held)) held
        (or_silent-IsNotAsk (reply_again id held)))

after_part-Claims :
    (id : FrameId) (f : Bytes) (held : Frames) (r : Result PartError (Option Bytes × Frames))
    → Claims (key_of id) (after_part id f held r)
unfolding after_part
after_part-Claims id f held (err e) = tt
after_part-Claims id f held (ok (none, held')) =
    IsNotAsk-Claims (key_of id) (part_back id f held') held' (part_back-IsNotAsk id f held')
after_part-Claims id f held (ok (some message, held')) =
    ask_once-Claims id message true held' (lookup (key_of id) held') refl

pub handle-Claims :
    (now_ms : ℕ) (f : Bytes) (id : FrameId) (held : Frames)
    → id_of f ≡ some id
    → Claims (key_of id) (handle now_ms f held)
unfolding handle handle_part
handle-Claims now_ms f id held n =
    let Q : Outcome × Frames → Type 0 = Claims (key_of id) in
    rw (n, handle)
      (if_both Q (kind_of f == Kind.whole)
        (λ _. whole-Claims id f held (lookup (key_of id) held) refl)
        (λ _.
          if_both Q (kind_of f == Kind.part)
            (λ _. after_part-Claims id f held (part now_ms id f held))
            (λ _.
              if_both Q (kind_of f == Kind.fetch) {x = handle_fetch id f held} {y = (silent, held)}
                (λ _.
                  IsNotAsk-Claims (key_of id) (handle_fetch id f held).0 (handle_fetch id f held).1
                    (fetch-IsNotAsk id f held))
                (λ _. tt))))

-- A row that is young stays.
lookup-young :
    (k now_ms at : ℕ) (row : Held) (held : Frames)
    → at_of row ≡ some at
    → ltb (now_ms - at) keep_ms ≡ true
    → lookup k held ≡ some row
    → lookup k (young now_ms held) ≡ some row
unfolding young lookup
lookup-young k now_ms at row [] timed fresh e = cc
lookup-young k now_ms at row ((j, h) ∷ held) timed fresh e =
    let rest = lookup-young k now_ms at row held timed fresh in
    elim (Option-cases (at_of h)) [
      | inl n ↦ rw (n, young) (ground (arith, rest))
      | inr (t, n) ↦ rw (n, young) (ground (arith, rest))
    ]

trim_to-within : (fuel : ℕ) (held : Frames) → total held ≤ max_kept → trim_to fuel held ≡ held
unfolding trim_to
trim_to-within zero held le = refl
trim_to-within (suc fuel) held le =
    let within : leb (total held) max_kept ≡ true = ground arith in rw within refl

trim-within :
    (now_ms : ℕ) (held : Frames)
    → total (young now_ms held) ≤ max_kept
    → trim now_ms held ≡ young now_ms held
unfolding trim
trim-within now_ms held le = trim_to-within (length (young now_ms held)) (young now_ms held) le

-- A reply that is within the limits when it is kept is there.
keep-row :
    (now_ms : ℕ) (id : FrameId) (reply : Bytes) (parted : Bool) (held : Frames)
    → total (
        young now_ms (
          insert
            (key_of id)
            (answered
              (chunks_of (is_whole parted reply) reply)
              (length reply)
              (is_whole parted reply)
              now_ms)
            held))
      ≤ max_kept
    → lookup (key_of id) (keep now_ms id reply parted held).1
      ≡ some (
          answered
            (chunks_of (is_whole parted reply) reply)
            (length reply)
            (is_whole parted reply)
            now_ms)
unfolding keep
keep-row now_ms id reply parted held le =
    let w = is_whole parted reply in
    let row = answered (chunks_of w reply) (length reply) w now_ms in
    let there : lookup (key_of id) (insert (key_of id) row held) ≡ some row =
      rw (lookup-insert (key_of id) (key_of id) row held, ==_refl (key_of id)) refl in
    rw (trim-within now_ms (insert (key_of id) row held) le) (
      lookup-young (key_of id) now_ms now_ms row (insert (key_of id) row held)
        (unfold at_of in refl) (ground arith) there)

-- A later frame of the question finds the very frame that `keep` sent.
pub keep-reply_again :
    (now_ms : ℕ) (id : FrameId) (reply : Bytes) (parted : Bool) (held : Frames)
    → total (
        young now_ms (
          insert
            (key_of id)
            (answered
              (chunks_of (is_whole parted reply) reply)
              (length reply)
              (is_whole parted reply)
              now_ms)
            held))
      ≤ max_kept
    → IsTaken (lookup (key_of id) (keep now_ms id reply parted held).1)
      × (reply_again id (keep now_ms id reply parted held).1
          ≡ some (keep now_ms id reply parted held).0)
unfolding reply_again keep
keep-reply_again now_ms id reply parted held le =
    let w = is_whole parted reply in
    let e = keep-row now_ms id reply parted held le in
    let sent : (if w
          then frame Kind.r_whole id reply
          else kept_frame id (length (chunks_of w reply)) (length reply))
        ≡ (keep now_ms id reply parted held).0 =
      unfold keep in refl in
    (rw e tt, rw (reply_again, e) (reply_of-chunks id reply now_ms w ∙ ap some sent))
