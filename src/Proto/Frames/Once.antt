-- ===== src/Proto/Frames/Once.antt =====
-- crates/proto/src/frames.rs: proofs about handle and about a reply that is kept.
use tokumai.Base.{
  ℕ, ◌≡◌, refl, Bool, true, false, Option, none, some, [], ◌∷◌, drop, length, arith, ◌==◌,
  if◌then◌else◌, if_both, inl, inr, Option-cases,
}
use tokumai.Base.Bytes.{Bytes}
use tokumai.Base.Result.{Result, ok, err}
use tokumai.Base.Dict.{lookup}
use tokumai.Proto.Kind
use tokumai.Proto.Frames.{
  FrameId, Held, arriving, answering, answered, Frames, key_of, state, claim, part, PartError,
  u16_at, Outcome, silent, back, ask, or_silent, ask_once, handle_whole, handle_part, handle_fetch,
  handle, id_of, does_not_fit, misfit, kind_of, part_back, after_part, reply_again, frame,
  chunks_of, split_into, reply_of, kept_frame,
}

abbrev pub IsNotAsk : Outcome → Type 0
IsNotAsk silent = Unit
IsNotAsk (back f) = Unit
IsNotAsk (ask message parted) = ⊥

-- The id is being answered or has been.
abbrev pub IsTaken : Option Held → Type 0
IsTaken none = ⊥
IsTaken (some (arriving parts bytes at)) = ⊥
IsTaken (some answering) = Unit
IsTaken (some (answered chunks bytes whole at)) = Unit

ask_once-IsTaken :
    (id : FrameId) (message : Bytes) (parted : Bool) (held : Frames) (h : Option Held)
    → lookup (key_of id) held ≡ h
    → IsTaken h
    → IsNotAsk (ask_once id message parted held).0
unfolding ask_once claim
ask_once-IsTaken id message parted held none e t = absurd t
ask_once-IsTaken id message parted held (some (arriving parts bytes at)) e t = absurd t
ask_once-IsTaken id message parted held (some answering) e t = rw (e, claim) tt
ask_once-IsTaken id message parted held (some (answered chunks bytes whole at)) e t =
    rw (e, claim) tt

pub or_silent-IsNotAsk : (o : Option Bytes) → IsNotAsk (or_silent o)
unfolding or_silent
or_silent-IsNotAsk none = tt
or_silent-IsNotAsk (some f) = tt

whole-IsTaken :
    (id : FrameId) (f : Bytes) (held : Frames) (h : Option Held)
    → lookup (key_of id) held ≡ h
    → IsTaken h
    → IsNotAsk (handle_whole id f held).0
unfolding handle_whole state
whole-IsTaken id f held none e t = absurd t
whole-IsTaken id f held (some (arriving parts bytes at)) e t = absurd t
whole-IsTaken id f held (some answering) e t = rw (e, state, handle_whole) tt
whole-IsTaken id f held (some (answered chunks bytes whole at)) e t =
    rw (e, state, handle_whole) (or_silent-IsNotAsk (reply_again id held))

-- No message comes of a part, and the map is as it was.
abbrev NoMessage : Result PartError (Option Bytes × Frames) → Type 0
NoMessage (err e) = Unit
NoMessage (ok (none, held)) = Unit
NoMessage (ok (some message, held)) = ⊥

part-IsTaken :
    (now_ms : ℕ) (id : FrameId) (f : Bytes) (held : Frames) (h : Option Held)
    → lookup (key_of id) held ≡ h
    → IsTaken h
    → NoMessage (part now_ms id f held)
unfolding part
part-IsTaken now_ms id f held none e t = absurd t
part-IsTaken now_ms id f held (some (arriving parts bytes at)) e t = absurd t
part-IsTaken now_ms id f held (some answering) e t = elim (Option-cases (u16_at f 17)) [
  | inl a ↦ rw (a, part) tt
  | inr (seq, a) ↦ elim (Option-cases (u16_at f 19)) [
    | inl b ↦ rw (a, part, b) tt
    | inr (n, b) ↦
        rw (a, part, b, part, e)
          (if_both NoMessage (misfit seq n (drop 21 f)) {x = err does_not_fit} {y = ok (none, held)}
            (λ _. tt) (λ _. tt))
  ]
]
part-IsTaken now_ms id f held (some (answered chunks bytes whole at)) e t =
    elim (Option-cases (u16_at f 17)) [
      | inl a ↦ rw (a, part) tt
      | inr (seq, a) ↦ elim (Option-cases (u16_at f 19)) [
        | inl b ↦ rw (a, part, b) tt
        | inr (n, b) ↦
            rw (a, part, b, part, e)
              (if_both NoMessage (misfit seq n (drop 21 f)) {x = err does_not_fit}
                {y = ok (none, held)} (λ _. tt) (λ _. tt))
      ]
    ]

pub part_back-IsNotAsk : (id : FrameId) (f : Bytes) (held : Frames) → IsNotAsk (part_back id f held)
unfolding part_back
part_back-IsNotAsk id f held = ground arith

after_part-NoMessage :
    (id : FrameId) (f : Bytes) (held : Frames) (r : Result PartError (Option Bytes × Frames))
    → NoMessage r
    → IsNotAsk (after_part id f held r).0
unfolding after_part
after_part-NoMessage id f held (err e) n = tt
after_part-NoMessage id f held (ok (none, held')) n = part_back-IsNotAsk id f held'
after_part-NoMessage id f held (ok (some message, held')) n = absurd n

pub fetch-IsNotAsk :
    (id : FrameId) (f : Bytes) (held : Frames) → IsNotAsk (handle_fetch id f held).0
unfolding handle_fetch
fetch-IsNotAsk id f held = elim (Option-cases (u16_at f 17)) [
  | inl a ↦ rw (a, handle_fetch) tt
  | inr (seq, a) ↦ rw (a, handle_fetch) tt
]

-- Whatever frame arrives with the id of a question that is being answered or whose reply is kept,
-- `handle` hands no question on to be answered.
pub handle_taken :
    (now_ms : ℕ) (f : Bytes) (id : FrameId) (held : Frames)
    → id_of f ≡ some id
    → IsTaken (lookup (key_of id) held)
    → IsNotAsk (handle now_ms f held).0
unfolding handle handle_part
handle_taken now_ms f id held e t =
    let h = lookup (key_of id) held in
    let P : Outcome × Frames → Type 0 = λ x. IsNotAsk x.0 in
    let w = whole-IsTaken id f held h refl t in
    let p =
      after_part-NoMessage id f held (part now_ms id f held)
        (part-IsTaken now_ms id f held h refl t) in
    let q = fetch-IsNotAsk id f held in
    rw (e, handle)
      (if_both P (kind_of f == Kind.whole) (λ _. w)
        (λ _.
          if_both P (kind_of f == Kind.part) (λ _. p)
            (λ _.
              if_both P (kind_of f == Kind.fetch) {x = handle_fetch id f held} {y = (silent, held)}
                (λ _. q) (λ _. tt))))

pub reply_of-chunks :
    (id : FrameId) (reply : Bytes) (now_ms : ℕ) (w : Bool)
    → reply_of id (some (answered (chunks_of w reply) (length reply) w now_ms))
      ≡ some (
          if w
          then frame Kind.r_whole id reply
          else kept_frame id (length (chunks_of w reply)) (length reply))
unfolding reply_of chunks_of split_into
reply_of-chunks id reply now_ms true = refl
reply_of-chunks id [] now_ms false = refl
reply_of-chunks id (b ∷ reply) now_ms false = refl
