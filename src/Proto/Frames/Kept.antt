-- ===== src/Proto/Frames/Kept.antt =====
-- crates/proto/src/frames.rs: what a frame leaves of the map, for anything that insertions for an id
-- that is free, removals of such an id and trimming keep.
use tokumai.Base.{
  ℕ, ◌≡◌, refl, Bool, true, false, Option, none, some, List, drop, length, ◌==◌, if_both, inl, inr,
  Option-cases,
}
use tokumai.Base.Bytes.{Bytes}
use tokumai.Base.Result.{Result, ok, err}
use tokumai.Base.Dict.{lookup, insert, erase}
use tokumai.Proto.Kind
use tokumai.Proto.Frames.{
  FrameId, Held, arriving, answering, answered, Frames, key_of, trim, state, claim, part, add_part,
  misfit, PartError, does_not_fit, u16_at, nones, gather, fill, Outcome, silent, ask_once,
  handle_whole, handle_part, handle_fetch, handle, id_of, kind_of, after_part,
}

-- No question with the id is being answered, and no reply to one is kept.
abbrev pub IsFree : Option Held → Type 0
IsFree none = Unit
IsFree (some (arriving parts bytes at)) = Unit
IsFree (some answering) = ⊥
IsFree (some (answered chunks bytes whole at)) = ⊥

module _ (P : Frames → Type 0)
    (ins : (j : ℕ) (h : Held) (held : Frames)
      → IsFree (lookup j held)
      → P held
      → P (insert j h held))
    (del : (j : ℕ) (held : Frames) → IsFree (lookup j held) → P held → P (erase j held))
    (cut : (now_ms : ℕ) (held : Frames) → P held → P (trim now_ms held)) where
  claim-keeps :
      (id : FrameId) (held : Frames) (o : Option Held)
      → lookup (key_of id) held ≡ o
      → P held
      → P (claim id held).1
  unfolding claim
  claim-keeps id held none e p = rw (e, claim) (ins (key_of id) answering held (rw e tt) p)
  claim-keeps id held (some (arriving parts bytes at)) e p =
      rw (e, claim) (ins (key_of id) answering held (rw e tt) p)
  claim-keeps id held (some answering) e p = rw (e, claim) p
  claim-keeps id held (some (answered chunks bytes whole at)) e p = rw (e, claim) p

  ask_once-keeps :
      (id : FrameId) (message : Bytes) (parted : Bool) (held : Frames)
      → P held
      → P (ask_once id message parted held).1
  unfolding ask_once
  ask_once-keeps id message parted held p =
      if_both (λ (x : Outcome × Frames). P x.1) (claim id held).0
        (λ _. claim-keeps id held (lookup (key_of id) held) refl p) (λ _. p)

  whole-keeps :
      (id : FrameId) (f : Bytes) (held : Frames) (o : Option Held)
      → lookup (key_of id) held ≡ o
      → P held
      → P (handle_whole id f held).1
  unfolding handle_whole state
  whole-keeps id f held none e p =
      rw (e, state, handle_whole) (ask_once-keeps id (drop 17 f) false held p)
  whole-keeps id f held (some (arriving parts bytes at)) e p =
      rw (e, state, handle_whole) (ask_once-keeps id (drop 17 f) false held p)
  whole-keeps id f held (some answering) e p = rw (e, state, handle_whole) p
  whole-keeps id f held (some (answered chunks bytes whole at)) e p = rw (e, state, handle_whole) p

  add_part-keeps :
      (id : FrameId) (now_ms seq : ℕ) (bs : Bytes) (bytes : ℕ) (parts : List (Option Bytes))
      (at : ℕ) (held : Frames)
      → IsFree (lookup (key_of id) held)
      → P held
      → P (add_part id now_ms seq bs bytes parts at held).1
  unfolding add_part
  add_part-keeps id now_ms seq bs bytes parts at held free p =
      elim (Option-cases (gather (fill seq bs parts))) [
        | inl n ↦ rw (n, add_part) (cut now_ms _ (ins (key_of id) _ held free p))
        | inr (m, n) ↦ rw (n, add_part) (del (key_of id) held free p)
      ]

  abbrev Part : Result PartError (Option Bytes × Frames) → Type 0
  Part (err e) = Unit
  Part (ok (m, held)) = P held

  part-found :
      (now_ms : ℕ) (id : FrameId) (f : Bytes) (held : Frames) (seq n : ℕ) (o : Option Held)
      → lookup (key_of id) held ≡ o
      → u16_at f 17 ≡ some seq
      → u16_at f 19 ≡ some n
      → P held
      → Part (part now_ms id f held)
  unfolding part
  part-found now_ms id f held seq n none e a b p =
      rw (a, part, b, part, e)
        (if_both Part (misfit seq n (drop 21 f)) (λ _. tt)
          (λ _. add_part-keeps id now_ms seq (drop 21 f) 0 (nones n) now_ms held (rw e tt) p))
  part-found now_ms id f held seq n (some (arriving parts bytes at)) e a b p =
      rw (a, part, b, part, e)
        (if_both Part (misfit seq n (drop 21 f)) (λ _. tt)
          (λ _.
            if_both Part (length parts == n)
              (λ _. add_part-keeps id now_ms seq (drop 21 f) bytes parts at held (rw e tt) p)
              (λ _. tt)))
  part-found now_ms id f held seq n (some answering) e a b p =
      rw (a, part, b, part, e)
        (if_both Part (misfit seq n (drop 21 f)) {x = err does_not_fit} {y = ok (none, held)}
          (λ _. tt) (λ _. p))
  part-found now_ms id f held seq n (some (answered chunks bytes whole at)) e a b p =
      rw (a, part, b, part, e)
        (if_both Part (misfit seq n (drop 21 f)) {x = err does_not_fit} {y = ok (none, held)}
          (λ _. tt) (λ _. p))

  part-keeps :
      (now_ms : ℕ) (id : FrameId) (f : Bytes) (held : Frames)
      → P held
      → Part (part now_ms id f held)
  unfolding part
  part-keeps now_ms id f held p = elim (Option-cases (u16_at f 17)) [
    | inl a ↦ rw (a, part) tt
    | inr (seq, a) ↦ elim (Option-cases (u16_at f 19)) [
      | inl b ↦ rw (a, part, b) tt
      | inr (n, b) ↦ part-found now_ms id f held seq n (lookup (key_of id) held) refl a b p
    ]
  ]

  after_part-keeps :
      (id : FrameId) (f : Bytes) (held : Frames) (r : Result PartError (Option Bytes × Frames))
      → P held
      → Part r
      → P (after_part id f held r).1
  unfolding after_part
  after_part-keeps id f held (err e) p q = p
  after_part-keeps id f held (ok (none, held')) p q = q
  after_part-keeps id f held (ok (some message, held')) p q = ask_once-keeps id message true held' q

  fetch-keeps : (id : FrameId) (f : Bytes) (held : Frames) → P held → P (handle_fetch id f held).1
  unfolding handle_fetch
  fetch-keeps id f held p = elim (Option-cases (u16_at f 17)) [
    | inl a ↦ rw (a, handle_fetch) p
    | inr (seq, a) ↦ rw (a, handle_fetch) p
  ]

  pub handle-keeps : (now_ms : ℕ) (f : Bytes) (held : Frames) → P held → P (handle now_ms f held).1
  unfolding handle handle_part
  handle-keeps now_ms f held p = elim (Option-cases (id_of f)) [
    | inl n ↦ rw (n, handle) p
    | inr (id, n) ↦
        let Q : Outcome × Frames → Type 0 = λ x. P x.1 in
        rw (n, handle)
          (if_both Q (kind_of f == Kind.whole)
            (λ _. whole-keeps id f held (lookup (key_of id) held) refl p)
            (λ _.
              if_both Q (kind_of f == Kind.part)
                (λ _.
                  after_part-keeps id f held (part now_ms id f held) p
                    (part-keeps now_ms id f held p))
                (λ _.
                  if_both Q (kind_of f == Kind.fetch) {x = handle_fetch id f held}
                    {y = (silent, held)} (λ _. fetch-keeps id f held p) (λ _. p))))
  ]
