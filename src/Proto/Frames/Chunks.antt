-- ===== src/Proto/Frames/Chunks.antt =====
-- crates/proto/src/frames.rs: proofs about the chunks of a reply.
use tokumai.Base.{
  ℕ, zero, suc, ◌≤◌, ◌≡◌, refl, Bool, true, false, List, [], ◌∷◌, ◌++◌, drop, length, length-drop,
  take-append-drop, arith,
}
use mathlib.Core.List.{append-nil}
use tokumai.Base.Bytes.{Bytes}
use tokumai.Proto.Frames.{chunk, chunks_of, split_into}

abbrev pub join : List Bytes → Bytes
join [] = []
join (c ∷ cs) = c ++ join cs

join-split_into :
    (size fuel : ℕ) (bs : Bytes) → 1 ≤ size → length bs ≤ fuel → join (split_into size fuel bs) ≡ bs
unfolding split_into
join-split_into size zero [] pos le = refl
join-split_into size zero (b ∷ bs) pos le = absurd (omega arith)
join-split_into size (suc fuel) [] pos le = refl
join-split_into size (suc fuel) (b ∷ bs) pos le =
    let rest = drop size (b ∷ bs) in
    let shorter : length rest ≤ fuel = omega (arith, length-drop size (b ∷ bs)) in
    rw (join-split_into size fuel rest pos shorter) (take-append-drop size (b ∷ bs))

-- The chunks in which a reply is kept, whole or not, are in order the reply.
pub join-chunks_of : (whole : Bool) (reply : Bytes) → join (chunks_of whole reply) ≡ reply
unfolding chunks_of
join-chunks_of true reply = append-nil reply
join-chunks_of false [] = refl
join-chunks_of false (b ∷ reply) =
    join-split_into chunk (length (b ∷ reply)) (b ∷ reply) (omega arith) (omega arith)
