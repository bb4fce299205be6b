-- ===== src/Proto/Exchange/Arrival.antt =====
-- crates/proto/src/frames.rs: proofs about chunks that arrive in any order.
use tokumai.Base.{
  ℕ, zero, suc, ◌<◌, ◌≡◌, refl, Option, none, some, List, [], ◌∷◌, get_elem?, length, arith, inl,
  inr, ◌⊎◌, Option-cases,
}
use tokumai.Base.Bytes.{Bytes}
use tokumai.Proto.Frames.{gather, fill, nones}
use tokumai.Proto.Frames.Chunks.{join}

-- What has arrived is what was sent.
abbrev pub Agrees : List (Option Bytes) → List Bytes → Type 0
Agrees [] [] = Unit
Agrees [] (c ∷ cs) = ⊥
Agrees (p ∷ parts) [] = ⊥
Agrees (none ∷ parts) (c ∷ cs) = Agrees parts cs
Agrees (some p ∷ parts) (c ∷ cs) = (p ≡ c) × Agrees parts cs

-- The part is there, where the number is one of a part.
abbrev pub Filled : ℕ → List (Option Bytes) → Type 0
Filled i [] = Unit
Filled zero (none ∷ parts) = ⊥
Filled zero (some p ∷ parts) = Unit
Filled (suc i) (p ∷ parts) = Filled i parts

abbrev pub IsAsked : ℕ → List ℕ → Type 0
IsAsked i [] = ⊥
IsAsked i (seq ∷ seqs) = (seq ≡ i) ⊎ IsAsked i seqs

pub nones-Agrees : (cs : List Bytes) → Agrees (nones (length cs)) cs
unfolding nones
nones-Agrees [] = tt
nones-Agrees (c ∷ cs) = nones-Agrees cs

pub fill-Agrees :
    (seq : ℕ) (c : Bytes) (parts : List (Option Bytes)) (cs : List Bytes)
    → get_elem? cs seq ≡ some c
    → Agrees parts cs
    → Agrees (fill seq c parts) cs
unfolding fill
fill-Agrees seq c [] cs e a = a
fill-Agrees seq c (p ∷ parts) [] e a = absurd a
fill-Agrees zero c (none ∷ parts) (d ∷ cs) e a = (ground arith, a)
fill-Agrees zero c (some p ∷ parts) (d ∷ cs) e a = a
fill-Agrees (suc seq) c (none ∷ parts) (d ∷ cs) e a = fill-Agrees seq c parts cs e a
fill-Agrees (suc seq) c (some p ∷ parts) (d ∷ cs) e a = (a.0, fill-Agrees seq c parts cs e a.1)

pub fill-Filled : (i : ℕ) (c : Bytes) (parts : List (Option Bytes)) → Filled i (fill i c parts)
unfolding fill
fill-Filled i c [] = tt
fill-Filled zero c (none ∷ parts) = tt
fill-Filled zero c (some p ∷ parts) = tt
fill-Filled (suc i) c (p ∷ parts) = fill-Filled i c parts

pub fill-keeps :
    (i seq : ℕ) (c : Bytes) (parts : List (Option Bytes))
    → Filled i parts
    → Filled i (fill seq c parts)
unfolding fill
fill-keeps i seq c [] f = f
fill-keeps zero zero c (none ∷ parts) f = absurd f
fill-keeps zero zero c (some p ∷ parts) f = f
fill-keeps zero (suc seq) c (none ∷ parts) f = absurd f
fill-keeps zero (suc seq) c (some p ∷ parts) f = f
fill-keeps (suc i) zero c (none ∷ parts) f = f
fill-keeps (suc i) zero c (some p ∷ parts) f = f
fill-keeps (suc i) (suc seq) c (p ∷ parts) f = fill-keeps i seq c parts f

pub gather-Agrees :
    (parts : List (Option Bytes)) (cs : List Bytes)
    → Agrees parts cs
    → ((i : ℕ) → i < length cs → Filled i parts)
    → gather parts ≡ some (join cs)
unfolding gather
gather-Agrees [] [] a f = refl
gather-Agrees [] (c ∷ cs) a f = absurd a
gather-Agrees (p ∷ parts) [] a f = absurd a
gather-Agrees (none ∷ parts) (c ∷ cs) a f = absurd (f 0 (omega arith))
gather-Agrees (some p ∷ parts) (c ∷ cs) a f =
    rw (gather-Agrees parts cs a.1 (λ i lt. f (suc i) (omega arith)), gather, a.0) refl

-- Chunks that are complete are together what was sent.
pub Agrees-gather :
    (parts : List (Option Bytes)) (cs : List Bytes) (r : Bytes)
    → Agrees parts cs
    → gather parts ≡ some r
    → r ≡ join cs
unfolding gather
Agrees-gather [] [] r a e = ground arith
Agrees-gather [] (c ∷ cs) r a e = absurd a
Agrees-gather (p ∷ parts) [] r a e = absurd a
Agrees-gather (none ∷ parts) (c ∷ cs) r a e = absurd (ground arith)
Agrees-gather (some p ∷ parts) (c ∷ cs) r a e = elim (Option-cases (gather parts)) [
  | inl n ↦ absurd (ground arith)
  | inr (rest, n) ↦ let same = Agrees-gather parts cs rest a.1 n in ground (arith, same, a.0)
]
