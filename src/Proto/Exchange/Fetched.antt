-- ===== src/Proto/Exchange/Fetched.antt =====
-- crates/proto/src/frames.rs: proofs about a reply on its way, from `keep` and `fetch` of the answering
-- side to `accept` of the asking side.
use tokumai.Base.{
  ℕ, zero, suc, ◌^◌, ◌≤◌, ◌<◌, ◌≡◌, refl, ap, ◌∙◌, Bool, true, false, Option, none, some, List, [],
  ◌∷◌, map, get_elem?, drop, length, length-drop, ltb, ◌==◌, ==_refl, max, arith, inl, inr, ◌⊎◌,
  Option-cases, Bool-cases,
}
use mathlib.Core.Path.{subst, sym}
use tokumai.Base.Bytes.{Bytes}
use tokumai.Base.Result.{Result, ok, err}
use tokumai.Base.Dict.{lookup}
use tokumai.Proto.Frames.{
  Frames, answered, key_of, chunk, div_ceil, gather, fill, nones, split_into, chunks_of, is_whole,
  keep, kept_frame, fetch,
}
use tokumai.Proto.Frames.Chunks.{join, join-chunks_of}
use tokumai.Proto.Exchange.{
  Exchange, Step, going, done, ExchangeError, max_reply, accept_kept, accept_chunk, accept,
  no_times,
}
use tokumai.Proto.Exchange.Arrival.{
  Agrees, Filled, IsAsked, nones-Agrees, fill-Agrees, fill-Filled, fill-keeps, gather-Agrees,
  Agrees-gather,
}
use tokumai.Proto.Exchange.Carried.{accept-fetch, accept-kept_frame, accept-whole}

abbrev then_collect :
    Result ExchangeError (Step × Exchange)
    → (Exchange → Result ExchangeError (Option Bytes))
    → Result ExchangeError (Option Bytes)
then_collect (err e) rest = err e
then_collect (ok (done reply, x)) rest = ok (some reply)
then_collect (ok (going, x)) rest = rest x

-- The frames are accepted one after the other, until the reply is there.
abbrev pub collect : List Bytes → Exchange → Result ExchangeError (Option Bytes)
collect [] x = ok none
collect (f ∷ fs) x = then_collect (accept f x) (collect fs)

-- The numbers of the chunks that are asked for, in any order and as often as one likes.
abbrev pub AreBelow : ℕ → List ℕ → Type 0
AreBelow n [] = Unit
AreBelow n (seq ∷ seqs) = (seq < n) × AreBelow n seqs

get_elem?-below :
    (n : ℕ) (cs : List Bytes) → n < length cs → (c : Bytes) × (get_elem? cs n ≡ some c)
get_elem?-below n [] lt = absurd (omega arith)
get_elem?-below zero (c ∷ cs) lt = (c, refl)
get_elem?-below (suc n) (c ∷ cs) lt = get_elem?-below n cs (omega arith)

collect-chunks :
    (held : Frames) (cs : List Bytes) (bytes at : ℕ) (whole : Bool) (parts : List (Option Bytes))
    (seqs : List ℕ) (x : Exchange)
    → length x.id ≡ 16
    → lookup (key_of x.id) held ≡ some (answered cs bytes whole at)
    → length cs ≤ 2 ^ 16
    → x.chunks ≡ some parts
    → x.total ≡ length (join cs)
    → Agrees parts cs
    → gather parts ≡ none
    → AreBelow (length cs) seqs
    → ((i : ℕ) → i < length cs → Filled i parts ⊎ IsAsked i seqs)
    → collect (map (λ (seq : ℕ). fetch x.id seq held) seqs) x ≡ ok (some (join cs))
unfolding accept_chunk
collect-chunks held cs bytes at whole parts [] x e found few here all a gap below asked =
    let filled : (i : ℕ) → i < length cs → Filled i parts =
      λ i lt. elim (asked i lt) [ inl f ↦ f | inr n ↦ absurd n ] in
    let complete = gather-Agrees parts cs a filled in absurd (ground arith)
collect-chunks held cs bytes at whole parts (seq ∷ seqs) x e found few here all a gap (lt, below)
      asked =
    let (c, there) = get_elem?-below seq cs lt in
    let parts' = fill seq c parts in
    let a' = fill-Agrees seq c parts cs there a in
    let step = accept-fetch held cs bytes at seq whole c x e found there (omega arith) in
    let asked' : (i : ℕ) → i < length cs → Filled i parts' ⊎ IsAsked i seqs = λ i lt.
      elim (asked i lt) [
        | inl f ↦ inl (fill-keeps i seq c parts f)
        | inr (inl s) ↦ inl (subst (λ j. Filled j parts') s (fill-Filled seq c parts))
        | inr (inr s) ↦ inr s
      ] in
    elim (Option-cases (gather parts')) [
      | inl n ↦
          rw (step, accept_chunk, here, accept_chunk, n, accept_chunk)
            (collect-chunks held cs bytes at whole parts' seqs (record x { chunks = some parts' }) e
              found few refl all a' n below asked')
      | inr (r, n) ↦
          let same : r ≡ join cs = Agrees-gather parts' cs r a' n in
          let adds_up : (length r == x.total) ≡ true =
            rw (all, same) (==_refl (length (join cs))) in
          rw (step, accept_chunk, here, accept_chunk, n, accept_chunk, adds_up)
            (ap (λ (b : Bytes). ok (some b)) same)
    ]

length-split_into :
    (fuel : ℕ) (bs : Bytes)
    → length bs ≤ fuel
    → length (split_into chunk fuel bs) ≡ div_ceil (length bs) chunk
unfolding split_into div_ceil
length-split_into zero [] le = omega arith
length-split_into zero (b ∷ bs) le = absurd (omega arith)
length-split_into (suc fuel) [] le = omega arith
length-split_into (suc fuel) (b ∷ bs) le =
    let rest = drop chunk (b ∷ bs) in
    let shorter = length-drop chunk (b ∷ bs) in
    omega (arith, shorter, length-split_into fuel rest (omega (arith, shorter)))

length-chunks_of :
    (reply : Bytes) → length (chunks_of false reply) ≡ max (div_ceil (length reply) chunk) 1
unfolding chunks_of div_ceil
length-chunks_of [] = refl
length-chunks_of (b ∷ reply) =
    omega (arith, length-split_into (length (b ∷ reply)) (b ∷ reply) (omega arith))

gather-nones : (n : ℕ) → 1 ≤ n → gather (nones n) ≡ none
unfolding gather nones
gather-nones zero le = absurd (omega arith)
gather-nones (suc n) le = refl

accept_kept-fits :
    (n bytes : ℕ) (x : Exchange)
    → x.chunks ≡ none
    → bytes ≤ max_reply
    → n ≡ max (div_ceil bytes chunk) 1
    → accept_kept n bytes x
      ≡ ok (
        going,
        record x { unacked = []; chunks = some (nones n); asked = no_times n; total = bytes },
      )
unfolding accept_kept
accept_kept-fits n bytes x fresh fits count =
    let some_of_it : (n == 0) ≡ false = ground arith in
    let small : ltb max_reply bytes ≡ false = ground arith in
    let same : (n == max (div_ceil bytes chunk) 1) ≡ true =
      rw count (==_refl (max (div_ceil bytes chunk) 1)) in
    rw (some_of_it, small, same, fresh) refl

collect-parts :
    (at : ℕ) (reply : Bytes) (held : Frames) (x : Exchange) (seqs : List ℕ)
    → length x.id ≡ 16
    → x.chunks ≡ none
    → length reply ≤ max_reply
    → lookup (key_of x.id) held ≡ some (answered (chunks_of false reply) (length reply) false at)
    → AreBelow (length (chunks_of false reply)) seqs
    → ((i : ℕ) → i < length (chunks_of false reply) → IsAsked i seqs)
    → collect
        (kept_frame x.id (length (chunks_of false reply)) (length reply)
          ∷ map (λ (seq : ℕ). fetch x.id seq held) seqs)
        x
      ≡ ok (some reply)
collect-parts at reply held x seqs e fresh fits found below asked =
    let cs = chunks_of false reply in
    let n = length cs in
    let y = record x {
      unacked = [];
      chunks = some (nones n);
      asked = no_times n;
      total = length reply;
    } in
    let count = length-chunks_of reply in
    let few : n ≤ 512 = unfold div_ceil in omega (arith, count) in
    let joined = join-chunks_of false reply in
    rw
      (
        accept-kept_frame n (length reply) x e (omega arith) (omega arith),
        accept_kept-fits n (length reply) x fresh fits count,
      )
      (collect-chunks held cs (length reply) at false (nones n) seqs y e found (omega arith) refl
          (ap length (sym joined)) (nones-Agrees cs) (gather-nones n (omega (arith, count))) below
          (λ i lt. inr (asked i lt))
        ∙ ap (λ (b : Bytes). ok (some b)) joined)

-- For an exchange with an id of 16 bytes that has no chunks yet and a reply of at most 32 MiB that
-- the other side keeps, accepting the frame that `keep` sent and then the frames that `fetch` gives
-- for numbers of its chunks, in any order and as often as one likes, every number among them, ends
-- with exactly the reply.
pub collect-fetch :
    (now_ms at : ℕ) (reply : Bytes) (parted : Bool) (before held : Frames) (x : Exchange)
    (seqs : List ℕ)
    → length x.id ≡ 16
    → x.chunks ≡ none
    → length reply ≤ max_reply
    → lookup (key_of x.id) held
      ≡ some (
          answered
            (chunks_of (is_whole parted reply) reply)
            (length reply)
            (is_whole parted reply)
            at)
    → AreBelow (length (chunks_of (is_whole parted reply) reply)) seqs
    → ((i : ℕ) → i < length (chunks_of (is_whole parted reply) reply) → IsAsked i seqs)
    → collect
        ((keep now_ms x.id reply parted before).0 ∷ map (λ (seq : ℕ). fetch x.id seq held) seqs)
        x
      ≡ ok (some reply)
unfolding keep
collect-fetch now_ms at reply parted before held x seqs e fresh fits found below asked =
    elim (Bool-cases (is_whole parted reply)) [
      | inl w ↦ rw (w, accept-whole reply x e) refl
      | inr w ↦ rw w (
          collect-parts at reply held x seqs e fresh fits (rw w at found) (rw w at below)
            (rw w at asked))
    ]
