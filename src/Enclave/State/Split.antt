-- ===== src/Enclave/State/Split.antt =====
-- What `split` and `last_number` read of a journal: the proofs.
use mathlib.Core.List.{append-nil, append_assoc}
use tokumai.Base.{
  ℕ, zero, suc, ◌+◌, ◌%◌, ◌^◌, ◌≤◌, ◌<◌, ◌≡◌, refl, ap, ◌∙◌, false, Option, none, some, List, [],
  ◌∷◌, ◌++◌, arith, length, length-append, take, drop, length-take, ◌==◌, if◌then◌else◌, true,
}
use tokumai.Base.Result.{ok, ◌>>=◌}
use tokumai.Base.Bytes.{
  Bytes, be_bytes, of_be, has_prefix, has_prefix-append, length-be_bytes, of_be-be_bytes, take-take,
  take-append, drop-append,
}
use tokumai.Enclave.State.{
  magic, framed, split_numbered, split_legacy, split, last_loop, last_number,
}

-- A record that the format can carry.
abbrev pub IsRecord : Bytes → Type 0
IsRecord r = (1 ≤ length r) × (length r < 2 ^ 32)

-- `bytes` begin with record `n`, which is `r`, and go on with `rest`.
pub record Reads (bytes : Bytes) (n : ℕ) (r rest : Bytes) : Type 0 where
  pub len : of_be 0 (take 4 bytes) ≡ length r
  pub number : of_be 0 (take 8 (drop 4 bytes)) ≡ n
  pub body : take (length r) (drop 12 bytes) ≡ r
  pub after : drop (12 + length r) bytes ≡ rest
  pub size : length bytes ≡ 12 + length r + length rest

pub length-framed : (n : ℕ) (r : Bytes) → length (framed n r) ≡ 12 + length r
unfolding framed
length-framed n r = simp (length-append, length-be_bytes) (omega arith)

module _ (a b r rest : Bytes) (la : length a ≡ 4) (lb : length b ≡ 8) where
  lab : length (a ++ b) ≡ 12
  lab = omega (arith, length-append a b)

  labr : length ((a ++ b) ++ r) ≡ 12 + length r
  labr = omega (arith, lab, length-append (a ++ b) r)

  parts-Reads :
      (n : ℕ) → of_be 0 a ≡ length r → of_be 0 b ≡ n → Reads (a ++ (b ++ (r ++ rest))) n r rest
  parts-Reads n ea eb =
      let e2 : a ++ (b ++ (r ++ rest)) ≡ (a ++ b) ++ (r ++ rest) = simp append_assoc in
      let e3 : a ++ (b ++ (r ++ rest)) ≡ ((a ++ b) ++ r) ++ rest = simp append_assoc in
      record {
        len = rw (take-append 4 a (b ++ (r ++ rest)) la) ea;
        number = rw (drop-append 4 a (b ++ (r ++ rest)) la, take-append 8 b (r ++ rest) lb) eb;
        body =
            rw (e2, drop-append 12 (a ++ b) (r ++ rest) lab) (take-append (length r) r rest refl);
        after = rw e3 (drop-append (12 + length r) ((a ++ b) ++ r) rest labr);
        size = rw (e3, length-append ((a ++ b) ++ r) rest) (omega (arith, labr));
      }

pub framed-Reads :
    (n : ℕ) (r rest : Bytes) → IsRecord r → n < 2 ^ 64 → Reads (framed n r ++ rest) n r rest
unfolding framed
framed-Reads n r rest h k =
    let a = be_bytes 4 (length r % 2 ^ 32) in
    let b = be_bytes 8 n in
    let fits : length r % 2 ^ 32 ≡ length r = omega arith in
    let e : (a ++ (b ++ r)) ++ rest ≡ a ++ (b ++ (r ++ rest)) = simp append_assoc in
    rw e (
      parts-Reads a b r rest (length-be_bytes 4 _) (length-be_bytes 8 n) n
        (of_be-be_bytes 4 (length r % 2 ^ 32) (omega arith) ∙ fits) (of_be-be_bytes 8 n k))

-- One round of each loop over a whole record.
split_numbered_step :
    (fuel c : ℕ) (bytes r rest : Bytes)
    → IsRecord r
    → Reads bytes (c + 1) r rest
    → split_numbered (suc fuel) c bytes
      ≡ (do records ← split_numbered fuel (c + 1) rest; ok (r ∷ records))
split_numbered_step fuel c bytes r rest h v =
    unfold split_numbered in rw (v.len, v.number, v.body, v.after, v.size) (ground arith)

last_loop_step :
    (fuel n : ℕ) (last : Option ℕ) (bytes r rest : Bytes)
    → IsRecord r
    → Reads bytes n r rest
    → last_loop (suc fuel) last bytes ≡ last_loop fuel (some n) rest
last_loop_step fuel n last bytes r rest h v =
    unfold last_loop in rw (v.len, v.number, v.after, v.size) (ground arith)

-- What a stop in the middle of an append leaves: the first `k` bytes of a record, not all.
module _ (n : ℕ) (r : Bytes) (h : IsRecord r) (k : ℕ) (cut : k < 12 + length r) where
  torn_len : 4 ≤ k → of_be 0 (take 4 (take k (framed n r))) ≡ length r
  torn_len far =
      let a = be_bytes 4 (length r % 2 ^ 32) in
      let fits : length r % 2 ^ 32 ≡ length r = omega arith in
      rw take-take (
        unfold framed in
        rw (take-append 4 a (be_bytes 8 n ++ r) (length-be_bytes 4 _))
          (of_be-be_bytes 4 (length r % 2 ^ 32) (omega arith) ∙ fits))

  length_torn : length (take k (framed n r)) ≡ k
  length_torn = omega (arith, length-take k (framed n r), length-framed n r)

  split_numbered_torn : (fuel c : ℕ) → split_numbered fuel c (take k (framed n r)) ≡ ok []
  unfolding split_numbered
  split_numbered_torn zero c = refl
  split_numbered_torn (suc fuel) c = ground (arith, length_torn, torn_len)

  last_loop_torn : (fuel : ℕ) (last : Option ℕ) → last_loop fuel last (take k (framed n r)) ≡ last
  unfolding last_loop
  last_loop_torn zero last = refl
  last_loop_torn (suc fuel) last = ground (arith, length_torn, torn_len)

-- The records `rs` one after the other, the first with number `n`.
unfoldable pub frames : ℕ → List Bytes → Bytes
frames n [] = []
frames n (r ∷ rs) = framed n r ++ frames (n + 1) rs

abbrev pub AllRecords : List Bytes → Type 0
AllRecords [] = Unit
AllRecords (r ∷ rs) = IsRecord r × AllRecords rs

frames-cons :
    (n : ℕ) (r : Bytes) (rs : List Bytes) (t : Bytes)
    → frames n (r ∷ rs) ++ t ≡ framed n r ++ (frames (n + 1) rs ++ t)
unfolding frames
frames-cons n r rs t = simp append_assoc

-- The number of the last of `c` records, as `last_number` gives it.
unfoldable pub last_of : ℕ → Option ℕ
last_of c = if c == 0 then none else some c

module _ (t : Bytes) where
  split_numbered-frames :
      ((fuel c : ℕ) → split_numbered fuel c t ≡ ok [])
      → (fuel c : ℕ) (rs : List Bytes) → AllRecords rs
      → c + length rs < 2 ^ 64
      → length (frames (c + 1) rs ++ t) ≤ fuel
      → split_numbered fuel c (frames (c + 1) rs ++ t) ≡ ok rs
  split_numbered-frames stops fuel c [] all k enough = unfold frames in stops fuel c
  split_numbered-frames stops zero c (r ∷ rs) all k enough = absurd (
      omega (
        arith,
        ap (length {A = ℕ}) (frames-cons (c + 1) r rs t),
        (framed-Reads (c + 1) r (frames (c + 1 + 1) rs ++ t) all.0 (omega arith)).size,
      ))
  split_numbered-frames stops (suc fuel) c (r ∷ rs) all k enough =
      let rest = frames (c + 1 + 1) rs ++ t in
      let v = framed-Reads (c + 1) r rest all.0 (omega arith) in
      rw
        (
          frames-cons (c + 1) r rs t,
          split_numbered_step fuel c (framed (c + 1) r ++ rest) r rest all.0 v,
        )
        (rw
          (split_numbered-frames stops fuel (c + 1) rs all.1 (omega arith)
            (omega (arith, ap (length {A = ℕ}) (frames-cons (c + 1) r rs t), v.size)))
          refl)

  last_loop-frames :
      ((fuel : ℕ) (last : Option ℕ) → last_loop fuel last t ≡ last)
      → (fuel c : ℕ) (rs : List Bytes) → AllRecords rs
      → c + length rs < 2 ^ 64
      → length (frames (c + 1) rs ++ t) ≤ fuel
      → last_loop fuel (last_of c) (frames (c + 1) rs ++ t) ≡ last_of (c + length rs)
  last_loop-frames stops fuel c [] all k enough =
      unfold frames in let e : c + 0 ≡ c = omega arith in rw (stops fuel (last_of c), e) refl
  last_loop-frames stops zero c (r ∷ rs) all k enough = absurd (
      omega (
        arith,
        ap (length {A = ℕ}) (frames-cons (c + 1) r rs t),
        (framed-Reads (c + 1) r (frames (c + 1 + 1) rs ++ t) all.0 (omega arith)).size,
      ))
  last_loop-frames stops (suc fuel) c (r ∷ rs) all k enough =
      let rest = frames (c + 1 + 1) rs ++ t in
      let v = framed-Reads (c + 1) r rest all.0 (omega arith) in
      let one : some (c + 1) ≡ last_of (c + 1) = unfold last_of in ground arith in
      let e : c + suc (length rs) ≡ c + 1 + length rs = omega arith in
      rw
        (
          frames-cons (c + 1) r rs t,
          last_loop_step fuel (c + 1) (last_of c) (framed (c + 1) r ++ rest) r rest all.0 v,
        )
        (rw
          (
            one,
            last_loop-frames stops fuel (c + 1) rs all.1 (omega arith)
                (omega (arith, ap (length {A = ℕ}) (frames-cons (c + 1) r rs t), v.size)),
            e,
          )
          refl)

-- The journal that holds the records: no file for none.
unfoldable pub journal_of : List Bytes → Bytes
journal_of [] = []
journal_of (r ∷ rs) = magic ++ frames 1 (r ∷ rs)

-- The bytes of one or more records, each of 1 to 2 ^ 32 - 1 bytes and fewer than 2 ^ 64 of them,
-- followed by any proper beginning of the next record's frame, are split into exactly those
-- records.
pub split-journal_of :
    (r : Bytes) (rs : List Bytes) (next : Bytes) (k : ℕ)
    → AllRecords (r ∷ rs)
    → length (r ∷ rs) < 2 ^ 64
    → IsRecord next
    → k < 12 + length next
    → split (journal_of (r ∷ rs) ++ take k (framed (length (r ∷ rs) + 1) next))
      ≡ ok (record { records = r ∷ rs; legacy = false })
split-journal_of r rs next k all few h cut =
    let t = take k (framed (length (r ∷ rs) + 1) next) in
    let e : (magic ++ frames 1 (r ∷ rs)) ++ t ≡ magic ++ (frames 1 (r ∷ rs) ++ t) =
      append_assoc magic (frames 1 (r ∷ rs)) t in
    unfold split journal_of in
    rw (e, has_prefix-append magic, drop-append (length magic) magic (frames 1 (r ∷ rs) ++ t) refl)
      (rw
        (split_numbered-frames t (split_numbered_torn _ next h k cut)
          (length (magic ++ (frames 1 (r ∷ rs) ++ t))) 0 (r ∷ rs) all (omega arith)
          (omega (arith, length-append magic (frames 1 (r ∷ rs) ++ t))))
        refl)

-- No file, or an empty one, counts as a journal in the old form.
pub split_nil : split [] ≡ ok (record { records = []; legacy = true })
unfolding split split_legacy magic has_prefix
split_nil = refl

last_number-magic :
    (x : Bytes) → last_number (magic ++ x) ≡ ok (last_loop (length (magic ++ x)) none x)
unfolding last_number magic has_prefix
last_number-magic x = refl

last_loop_nil : (fuel : ℕ) (last : Option ℕ) → last_loop fuel last [] ≡ last
unfolding last_loop
last_loop_nil zero last = refl
last_loop_nil (suc fuel) last = ground arith

-- On the journal of fewer than 2 ^ 64 records of 1 to 2 ^ 32 - 1 bytes, `last_number` gives how
-- many there are, and none for no file.
pub last_number-journal_of :
    (rs : List Bytes)
    → AllRecords rs
    → length rs < 2 ^ 64
    → last_number (journal_of rs) ≡ ok (last_of (length rs))
last_number-journal_of [] all few = unfold last_number journal_of last_of in refl
last_number-journal_of (r ∷ rs) all few =
    let body = frames 1 (r ∷ rs) in
    let e : body ++ [] ≡ body = append-nil body in
    let zero_last : last_of 0 ≡ none = unfold last_of in refl in
    let l =
      last_loop-frames [] last_loop_nil (length (magic ++ body)) 0 (r ∷ rs) all (omega arith)
        (rw e (omega (arith, length-append magic body))) in
    let all_of : 0 + length (r ∷ rs) ≡ length (r ∷ rs) = omega arith in
    unfold journal_of in rw last_number-magic (ap ok (rw (e, zero_last, all_of) at l))
