-- ===== src/Egress/Host/Twice.antt =====
-- crates/egress/src/lib.rs: a proof about a journal that a stop has left with its mark only.
use tokumai.Base.{
  ℕ, ◌%◌, ◌^◌, ◌≤◌, ◌<◌, ◌≡◌, refl, false, none, [], ◌++◌, length, length-append, arith, ltb,
}
use tokumai.Base.Result.{ok}
use tokumai.Base.Bytes.{Bytes, be_bytes, of_be, has_prefix, length-be_bytes}
use tokumai.Enclave.State.{split, split_numbered, magic}
use tokumai.Egress.Host.{
  Host, add_record, add_behind, add_placed, known_last, is_there, fresh_mark, journal_magic,
  journal_last, journal_loop,
}
use tokumai.Egress.Host.Same.{offered, number_of-offered, record_of-offered, length-offered}

split_twice :
    (x : Bytes)
    → length x < 2 ^ 30
    → split (magic ++ (magic ++ x)) ≡ ok (record { records = []; legacy = false })
unfolding split split_numbered magic has_prefix of_be
split_twice x small = ground arith

after_mark :
    (h : Host) → h.last ≡ none → h.journal ≡ journal_magic → known_last h.last h.journal ≡ ok none
unfolding known_last journal_last journal_loop journal_magic has_prefix
after_mark h unknown mark = rw (unknown, mark) refl

-- Where the journal is the mark alone and the last number is not known, the host answers record 1,
-- of 1 to 2 ^ 29 - 1 bytes, as written, and `split` finds no record in the journal that it leaves.
pub add_record-twice :
    (generation : ℕ) (sealed : Bytes) (h : Host)
    → h.last ≡ none
    → h.journal ≡ journal_magic
    → 1 ≤ length sealed
    → length sealed < 2 ^ 29
    → ((add_record (offered generation 1 sealed) h).1 ≡ ok false)
      × (split (add_record (offered generation 1 sealed) h).0.journal
          ≡ ok (record { records = []; legacy = false }))
unfolding add_record add_behind add_placed is_there fresh_mark
add_record-twice generation sealed h unknown mark size small =
    let long : ltb (length (offered generation 1 sealed)) 17 ≡ false =
      ground (arith, length-offered generation 1 sealed) in
    let frame = be_bytes 4 (length sealed % 2 ^ 32) ++ (be_bytes 8 1 ++ sealed) in
    let fits : length frame < 2 ^ 30 = omega (
      arith,
      length-append (be_bytes 4 (length sealed % 2 ^ 32)) (be_bytes 8 1 ++ sealed),
      length-append (be_bytes 8 1) sealed,
      length-be_bytes 4 (length sealed % 2 ^ 32),
      length-be_bytes 8 1,
    ) in
    let n = number_of-offered generation 1 sealed (omega arith) in
    let same : journal_magic ≡ magic = unfold journal_magic magic in refl in
    rw (long, n, record_of-offered generation 1 sealed, after_mark h unknown mark)
      ((refl, rw (mark, same) (split_twice frame fits)))
