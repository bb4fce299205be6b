-- ===== src/Core/Notes/Wire.antt =====
-- crates/core/src/notes.rs: proofs about the bytes of a note.
use tokumai.Base.{◌/◌, ◌%◌, ◌≤◌, ◌≡◌, refl, [], ◌∷◌, length, arith}
use tokumai.Base.Bytes.{be_bytes, of_be, of_be-be_bytes}
use tokumai.Base.Result.{ok}
use tokumai.Core.Notes.{Note, to_bytes, parse, u16_max}

-- A note with an epoch of 16 bits and a nonce of 32 bytes is parsed back from its bytes.
pub parse-to_bytes :
    (n : Note) → n.epoch ≤ u16_max → length n.nonce ≡ 32 → parse (to_bytes n) ≡ ok n
unfolding parse to_bytes be_bytes
parse-to_bytes n small full =
    let r = of_be-be_bytes 2 n.epoch (omega arith) in
    let e : of_be 0 (n.epoch / 256 % 256 ∷ n.epoch % 256 ∷ []) ≡ n.epoch = unfold be_bytes in r in
    rw (full, e) refl
