-- ===== src/Proto/Exchange/Carried.antt =====
-- crates/proto/src/frames.rs: proofs about what a frame of the answering side does when it arrives.
use tokumai.Base.{
  ℕ, zero, suc, ◌+◌, ◌%◌, ◌^◌, ◌<◌, ◌≡◌, refl, ap, ◌∙◌, Bool, true, some, List, [], ◌∷◌, ◌++◌,
  get_elem?, drop, length, length-append, leb, ==_refl, arith,
}
use mathlib.Core.Path.{sym}
use mathlib.Core.List.{append-nil, append_assoc}
use tokumai.Base.Bytes.{Bytes, be_bytes, length-be_bytes, of_be-be_bytes, take-append, drop-append}
use tokumai.Base.Result.{ok}
use tokumai.Base.Dict.{lookup}
use tokumai.Proto.Kind
use tokumai.Proto.Frames.{
  Frames, answered, key_of, frame, field, u16_at, id_of, kind_of, kept_frame, fetch,
}
use tokumai.Proto.Exchange.{
  Exchange, done, same_bytes, owns, accept_kept, accept_chunk, accept_kind, accept,
}

-- A field of a frame, and what is behind a part of known length.
field-frame :
    (k n w : ℕ) (pre mid post : Bytes)
    → length pre ≡ n
    → length mid ≡ w
    → field (suc n) w (k ∷ pre ++ (mid ++ post)) ≡ some mid
unfolding field
field-frame k n w pre mid post p q =
    let fits : leb (suc n + w) (length (k ∷ pre ++ (mid ++ post))) ≡ true =
      ground (arith, length-append pre (mid ++ post), length-append mid post) in
    rw (fits, drop-append n pre (mid ++ post) p, take-append w mid post q) refl

id_of-frame : (k : ℕ) (id fields : Bytes) → length id ≡ 16 → id_of (frame k id fields) ≡ some id
unfolding id_of frame
id_of-frame k id fields e = field-frame k 0 16 [] id fields refl e

u16_at-frame :
    (k n : ℕ) (id rest : Bytes)
    → length id ≡ 16
    → n < 2 ^ 16
    → u16_at (frame k id (be_bytes 2 (n % 2 ^ 16) ++ rest)) 17 ≡ some n
unfolding u16_at frame
u16_at-frame k n id rest e lt =
    let same : n % 2 ^ 16 ≡ n = omega arith in
    let b = be_bytes 2 n in
    rw
      (
        same,
        u16_at,
        field-frame k 16 2 id b rest e (length-be_bytes 2 n),
        of_be-be_bytes 2 n (omega arith),
      )
      refl

same_bytes_refl : (bs : Bytes) → same_bytes bs bs ≡ true
unfolding same_bytes
same_bytes_refl [] = refl
same_bytes_refl (b ∷ bs) = rw (==_refl b) (same_bytes_refl bs)

accept-frame :
    (k : ℕ) (fields : Bytes) (x : Exchange)
    → length x.id ≡ 16
    → accept (frame k x.id fields) x ≡ accept_kind k (frame k x.id fields) x
unfolding accept owns kind_of
accept-frame k fields x e =
    rw (accept, owns, id_of-frame k x.id fields e, owns, same_bytes_refl x.id)
      (unfold frame in refl)

drop-past : (n m : ℕ) (pre rest : Bytes) → length pre ≡ n → drop (n + m) (pre ++ rest) ≡ drop m rest
drop-past zero m [] rest e = ap (λ (k : ℕ). drop k rest) (omega arith)
drop-past zero m (b ∷ pre) rest e = absurd (omega arith)
drop-past (suc n) m [] rest e = absurd (omega arith)
drop-past (suc n) m (b ∷ pre) rest e =
    let next : suc n + m ≡ suc (n + m) = omega arith in
    ap (λ (k : ℕ). drop k (b ∷ pre ++ rest)) next ∙ drop-past n m pre rest (omega arith)

-- What a chunk that is kept does when its frame arrives.
pub accept-fetch :
    (held : Frames) (cs : List Bytes) (bytes at seq : ℕ) (whole : Bool) (c : Bytes) (x : Exchange)
    → length x.id ≡ 16
    → lookup (key_of x.id) held ≡ some (answered cs bytes whole at)
    → get_elem? cs seq ≡ some c
    → seq < 2 ^ 16
    → accept (fetch x.id seq held) x ≡ accept_chunk seq c x
unfolding fetch accept_kind accept_chunk
accept-fetch held cs bytes at seq whole c x e found there lt =
    let number = be_bytes 2 (seq % 2 ^ 16) in
    let read = u16_at-frame Kind.r_chunk seq x.id c e lt in
    let rest : drop 19 (frame Kind.r_chunk x.id (number ++ c)) ≡ c =
      unfold frame in
      (drop-past 16 2 x.id (number ++ c) e
        ∙ drop-append 2 number c (length-be_bytes 2 (seq % 2 ^ 16))) in
    rw (found, fetch, there, accept-frame Kind.r_chunk (number ++ c) x e, accept_kind, read, rest)
      refl

-- What the frame of a reply that is kept in chunks does when it arrives.
pub accept-kept_frame :
    (n bytes : ℕ) (x : Exchange)
    → length x.id ≡ 16
    → n < 2 ^ 16
    → bytes < 2 ^ 32
    → accept (kept_frame x.id n bytes) x ≡ accept_kept n bytes x
unfolding kept_frame accept_kind
accept-kept_frame n bytes x e few small =
    let number = be_bytes 2 (n % 2 ^ 16) in
    let size = be_bytes 4 bytes in
    let same : bytes % 2 ^ 32 ≡ bytes = omega arith in
    let read = u16_at-frame Kind.r_kept n x.id size e few in
    let ahead : length (x.id ++ number) ≡ 18 =
      omega (arith, length-append x.id number, length-be_bytes 2 (n % 2 ^ 16)) in
    let behind : field 19 4 (frame Kind.r_kept x.id (number ++ size)) ≡ some size =
      unfold frame in
      (ap (λ (fs : Bytes). field 19 4 (Kind.r_kept ∷ fs))
          (sym (append_assoc x.id number size)
            ∙ ap (λ (b : Bytes). (x.id ++ number) ++ b) (sym (append-nil size)))
        ∙ field-frame Kind.r_kept 18 4 (x.id ++ number) size [] ahead (length-be_bytes 4 bytes)) in
    rw (kept_frame, same, accept-frame Kind.r_kept (number ++ size) x e, accept_kind, read, behind)
      (ap (λ (b : ℕ). accept_kept n b x) (of_be-be_bytes 4 bytes (omega arith)))

pub accept-whole :
    (reply : Bytes) (x : Exchange)
    → length x.id ≡ 16
    → accept (frame Kind.r_whole x.id reply) x ≡ ok (done reply, x)
unfolding accept_kind
accept-whole reply x e =
    let rest : drop 17 (frame Kind.r_whole x.id reply) ≡ reply =
      unfold frame in drop-append 16 x.id reply e in
    rw (accept-frame Kind.r_whole reply x e, accept_kind, rest) refl
