-- ===== src/Proto/Kind.antt =====
-- crates/proto/src/frames.rs: the first byte of a frame, WHOLE, PART and FETCH of a question, R_WHOLE to
-- R_WORKING of a reply.
use tokumai.Base.{ℕ}

abbrev pub whole : ℕ
whole = 1

abbrev pub part : ℕ
part = 2

abbrev pub fetch : ℕ
fetch = 3

abbrev pub r_whole : ℕ
r_whole = 11

abbrev pub r_ack : ℕ
r_ack = 12

abbrev pub r_kept : ℕ
r_kept = 13

abbrev pub r_chunk : ℕ
r_chunk = 14

abbrev pub r_fail : ℕ
r_fail = 15

abbrev pub r_working : ℕ
r_working = 16
