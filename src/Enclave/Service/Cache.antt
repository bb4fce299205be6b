-- ===== src/Enclave/Service/Cache.antt =====
-- crates/enclave/src/service.rs: proofs about the answers that are kept for a resend.
use tokumai.Base.{
  ℕ, zero, suc, ◌+◌, ◌-◌, ◌/◌, ◌≤◌, ◌<◌, ◌≡◌, refl, ◌||◌, List, [], ◌∷◌, length, arith, ltb, leb,
  if_both, sum_of,
}
use tokumai.Base.Bytes.{Bytes}
use tokumai.Base.Text.{equal_bytes}
use tokumai.Enclave.Service.{
  KeptReply, out_bytes, take_oldest, make_room, without_seen, young_replies, remember,
  reply_keep_max, reply_keep_bytes,
}

-- No more answers, and no more bytes of them, than the limits allow.
pub record WithinLimits (replies : List KeptReply) : Type 0 where
  pub count : length replies ≤ reply_keep_max
  pub bytes : sum_of out_bytes replies ≤ reply_keep_bytes

take_oldest-sum_of :
    (r : KeptReply) (rs : List KeptReply)
    → (length (take_oldest r rs).1 ≡ length rs)
      × (length (take_oldest r rs).0.out + sum_of out_bytes (take_oldest r rs).1
          ≡ length r.out + sum_of out_bytes rs)
unfolding take_oldest
take_oldest-sum_of r [] = (refl, refl)
take_oldest-sum_of r (x ∷ xs) =
    let (n, b) = take_oldest-sum_of x xs in
    if_both
      (λ (p : KeptReply × List KeptReply).
        (length p.1 ≡ suc (length xs))
        × (length p.0.out + sum_of out_bytes p.1
            ≡ length r.out + (length x.out + sum_of out_bytes xs)))
      (leb r.at (take_oldest x xs).0.at) (λ _. (refl, refl)) (λ _. (omega arith, omega arith))

-- With the bytes of one more answer counted in, there is room for it.
record HasRoom (out : ℕ) (rs : List KeptReply) : Type 0 where
  count : length rs < reply_keep_max
  bytes : sum_of out_bytes rs + out ≤ reply_keep_bytes

make_room-HasRoom :
    (fuel out : ℕ) (rs : List KeptReply)
    → length rs ≤ fuel
    → out ≤ reply_keep_bytes
    → HasRoom out (make_room fuel (sum_of out_bytes rs + out) rs)
unfolding make_room
make_room-HasRoom fuel out [] enough fits = record { count = omega arith; bytes = omega arith }
make_room-HasRoom zero out (r ∷ rs) enough fits = absurd (omega arith)
make_room-HasRoom (suc fuel) out (r ∷ rs) enough fits =
    let (n, b) = take_oldest-sum_of r rs in
    let gone = take_oldest r rs in
    let e : sum_of out_bytes (r ∷ rs) + out - length gone.0.out ≡ sum_of out_bytes gone.1 + out =
      omega arith in
    let more = make_room-HasRoom fuel out gone.1 (omega arith) fits in
    if_both (HasRoom out)
      (leb reply_keep_max (suc (length rs))
        || ltb reply_keep_bytes (sum_of out_bytes (r ∷ rs) + out))
      (λ _. rw e more) (λ enough_room. record { count = ground arith; bytes = ground arith })

without_seen-le :
    (seen : Bytes) (rs : List KeptReply)
    → (length (without_seen seen rs) ≤ length rs)
      × (sum_of out_bytes (without_seen seen rs) ≤ sum_of out_bytes rs)
unfolding without_seen
without_seen-le seen [] = (omega arith, omega arith)
without_seen-le seen (r ∷ rs) =
    let (n, b) = without_seen-le seen rs in
    if_both
      (λ (l : List KeptReply).
        (length l ≤ suc (length rs)) × (sum_of out_bytes l ≤ length r.out + sum_of out_bytes rs))
      (equal_bytes r.seen seen) (λ _. (omega arith, omega arith)) (λ _. (omega arith, omega arith))

-- Where the kept answers are no more than 20,000 and no more than 64 MiB, they still are after
-- `remember`, whatever it is given.
pub remember-WithinLimits :
    (seen out : Bytes) (instant : ℕ) (replies : List KeptReply)
    → WithinLimits replies
    → WithinLimits (remember seen out instant replies)
unfolding remember
remember-WithinLimits seen out instant replies v =
    let young = young_replies instant replies in
    let room = make_room (length young) (sum_of out_bytes young + length out) young in
    let (n, b) = without_seen-le seen room in
    if_both WithinLimits (ltb (reply_keep_bytes / 4) (length out)) (λ _. v)
      (λ small.
        let fits : length out ≤ reply_keep_bytes = ground arith in
        let h = make_room-HasRoom (length young) (length out) young (omega arith) fits in
        record { count = omega (arith, h.count); bytes = omega (arith, h.bytes) })
