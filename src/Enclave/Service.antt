-- ===== src/Enclave/Service.antt =====
-- crates/enclave/src/service.rs: one sealed request, opened, checked, answered, and its answer kept for
-- a resend. Opening and sealing (HPKE), the hash of a ciphertext, the JSON of a request and the
-- account's signature are parameters, and so is `dispatch`, what the operations do with the book and the
-- rest of the enclave's state. A lock is always had.
pub mod Once
pub mod Cache
pub mod Request
pub mod Chat
use tokumai.Base.{
  ℕ, zero, suc, ◌+◌, ◌-◌, ◌*◌, ◌/◌, Bool, true, false, ◌||◌, Option, none, some, List, [], ◌∷◌,
  length, String, ltb, leb, if◌then◌else◌, sum_of, ◌⊎◌, inl, inr,
}
use tokumai.Base.Bytes.{Bytes}
use tokumai.Base.Text.{equal_bytes}
use tokumai.Enclave.Ledger.Money.{Book, first_sight}

abbrev pub clock_skew_ms : ℕ
clock_skew_ms = 300_000

abbrev pub reply_keep_ms : ℕ
reply_keep_ms = 1_800_000

abbrev pub reply_keep_max : ℕ
reply_keep_max = 20_000

abbrev pub reply_keep_bytes : ℕ
reply_keep_bytes = 67_108_864

-- The message around a request, once its two fields are decoded.
pub record Envelope : Type 0 where
  pub epk : Bytes
  pub ct : Bytes
  pub version : ℕ

pub record Inner : Type 0 where
  pub account : String
  pub op : String
  pub nonce : String
  pub ts : ℕ
  pub sig : String
  pub body : String

pub data Refused : Type 0 where
  malformed does_not_open malformed_request clock_too_far bad_signature already_made : Refused

pub data Said {ℓ} (A : Type ℓ) : Type ℓ where
  refused : Refused → Said A
  answered : A → Said A

-- An answer kept under the hash of the request's ciphertext.
pub record KeptReply : Type 0 where
  pub seen : Bytes
  pub at : ℕ
  pub out : Bytes

-- The wall clock, and the one that only runs forward.
pub record Clock : Type 0 where
  pub now_ms : ℕ
  pub instant : ℕ

pub record Desk (W : Type 0) : Type 0 where
  pub book : Book
  pub replies : List KeptReply
  pub rest : W

unfoldable pub abs_diff : ℕ → ℕ → ℕ
abs_diff a b = (a - b) + (b - a)

unfoldable pub cached : Bytes → List KeptReply → Option Bytes
cached seen [] = none
cached seen (r ∷ rs) = if equal_bytes r.seen seen then some r.out else cached seen rs

unfoldable pub young_replies : ℕ → List KeptReply → List KeptReply
young_replies instant [] = []
young_replies instant (r ∷ rs) =
    let more = young_replies instant rs in
    if ltb (instant - r.at) reply_keep_ms then r ∷ more else more

abbrev pub out_bytes : KeptReply → ℕ
out_bytes r = length r.out

-- The oldest of one reply and others, and what stays.
unfoldable pub take_oldest : KeptReply → List KeptReply → KeptReply × List KeptReply
take_oldest r [] = (r, [])
take_oldest r (x ∷ xs) =
    let later = take_oldest x xs in
    if leb r.at later.0.at then (r, x ∷ xs) else (later.0, r ∷ later.1)

-- The loop that makes room; a round takes one reply away, so their number is fuel enough.
unfoldable pub make_room : ℕ → ℕ → List KeptReply → List KeptReply
unfolding take_oldest
make_room fuel bytes [] = []
make_room zero bytes (r ∷ rs) = r ∷ rs
make_room (suc fuel) bytes (r ∷ rs) =
    let gone = take_oldest r rs in
    let room = make_room fuel (bytes - length gone.0.out) gone.1 in
    if leb reply_keep_max (suc (length rs)) || ltb reply_keep_bytes bytes then room else r ∷ rs

unfoldable pub without_seen : Bytes → List KeptReply → List KeptReply
without_seen seen [] = []
without_seen seen (r ∷ rs) =
    let more = without_seen seen rs in if equal_bytes r.seen seen then more else r ∷ more

unfoldable pub remember : Bytes → Bytes → ℕ → List KeptReply → List KeptReply
unfolding young_replies make_room without_seen
remember seen out instant replies =
    let young = young_replies instant replies in
    let room = make_room (length young) (sum_of out_bytes young + length out) young in
    if ltb (reply_keep_bytes / 4) (length out)
    then replies
    else record { seen = seen; at = instant; out = out } ∷ without_seen seen room

module _ {A W : Type 0} (hash : Bytes → Bytes) (opens : Envelope → Option (Option Inner))
    (seal : Envelope → Said A → Bytes) (plain_err : Refused → Bytes) (owner : Inner → Option String)
    (dispatch : String → Inner → ℕ → Book → W → A × (Book × W)) where
  -- From the nonce on.
  unfoldable pub carry_out : Envelope → Inner → String → Clock → Desk W → Bytes × Desk W
  unfolding remember
  carry_out e req account clock d =
      let sight = first_sight req.nonce clock.now_ms d.book in
      let done = dispatch account req clock.now_ms sight.1 d.rest in
      let out = seal e (answered done.0) in
      if sight.0
      then (
        out,
        record {
          book = done.1.0;
          replies = remember (hash e.ct) out clock.instant d.replies;
          rest = done.1.1;
        },
      )
      else (plain_err already_made, record d { book = sight.1 })

  -- With the account that the signature proves, if it proves one.
  unfoldable pub signed : Envelope → Inner → Option String → Clock → Desk W → Bytes × Desk W
  unfolding carry_out
  signed e req none clock d = (seal e (refused bad_signature), d)
  signed e req (some account) clock d = carry_out e req account clock d

  -- From the clock on.
  unfoldable pub check_request : Envelope → Inner → Clock → Desk W → Bytes × Desk W
  unfolding signed abs_diff
  check_request e req clock d =
      if ltb clock_skew_ms (abs_diff req.ts clock.now_ms)
      then (seal e (refused clock_too_far), d)
      else signed e req (owner req) clock d

  -- What was inside: nothing that opens, nothing that is a request, or a request.
  unfoldable pub opened : Envelope → Option (Option Inner) → Clock → Desk W → Bytes × Desk W
  unfolding check_request
  opened e none clock d = (plain_err does_not_open, d)
  opened e (some none) clock d = (seal e (refused malformed_request), d)
  opened e (some (some req)) clock d = check_request e req clock d

  -- With the answer that is kept for these bytes, if there is one.
  unfoldable pub sealed_again : Envelope → Option Bytes → Clock → Desk W → Bytes × Desk W
  unfolding opened
  sealed_again e (some out) clock d = (out, d)
  sealed_again e none clock d = opened e (opens e) clock d

  unfoldable pub sealed : Option Envelope → Clock → Desk W → Bytes × Desk W
  unfolding sealed_again cached
  sealed none clock d = (plain_err malformed, d)
  sealed (some e) clock d = sealed_again e (cached (hash e.ct) d.replies) clock d
