-- ===== src/Proto/Frames.antt =====
-- crates/proto/src/frames.rs, the answering side: parts of a question are put together, a question
-- is answered once, and its reply is kept in chunks. An id stands for its 16 bytes as the number
-- that they make; a time is a clock reading in milliseconds. The map is locked for a whole
-- operation; `handle` is the part before the answer is awaited and, with `keep`, the part after.
pub mod Chunks
pub mod Once
pub mod Busy
pub mod Kept
pub mod Claimed
pub mod Asked
use tokumai.Base.{
  ℕ, zero, suc, ◌+◌, ◌-◌, ◌*◌, ◌/◌, ◌%◌, ◌^◌, Bool, true, false, not, ◌||◌, ◌&&◌, Option, none,
  some, List, [], ◌∷◌, ◌++◌, String, get_elem?, take, drop, length, ltb, leb, ◌==◌, if◌then◌else◌,
  min, max, sum_of,
}
use tokumai.Base.Bytes.{Bytes, codes, be_bytes, of_be}
use tokumai.Base.Result.{Result, ok, err}
use tokumai.Base.Dict.{Dict, lookup, insert, erase}
use tokumai.Proto.Kind

abbrev pub chunk : ℕ
chunk = 65_536

abbrev pub max_message : ℕ
max_message = 48 * 1_048_576

abbrev pub keep_ms : ℕ
keep_ms = 1_800_000

abbrev pub max_kept : ℕ
max_kept = 268_435_456

abbrev pub FrameId : Type 0
FrameId = Bytes

unfoldable pub frame : ℕ → FrameId → Bytes → Bytes
frame kind id fields = kind ∷ id ++ fields

-- `b.get(at..at + n)`
unfoldable pub field : ℕ → ℕ → Bytes → Option Bytes
field at n b = if leb (at + n) (length b) then some (take n (drop at b)) else none

unfoldable pub u16_at : Bytes → ℕ → Option ℕ
unfolding field
u16_at b at = elim (field at 2 b) [ none ↦ none | some f ↦ some (of_be 0 f) ]

unfoldable pub id_of : Bytes → Option FrameId
unfolding field
id_of b = field 1 16 b

pub data Held : Type 0 where
  arriving : (parts : List (Option Bytes)) (bytes at : ℕ) → Held
  answering : Held
  answered : (chunks : List Bytes) (bytes : ℕ) (whole : Bool) (at : ℕ) → Held

unfoldable pub bytes_of : Held → ℕ
bytes_of (arriving parts bytes at) = bytes
bytes_of answering = 0
bytes_of (answered chunks bytes whole at) = bytes

unfoldable pub at_of : Held → Option ℕ
at_of (arriving parts bytes at) = some at
at_of answering = none
at_of (answered chunks bytes whole at) = some at

abbrev pub Frames : Type 0
Frames = Dict Held

abbrev pub key_of : FrameId → ℕ
key_of id = of_be 0 id

-- `retain` of what is younger than `KEEP`; a question being answered stays.
unfoldable pub young : ℕ → Frames → Frames
unfolding at_of
young now_ms [] = []
young now_ms ((k, h) ∷ held) =
    let rest = young now_ms held in
    elim (at_of h) [
      | none ↦ (k, h) ∷ rest
      | some at ↦ if ltb (now_ms - at) keep_ms then (k, h) ∷ rest else rest
    ]

-- The key and the time of the oldest that has a time.
oldest : Frames → Option (ℕ × ℕ)
unfolding at_of
oldest [] = none
oldest ((k, h) ∷ held) = elim (at_of h) [
  | none ↦ oldest held
  | some at ↦ elim (oldest held) [
    | none ↦ some (k, at)
    | some (k', at') ↦ if leb at at' then some (k, at) else some (k', at')
  ]
]

unfoldable pub total : Frames → ℕ
unfolding bytes_of
total held = sum_of (λ (row : ℕ × Held). bytes_of row.1) held

-- `while total > MAX_KEPT`: each turn removes one, so as many turns as there are rows are enough.
unfoldable pub trim_to : ℕ → Frames → Frames
unfolding oldest total
trim_to zero held = held
trim_to (suc fuel) held =
    if leb (total held) max_kept
    then held
    else elim (oldest held) [ none ↦ held | some (k, at) ↦ trim_to fuel (erase k held) ]

unfoldable pub trim : ℕ → Frames → Frames
unfolding young trim_to
trim now_ms held = let kept = young now_ms held in trim_to (length kept) kept

pub data Seen : Type 0 where
  seen_arriving seen_busy seen_answered : Seen

unfoldable pub state : FrameId → Frames → Option Seen
state id held = elim (lookup (key_of id) held) [
  | none ↦ none
  | some (arriving parts bytes at) ↦ some seen_arriving
  | some answering ↦ some seen_busy
  | some (answered chunks bytes whole at) ↦ some seen_answered
]

unfoldable pub div_ceil : ℕ → ℕ → ℕ
div_ceil n d = (n + (d - 1)) / d

unfoldable pub nones : ℕ → List (Option Bytes)
nones zero = []
nones (suc n) = none ∷ nones n

-- `if parts[seq].is_none() { parts[seq] = Some(data) }`
unfoldable pub fill : ℕ → Bytes → List (Option Bytes) → List (Option Bytes)
fill seq bs [] = []
fill zero bs (none ∷ parts) = some bs ∷ parts
fill zero bs (some old ∷ parts) = some old ∷ parts
fill (suc seq) bs (p ∷ parts) = p ∷ fill seq bs parts

-- All parts in order, once there is none missing.
unfoldable pub gather : List (Option Bytes) → Option Bytes
gather [] = some []
gather (none ∷ parts) = none
gather (some p ∷ parts) = elim (gather parts) [ none ↦ none | some rest ↦ some (p ++ rest) ]

bytes_in : List (Option Bytes) → ℕ
bytes_in [] = 0
bytes_in (none ∷ parts) = bytes_in parts
bytes_in (some p ∷ parts) = length p + bytes_in parts

pub data PartError : Type 0 where
  malformed does_not_fit not_together : PartError

-- Into the parts that have arrived: the message where it is whole.
pub add_part :
    FrameId → ℕ → ℕ → Bytes → ℕ → List (Option Bytes) → ℕ → Frames → Option Bytes × Frames
unfolding fill gather bytes_in
add_part id now_ms seq bs bytes parts at held =
    let parts' = fill seq bs parts in
    let bytes' = bytes + (bytes_in parts' - bytes_in parts) in
    elim (gather parts') [
      | none ↦ (none, trim now_ms (insert (key_of id) (arriving parts' bytes' at) held))
      | some message ↦ (some message, erase (key_of id) held)
    ]

misfit : ℕ → ℕ → Bytes → Bool
unfolding div_ceil
misfit seq n bs =
    ltb n 2
    || leb n seq
    || ltb (div_ceil max_message chunk) n
    || ltb chunk (length bs)
    || length bs == 0

pub part : ℕ → FrameId → Bytes → Frames → Result PartError (Option Bytes × Frames)
unfolding u16_at misfit add_part nones
part now_ms id f held = elim (u16_at f 17) [
  | none ↦ err malformed
  | some seq ↦ elim (u16_at f 19) [
    | none ↦ err malformed
    | some n ↦
        let bs = drop 21 f in
        if misfit seq n bs then err does_not_fit else elim (lookup (key_of id) held) [
          | none ↦ ok (add_part id now_ms seq bs 0 (nones n) now_ms held)
          | some (arriving parts bytes at) ↦
              if length parts == n
              then ok (add_part id now_ms seq bs bytes parts at held)
              else err not_together
          | some other ↦ ok (none, held)
        ]
  ]
]

unfoldable pub claim : FrameId → Frames → Bool × Frames
claim id held =
    let claimed : Bool × Frames = (true, insert (key_of id) answering held) in
    elim (lookup (key_of id) held) [
      | none ↦ claimed
      | some (arriving parts bytes at) ↦ claimed
      | some other ↦ (false, held)
    ]

unfoldable pub kept_frame : FrameId → ℕ → ℕ → Bytes
kept_frame id n bytes =
    frame Kind.r_kept id (be_bytes 2 (n % 2 ^ 16) ++ be_bytes 4 (bytes % 2 ^ 32))

-- `reply.chunks(CHUNK)`: at most as many as there are bytes.
unfoldable pub split_into : ℕ → ℕ → Bytes → List Bytes
split_into size zero bs = []
split_into size (suc fuel) [] = []
split_into size (suc fuel) (b ∷ bs) = take size (b ∷ bs) ∷ split_into size fuel (drop size (b ∷ bs))

unfoldable pub chunks_of : Bool → Bytes → List Bytes
unfolding split_into
chunks_of true reply = reply ∷ []
chunks_of false [] = [] ∷ []
chunks_of false (b ∷ reply) = split_into chunk (length (b ∷ reply)) (b ∷ reply)

unfoldable pub is_whole : Bool → Bytes → Bool
is_whole parted reply = not parted && leb (length reply) chunk

unfoldable pub keep : ℕ → FrameId → Bytes → Bool → Frames → Bytes × Frames
unfolding is_whole
keep now_ms id reply parted held =
    let whole = is_whole parted reply in
    let chunks = chunks_of whole reply in
    let out =
      if whole then frame Kind.r_whole id reply else kept_frame id (length chunks) (length reply) in
    (out, trim now_ms (insert (key_of id) (answered chunks (length reply) whole now_ms) held))

unfoldable pub reply_of : FrameId → Option Held → Option Bytes
unfolding frame kept_frame
reply_of id (some (answered (c ∷ chunks) bytes true at)) = some (frame Kind.r_whole id c)
reply_of id (some (answered chunks bytes false at)) = some (kept_frame id (length chunks) bytes)
reply_of id other = none

unfoldable pub reply_again : FrameId → Frames → Option Bytes
unfolding reply_of
reply_again id held = reply_of id (lookup (key_of id) held)

abbrev no_longer_kept : Bytes
no_longer_kept = codes "this reply is no longer kept"

unfoldable pub fetch : FrameId → ℕ → Frames → Bytes
fetch id seq held = elim (lookup (key_of id) held) [
  | some (answered chunks bytes whole at) ↦ elim (get_elem? chunks seq) [
    | some c ↦ frame Kind.r_chunk id (be_bytes 2 (seq % 2 ^ 16) ++ c)
    | none ↦ frame Kind.r_fail id no_longer_kept
  ]
  | other ↦ frame Kind.r_fail id no_longer_kept
]

-- What a frame leads to: silence, a frame back at once, or a question to answer.
pub data Outcome : Type 0 where
  silent : Outcome
  back : Bytes → Outcome
  ask : (message : Bytes) (parted : Bool) → Outcome

pub or_silent : Option Bytes → Outcome
or_silent none = silent
or_silent (some f) = back f

abbrev error_text : PartError → Bytes
error_text malformed = codes "malformed part"
error_text does_not_fit = codes "this message is too big, or its parts do not fit together"
error_text not_together = codes "this message's parts do not fit together"

unfoldable pub ask_once : FrameId → Bytes → Bool → Frames → Outcome × Frames
unfolding claim
ask_once id message parted held =
    let claimed = claim id held in
    if claimed.0 then (ask message parted, claimed.1) else (silent, held)

-- Of a part that leaves the message unfinished: the reply, where it is kept, or else an
-- acknowledgement with the two bytes of the part's number.
pub part_back : FrameId → Bytes → Frames → Outcome
unfolding reply_again field
part_back id f held = elim (reply_again id held) [
  | some reply ↦ back reply
  | none ↦ elim (field 17 2 f) [ none ↦ silent | some seq ↦ back (frame Kind.r_ack id seq) ]
]

unfoldable pub handle_whole : FrameId → Bytes → Frames → Outcome × Frames
unfolding state reply_again ask_once
handle_whole id f held = elim (state id held) [
  | some seen_answered ↦ (or_silent (reply_again id held), held)
  | some seen_busy ↦ (back (frame Kind.r_working id []), held)
  | other ↦ ask_once id (drop 17 f) false held
]

after_part : FrameId → Bytes → Frames → Result PartError (Option Bytes × Frames) → Outcome × Frames
unfolding part_back ask_once
after_part id f held (err e) = (back (frame Kind.r_fail id (error_text e)), held)
after_part id f held (ok (none, held')) = (part_back id f held', held')
after_part id f held (ok (some message, held')) = ask_once id message true held'

handle_part : ℕ → FrameId → Bytes → Frames → Outcome × Frames
unfolding part after_part
handle_part now_ms id f held = after_part id f held (part now_ms id f held)

pub handle_fetch : FrameId → Bytes → Frames → Outcome × Frames
unfolding fetch u16_at
handle_fetch id f held = elim (u16_at f 17) [
  | none ↦ (silent, held)
  | some seq ↦ (back (fetch id seq held), held)
]

unfoldable pub kind_of : Bytes → ℕ
kind_of [] = 0
kind_of (b ∷ bs) = b

unfoldable pub handle : ℕ → Bytes → Frames → Outcome × Frames
unfolding id_of kind_of handle_whole handle_part handle_fetch
handle now_ms f held = elim (id_of f) [
  | none ↦ (silent, held)
  | some id ↦
      let kind = kind_of f in
      if kind == Kind.whole
      then handle_whole id f held
      else if kind == Kind.part
      then handle_part now_ms id f held
      else if kind == Kind.fetch
      then handle_fetch id f held
      else (silent, held)
]
