-- ===== src/Proto/Exchange.antt =====
-- crates/proto/src/frames.rs, the asking side: what of a question is to be sent, and what a frame
-- that comes back leads to. A set of part numbers is a list in order; a time is a clock reading in
-- milliseconds. A frame's error text stays bytes.
pub mod Arrival
pub mod Carried
pub mod Fetched
pub mod Limits
use tokumai.Base.{
  ℕ, zero, suc, ◌+◌, ◌-◌, ◌*◌, ◌^◌, ◌%◌, Bool, true, false, not, ◌||◌, ◌&&◌, Option, none, some,
  List, [], ◌∷◌, ◌++◌, map, get_elem?, take, drop, length, ltb, leb, ◌==◌, if◌then◌else◌, min, max,
}
use tokumai.Base.Bytes.{Bytes, be_bytes, of_be}
use tokumai.Base.Result.{Result, ok, err}
use tokumai.Proto.Kind
use tokumai.Proto.Frames.{
  FrameId, chunk, frame, u16_at, field, id_of, div_ceil, gather, fill, nones, kind_of,
}

abbrev pub retry_ms : ℕ
retry_ms = 25_000

pub record Exchange : Type 0 where
  pub id : FrameId
  pub message : Bytes
  pub unacked : List ℕ
  pub parts : ℕ
  pub chunks : Option (List (Option Bytes))
  pub asked : List (Option ℕ)
  pub total : ℕ

-- `(i..i + n)`
count_from : ℕ → ℕ → List ℕ
count_from i zero = []
count_from i (suc n) = i ∷ count_from (i + 1) n

unfoldable pub no_times : ℕ → List (Option ℕ)
no_times zero = []
no_times (suc n) = none ∷ no_times n

pub parts_of : Bytes → ℕ
parts_of message = if leb (length message) chunk then 1 else div_ceil (length message) chunk

-- `Exchange::new`, with the random id as an argument.
pub new : FrameId → Bytes → Exchange
unfolding count_from no_times parts_of
new id message = record {
  id = id;
  message = message;
  unacked = count_from 0 (parts_of message);
  parts = parts_of message;
  chunks = none;
  asked = no_times (parts_of message);
  total = 0;
}

unfoldable pub largest : List ℕ → ℕ
largest [] = 0
largest (i ∷ is) = max i (largest is)

-- `resize`, to as many as the largest number needs.
unfoldable pub resized : List ℕ → List (Option ℕ) → List (Option ℕ)
unfolding largest no_times
resized [] asked = asked
resized (i ∷ is) asked = asked ++ no_times (largest (i ∷ is) + 1 - length asked)

-- `self.asked[i]`, asked for less than `RETRY` ago.
unfoldable pub is_in_flight : List (Option ℕ) → ℕ → ℕ → Bool
is_in_flight asked now_ms i = elim (get_elem? asked i) [
  | none ↦ false
  | some none ↦ false
  | some (some t) ↦ ltb (now_ms - t) retry_ms
]

unfoldable pub in_flight : List (Option ℕ) → ℕ → List ℕ → ℕ
unfolding is_in_flight
in_flight asked now_ms [] = 0
in_flight asked now_ms (i ∷ missing) =
    let rest = in_flight asked now_ms missing in
    if is_in_flight asked now_ms i then rest + 1 else rest

pub idle : List (Option ℕ) → ℕ → List ℕ → List ℕ
unfolding is_in_flight
idle asked now_ms [] = []
idle asked now_ms (i ∷ missing) =
    let rest = idle asked now_ms missing in if is_in_flight asked now_ms i then rest else i ∷ rest

set_time : ℕ → ℕ → List (Option ℕ) → List (Option ℕ)
set_time now_ms i [] = []
set_time now_ms zero (t ∷ asked) = some now_ms ∷ asked
set_time now_ms (suc i) (t ∷ asked) = t ∷ set_time now_ms i asked

set_times : ℕ → List ℕ → List (Option ℕ) → List (Option ℕ)
unfolding set_time
set_times now_ms [] asked = asked
set_times now_ms (i ∷ is) asked = set_times now_ms is (set_time now_ms i asked)

unfoldable pub to_send : List ℕ → ℕ → ℕ → Exchange → List ℕ × Exchange
unfolding resized idle set_times
to_send missing window now_ms x =
    let asked = resized missing x.asked in
    let room = window - in_flight asked now_ms missing in
    let send = take room (idle asked now_ms missing) in
    (send, record x { asked = set_times now_ms send asked })

-- The numbers of the chunks that have not arrived.
missing_from : ℕ → List (Option Bytes) → List ℕ
missing_from i [] = []
missing_from i (none ∷ chunks) = i ∷ missing_from (i + 1) chunks
missing_from i (some c ∷ chunks) = missing_from (i + 1) chunks

part_frame : Exchange → ℕ → Bytes
part_frame x i = frame Kind.part x.id (
    be_bytes 2 (i % 2 ^ 16)
    ++ (be_bytes 2 (x.parts % 2 ^ 16) ++ take chunk (drop (i * chunk) x.message)))

or_last : ℕ → List ℕ → List ℕ
or_last parts [] = (parts - 1) ∷ []
or_last parts (i ∷ is) = i ∷ is

pub due_at : ℕ → ℕ → Exchange → List Bytes × Exchange
unfolding to_send missing_from part_frame or_last set_time
due_at window now_ms x = elim x.chunks [
  | some chunks ↦
      let sent = to_send (missing_from 0 chunks) window now_ms x in
      (map (λ (i : ℕ). frame Kind.fetch x.id (be_bytes 2 (i % 2 ^ 16))) sent.0, sent.1)
  | none ↦
      let sent = to_send (or_last x.parts x.unacked) window now_ms x in
      if x.parts == 1
      then (frame Kind.whole x.id x.message ∷ [], record x { asked = set_time now_ms 0 x.asked })
      else (map (part_frame x) sent.0, sent.1)
]

pub data Step : Type 0 where
  going : Step
  done : Bytes → Step

pub data ExchangeError : Type 0 where
  malformed_answer did_not_add_up : ExchangeError
  failed : Bytes → ExchangeError

without : ℕ → List ℕ → List ℕ
without seq [] = []
without seq (i ∷ is) = let rest = without seq is in if i == seq then rest else i ∷ rest

same_bytes : Bytes → Bytes → Bool
same_bytes [] [] = true
same_bytes (a ∷ xs) (b ∷ ys) = a == b && same_bytes xs ys
same_bytes xs ys = false

pub owns : Bytes → Exchange → Bool
unfolding same_bytes
owns f x = elim (id_of f) [ none ↦ false | some id ↦ same_bytes id x.id ]

abbrev pub max_reply : ℕ
max_reply = 32 * 1_048_576

-- `R_KEPT`: the size of a reply that is kept, once.
pub accept_kept : ℕ → ℕ → Exchange → Result ExchangeError (Step × Exchange)
unfolding no_times
accept_kept n bytes x =
    let cleared = record x { unacked = [] } in
    if n == 0 || ltb max_reply bytes || not (n == max (div_ceil bytes chunk) 1)
    then err malformed_answer
    else elim x.chunks [
      | some chunks ↦ ok (going, cleared)
      | none ↦
          ok (going, record cleared { chunks = some (nones n); asked = no_times n; total = bytes })
    ]

-- `R_CHUNK`: one chunk, and the reply once none is missing; the chunks are then taken out.
pub accept_chunk : ℕ → Bytes → Exchange → Result ExchangeError (Step × Exchange)
accept_chunk seq bs x = elim x.chunks [
  | none ↦ ok (going, x)
  | some chunks ↦
      let filled = fill seq bs chunks in
      elim (gather filled) [
        | none ↦ ok (going, record x { chunks = some filled })
        | some reply ↦
            if length reply == x.total
            then ok (done reply, record x { chunks = some (nones (length chunks)) })
            else err did_not_add_up
      ]
]

-- The match on the kind of a frame of this exchange.
accept_kind : ℕ → Bytes → Exchange → Result ExchangeError (Step × Exchange)
unfolding without accept_kept accept_chunk
accept_kind kind f x =
    if kind == Kind.r_whole
    then ok (done (drop 17 f), x)
    else if kind == Kind.r_ack
    then elim (u16_at f 17) [
      | none ↦ ok (going, x)
      | some seq ↦ ok (going, record x { unacked = without seq x.unacked })
    ]
    else if kind == Kind.r_kept
    then elim (u16_at f 17) [
      | none ↦ err malformed_answer
      | some n ↦ elim (field 19 4 f) [
        | none ↦ err malformed_answer
        | some bytes ↦ accept_kept n (of_be 0 bytes) x
      ]
    ]
    else if kind == Kind.r_chunk
    then elim (u16_at f 17) [
      | none ↦ err malformed_answer
      | some seq ↦ accept_chunk seq (drop 19 f) x
    ]
    else if kind == Kind.r_fail
    then err (failed (drop 17 f))
    else ok (going, x)

pub accept : Bytes → Exchange → Result ExchangeError (Step × Exchange)
unfolding owns accept_kind
accept f x = if owns f x then accept_kind (kind_of f) f x else ok (going, x)
