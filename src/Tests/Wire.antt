-- ===== src/Tests/Wire.antt =====
-- crates/proto/src/frames.rs on one short question.
use tokumai.Base.{
  map, zero, suc, length, ◌<◌, ◌≤◌, none, inl, arith, true, ℕ, ◌≡◌, refl, false, some, List, [],
  ◌∷◌, ◌++◌, ==_refl,
}
use tokumai.Base.Bytes.{Bytes, of_be}
use tokumai.Base.Dict.{lookup, insert}
use tokumai.Proto.Frames.{
  reply_again, split_into, answered, is_whole, keep, fetch, FrameId, Frames, ask, handle_whole,
  ask_once, at_of, bytes_of, trim, trim_to, young, total, max_kept, kind_of, claim, state, handle,
  id_of, field, key_of, chunks_of,
}
use tokumai.Proto.Exchange.{Exchange, in_flight, resized, is_in_flight, largest, no_times}
use tokumai.Proto.Exchange.Arrival.{IsAsked}
use tokumai.Proto.Exchange.Fetched.{collect, collect-fetch}
use tokumai.Base.Result.{ok}
use tokumai.Proto.Frames.Asked.{Happening, came, replied, run, asks, IsUnanswered, asked_once}
use tokumai.Proto.Frames.Once.{IsNotAsk}

abbrev four : List ℕ
four = 0 ∷ 0 ∷ 0 ∷ 1 ∷ []

abbrev id : FrameId
id = four ++ four ++ four ++ four

abbrev question : Bytes
question = 1 ∷ id ++ 7 ∷ []

question_id : id_of question ≡ some id
unfolding id_of field
question_id = refl

abbrev reply : Bytes
reply = 5 ∷ 6 ∷ []

-- While the question is answered it comes again, and so does the answer to another one.
abbrev later : List (ℕ × Happening)
later = (2_000, came question) ∷ (3_000, replied [] reply false) ∷ []

first_asked : handle 1_000 question [] ≡ (ask (7 ∷ []) false, (handle 1_000 question []).1)
unfolding handle handle_whole id_of kind_of field ask_once claim state lookup
first_asked = refl

others : IsUnanswered (key_of id) later
unfolding of_be
others = (refl, tt)

fits :
    total (
      young 4_000 (
        insert
          (key_of id)
          (answered (chunks_of (is_whole false reply) reply) 2 (is_whole false reply) 4_000)
          (run later (handle 1_000 question []).1)))
    ≤ max_kept
unfolding total young at_of bytes_of insert is_whole chunks_of split_into handle handle_whole id_of
    kind_of field ask_once claim state lookup keep trim trim_to of_be
fits = omega arith

asked_once_example :
    (asks (key_of id) later (handle 1_000 question []).1 ≡ 0)
    × IsNotAsk
        (handle 5_000 question
          (keep 4_000 id reply false (run later (handle 1_000 question []).1)).1).0
    × (reply_again id (keep 4_000 id reply false (run later (handle 1_000 question []).1)).1
        ≡ some (keep 4_000 id reply false (run later (handle 1_000 question []).1)).0)
asked_once_example =
    asked_once [] later 1_000 4_000 5_000 question question id (7 ∷ []) false reply false
      (handle 1_000 question []).1 question_id question_id first_asked others fits

abbrev exchange : Exchange
exchange = record {
  id = id;
  message = [];
  unacked = 0 ∷ 1 ∷ 2 ∷ [];
  parts = 3;
  chunks = none;
  asked = some 9_000 ∷ none ∷ none ∷ [];
  total = 0;
}

-- The same question, of which nothing has come back.
abbrev asking : Exchange
asking = record exchange { message = 7 ∷ []; unacked = 0 ∷ []; parts = 1; asked = none ∷ [] }

abbrev kept : Frames
kept = (key_of id, answered (chunks_of (is_whole true reply) reply) 2 (is_whole true reply) 9) ∷ []

kept_found :
    lookup (key_of id) kept
    ≡ some (answered (chunks_of (is_whole true reply) reply) 2 (is_whole true reply) 9)
unfolding lookup
kept_found = rw (==_refl (key_of id)) refl

one_chunk : length (chunks_of (is_whole true reply) reply) ≡ 1
unfolding chunks_of split_into is_whole
one_chunk = refl

every_chunk : (i : ℕ) → i < length (chunks_of (is_whole true reply) reply) → IsAsked i (0 ∷ 0 ∷ [])
every_chunk zero lt = inl refl
every_chunk (suc i) lt = absurd (omega (arith, one_chunk))

collect-fetch_example :
    collect ((keep 9 id reply true []).0 ∷ map (λ (seq : ℕ). fetch id seq kept) (0 ∷ 0 ∷ [])) asking
    ≡ ok (some reply)
collect-fetch_example =
    collect-fetch 9 9 reply true [] kept asking (0 ∷ 0 ∷ []) refl refl (omega arith) kept_found
      (omega (arith, one_chunk), (omega (arith, one_chunk), tt)) every_chunk

in_flight_one : in_flight (resized (0 ∷ 1 ∷ 2 ∷ []) exchange.asked) 10_000 (0 ∷ 1 ∷ 2 ∷ []) ≡ 1
unfolding in_flight resized is_in_flight largest no_times
in_flight_one = refl
