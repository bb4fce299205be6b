-- ===== src/Egress/Host.antt =====
-- crates/egress/src/lib.rs: the files that the host keeps of the enclave's book, and its answers.
-- A file that is not there reads as empty; what the file system refuses is not modelled,
-- and neither is a file that is there and empty, which `put_once` compares as any other. How a
-- question's line is read from the channel is not modelled either: `Ask` is the word that it says.
pub mod Same
pub mod Key
pub mod Twice
use tokumai.Base.{
  ℕ, zero, suc, ◌+◌, ◌%◌, ◌^◌, Bool, true, false, ◌||◌, Option, none, some, List, [], ◌∷◌, ◌++◌,
  length, take, drop, ltb, leb, ◌==◌, if◌then◌else◌,
}
use tokumai.Base.Result.{Result, ok, err}
use tokumai.Base.Text.{equal_bytes}
use tokumai.Base.Bytes.{Bytes, codes, be_bytes, of_be, has_prefix}
use tokumai.Enclave.State.{JournalError, out_of_place, old_form, offered_to_empty, gap}

pub data HostError : Type 0 where
  nothing_to_keep already_kept needs_a_place carries_numbers not_answered broke_off : HostError
  out_of_order : JournalError → HostError
  no_credentials no_secrets : HostError

-- The host's directory, and the last record taken, as far as it is known.
pub record Host : Type 0 where
  pub snapshot : Bytes
  pub journal : Bytes
  pub data_key : Bytes
  pub doors : Bytes
  pub last : Option ℕ

pub journal_magic : Bytes
journal_magic = codes "tokumai-journal/2\n"

-- The loop of `journal_last`; `rest` is `bytes[at..]`.
unfoldable pub journal_loop : ℕ → Option ℕ → Bytes → Option ℕ
journal_loop zero last rest = last
journal_loop (suc fuel) last rest =
    let len = of_be 0 (take 4 rest) in
    let number = of_be 0 (take 8 (drop 4 rest)) in
    let more = journal_loop fuel (some number) (drop (12 + len) rest) in
    if ltb (length rest) 12
    then last
    else if len == 0 || ltb (length rest) (12 + len)
    then last
    else more

unfoldable pub journal_last : Bytes → Result JournalError (Option ℕ)
unfolding journal_loop
journal_last [] = ok none
journal_last (b ∷ bs) =
    let bytes = b ∷ bs in
    if has_prefix journal_magic bytes
    then ok (journal_loop (length bytes) none (drop (length journal_magic) bytes))
    else err old_form

unfoldable pub put_snapshot : Bytes → Host → Host
put_snapshot sealed h = record h { snapshot = sealed; journal = []; last = none }

-- A record in the old form.
unfoldable pub add_record_bare : Bytes → Host → Host × Result HostError Bytes
add_record_bare given h = if has_prefix journal_magic h.journal then (h, err carries_numbers) else (
  record h { journal = h.journal ++ (be_bytes 4 (length given % 2 ^ 32) ++ given) },
  ok (codes "kept"),
)

-- Whether the record is there already (`true`) or to be written (`false`).
unfoldable pub is_there : Option ℕ → ℕ → Result JournalError Bool
is_there none number = if number == 1 then ok false else err (offered_to_empty number)
is_there (some have) number =
    if leb number have
    then ok true
    else if number == have + 1
    then ok false
    else err (gap number have)

-- What is written where the journal has no record yet.
unfoldable pub fresh_mark : Option ℕ → Bytes
fresh_mark none = journal_magic
fresh_mark (some have) = []

-- The rest of `add_record`, once the record's place is judged.
unfoldable pub add_placed :
    ℕ → Bytes → Option ℕ → Host → Result JournalError Bool → Host × Result HostError Bool
unfolding fresh_mark
add_placed number given last h (err e) = (record h { last = last }, err (out_of_order e))
add_placed number given last h (ok true) = (record h { last = last }, ok true)
add_placed number given last h (ok false) = (
  record h {
    journal =
        h.journal
        ++ (fresh_mark last
            ++ (be_bytes 4 (length given % 2 ^ 32) ++ (be_bytes 8 number ++ given)));
    last = some number;
  },
  ok false,
)

-- The rest of it, once the last number is known.
unfoldable pub add_behind :
    ℕ → Bytes → Host → Result JournalError (Option ℕ) → Host × Result HostError Bool
unfolding add_placed is_there
add_behind number given h (err e) = (h, err (out_of_order e))
add_behind number given h (ok last) = add_placed number given last h (is_there last number)

unfoldable pub known_last : Option ℕ → Bytes → Result JournalError (Option ℕ)
unfolding journal_last
known_last none journal = journal_last journal
known_last (some n) journal = ok (some n)

-- `true` for a record that was there already.
unfoldable pub add_record : Bytes → Host → Host × Result HostError Bool
unfolding add_behind known_last
add_record given h =
    if ltb (length given) 17
    then (h, err needs_a_place)
    else add_behind (of_be 0 (take 8 (drop 8 given))) (drop 16 given) h
        (known_last h.last h.journal)

-- What a file holds after a `put_whole`, from what it held.
unfoldable pub put_whole : Bytes → Bytes → Result HostError Bytes
put_whole [] have = err nothing_to_keep
put_whole (b ∷ bs) have = ok (b ∷ bs)

unfoldable pub put_once : Bytes → Bytes → Result HostError Bytes
unfolding equal_bytes put_whole
put_once [] have = err nothing_to_keep
put_once (b ∷ bs) [] = put_whole (b ∷ bs) []
put_once (b ∷ bs) (c ∷ cs) = if equal_bytes (c ∷ cs) (b ∷ bs) then ok (c ∷ cs) else err already_kept

pub data Ask : Type 0 where
  ask_credentials ask_sealed ask_snapshot ask_journal ask_put_snapshot ask_data_key
        ask_put_data_key :
      Ask
  ask_doors ask_put_doors ask_add_record ask_add_record_2 ask_other : Ask

-- What the host reads of the question's bytes, and what lies outside its directory.
pub record Outside : Type 0 where
  pub given : Option Bytes
  pub credentials : Option Bytes
  pub secrets : Option Bytes

abbrev kept_or : (Bytes → Host) → Host → Result HostError Bytes → Host × Result HostError Bytes
kept_or put h (ok bytes) = (put bytes, ok (codes "kept"))
kept_or put h (err e) = (h, err e)

abbrev told : Option Bytes → HostError → Result HostError Bytes
told none e = err e
told (some bytes) e = ok bytes

abbrev kept_again : Host × Result HostError Bool → Host × Result HostError Bytes
kept_again (h, ok true) = (h, ok (codes "kept-again"))
kept_again (h, ok false) = (h, ok (codes "kept"))
kept_again (h, err e) = (h, err e)

-- `answer` in `serve_host`, with the bytes that came behind the question.
unfoldable pub answer : Ask → Bytes → Outside → Host → Host × Result HostError Bytes
unfolding add_record add_record_bare put_once put_whole put_snapshot
answer ask_credentials given o h = (h, told o.credentials no_credentials)
answer ask_sealed given o h = (h, told o.secrets no_secrets)
answer ask_snapshot given o h = (h, ok h.snapshot)
answer ask_journal given o h = (h, ok h.journal)
answer ask_put_snapshot given o h = (put_snapshot given h, ok (codes "kept"))
answer ask_data_key given o h = (h, ok h.data_key)
answer ask_put_data_key given o h =
    kept_or (λ bytes. record h { data_key = bytes }) h (put_once given h.data_key)
answer ask_doors given o h = (h, ok h.doors)
answer ask_put_doors given o h =
    kept_or (λ bytes. record h { doors = bytes }) h (put_whole given h.doors)
answer ask_add_record given o h = add_record_bare given h
answer ask_add_record_2 given o h = kept_again (add_record given h)
answer ask_other given o h = (h, err not_answered)

-- A connection of the enclave, where the bytes behind the question may break off.
unfoldable pub serve_host : Ask × Outside → Host → Host × Result HostError Bytes
unfolding answer
serve_host (what, o) h = elim o.given [
  | none ↦ (h, err broke_off)
  | some given ↦ answer what given o h
]

unfoldable pub serve_all : List (Ask × Outside) → Host → Host
unfolding serve_host
serve_all [] h = h
serve_all (q ∷ qs) h = serve_all qs (serve_host q h).0
