-- ===== src/Tests/Counts.antt =====
-- crates/enclave/src/admin.rs and ghost.rs on small inputs.
use tokumai.Base.{
  ℕ, ◌+◌, ◌-◌, ◌≤◌, ◌≡◌, refl, Bool, true, some, [], ◌∷◌, String, ◌=ₛ◌, if◌then◌else◌, length,
  arith,
}
use tokumai.Base.Bytes.{Bytes, codes}
use tokumai.Base.Text.Decimal.{occurs}
use tokumai.Enclave.Ledger.Tables.{no_rows}
use tokumai.Enclave.Stats.{
  Stats, redeemed, ghost, hours_kept, request, flush_tallies, at_hour, no_count, Added,
  not_executed, not_written,
}
use tokumai.Enclave.Stats.Flushed.{both_of, again, flush_tallies-tally}
use tokumai.Enclave.Stats.Ring.{last_count, request-counted}
use tokumai.Enclave.Ghost.{ghosts_wanted, reply_to, request_line}
use tokumai.Enclave.Ghost as Ghost
use tokumai.Enclave.Ghost.Floor.{events_now, count_events, ghosts_wanted-events}
use tokumai.Enclave.Ghost.Genuine.{IsPlain, IsOurs, reply_to-request, reply_to-IsOurs}

abbrev stats : Stats
stats = record {
  hours = [];
  pending = ("notes:minted:9:1", 2) ∷ ("d:1:m:text:toku", 5) ∷ [];
  active = record { day = 0; today = "anna" ∷ []; yesterday = [] };
  events = (1_000, redeemed) ∷ [];
}

abbrev outcome : String → Added
outcome key = if key =ₛ "notes:minted:9:1" then not_executed else not_written

flush_tallies-tally_example :
    both_of "d:1:m:text:toku" (flush_tallies outcome no_rows stats)
    ≡ both_of "d:1:m:text:toku" (no_rows, stats) + again outcome "d:1:m:text:toku" stats.pending
flush_tallies-tally_example = flush_tallies-tally outcome "d:1:m:text:toku" no_rows stats

abbrev show : ℕ → String
show n = "1"

abbrev is_image : String → Bool
is_image model = model =ₛ "image"

request-counted_example :
    let u = request show is_image 7_200_000 "m" 120 true stats in
    let before = if at_hour 2 [] then last_count "m" "text" [] else no_count in
    let after = last_count "m" "text" u.hours in
    (length u.hours ≤ hours_kept)
    × (at_hour 2 u.hours ≡ true)
    × (after.requests ≡ before.requests + 1)
    × (after.toku ≡ before.toku + 120)
    × (after.declined ≡ before.declined + (if true then 1 else 0))
request-counted_example = request-counted show is_image 7_200_000 "m" 120 true stats (omega arith)

ghosts_wanted-events_example :
    ghosts_wanted 2_000 (events_now (ghost ∷ redeemed ∷ ghost ∷ []) 2_000 stats)
    ≡ ghosts_wanted 2_000 stats - count_events (ghost ∷ redeemed ∷ ghost ∷ [])
ghosts_wanted-events_example = ghosts_wanted-events (ghost ∷ redeemed ∷ ghost ∷ []) 2_000 stats

abbrev mac : Bytes → ℕ → Bytes
mac address minute = codes "ab"

abbrev any_text : Bytes → Bool
any_text line = true

abbrev address : Bytes
address = codes "door@gate"

plain : IsPlain mac any_text address 10
unfolding occurs
plain = record { one_word = refl; one_line = refl; tag_word = refl; tag_line = refl; text = refl }

reply_to-request_example :
    reply_to mac any_text (Ghost.request mac any_text address 600_000) 700_000 ≡ some address
reply_to-request_example =
    reply_to-request mac any_text address 600_000 700_000 (omega arith) (omega arith) plain

answered : reply_to mac any_text (Ghost.request mac any_text address 600_000) 600_000 ≡ some address
answered = reply_to-request mac any_text address 600_000 600_000 (omega arith) (omega arith) plain

reply_to-IsOurs_example :
    IsOurs mac any_text (Ghost.request mac any_text address 600_000) address 600_000
reply_to-IsOurs_example =
    reply_to-IsOurs mac any_text (Ghost.request mac any_text address 600_000) address 600_000
      answered
