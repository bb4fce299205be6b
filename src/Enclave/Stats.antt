-- ===== src/Enclave/Stats.antt =====
-- crates/enclave/src/admin.rs: the counts that the enclave keeps for its operator. A map is a list of its
-- entries; counts are never negative, so the i64 of the source is a number. `show` prints a number,
-- `is_image_model` is the test of gemini.rs.
pub mod Ring
pub mod Flushed
pub mod Accounts
use Prim.Native.String.{◌++◌ as ◌++ₛ◌}
use tokumai.Base.{
  ℕ, ◌+◌, ◌-◌, ◌*◌, ◌/◌, Bool, true, false, ◌&&◌, ◌||◌, Option, none, some, List, [], ◌∷◌, ◌++◌,
  String, ◌=ₛ◌, length, drop, ltb, leb, ◌==◌, if◌then◌else◌,
}
use tokumai.Enclave.Ledger.Tables.{Tables, apply, add_tally, plus_tally}

abbrev pub hours_kept : ℕ
hours_kept = 48

abbrev pub hour_ms : ℕ
hour_ms = 3_600_000

abbrev pub day_ms : ℕ
day_ms = 86_400_000

pub record Count : Type 0 where
  pub requests : ℕ
  pub toku : ℕ
  pub declined : ℕ

-- The counts of one model and kind.
pub record Row : Type 0 where
  pub model : String
  pub kind : String
  pub count : Count

pub record Hour : Type 0 where
  pub hour : ℕ
  pub by : List Row

pub data Event : Type 0 where
  redeemed ghost : Event

pub record Active : Type 0 where
  pub day : ℕ
  pub today : List String
  pub yesterday : List String

pub record Stats : Type 0 where
  pub hours : List Hour
  pub pending : List (String × ℕ)
  pub active : Active
  pub events : List (ℕ × Event)

abbrev pub one_if : Bool → ℕ
one_if true = 1
one_if false = 0

unfoldable pub counted : ℕ → Bool → Count → Count
counted toku declined c = record {
  requests = c.requests + 1;
  toku = c.toku + toku;
  declined = c.declined + one_if declined;
}

abbrev pub no_count : Count
no_count = record { requests = 0; toku = 0; declined = 0 }

-- `entry(…).or_default()`, counted.
unfoldable pub count_row : String → String → ℕ → Bool → List Row → List Row
unfolding counted
count_row model kind toku declined [] =
    record { model = model; kind = kind; count = counted toku declined no_count } ∷ []
count_row model kind toku declined (r ∷ rs) =
    let rest = count_row model kind toku declined rs in
    if (r.model =ₛ model) && (r.kind =ₛ kind)
    then record r { count = counted toku declined r.count } ∷ rs
    else r ∷ rest

-- `hours.back().map(|h| h.hour != hour).unwrap_or(true)`, negated.
unfoldable pub at_hour : ℕ → List Hour → Bool
at_hour hour [] = false
at_hour hour (h ∷ []) = h.hour == hour
at_hour hour (h ∷ g ∷ hs) = at_hour hour (g ∷ hs)

-- A new hour behind the others, of which the oldest go.
unfoldable pub with_hour : ℕ → List Hour → List Hour
unfolding at_hour
with_hour hour hs =
    let longer = hs ++ record { hour = hour; by = [] } ∷ [] in
    if at_hour hour hs then hs else drop (length longer - hours_kept) longer

-- The last hour's row is counted.
unfoldable pub count_last : String → String → ℕ → Bool → List Hour → List Hour
unfolding count_row
count_last model kind toku declined [] = []
count_last model kind toku declined (h ∷ []) =
    record h { by = count_row model kind toku declined h.by } ∷ []
count_last model kind toku declined (h ∷ g ∷ hs) = h ∷ count_last model kind toku declined (g ∷ hs)

unfoldable pub add : String → ℕ → Stats → Stats
add key n s = record s { pending = plus_tally key n s.pending }

module _ (show : ℕ → String) (is_image_model : String → Bool) where
  abbrev pub kind_of : String → String
  kind_of model = if is_image_model model then "picture" else "text"

  abbrev pub daily : ℕ → String → String → String → String
  daily day model kind what =
      "d:" ++ₛ (show day ++ₛ (":" ++ₛ (model ++ₛ (":" ++ₛ (kind ++ₛ (":" ++ₛ what))))))

  unfoldable pub request : ℕ → String → ℕ → Bool → Stats → Stats
  unfolding with_hour count_last add
  request now_ms model toku declined s =
      let kind = kind_of model in
      let day = now_ms / day_ms in
      let ring = record s {
        hours = count_last model kind toku declined (with_hour (now_ms / hour_ms) s.hours);
      } in
      let two =
        add (daily day model kind "toku") toku (add (daily day model kind "requests") 1 ring) in
      if declined then add (daily day model kind "declined") 1 two else two

-- `pop_front` while the first is older than a day.
unfoldable pub young : ℕ → List (ℕ × Event) → List (ℕ × Event)
young now_ms [] = []
young now_ms ((at, what) ∷ es) =
    let rest = young now_ms es in if ltb day_ms (now_ms - at) then rest else (at, what) ∷ es

unfoldable pub event : ℕ → Event → Stats → Stats
unfolding young
event now_ms what s = record s { events = young now_ms (s.events ++ (now_ms, what) ∷ []) }

abbrev pub same_event : Event → Event → Bool
same_event redeemed redeemed = true
same_event ghost ghost = true
same_event _ _ = false

unfoldable pub events_in : ℕ → Event → List (ℕ × Event) → ℕ
events_in since what [] = 0
events_in since what ((at, w) ∷ es) =
    let rest = events_in since what es in
    if leb since at && same_event w what then rest + 1 else rest

unfoldable pub events_since : ℕ → Event → Stats → ℕ
unfolding events_in
events_since since what s = events_in since what s.events

unfoldable pub is_in : String → List String → Bool
is_in a [] = false
is_in a (b ∷ bs) = let rest = is_in a bs in if b =ₛ a then true else rest

-- `HashSet::insert`
unfoldable pub insert_account : String → List String → List String
unfolding is_in
insert_account a as' = if is_in a as' then as' else a ∷ as'

-- The sets of the day at hand.
unfoldable pub turned : ℕ → Active → Active
turned day a =
    if a.day == day
    then a
    else record { day = day; today = []; yesterday = if a.day + 1 == day then a.today else [] }

unfoldable pub seen : String → ℕ → Stats → Stats
unfolding turned insert_account
seen account now_ms s =
    let a = turned (now_ms / day_ms) s.active in
    record s { active = record a { today = insert_account account a.today } }

-- How many accounts today, and how many yesterday.
unfoldable pub active_counts : ℕ → Active → ℕ × ℕ
active_counts now_ms a =
    let day = now_ms / day_ms in
    if a.day == day
    then (length a.today, length a.yesterday)
    else if a.day + 1 == day
    then (0, length a.today)
    else (0, 0)

-- What `tally_add` comes to: an error is that the statement was not executed, or that it was and
-- could then not be written down.
pub data Added : Type 0 where
  added not_executed not_written : Added

abbrev pub is_error : Added → Bool
is_error added = false
is_error other = true

abbrev pub is_executed : Added → Bool
is_executed not_executed = false
is_executed other = true

-- Each count goes into the book, and back where its `tally_add` is an error.
unfoldable pub flush_loop : (String → Added) → List (String × ℕ) → Tables → Stats → Tables × Stats
unfolding add
flush_loop outcome [] t s = (t, s)
flush_loop outcome ((key, n) ∷ waiting) t s =
    flush_loop outcome waiting (if is_executed (outcome key) then apply (add_tally key n) t else t)
      (if is_error (outcome key) then add key n s else s)

unfoldable pub flush_tallies : (String → Added) → Tables → Stats → Tables × Stats
unfolding flush_loop
flush_tallies outcome t s = flush_loop outcome s.pending t (record s { pending = [] })

-- A moment, to the day.
unfoldable pub day_of : ℕ → ℕ
day_of ms = ms / day_ms * day_ms
