-- ===== src/Enclave/Ghost.antt =====
-- crates/enclave/src/ghost.rs: the redemptions that nobody made. `mac` is the keyed hash as it is
-- printed, `is_utf8` whether bytes are text; two tags are compared byte by byte over their common
-- length, and the differences are or-ed.
pub mod Genuine
pub mod Floor
use tokumai.Base.{
  ℕ, zero, suc, ◌+◌, ◌-◌, ◌*◌, ◌/◌, ◌^◌, Bool, true, false, not, ◌||◌, Option, none, some, List, [],
  ◌∷◌, ◌++◌, length, take, ltb, leb, ◌==◌, if◌then◌else◌, max,
}
use tokumai.Base.Bytes.{Bytes, codes}
use tokumai.Base.Text.{strip_prefix, split_at, split_once, parse_below, decimal}
use tokumai.Enclave.Ledger.Tables.{Tables, Change, apply, touch_tally}
use tokumai.Enclave.Stats.{Stats, Event, redeemed, ghost, event, events_since, hour_ms}

abbrev pub ghost_floor : ℕ
ghost_floor = 4

abbrev pub ghost_request_bytes : ℕ
ghost_request_bytes = 900

abbrev pub ghost_reply_bytes : ℕ
ghost_reply_bytes = 400

abbrev pub ghost_minutes : ℕ
ghost_minutes = 3

abbrev pub minute_ms : ℕ
minute_ms = 60_000

abbrev pub space : ℕ → Bool
space b = b == 32

abbrev pub newline : ℕ → Bool
newline b = b == 10

abbrev pub request_marker : Bytes
request_marker = codes "tokumai/ghost/req "

unfoldable pub zeros : ℕ → Bytes
zeros zero = []
zeros (suc n) = 0 ∷ zeros n

-- `Vec::resize` with zeros.
unfoldable pub resize : ℕ → Bytes → Bytes
unfolding zeros
resize n bs = take n bs ++ zeros (n - length bs)

-- The zip of two tags has no difference.
unfoldable pub no_difference : Bytes → Bytes → Bool
no_difference (a ∷ as') (b ∷ bs) = let rest = no_difference as' bs in if a == b then rest else false
no_difference _ _ = true

abbrev pub minutes_apart : ℕ → ℕ → ℕ
minutes_apart a b = (a - b) + (b - a)

module _ (mac : Bytes → ℕ → Bytes) (is_utf8 : Bytes → Bool) where
  unfoldable pub request_line : Bytes → ℕ → Bytes
  unfolding decimal
  request_line reply_to minute = reply_to ++ (32 ∷ (decimal minute ++ (32 ∷ mac reply_to minute)))

  unfoldable pub request : Bytes → ℕ → Bytes
  unfolding request_line resize
  request reply_to now_ms =
      let out = request_marker ++ (request_line reply_to (now_ms / minute_ms) ++ 10 ∷ []) in
      resize (max ghost_request_bytes (length out)) out

  -- With the minute.
  unfoldable pub tag_checked : Bytes → Bytes → ℕ → Option ℕ → Option Bytes
  unfolding no_difference
  tag_checked reply_to tag now_ms none = none
  tag_checked reply_to tag now_ms (some minute) =
      let want = mac reply_to minute in
      if ltb ghost_minutes (minutes_apart (now_ms / minute_ms) minute)
      then none
      else if not (length want == length tag) || not (no_difference want tag)
      then none
      else some reply_to

  -- With the parts of the line.
  unfoldable pub parts_checked : List Bytes → ℕ → Option Bytes
  unfolding tag_checked parse_below
  parts_checked (reply_to ∷ minute ∷ tag ∷ []) now_ms =
      tag_checked reply_to tag now_ms (parse_below (2 ^ 64) minute)
  parts_checked _ now_ms = none

  abbrev pub line_checked : Option (Bytes × Bytes) → ℕ → Option Bytes
  unfolding parts_checked split_at
  line_checked none now_ms = none
  line_checked (some (line, padding)) now_ms =
      if is_utf8 line then parts_checked (split_at space line) now_ms else none

  abbrev pub text_checked : Option Bytes → ℕ → Option Bytes
  unfolding split_once
  text_checked none now_ms = none
  text_checked (some text) now_ms = line_checked (split_once newline text) now_ms

  unfoldable pub reply_to : Bytes → ℕ → Option Bytes
  unfolding strip_prefix
  reply_to message now_ms = text_checked (strip_prefix request_marker message) now_ms

unfoldable pub reply : Bytes
unfolding resize
reply = resize ghost_reply_bytes (codes "tokumai/ghost/reply" ++ 10 ∷ [])

-- Redemption-shaped events of the last hour, real and made.
unfoldable pub redemption_shaped_last_hour : ℕ → Stats → ℕ × ℕ
unfolding events_since
redemption_shaped_last_hour now_ms s =
    (events_since (now_ms - hour_ms) redeemed s, events_since (now_ms - hour_ms) ghost s)

unfoldable pub ghosts_wanted : ℕ → Stats → ℕ
unfolding redemption_shaped_last_hour
ghosts_wanted now_ms s =
    let made = redemption_shaped_last_hour now_ms s in ghost_floor - (made.0 + made.1)
