-- ===== src/Enclave/Ghost/Floor.antt =====
-- crates/enclave/src/ghost.rs: proofs about how many ghosts an hour wants.
use tokumai.Base.{
  ℕ, ◌+◌, ◌-◌, ◌≡◌, refl, ap, ◌∙◌, true, false, List, [], ◌∷◌, ◌++◌, ltb, leb, if◌then◌else◌, arith,
  Bool-cases, inl, inr,
}
use tokumai.Enclave.Stats.{
  Stats, Event, redeemed, ghost, young, event, same_event, events_in, events_since, hour_ms, day_ms,
}
use tokumai.Enclave.Ghost.{redemption_shaped_last_hour, ghosts_wanted}

events_in-snoc :
    (since at : ℕ) (what w : Event) (es : List (ℕ × Event))
    → events_in since what (es ++ (at, w) ∷ [])
      ≡ events_in since what es + events_in since what ((at, w) ∷ [])
unfolding events_in
events_in-snoc since at what w [] = omega arith
events_in-snoc since at what w ((a, v) ∷ es) = ground (arith, events_in-snoc since at what w es)

-- What is dropped from the front is older than a day.
events_in-young :
    (now_ms : ℕ) (what : Event) (es : List (ℕ × Event))
    → events_in (now_ms - hour_ms) what (young now_ms es) ≡ events_in (now_ms - hour_ms) what es
unfolding events_in young
events_in-young now_ms what [] = refl
events_in-young now_ms what ((at, w) ∷ es) = elim (Bool-cases (ltb day_ms (now_ms - at))) [
  | inl e ↦
      let old : leb (now_ms - hour_ms) at ≡ false = ground arith in
      rw (e, old) (events_in-young now_ms what es)
  | inr e ↦ rw e refl
]

-- What an event adds to the last hour of its own moment: one of its kind, none of the other.
pub event-last_hour :
    (now_ms : ℕ) (what w : Event) (s : Stats)
    → events_since (now_ms - hour_ms) what (event now_ms w s)
      ≡ events_since (now_ms - hour_ms) what s + (if same_event w what then 1 else 0)
unfolding events_since event
event-last_hour now_ms what w s =
    let now : leb (now_ms - hour_ms) now_ms ≡ true = ground arith in
    let one : events_in (now_ms - hour_ms) what ((now_ms, w) ∷ [])
        ≡ (if same_event w what then 1 else 0) =
      unfold events_in in rw now refl in
    events_in-young now_ms what (s.events ++ (now_ms, w) ∷ [])
    ∙ events_in-snoc (now_ms - hour_ms) now_ms what w s.events
    ∙ ap (λ (n : ℕ). events_in (now_ms - hour_ms) what s.events + n) one

-- `n` events of either kind, made now.
abbrev pub events_now : List Event → ℕ → Stats → Stats
events_now [] now_ms s = s
events_now (w ∷ ws) now_ms s = event now_ms w (events_now ws now_ms s)

abbrev pub count_events : List Event → ℕ
count_events [] = 0
count_events (w ∷ ws) = 1 + count_events ws

-- After any redemptions at one moment, real or made, the ghosts wanted at that moment are those
-- wanted before less one for each of them, or none.
pub ghosts_wanted-events :
    (ws : List Event) (now_ms : ℕ) (s : Stats)
    → ghosts_wanted now_ms (events_now ws now_ms s) ≡ ghosts_wanted now_ms s - count_events ws
unfolding ghosts_wanted redemption_shaped_last_hour
ghosts_wanted-events [] now_ms s = omega arith
ghosts_wanted-events (redeemed ∷ ws) now_ms s = omega (
  arith,
  ghosts_wanted-events ws now_ms s,
  event-last_hour now_ms redeemed redeemed (events_now ws now_ms s),
  event-last_hour now_ms ghost redeemed (events_now ws now_ms s),
)
ghosts_wanted-events (ghost ∷ ws) now_ms s = omega (
  arith,
  ghosts_wanted-events ws now_ms s,
  event-last_hour now_ms redeemed ghost (events_now ws now_ms s),
  event-last_hour now_ms ghost ghost (events_now ws now_ms s),
)
