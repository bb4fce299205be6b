-- ===== src/Enclave/Cover.antt =====
-- crates/enclave/src/cover.rs: how many decoys a call of an account that has just paid needs.
-- Accounts are numbers, the keyed hashes of their ids; the mutexes hold for a whole operation.
-- `moments`, which draws the random places in the spread, is not modelled.
pub mod Crowd
use tokumai.Base.{
  ℕ, ◌+◌, ◌-◌, ◌*◌, ◌≤◌, ◌<◌, ◌≡◌, refl, Bool, true, false, not, ◌||◌, ◌&&◌, Option, none, some,
  List, [], ◌∷◌, ◌++◌, ltb, leb, ◌==◌, if◌then◌else◌, if_both, arith, length, drop, length-drop,
  length-append, ==_refl,
}
use tokumai.Base.Dict.{Dict, lookup, insert, erase, lookup-insert}

pub data Shape : Type 0 where
  text picture : Shape

pub same_shape : Shape → Shape → Bool
same_shape text text = true
same_shape picture picture = true
same_shape _ _ = false

abbrev pub enough : ℕ
enough = 5

abbrev pub cover_keep_ms : ℕ
cover_keep_ms = 6 * 3_600_000

abbrev pub remember : ℕ
remember = 512

pub record Cover : Type 0 where
  pub seen : List (ℕ × Shape)
  pub waiting : Dict (ℕ × ℕ)

-- `retain` of the payments that are younger than the window.
pub still_waiting : ℕ → Dict (ℕ × ℕ) → Dict (ℕ × ℕ)
still_waiting now_ms [] = []
still_waiting now_ms ((account, (paid, since)) ∷ waiting) =
    let rest = still_waiting now_ms waiting in
    if ltb (now_ms - paid) cover_keep_ms then (account, (paid, since)) ∷ rest else rest

pub paid : ℕ → ℕ → Cover → Cover
unfolding still_waiting
paid account now_ms c = record c {
  waiting = insert account (now_ms, now_ms) (still_waiting now_ms c.waiting);
}

pub note : Shape → ℕ → Cover → Cover
note shape now_ms c =
    let seen = c.seen ++ (now_ms, shape) ∷ [] in
    record c { seen = drop (length seen - remember) seen }

-- The calls of the shape since the account's last one; at its payment's own moment they count.
pub cover_since : Shape → ℕ → ℕ → List (ℕ × Shape) → ℕ
unfolding same_shape
cover_since shape paid_at since [] = 0
cover_since shape paid_at since ((at, s) ∷ seen) =
    let rest = cover_since shape paid_at since seen in
    if same_shape s shape && (ltb since at || (at == since && since == paid_at))
    then rest + 1
    else rest

pub decoys_needed : ℕ → Shape → ℕ → Cover → ℕ × Cover
unfolding cover_since
decoys_needed account shape now_ms c = elim (lookup account c.waiting) [
  | none ↦ (0, c)
  | some (paid_at, since) ↦
      if leb cover_keep_ms (now_ms - paid_at)
      then (0, record c { waiting = erase account c.waiting })
      else (
        enough - cover_since shape paid_at since c.seen,
        record c { waiting = insert account (paid_at, now_ms) c.waiting },
      )
]
