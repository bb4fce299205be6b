-- ===== src/Core/Notes.antt =====
-- crates/core/src/notes.rs: the calendar epochs of the notes, and a note's bytes. The RSA blind
-- signatures and the HKDF derivations are outside the model.
pub mod Epochs
pub mod Wire
use tokumai.Base.{
  ℕ, zero, suc, ◌+◌, ◌-◌, ◌*◌, ◌/◌, ◌%◌, Bool, true, false, not, Option, none, some, List, [], ◌∷◌,
  ◌++◌, String, get_elem?, take, drop, length, ltb, leb, ◌==◌, if◌then◌else◌, min,
}
use tokumai.Base.Bytes.{Bytes, be_bytes, of_be}
use tokumai.Base.Result.{Result, ok, err}
use tokumai.Core.Calendar.{civil_from_ms, ms_from_civil, add_months_ms, day_ms}

abbrev pub u16_max : ℕ
u16_max = 65_535

abbrev pub epoch_zero_year : ℕ
epoch_zero_year = 2026

-- `.clamp(0, u16::MAX)`: a month before the first epoch counts as it, as the subtraction stops
-- at 0 there.
unfoldable pub epoch_of_ms : ℕ → ℕ
epoch_of_ms ms =
    let c = civil_from_ms ms in min (c.year * 12 + (c.month - 1) - epoch_zero_year * 12) u16_max

unfoldable pub epoch_start_ms : ℕ → ℕ
epoch_start_ms epoch = ms_from_civil (epoch_zero_year + epoch / 12) (epoch % 12 + 1) 1

-- `epoch + 1` of a u16; the last epoch has no next one and is not asked for.
pub epoch_end_ms : ℕ → ℕ
epoch_end_ms epoch = epoch_start_ms (epoch + 1)

-- `for i in i..i + n`
unfoldable pub epochs_from : ℕ → ℕ → ℕ → ℕ → List ℕ
epochs_from start_ms until_ms i zero = []
epochs_from start_ms until_ms i (suc n) =
    let s = add_months_ms start_ms i in
    let e = min (add_months_ms start_ms (i + 1)) until_ms in
    let rest = epochs_from start_ms until_ms (i + 1) n in
    if leb e s then [] else epoch_of_ms (e - 1) ∷ rest

unfoldable pub epochs_covered : ℕ → ℕ → Bool → List ℕ
unfolding epochs_from
epochs_covered start_ms until_ms yearly = epochs_from start_ms until_ms 0 (if yearly then 12 else 1)

-- The months open at a time: `cur + 1` of a u16.
pub window : ℕ → ℕ × ℕ
window now_ms = let cur = epoch_of_ms now_ms in (cur - 1, cur + 1)

abbrev pub grace_ms : ℕ
grace_ms = 7 * day_ms

abbrev pub version : ℕ
version = 1

pub record Note : Type 0 where
  pub tier : ℕ
  pub epoch : ℕ
  pub nonce : Bytes

pub data NoteError : Type 0 where
  not_36_bytes another_version : NoteError

pub to_bytes : Note → Bytes
to_bytes n = version ∷ n.tier ∷ be_bytes 2 n.epoch ++ n.nonce

pub parse : Bytes → Result NoteError Note
parse (v ∷ tier ∷ hi ∷ lo ∷ nonce) =
    if not (length nonce == 32)
    then err not_36_bytes
    else if not (v == version)
    then err another_version
    else ok (record { tier = tier; epoch = of_be 0 (hi ∷ lo ∷ []); nonce = nonce })
parse _ = err not_36_bytes
