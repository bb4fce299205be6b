-- ===== src/Enclave/Notes/Redeem.antt =====
-- crates/enclave/src/notes.rs: notes in, the month's allowance out. `spent_key` is the stored form of a
-- note's mark, `verify` the check of its signature under the key of its month. The statistics and the
-- answer's summary are not modelled.
use tokumai.Base.{ℕ, ◌+◌, Bool, false, ◌&&◌, List, [], ◌∷◌, String, length, ltb, leb, if◌then◌else◌}
use tokumai.Base.Result.{Result, ok, err, ◌>>=◌, require, ◌>>◌}
use tokumai.Base.Bytes.{Bytes}
use tokumai.Base.Dict.{has_key}
use tokumai.Core.Notes.{Note, NoteError, parse, window, epoch_end_ms, grace_ms}
use tokumai.Core.Subscription.{tiers}
use tokumai.Enclave.Cover.{Cover, paid}
use tokumai.Enclave.Ledger.Tables.{Tables, apply, insert_payment}
use tokumai.Enclave.Plans.{Names, Refusal, renew_key}

pub data RedeemError : Type 0 where
  note_count not_redeemable_now no_such_tier bad_signature : RedeemError
  unreadable : NoteError → RedeemError
  refused : Refusal → RedeemError

-- One item of the list: the bytes of a note and its signature.
pub record Offered : Type 0 where
  pub raw : Bytes
  pub sig : Bytes

-- What became of the notes: how many brought an allowance, how many were spent before.
pub record Redeemed : Type 0 where
  pub granted : ℕ
  pub again : ℕ

abbrev read_note : Bytes → Result RedeemError Note
read_note raw = elim (parse raw) [ ok n ↦ ok n | err e ↦ err (unreadable e) ]

module _ (verify : ℕ → Note → Bytes → Bool) where
  unfoldable pub check_note : ℕ → Offered → Result RedeemError Note
  check_note now_ms item = do
    note ← read_note item.raw
    require (leb (window now_ms).0 note.epoch && leb note.epoch (window now_ms).1)
        not_redeemable_now
    require (ltb note.tier (length tiers)) no_such_tier
    require (verify note.epoch note item.sig) bad_signature
    ok note

  unfoldable pub check_notes : ℕ → List Offered → Result RedeemError (List Note)
  unfolding check_note
  check_notes now_ms [] = ok []
  check_notes now_ms (item ∷ items) = do
    note ← check_note now_ms item
    notes ← check_notes now_ms items
    ok (note ∷ notes)

module _ (names : Names) (spent_key : ℕ → Bytes → ℕ) (acct : ℕ) (rail : String) (now_ms : ℕ) where
  -- The rest of a round, after the note was marked as spent, with the rest of the loop.
  unfoldable pub renewed_note :
      (Tables → Result RedeemError Redeemed × Tables)
      → Result Refusal (Bool × Tables)
      → Tables
      → Result RedeemError Redeemed × Tables
  renewed_note go (err why) t = (err (refused why), t)
  renewed_note go (ok (fresh, t')) t = go t'

  -- The loop over the notes; what was written stays where it stops.
  unfoldable pub redeem_loop : List Note → ℕ → ℕ → Tables → Result RedeemError Redeemed × Tables
  unfolding renewed_note
  redeem_loop [] granted again t = (ok (record { granted = granted; again = again }), t)
  redeem_loop (n ∷ ns) granted again t =
      let spent = spent_key n.epoch n.nonce in
      let marked = apply (insert_payment spent now_ms) t in
      let until_ms = epoch_end_ms n.epoch + grace_ms in
      let was_spent = redeem_loop ns granted (again + 1) t in
      let fresh =
        renewed_note (redeem_loop ns (granted + 1) again)
          (renew_key names acct n.tier false rail now_ms now_ms until_ms marked) marked in
      if has_key spent t.payments then was_spent else fresh

-- The cover that an account gets where an allowance was granted.
abbrev covered : ℕ → ℕ → Result RedeemError Redeemed → Cover → Cover
covered acct now_ms (err e) c = c
covered acct now_ms (ok r) c = if ltb 0 r.granted then paid acct now_ms c else c

unfoldable pub note_redeem :
    (ℕ → Note → Bytes → Bool)
    → Names
    → (ℕ → Bytes → ℕ)
    → ℕ
    → String
    → ℕ
    → List Offered
    → Tables × Cover
    → Result RedeemError Redeemed × (Tables × Cover)
unfolding check_notes redeem_loop
note_redeem verify names spent_key acct rail now_ms items (t, c) =
    let checked = (do
      require (ltb 0 (length items) && leb (length items) 12) note_count
      check_notes verify now_ms items) in
    elim checked [
      | err e ↦ (err e, (t, c))
      | ok notes ↦
          let done = redeem_loop names spent_key acct rail now_ms notes 0 0 t in
          (done.0, (done.1, covered acct now_ms done.0 c))
    ]
