-- ===== src/Enclave/Notes.antt =====
-- crates/enclave/src/notes.rs: whether a payment may become a note. `names` gives the stored forms
-- of a rail and of a minted month. The proofs of payment and the blind signature are not modelled.
pub mod OneWay
pub mod Redeem
pub mod Spent
use tokumai.Base.{ℕ, Bool, true, false, Option, none, some, String, ◌=ₛ◌, if◌then◌else◌}
use tokumai.Base.Result.{Result, ok, err}
use tokumai.Base.Dict.{lookup}
use tokumai.Enclave.Ledger.Tables.{Tables, apply, insert_minted}
use tokumai.Enclave.Plans.{Names, rail_owner}

pub data MintError : Type 0 where
  pays_a_plan minted_otherwise : MintError

-- Whether this is the month's first minting, and the tables after it.
unfoldable pub mint_admission :
    Names → String → ℕ → String → Tables → Result MintError (Bool × Tables)
unfolding rail_owner
mint_admission names rail epoch fingerprint t =
    let reference = names.mint_reference rail epoch in
    elim (rail_owner names rail t) [
      | some acct ↦ err pays_a_plan
      | none ↦ elim (lookup reference t.minted) [
        | none ↦ ok (true, apply (insert_minted reference fingerprint) t)
        | some seen ↦ if seen =ₛ fingerprint then ok (false, t) else err minted_otherwise
      ]
    ]
