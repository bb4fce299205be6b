-- ===== src/Enclave/Notes/OneWay.antt =====
-- crates/enclave/src/notes.rs with plans.rs: proofs about minting beside renew_key.
use tokumai.Base.{
  ℕ, ◌≡◌, refl, ap, ◌∙◌, Bool, true, false, some, List, [], ◌∷◌, String, ◌=ₛ◌, eq_iff, starts_with,
  ==_refl, if_both, inl, inr, ◌⊎◌, Option-cases,
}
use mathlib.Core.Path.{subst}
use tokumai.Base.Result.{Result, ok, err}
use tokumai.Base.Dict.{lookup, lookup-insert_new}
use tokumai.Core.Notes.{epochs_covered}
use tokumai.Enclave.Ledger.Tables.{Tables, apply}
use tokumai.Enclave.Plans.{Names, Refusal, rail_owner, any_minted, renew_key, attach_refusal_key}
use tokumai.Enclave.Notes.{mint_admission, MintError}

-- The month of the payment is on record.
abbrev pub IsMinted : Names → String → ℕ → String → Tables → Type 0
IsMinted names rail epoch fp t = lookup (names.mint_reference rail epoch) t.minted ≡ some fp

abbrev LeavesMinted : Names → String → ℕ → String → Result MintError (Bool × Tables) → Type 0
LeavesMinted names rail epoch fp (err e) = Unit
LeavesMinted names rail epoch fp (ok admitted) = IsMinted names rail epoch fp admitted.1

mint_admission-LeavesMinted :
    (names : Names) (rail : String) (epoch : ℕ) (fp : String) (t : Tables)
    → LeavesMinted names rail epoch fp (mint_admission names rail epoch fp t)
unfolding mint_admission
mint_admission-LeavesMinted names rail epoch fp t =
    let reference = names.mint_reference rail epoch in
    elim (Option-cases (rail_owner names rail t)) [
      | inr (acct, o) ↦ rw (o, mint_admission) tt
      | inl o ↦ elim (Option-cases (lookup reference t.minted)) [
        | inl n ↦
            rw (o, mint_admission, n)
              (unfold apply in
                rw (lookup-insert_new reference reference fp t.minted, n, ==_refl reference) refl)
        | inr (seen, s) ↦
            rw (o, mint_admission, s)
              (if_both (LeavesMinted names rail epoch fp) (seen =ₛ fp) {x = ok (false, t)}
                {y = err MintError.minted_otherwise} (λ e. s ∙ ap some ((eq_iff seen fp).0 e))
                (λ _. tt))
      ]
    ]

abbrev pub IsIn : ℕ → List ℕ → Type 0
IsIn epoch [] = ⊥
IsIn epoch (e ∷ es) = (e ≡ epoch) ⊎ IsIn epoch es

any_minted-IsIn :
    (names : Names) (rail : String) (epoch : ℕ) (fp : String) (es : List ℕ) (t : Tables)
    → IsMinted names rail epoch fp t
    → IsIn epoch es
    → any_minted names rail es t ≡ true
unfolding any_minted
any_minted-IsIn names rail epoch fp [] t m i = absurd i
any_minted-IsIn names rail epoch fp (e ∷ es) t m (inl same) = rw (same, any_minted, m) refl
any_minted-IsIn names rail epoch fp (e ∷ es) t m (inr i) =
    let rest = any_minted-IsIn names rail epoch fp es t m i in
    elim (Option-cases (lookup (names.mint_reference rail e) t.minted)) [
      | inl n ↦ rw (n, any_minted) rest
      | inr (seen, s) ↦ rw (s, any_minted) refl
    ]

-- No plan comes of it.
abbrev pub IsRefused : Result Refusal (Bool × Tables) → Type 0
IsRefused (err why) = Unit
IsRefused (ok done) = ⊥

-- Where a month of a payment on a rail other than a note's was admitted for minting, and a report
-- of that rail covers the month, `renew_key` refuses it on every account, so no plan comes of it.
pub minted-IsRefused :
    (names : Names) (rail fp : String) (epoch acct tier now_ms start_ms until_ms : ℕ)
    (yearly first : Bool) (t t' : Tables)
    → mint_admission names rail epoch fp t ≡ ok (first, t')
    → starts_with rail "note:" ≡ false
    → IsIn epoch (epochs_covered start_ms until_ms yearly)
    → IsRefused (renew_key names acct tier yearly rail now_ms start_ms until_ms t')
unfolding renew_key
minted-IsRefused names rail fp epoch acct tier now_ms start_ms until_ms yearly first t t' admitted
      paid covered =
    let m : IsMinted names rail epoch fp t' =
      subst (LeavesMinted names rail epoch fp) admitted
        (mint_admission-LeavesMinted names rail epoch fp t) in
    let any =
      any_minted-IsIn names rail epoch fp (epochs_covered start_ms until_ms yearly) t' m covered in
    elim (Option-cases (attach_refusal_key names acct rail now_ms t')) [
      | inr (why, a) ↦ rw (a, renew_key) tt
      | inl a ↦ rw (a, renew_key, paid, any) tt
    ]
