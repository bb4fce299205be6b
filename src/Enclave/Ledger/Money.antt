-- ===== src/Enclave/Ledger/Money.antt =====
-- crates/enclave/src/ledger.rs: the two pockets of an account, and what a request holds and settles.
-- `key` is `Ledger::key`, a keyed SHA-256 of an account id. An operation gives the book after it
-- and the changes it writes down; SQLite's own failures (a full disk) are not modelled.
pub mod Funds
pub mod Replay
pub mod Conserved
pub mod Drawn
pub mod Lots
pub mod Nonces
pub mod Settling
use mathlib.Core.List.{reverse}
use tokumai.Base.{
  ℕ, ◌+◌, ◌-◌, ◌/◌, Bool, true, false, ◌&&◌, Option, none, some, List, [], ◌∷◌, ◌++◌, map, String,
  ◌=ₛ◌, sum_of, ltb, leb, ◌==◌, if◌then◌else◌, min, length,
}
use tokumai.Base.Result.{Result, ok, err}
use tokumai.Base.Dict.{lookup, has_key}
use tokumai.Core.Calendar.{add_months_ms}
use tokumai.Enclave.Ledger.Tables.{
  Tables, Pocket, AllowanceRow, Lot, HoldRow, Change, apply, set_allowance, add_allowance,
  take_allowance, lapse_allowance, draw_allowance, return_allowance, draw_lot, return_lot,
  insert_hold, delete_hold, insert_lot, insert_payment, insert_minted,
}

-- The tables, the AUTOINCREMENT counters of `lots` and `holds`, and the nonces, which are kept in
-- memory only.
pub record Book : Type 0 where
  pub tables : Tables
  pub lot_seq : ℕ
  pub hold_seq : ℕ
  pub nonces : List (String × ℕ)

-- What an operation leaves: its result, the book, and what it wrote down.
pub record Done (A : Type 0) : Type 0 where
  pub result : A
  pub book : Book
  pub written : List Change

-- `change`: one statement, done and written down.
pub change : Change → Book → Done (Unit {0})
change c b = record { result = tt; book = record b { tables = apply c b.tables }; written = c ∷ [] }

pub allowance_set : ℕ → ℕ → ℕ → ℕ → Book → Done (Unit {0})
unfolding change
allowance_set acct start_ms ends_ms toku =
    change (set_allowance acct (start_ms / 1000) ends_ms toku)

-- `INSERT OR IGNORE`: whether the reference, as it is stored, was new.
unfoldable pub first_payment : ℕ → ℕ → Book → Done Bool
first_payment ref now_ms b =
    let c = insert_payment ref now_ms in
    record {
      result = if has_key ref b.tables.payments then false else true;
      book = record b { tables = apply c b.tables };
      written = c ∷ [];
    }

abbrev pub prepaid_months : ℕ
prepaid_months = 36

unfoldable pub credit_prepaid : (String → ℕ) → String → ℕ → ℕ → Book → Done (Unit {0})
credit_prepaid key account toku now_ms b =
    let id = b.lot_seq + 1 in
    let c = insert_lot (record {
      id = id;
      acct = key account;
      left = toku;
      expires_ms = add_months_ms now_ms prepaid_months;
      bought_ms = now_ms;
    }) in
    record {
      result = tt;
      book = record b { tables = apply c b.tables; lot_seq = id };
      written = c ∷ [];
    }

-- … WHERE acct = ? AND left > 0 AND expires_ms > ? ORDER BY expires_ms; equal ones by id.
unfoldable pub is_open : ℕ → ℕ → Lot → Bool
is_open acct now_ms l = l.acct == acct && (ltb 0 l.left && ltb now_ms l.expires_ms)

unfoldable pub by_expiry : Lot → List Lot → List Lot
by_expiry l [] = l ∷ []
by_expiry l (m ∷ ms) = if leb l.expires_ms m.expires_ms then l ∷ m ∷ ms else m ∷ by_expiry l ms

unfoldable pub open_lots : ℕ → ℕ → List Lot → List Lot
unfolding is_open by_expiry
open_lots acct now_ms [] = []
open_lots acct now_ms (l ∷ ls) =
    let rest = open_lots acct now_ms ls in if is_open acct now_ms l then by_expiry l rest else rest

-- SELECT … FROM allowance WHERE acct = ? AND ends_ms > ?
unfoldable pub running_allowance : ℕ → ℕ → Tables → Option AllowanceRow
running_allowance acct now_ms t = elim (lookup acct t.allowances) [
  | none ↦ none
  | some r ↦ if ltb now_ms r.ends_ms then some r else none
]

pub record Balance : Type 0 where
  pub allowance : ℕ
  pub allowance_ends_ms : ℕ
  pub prepaid : List (ℕ × ℕ)
  pub total : ℕ

unfoldable pub balance : (String → ℕ) → String → ℕ → Book → Balance
balance key account now_ms b =
    let running = running_allowance (key account) now_ms b.tables in
    let allowance : ℕ = elim running [ none ↦ 0 | some r ↦ r.left ] in
    let ends : ℕ = elim running [ none ↦ 0 | some r ↦ r.ends_ms ] in
    let lots = open_lots (key account) now_ms b.tables.lots in
    record {
      allowance = allowance;
      allowance_ends_ms = ends;
      prepaid = map (λ (l : Lot). (l.left, l.expires_ms)) lots;
      total = allowance + sum_of (λ (l : Lot). l.left) lots;
    }

pub record Hold : Type 0 where
  pub id : ℕ
  pub account : String
  pub amount : ℕ
  pub parts : List (Pocket × ℕ)

-- A hold while its transaction runs.
pub record Draft : Type 0 where
  pub tables : Tables
  pub parts : List (Pocket × ℕ)
  pub need : ℕ
  pub written : List Change

-- `take` out of one pocket: done, written down, noted as a part.
unfoldable pub draw : Pocket → Change → ℕ → Draft → Draft
draw pocket c take d = record {
  tables = apply c d.tables;
  parts = d.parts ++ (pocket, take) ∷ [];
  need = d.need - take;
  written = d.written ++ c ∷ [];
}

unfoldable pub draw_from_allowance : ℕ → ℕ → Draft → Draft
unfolding draw
draw_from_allowance acct now_ms d = elim (running_allowance acct now_ms d.tables) [
  | none ↦ d
  | some r ↦
      let take = min d.need r.left in
      if ltb 0 take then draw Pocket.allowance (draw_allowance acct take) take d else d
]

unfoldable pub draw_from_lots : List Lot → Draft → Draft
unfolding draw
draw_from_lots [] d = d
draw_from_lots (l ∷ ls) d =
    let take = min d.need l.left in
    let more = draw_from_lots ls (draw (Pocket.lot l.id) (draw_lot l.id take) take d) in
    if d.need == 0 then d else more

unfoldable pub draft_of : ℕ → ℕ → ℕ → Tables → Draft
unfolding draw_from_allowance draw_from_lots
draft_of acct amount now_ms t =
    let d =
      draw_from_allowance acct now_ms
        (record { tables = t; parts = []; need = amount; written = [] }) in
    if ltb 0 d.need then draw_from_lots (open_lots acct now_ms d.tables.lots) d else d

-- "this request can cost up to `amount`, the account holds `available`"
pub record NotEnough : Type 0 where
  pub amount : ℕ
  pub available : ℕ

-- A refused hold drops the transaction: the book stays as it was.
unfoldable pub hold : (String → ℕ) → String → ℕ → ℕ → Book → Result NotEnough (Done Hold)
hold key account amount now_ms b =
    let d = draft_of (key account) amount now_ms b.tables in
    let id = b.hold_seq + 1 in
    let c = insert_hold id (key account) d.parts in
    if ltb 0 d.need
    then err (record { amount = amount; available = amount - d.need })
    else ok (record {
      result = record { id = id; account = account; amount = amount; parts = d.parts };
      book = record b { tables = apply c d.tables; hold_seq = id };
      written = d.written ++ c ∷ [];
    })

unfoldable pub give_back : ℕ → Pocket → ℕ → Change
give_back acct Pocket.allowance amount = return_allowance acct amount
give_back acct (Pocket.lot id) amount = return_lot id amount

-- The loop of `settle` over the parts, the last first.
unfoldable pub refunds : ℕ → ℕ → List (Pocket × ℕ) → List Change
unfolding give_back
refunds acct refund [] = []
refunds acct refund ((pocket, took) ∷ parts) =
    let back = min refund took in
    let more = refunds acct (refund - back) parts in
    if refund == 0 then [] else give_back acct pocket back ∷ more

unfoldable pub apply_all : List Change → Tables → Tables
apply_all [] t = t
apply_all (c ∷ cs) t = apply_all cs (apply c t)

-- The statements of a transaction do not read the tables, so they are listed first and then done
-- in order. The result is what was kept.
unfoldable pub settle : (String → ℕ) → Hold → ℕ → Book → Done ℕ
unfolding refunds apply_all
settle key h cost b =
    let kept = min cost h.amount in
    let cs = refunds (key h.account) (h.amount - kept) (reverse h.parts) ++ delete_hold h.id ∷ [] in
    record { result = kept; book = record b { tables = apply_all cs b.tables }; written = cs }

pub releases_of : ℕ → List (Pocket × ℕ) → List Change
releases_of acct [] = []
releases_of acct ((pocket, took) ∷ parts) = give_back acct pocket took ∷ releases_of acct parts

pub releases : List HoldRow → List Change
unfolding releases_of give_back
releases [] = []
releases (h ∷ hs) = releases_of h.acct h.parts ++ (delete_hold h.id ∷ releases hs)

-- At a start: every hold that is still open goes back in full.
pub release_open_holds : Book → Done ℕ
unfolding releases apply_all
release_open_holds b =
    let cs = releases b.tables.holds in
    record {
      result = length b.tables.holds;
      book = record b { tables = apply_all cs b.tables };
      written = cs;
    }

abbrev pub nonce_keep_ms : ℕ
nonce_keep_ms = 1_200_000

unfoldable pub without_old : ℕ → List (String × ℕ) → List (String × ℕ)
without_old before [] = []
without_old before ((n, ts) ∷ l) =
    let rest = without_old before l in if ltb ts before then rest else (n, ts) ∷ rest

unfoldable pub has_nonce : String → List (String × ℕ) → Bool
has_nonce nonce [] = false
has_nonce nonce ((n, ts) ∷ l) = if n =ₛ nonce then true else has_nonce nonce l

-- Whether a nonce is new. Nothing is written down.
unfoldable pub first_sight : String → ℕ → Book → Bool × Book
unfolding without_old has_nonce
first_sight nonce now_ms b =
    let kept = without_old (now_ms - nonce_keep_ms) b.nonces in
    if has_nonce nonce kept
    then (false, record b { nonces = kept })
    else (true, record b { nonces = (nonce, now_ms) ∷ kept })
