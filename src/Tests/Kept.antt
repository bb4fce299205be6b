-- ===== src/Tests/Kept.antt =====
-- crates/enclave/src/ledger.rs and state.rs on a book of one purchase, with a sealing that only
-- writes the place in front, and numbers for the cells of the plain text.
use tokumai.Base.{
  ℕ, ◌≡◌, refl, ap, sym, ◌∙◌, arith, ◌&&◌, Option, none, some, List, [], ◌∷◌, ◌==◌, if◌then◌else◌,
}
use tokumai.Base.Bytes.{Bytes}
use tokumai.Base.Result.{ok}
use tokumai.Enclave.State.{FileStore, put_snapshot}
use tokumai.Enclave.State.Split.{IsRecord}
use tokumai.Enclave.Ledger.Tables.{
  Tables, no_rows, Lot, Change, insert_lot, execute, apply, has_lot,
}
use tokumai.Enclave.Ledger.Money.Replay.{replay}
use tokumai.Enclave.Ledger.Kept.{
  Codec, Kept, put_record, fold, deliver, deliver_all, write_out, write_down, queue_all,
  seal_record, open_sealed,
}
use tokumai.Enclave.Ledger.Kept.Carried.{IsCodec, Place, Carries}
use tokumai.Enclave.Ledger.Kept.Recovery.{System, Step, did, carried, here}
use tokumai.Enclave.Ledger.Kept.Reached.{
  nothing, Reach, first_start, then_step, open_sealed-nothing, deliver_all-open_sealed,
  open_sealed-Reach,
}

abbrev put_place : ℕ → ℕ → Bytes → Bytes
put_place generation number plain = generation ∷ number ∷ plain

abbrev take_place : ℕ → ℕ → Bytes → Option Bytes
take_place generation number (g ∷ n ∷ plain) =
    if (g == generation) && (n == number) then some plain else none
take_place generation number _ = none

abbrev lot_cells : Lot → Bytes
lot_cells l = l.id ∷ l.acct ∷ l.left ∷ l.expires_ms ∷ l.bought_ms ∷ []

abbrev lots_cells : List Lot → Bytes
lots_cells [] = []
lots_cells (l ∷ ls) = l.id ∷ l.acct ∷ l.left ∷ l.expires_ms ∷ l.bought_ms ∷ lots_cells ls

abbrev lots_of : Bytes → List Lot
lots_of (a ∷ b ∷ c ∷ d ∷ e ∷ rest) =
    record { id = a; acct = b; left = c; expires_ms = d; bought_ms = e } ∷ lots_of rest
lots_of _ = []

abbrev change_cells : Change → Bytes
change_cells (insert_lot l) = lot_cells l
change_cells _ = []

abbrev change_of : Bytes → Option Change
change_of (a ∷ b ∷ c ∷ d ∷ e ∷ []) =
    some (insert_lot (record { id = a; acct = b; left = c; expires_ms = d; bought_ms = e }))
change_of _ = none

abbrev only_lots : List Lot → Tables
only_lots ls = record no_rows { lots = ls }

abbrev book_of : Bytes → Option (ℕ × Tables)
book_of [] = none
book_of (g ∷ cells) = some (g, only_lots (lots_of cells))

abbrev plain_codec : Codec
plain_codec = record {
  seal = put_place;
  open_at = take_place;
  encode = change_cells;
  decode = change_of;
  encode_book = λ g t. g ∷ lots_cells t.lots;
  decode_book = book_of;
}

abbrev Purchase : Change → Type 0
Purchase (insert_lot l) = Unit
Purchase _ = ⊥

abbrev Purchases : ℕ → Tables → Type 0
Purchases g t = only_lots t.lots ≡ t

lots_of-lots_cells : (ls : List Lot) → lots_of (lots_cells ls) ≡ ls
lots_of-lots_cells [] = refl
lots_of-lots_cells (l ∷ ls) = ap (λ (r : List Lot). l ∷ r) (lots_of-lots_cells ls)

change_of-change_cells : (c : Change) → Purchase c → change_of (change_cells c) ≡ some c
change_of-change_cells (insert_lot l) p = refl
change_of-change_cells _ p = absurd p

purchase_size : (g n : ℕ) (c : Change) → Purchase c → IsRecord (put_place g n (change_cells c))
purchase_size g n (insert_lot l) p = (omega arith, omega arith)
purchase_size g n _ p = absurd p

plain_codec-IsCodec : IsCodec plain_codec Purchase Purchases
plain_codec-IsCodec = record {
  open-seal = λ g n plain. ground arith;
  decode-encode = change_of-change_cells;
  decode_book-encode_book =
      λ g t p. rw (lots_of-lots_cells t.lots) (ap (λ (u : Tables). some (g, u)) p);
  record_size = purchase_size;
  snapshot_size = λ g t. omega arith;
}

abbrev bought : Lot
bought = record { id = 7; acct = 1; left = 500; expires_ms = 90; bought_ms = 10 }

abbrev first_kept : Kept
first_kept = record {
  generation = 2;
  next = 1;
  since = 0;
  queue = fold 2 (put_place 0 0 (2 ∷ [])) ∷ [];
}

-- The book after its first start.
abbrev started_book : System
started_book = record { tables = no_rows; kept = first_kept; store = nothing }

first_kept_lem :
    first_kept
    ≡ write_out plain_codec no_rows (record { generation = 1; next = 1; since = 0; queue = [] })
unfolding write_out
first_kept_lem = refl

started_book-Reach : Reach plain_codec Purchase Purchases plain_codec-IsCodec started_book
started_book-Reach =
    first_start no_rows first_kept none
      (open_sealed-nothing plain_codec Purchase Purchases plain_codec-IsCodec
        ∙ ap (λ (k : Kept). ok (no_rows, k)) (sym first_kept_lem))
      refl

abbrev bought_kept : Kept
bought_kept = record {
  generation = 2;
  next = 2;
  since = 1;
  queue = fold 2 (put_place 0 0 (2 ∷ [])) ∷ put_record 2 1 (put_place 2 1 (lot_cells bought)) ∷ [];
}

-- The book after a purchase, of which the host has heard nothing.
abbrev bought_book : System
bought_book = record { tables = only_lots (bought ∷ []); kept = bought_kept; store = nothing }

purchase : Step plain_codec Purchase Purchases started_book bought_book
purchase =
    unfold write_down queue_all write_out seal_record in
    did no_rows (only_lots (bought ∷ [])) first_kept nothing (insert_lot bought ∷ [])
      (unfold replay execute apply has_lot in refl) (tt, tt) (omega arith) refl

-- The host took the snapshot of the first start.
abbrev carried_book : System
carried_book = record {
  tables = only_lots (bought ∷ []);
  kept = record bought_kept { queue = put_record 2 1 (put_place 2 1 (lot_cells bought)) ∷ [] };
  store = record { snapshot = put_place 0 0 (2 ∷ []); journal = [] };
}

delivery : Step plain_codec Purchase Purchases bought_book carried_book
delivery =
    carried (only_lots (bought ∷ [])) bought_kept nothing carried_book.store
      (fold 2 (put_place 0 0 (2 ∷ []))) carried_book.kept.queue refl
      (unfold deliver put_snapshot in refl)

carried_book-Reach : Reach plain_codec Purchase Purchases plain_codec-IsCodec carried_book
carried_book-Reach =
    then_step bought_book carried_book
      (then_step started_book bought_book started_book-Reach purchase) delivery

deliver_all-open_sealed_example :
    (after : FileStore) × (kept : Kept) × (deliver_all carried_book.kept.queue carried_book.store
      ≡ ok after)
    × (open_sealed plain_codec none after ≡ ok (carried_book.tables, kept))
deliver_all-open_sealed_example =
    deliver_all-open_sealed plain_codec Purchase Purchases plain_codec-IsCodec carried_book
      carried_book-Reach

open_sealed-Reach_example :
    (found : Place) × (kept : Kept) × (open_sealed plain_codec none carried_book.store
      ≡ ok (found.tables, kept))
    × Carries plain_codec Purchase Purchases carried_book.kept.queue found
        (here carried_book.kept carried_book.tables)
open_sealed-Reach_example =
    open_sealed-Reach plain_codec Purchase Purchases plain_codec-IsCodec carried_book
      carried_book-Reach
