-- ===== src/Tests/Money.antt =====
-- crates/enclave/src/ledger.rs on a book with one account.
use tokumai.Base.{ℕ, ◌+◌, ◌≡◌, refl, true, [], ◌∷◌, String, ◌=ₛ◌, if◌then◌else◌, arith}
use tokumai.Base.Result.{ok, err}
use tokumai.Enclave.Ledger.Tables.{Tables, no_rows, Pocket, apply, on_lot, on_allowance, has_lot}
use tokumai.Enclave.Ledger.Money.{
  Book, Done, Hold, hold, settle, balance, first_sight, draft_of, draw_from_allowance,
  draw_from_lots, draw, running_allowance, open_lots, is_open, by_expiry, without_old, has_nonce,
}
use tokumai.Enclave.Ledger.Money.Funds.{hold-IsGranted, IsGranted}
use tokumai.Enclave.Ledger.Money.Lots.{Distinct}
use tokumai.Enclave.Ledger.Money.Conserved.{settle-hold-total}
use tokumai.Enclave.Ledger.Money.Replay.{replay, IsFresh, replay-hold}
use tokumai.Base.Dict.{lookup, update}

abbrev key : String → ℕ
key s = if s =ₛ "ann" then 1 else 2

abbrev tables : Tables
tables = record no_rows {
  allowances = (1, record { period = 1; ends_ms = 9_000; granted = 100; left = 100 }) ∷ [];
  lots =
      record { id = 1; acct = 1; left = 50; expires_ms = 8_000; bought_ms = 0 }
      ∷ record { id = 2; acct = 1; left = 50; expires_ms = 7_000; bought_ms = 0 }
      ∷ [];
  holds = record { id = 1; acct = 1; parts = (Pocket.lot 1, 5) ∷ [] } ∷ [];
}

abbrev book : Book
book = record { tables = tables; lot_seq = 2; hold_seq = 1; nonces = [] }

total_is : (balance key "ann" 5_000 book).total ≡ 200
unfolding balance running_allowance open_lots is_open by_expiry lookup
total_is = refl

hold-IsGranted_example : IsGranted 120 book (hold key "ann" 120 5_000 book)
hold-IsGranted_example = hold-IsGranted key "ann" 120 5_000 book (omega (arith, total_is))

abbrev a_hold : Hold
a_hold = record {
  id = 2;
  account = "ann";
  amount = 120;
  parts = (Pocket.allowance, 100) ∷ (Pocket.lot 2, 20) ∷ [];
}

-- The allowance first, then the lot that expires first.
abbrev granted : Done Hold
granted = record {
  result = a_hold;
  book = (elim (hold key "ann" 120 5_000 book) [ ok done ↦ done.book | err e ↦ book ]);
  written = (elim (hold key "ann" 120 5_000 book) [ ok done ↦ done.written | err e ↦ [] ]);
}

hold_is : hold key "ann" 120 5_000 book ≡ ok granted
unfolding hold draft_of draw_from_allowance draw_from_lots draw running_allowance open_lots is_open
    by_expiry lookup apply on_allowance update on_lot
hold_is = refl

book-IsFresh : IsFresh book
book-IsFresh = record { lots = (omega arith, (omega arith, tt)); holds = (omega arith, tt) }

replay-hold_example : replay granted.written book.tables ≡ ok granted.book.tables
replay-hold_example = replay-hold key "ann" 120 5_000 book granted book-IsFresh hold_is

nonce_new : (first_sight "n" 5_000 book).0 ≡ true
unfolding first_sight without_old has_nonce
nonce_new = refl

lots-Distinct : Distinct book.tables.lots
unfolding has_lot
lots-Distinct = (refl, (refl, tt))

settle-hold-total_example :
    ((balance key "ann" 5_000 granted.book).total + 120 ≡ (balance key "ann" 5_000 book).total)
    × ((balance key "ann" 5_000 (settle key granted.result 30 granted.book).book).total
          + (settle key granted.result 30 granted.book).result
        ≡ (balance key "ann" 5_000 book).total)
settle-hold-total_example =
    settle-hold-total key "ann" 120 30 5_000 book granted lots-Distinct hold_is
