-- ===== src/Enclave/Ledger/Tables.antt =====
-- crates/enclave/src/ledger.rs: the tables of the book, and the statements that change them.
-- Names under which accounts and payments are stored are numbers: the keyed hashes of `key` and
-- `rail_key`. Amounts, times and ids are i64 columns that hold a u64 below 2 ^ 63, so they are
-- numbers; the one statement that takes from a column beside `MAX(0, …)` is sent with no more than
-- the column holds. A journal record carries a statement with its parameters: `Change` has one
-- constructor for each statement that the source writes down.
use tokumai.Base.{
  ℕ, ◌+◌, ◌-◌, Bool, false, ◌||◌, List, [], ◌∷◌, ◌++◌, String, ◌=ₛ◌, ◌==◌, if◌then◌else◌,
}
use tokumai.Base.Result.{Result, ok, err}
use tokumai.Base.Dict.{Dict, insert, update, erase, insert_new}

-- plans.rs: one ended period. `drawn` is one of four steps.
pub data Drawn : Type 0 where
  nothing some_of_it most_of_it all_of_it : Drawn

pub record PeriodUsage : Type 0 where
  pub period : ℕ
  pub tier : ℕ
  pub drawn : Drawn

-- plans.rs
pub record Plan : Type 0 where
  pub tier : ℕ
  pub yearly : Bool
  pub rail : String
  pub period_start_ms : ℕ
  pub paid_until_ms : ℕ
  pub active : Bool
  pub checked_at_ms : ℕ
  pub disputed_at_ms : ℕ
  pub usage : List PeriodUsage
  pub granted_tier : ℕ
  pub granted_period : ℕ

pub data Pocket : Type 0 where
  allowance : Pocket
  lot : ℕ → Pocket

pub record AllowanceRow : Type 0 where
  pub period : ℕ
  pub ends_ms : ℕ
  pub granted : ℕ
  pub left : ℕ

pub record Lot : Type 0 where
  pub id : ℕ
  pub acct : ℕ
  pub left : ℕ
  pub expires_ms : ℕ
  pub bought_ms : ℕ

pub record HoldRow : Type 0 where
  pub id : ℕ
  pub acct : ℕ
  pub parts : List (Pocket × ℕ)

pub record Tables : Type 0 where
  pub allowances : Dict AllowanceRow
  pub lots : List Lot
  pub holds : List HoldRow
  pub plans : Dict Plan
  pub rails : Dict ℕ
  pub payments : Dict ℕ
  pub minted : Dict String
  pub tally : List (String × ℕ)

abbrev pub no_rows : Tables
no_rows = record {
  allowances = [];
  lots = [];
  holds = [];
  plans = [];
  rails = [];
  payments = [];
  minted = [];
  tally = [];
}

pub data Change : Type 0 where
  -- allowance_set, allowance_add, allowance_take, allowance_lapse
  set_allowance : (acct period ends_ms toku : ℕ) → Change
  add_allowance take_allowance : (acct amount : ℕ) → Change
  lapse_allowance : (acct : ℕ) → Change
  -- hold and give_back
  draw_allowance return_allowance : (acct amount : ℕ) → Change
  draw_lot return_lot : (id amount : ℕ) → Change
  insert_hold : (id acct : ℕ) (parts : List (Pocket × ℕ)) → Change
  delete_hold : (id : ℕ) → Change
  -- credit_prepaid
  insert_lot : Lot → Change
  -- plan_put, plan_delete, rail_bind, first_payment, minted_put
  put_plan : (acct : ℕ) → Plan → Change
  delete_plan : (acct : ℕ) → Change
  bind_rail : (rail acct : ℕ) → Change
  insert_payment : (ref at_ms : ℕ) → Change
  insert_minted : (ref : ℕ) (fingerprint : String) → Change
  -- tally_add, ghost_records
  add_tally : (key : String) (n : ℕ) → Change
  touch_tally : (key : String) → Change

-- UPDATE lots SET left = … WHERE id = ?
unfoldable pub on_lot : ℕ → (ℕ → ℕ) → List Lot → List Lot
on_lot id f [] = []
on_lot id f (l ∷ ls) = (if l.id == id then record l { left = f l.left } else l) ∷ on_lot id f ls

unfoldable pub without_hold : ℕ → List HoldRow → List HoldRow
without_hold id [] = []
without_hold id (h ∷ hs) = let rest = without_hold id hs in if h.id == id then rest else h ∷ rest

unfoldable pub plus_tally : String → ℕ → List (String × ℕ) → List (String × ℕ)
plus_tally key n [] = (key, n) ∷ []
plus_tally key n ((k, m) ∷ t) = if k =ₛ key then (k, m + n) ∷ t else (k, m) ∷ plus_tally key n t

unfoldable pub on_allowance : ℕ → (AllowanceRow → AllowanceRow) → Tables → Tables
on_allowance acct f t = record t { allowances = update acct f t.allowances }

unfoldable pub apply : Change → Tables → Tables
unfolding on_allowance on_lot without_hold plus_tally
apply (set_allowance acct period ends_ms toku) t = record t {
  allowances =
      insert acct (record { period = period; ends_ms = ends_ms; granted = toku; left = toku })
        t.allowances;
}
apply (add_allowance acct amount) t =
    on_allowance acct (λ r. record r { granted = r.granted + amount; left = r.left + amount }) t
apply (take_allowance acct amount) t =
    on_allowance acct (λ r. record r { left = r.left - amount }) t
apply (lapse_allowance acct) t = on_allowance acct (λ r. record r { granted = 0; left = 0 }) t
apply (draw_allowance acct amount) t =
    on_allowance acct (λ r. record r { left = r.left - amount }) t
apply (return_allowance acct amount) t =
    on_allowance acct (λ r. record r { left = r.left + amount }) t
apply (draw_lot id amount) t = record t { lots = on_lot id (λ left. left - amount) t.lots }
apply (return_lot id amount) t = record t { lots = on_lot id (λ left. left + amount) t.lots }
apply (insert_hold id acct parts) t = record t {
  holds = t.holds ++ record { id = id; acct = acct; parts = parts } ∷ [];
}
apply (delete_hold id) t = record t { holds = without_hold id t.holds }
apply (insert_lot l) t = record t { lots = t.lots ++ l ∷ [] }
apply (put_plan acct p) t = record t { plans = insert acct p t.plans }
apply (delete_plan acct) t = record t { plans = erase acct t.plans }
apply (bind_rail rail acct) t = record t { rails = insert rail acct t.rails }
apply (insert_payment ref at_ms) t = record t { payments = insert_new ref at_ms t.payments }
apply (insert_minted ref fp) t = record t { minted = insert_new ref fp t.minted }
apply (add_tally key n) t = record t { tally = plus_tally key n t.tally }
apply (touch_tally key) t = t

unfoldable pub has_lot : ℕ → List Lot → Bool
has_lot id [] = false
has_lot id (l ∷ ls) = l.id == id || has_lot id ls

unfoldable pub has_hold : ℕ → List HoldRow → Bool
has_hold id [] = false
has_hold id (h ∷ hs) = h.id == id || has_hold id hs

-- A primary key that an INSERT without a conflict clause finds taken.
pub data Conflict : Type 0 where
  lot_taken hold_taken : ℕ → Conflict

-- `conn.execute` of one change.
unfoldable pub execute : Change → Tables → Result Conflict Tables
unfolding has_lot has_hold
execute (insert_lot l) t =
    if has_lot l.id t.lots then err (lot_taken l.id) else ok (apply (insert_lot l) t)
execute (insert_hold id acct parts) t =
    if has_hold id t.holds then err (hold_taken id) else ok (apply (insert_hold id acct parts) t)
execute c t = ok (apply c t)
