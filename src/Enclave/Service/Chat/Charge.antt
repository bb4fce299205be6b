-- ===== src/Enclave/Service/Chat/Charge.antt =====
-- crates/enclave/src/service.rs: proofs about what a question costs.
use tokumai.Base.{ℕ, ◌+◌, ◌/◌, ◌≡◌, refl, ap, ◌∙◌, Bool, String, arith, leb, if_both, max}
use tokumai.Base.Result.{Result, ok, err}
use tokumai.Enclave.Ledger.Money.{Book, Done, Hold, NotEnough, hold, settle, balance}
use tokumai.Enclave.Ledger.Money.Lots.{Distinct}
use tokumai.Enclave.Ledger.Money.Conserved.{settle-hold-total}
use tokumai.Enclave.Service.Request.{ChatRequest, ChatRefusal, strikes_per_day}
use tokumai.Enclave.Service.Chat.{
  Prices, Models, Desk, Reply, Completion, Checked, Reserve, charged, cost_in, ask, finish, held,
  reserved, checked, chat, is_declined, said, reply_to, check, reserve, strike_count, day_ms,
}

module _ (key : String → ℕ) (p : Prices) (m : Models) (account : String) (now_ms : ℕ) where
  abbrev total_of : Book → ℕ
  total_of b = (balance key account now_ms b).total

  -- The account has less by what the reply says was charged.
  record Pays (d : Desk) (out : Reply × Desk) : Type 0 where
    pays : total_of out.1.book + charged out.0 ≡ total_of d.book

  unchanged : (d : Desk) (r : Reply) → charged r ≡ 0 → Pays d (r, d)
  unchanged d r free = record { pays = omega (arith, free) }

  reply_to-charged :
      (r : ChatRequest) (h : Hold) (b : Book) (result : Result String Completion) (total : ℕ)
      (capped : Bool)
      → charged (reply_to result (settle key h (cost_in p r result) b).result total capped)
        ≡ (settle key h (cost_in p r result) b).result
  unfolding settle
  reply_to-charged r h b (ok c) total capped = refl
  reply_to-charged r h b (err why) total capped = omega arith

  finish-Pays :
      (provider : String) (r : Reserve) (amount : ℕ) (done : Done Hold) (d : Desk)
      → Distinct d.book.tables.lots
      → hold key account amount now_ms d.book ≡ ok done
      → Pays d (finish key p m account provider now_ms r done.result done.book d)
  unfolding finish
  finish-Pays provider r amount done d distinct e =
      let result = ask m r.req in
      let whole =
        settle-hold-total key account amount (cost_in p r.req result) now_ms d.book done distinct
          e in
      if_both (Pays d) (is_declined (said result)) (λ _. record { pays = whole.1 })
        (λ _. record {
          pays =
              ap
                (λ (n : ℕ).
                  total_of (settle key done.result (cost_in p r.req result) done.book).book + n)
                (reply_to-charged r.req done.result done.book result _ _)
              ∙ whole.1;
        })

  held-Pays :
      (provider : String) (r : Reserve) (amount : ℕ) (d : Desk)
      → Distinct d.book.tables.lots
      → (h : Result NotEnough (Done Hold)) → hold key account amount now_ms d.book ≡ h
      → Pays d (held key p m account provider now_ms r h d)
  unfolding held
  held-Pays provider r amount d distinct (err e) was = unchanged d _ refl
  held-Pays provider r amount d distinct (ok done) was =
      finish-Pays provider r amount done d distinct was

  reserved-Pays :
      (provider : String) (r : Result ChatRefusal Reserve) (d : Desk)
      → Distinct d.book.tables.lots
      → Pays d (reserved key p m account provider now_ms r d)
  unfolding reserved
  reserved-Pays provider (err e) d distinct = unchanged d _ refl
  reserved-Pays provider (ok r) d distinct =
      held-Pays provider r (max r.ceiling 1) d distinct _ refl

  checked-Pays :
      (req : ChatRequest) (c : Result ChatRefusal Checked) (d : Desk)
      → Distinct d.book.tables.lots
      → Pays d (checked key p m account req now_ms c d)
  unfolding checked
  checked-Pays req (err e) d distinct = unchanged d _ refl
  checked-Pays req (ok c) d distinct =
      if_both (Pays d)
        (leb strikes_per_day (strike_count account (now_ms / day_ms) c.provider d.strikes))
        (λ _. unchanged d _ refl)
        (λ _. reserved-Pays c.provider (reserve p m req c.sizes (total_of d.book)) d distinct)

-- Where no two lots have the same id, what the account can pay with after a question, at the
-- question's time, and what the reply says was charged add up to what it could pay with before, on
-- every path: refused by a check, for lack of credit or for the day's declines, declined, failed,
-- or answered.
pub chat_pays :
    (key : String → ℕ) (p : Prices) (m : Models) (account : String) (body_len now_ms : ℕ)
    (req : ChatRequest) (d : Desk)
    → Distinct d.book.tables.lots
    → let out = chat key p m account body_len req now_ms d in
      (balance key account now_ms out.1.book).total + charged out.0
      ≡ (balance key account now_ms d.book).total
unfolding chat
chat_pays key p m account body_len now_ms req d distinct =
    (checked-Pays key p m account now_ms req (check m body_len req) d distinct).pays

-- No answer.
module _ (key : String → ℕ) (p : Prices) (m : Models) (account : String) (now_ms : ℕ)
    (silent : (req : ChatRequest) → (why : String) × (ask m req ≡ err why)) where
  finish_free :
      (provider : String) (r : Reserve) (h : Hold) (b : Book) (d : Desk)
      → charged (finish key p m account provider now_ms r h b d).0 ≡ 0
  unfolding finish settle
  finish_free provider r h b d =
      let (why, e) = silent r.req in
      rw e (
        if_both (λ (x : Reply × Desk). charged x.0 ≡ 0) (is_declined why) (λ _. omega arith)
          (λ _. refl))

  held_free :
      (provider : String) (r : Reserve) (h : Result NotEnough (Done Hold)) (d : Desk)
      → charged (held key p m account provider now_ms r h d).0 ≡ 0
  unfolding held
  held_free provider r (err e) d = refl
  held_free provider r (ok done) d = finish_free provider r done.result done.book d

  reserved_free :
      (provider : String) (r : Result ChatRefusal Reserve) (d : Desk)
      → charged (reserved key p m account provider now_ms r d).0 ≡ 0
  unfolding reserved
  reserved_free provider (err e) d = refl
  reserved_free provider (ok r) d = held_free provider r _ d

  checked_free :
      (req : ChatRequest) (c : Result ChatRefusal Checked) (d : Desk)
      → charged (checked key p m account req now_ms c d).0 ≡ 0
  unfolding checked
  checked_free req (err e) d = refl
  checked_free req (ok c) d =
      if_both (λ (x : Reply × Desk). charged x.0 ≡ 0)
        (leb strikes_per_day (strike_count account (now_ms / day_ms) c.provider d.strikes))
        (λ _. refl) (λ _. reserved_free c.provider (reserve p m req c.sizes _) d)

-- Where every question is flagged or fails at the provider and no two lots have the same id, the
-- reply charges nothing, and what the account can pay with at the question's time is what it was.
pub chat_free :
    (key : String → ℕ) (p : Prices) (m : Models) (account : String) (body_len now_ms : ℕ)
    (req : ChatRequest) (d : Desk)
    → ((r : ChatRequest) → (why : String) × (ask m r ≡ err why))
    → Distinct d.book.tables.lots
    → let out = chat key p m account body_len req now_ms d in
      (charged out.0 ≡ 0)
      × ((balance key account now_ms out.1.book).total ≡ (balance key account now_ms d.book).total)
unfolding chat
chat_free key p m account body_len now_ms req d silent distinct =
    let free = checked_free key p m account now_ms silent req (check m body_len req) d in
    (free, omega (arith, free, chat_pays key p m account body_len now_ms req d distinct))
