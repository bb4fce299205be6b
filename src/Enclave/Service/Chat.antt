-- ===== src/Enclave/Service/Chat.antt =====
-- crates/enclave/src/service.rs, provider.rs and policy.rs: a question to a model, from its checks to its
-- charge. Prices are computed in floating point, which the parameters of `Prices` stand for, and so do
-- those of `Models` for the providers and the moderation. The decoys that go out beside a call, and the
-- statistics, are not modelled.
pub mod Charge
use tokumai.Base.{
  ℕ, zero, suc, ◌+◌, ◌-◌, ◌*◌, ◌/◌, Bool, true, false, not, ◌&&◌, ◌||◌, Option, none, some, List,
  [], ◌∷◌, String, ◌=ₛ◌, ltb, leb, ◌==◌, if◌then◌else◌, max, min, length, drop, starts_with,
}
use tokumai.Base.Result.{Result, ok, err, ◌>>=◌, ok_or, require, ◌>>◌}
use tokumai.Base.Bytes.{Bytes, codes, has_prefix}
use tokumai.Enclave.Service.Request.{
  default_max_tokens, max_output_tokens, default_thinking, max_thinking, min_answer_tokens,
  max_request_bytes, max_messages, max_attachment_bytes, image_input_tokens, pdf_page_tokens,
  max_pdf_pages, max_attachments, strikes_per_day, strike_warn_from, Attachment, Message,
  ChatRequest, answer_tokens, thinking_tokens, count_pages, pdf_pages, ChatRefusal, Sizes,
  is_supported, add_attachment, add_attachments, add_messages, too_large, malformed, message_count,
  too_many_attachments, attachment_too_large, too_many_pages, not_offered, type_not_supported,
  no_credit, not_held,
}
use tokumai.Enclave.Cover.{Cover, Shape, text, picture, note, decoys_needed}
use tokumai.Enclave.Ledger.Money.{Book, Done, Hold, NotEnough, hold, settle, balance}

-- Declines per account, day and provider.
pub record Strike : Type 0 where
  pub account : String
  pub day : ℕ
  pub provider : String
  pub count : ℕ

unfoldable pub same_key : String → ℕ → String → Strike → Bool
same_key account day provider s =
    (s.account =ₛ account) && ((s.day == day) && (s.provider =ₛ provider))

unfoldable pub strike_count : String → ℕ → String → List Strike → ℕ
unfolding same_key
strike_count account day provider [] = 0
strike_count account day provider (s ∷ ss) =
    if same_key account day provider s then s.count else strike_count account day provider ss

unfoldable pub count_strike : String → ℕ → String → List Strike → List Strike
unfolding same_key
count_strike account day provider [] =
    record { account = account; day = day; provider = provider; count = 1 } ∷ []
count_strike account day provider (s ∷ ss) =
    let rest = count_strike account day provider ss in
    if same_key account day provider s then record s { count = s.count + 1 } ∷ ss else s ∷ rest

unfoldable pub of_day : ℕ → List Strike → List Strike
of_day day [] = []
of_day day (s ∷ ss) = let rest = of_day day ss in if leb day s.day then s ∷ rest else rest

unfoldable pub strike : String → ℕ → String → List Strike → List Strike
unfolding of_day count_strike
strike account day provider ss = count_strike account day provider (of_day day ss)

pub record Completion : Type 0 where
  pub text : String
  pub output : ℕ

-- What a question shows of the prices: the reserve for so many tokens of answer, how many tokens of
-- answer a balance covers beyond a fixed part, and what an answer cost.
pub record Prices : Type 0 where
  pub ceiling_for : ChatRequest → Sizes → ℕ → ℕ
  pub fitting : (available fixed million : ℕ) → ℕ
  pub cost_of : ChatRequest → Completion → ℕ

pub record Models : Type 0 where
  pub offered : String → Bool
  pub provider_of : String → Option String
  pub is_image_model : String → Bool
  pub flagged : ChatRequest → Option String
  pub complete : ChatRequest → Result String Completion

pub record Desk : Type 0 where
  pub book : Book
  pub strikes : List Strike
  pub cover : Cover

pub data Reply : Type 0 where
  refused : ChatRefusal → Reply
  declined_before : (used balance : ℕ) → Reply
  declined : (why : String) (cost balance : ℕ) (strikes : Option ℕ) → Reply
  failed : (why : String) → Reply
  answer : (text : String) (cost balance : ℕ) (capped : Bool) → Reply

-- A question that may be asked: what it is worth in tokens, and who answers.
pub record Checked : Type 0 where
  pub sizes : Sizes
  pub provider : String

unfoldable pub check : Models → ℕ → ChatRequest → Result ChatRefusal Checked
unfolding add_messages
check m body_len req = do
  require (leb body_len max_request_bytes) too_large
  messages ← ok_or req.messages malformed
  require (ltb 0 (length messages) && leb (length messages) max_messages) message_count
  sizes ← add_messages (record { in_tokens = 0; attachments = 0; pages = 0 }) messages
  require (m.offered req.model) not_offered
  provider ← ok_or (m.provider_of req.model) not_offered
  ok (record { sizes = sizes; provider = provider })

-- The reserve, and the request as it is asked.
pub record Reserve : Type 0 where
  pub req : ChatRequest
  pub ceiling : ℕ
  pub capped : Bool

-- Less on the account than the worst case: a shorter answer.
unfoldable pub shorten : Prices → ChatRequest → Sizes → ℕ → ℕ → Reserve
unfolding answer_tokens thinking_tokens
shorten p req sizes available fits =
    let thinking = min (thinking_tokens req) (fits / 3) in
    let shorter : ChatRequest = record req { thinking = some thinking } in
    let asked : ChatRequest = record shorter {
      max_tokens = some (max (min (answer_tokens shorter) (fits - thinking)) 1);
    } in
    record {
      req = asked;
      ceiling =
          min (p.ceiling_for asked sizes (answer_tokens asked + thinking_tokens asked)) available;
      capped = true;
    }

unfoldable pub reserve : Prices → Models → ChatRequest → Sizes → ℕ → Result ChatRefusal Reserve
unfolding shorten
reserve p m req sizes available =
    let ceiling = p.ceiling_for req sizes (answer_tokens req + thinking_tokens req) in
    let fixed = p.ceiling_for req sizes 0 in
    let million = p.ceiling_for req sizes 1_000_000 - fixed in
    let fits =
      if ltb fixed available && ltb 0 million then p.fitting available fixed million else 0 in
    if leb ceiling available
    then ok (record { req = req; ceiling = ceiling; capped = false })
    else if m.is_image_model req.model || ltb fits min_answer_tokens
    then err (no_credit ceiling available)
    else ok (shorten p req sizes available fits)

abbrev pub day_ms : ℕ
day_ms = 86_400_000

unfoldable pub is_declined : String → Bool
is_declined s = starts_with s "Declined by"

abbrev said : Result String Completion → String
said (ok c) = c.text
said (err why) = why

abbrev pub cost_in : Prices → ChatRequest → Result String Completion → ℕ
cost_in p req (ok c) = p.cost_of req c
cost_in p req (err why) = 0

-- What a reply says was charged.
abbrev pub charged : Reply → ℕ
charged (declined why cost left strikes) = cost
charged (answer words cost left capped) = cost
charged _ = 0

abbrev shape_of : Models → ChatRequest → Shape
shape_of m req = if m.is_image_model req.model then picture else text

-- The answer of the model, or what the safety check said in its place.
unfoldable pub ask : Models → ChatRequest → Result String Completion
ask m req = elim (m.flagged req) [ some why ↦ err why | none ↦ m.complete req ]

unfoldable pub cover_after : Models → ChatRequest → ℕ → ℕ → Cover → Cover
cover_after m req acct now_ms c =
    let asked = (decoys_needed acct (shape_of m req) now_ms c).1 in
    elim (m.flagged req) [ some why ↦ asked | none ↦ note (shape_of m req) now_ms asked ]

abbrev shown : ℕ → Option ℕ
shown used = if leb strike_warn_from used then some used else none

abbrev reply_to : Result String Completion → ℕ → ℕ → Bool → Reply
reply_to (ok c) cost total capped = answer c.text cost total capped
reply_to (err why) cost total capped = failed why

module _ (key : String → ℕ) (p : Prices) (m : Models) where
  -- From the settlement on.
  unfoldable pub finish : String → String → ℕ → Reserve → Hold → Book → Desk → Reply × Desk
  unfolding ask cover_after strike strike_count
  finish account provider now_ms r h book d =
      let result = ask m r.req in
      let settled = settle key h (cost_in p r.req result) book in
      let total = (balance key account now_ms settled.book).total in
      let day = now_ms / day_ms in
      let struck = strike account day provider d.strikes in
      let cover = cover_after m r.req (key account) now_ms d.cover in
      if is_declined (said result)
      then (
        declined (said result) settled.result total
            (shown (strike_count account day provider struck)),
        record { book = settled.book; strikes = struck; cover = cover },
      )
      else (
        reply_to result settled.result total (
            r.capped
            && leb (answer_tokens r.req) (elim result [ ok c ↦ c.output + 8 | err why ↦ 0 ])),
        record { book = settled.book; strikes = d.strikes; cover = cover },
      )

  -- With the hold.
  unfoldable pub held :
      String → String → ℕ → Reserve → Result NotEnough (Done Hold) → Desk → Reply × Desk
  unfolding finish
  held account provider now_ms r (err e) d = (refused (not_held e), d)
  held account provider now_ms r (ok done) d =
      finish account provider now_ms r done.result done.book d

  -- With the reserve.
  unfoldable pub reserved : String → String → ℕ → Result ChatRefusal Reserve → Desk → Reply × Desk
  unfolding held
  reserved account provider now_ms (err e) d = (refused e, d)
  reserved account provider now_ms (ok r) d =
      held account provider now_ms r (hold key account (max r.ceiling 1) now_ms d.book) d

  -- With the checks.
  unfoldable pub checked :
      String → ChatRequest → ℕ → Result ChatRefusal Checked → Desk → Reply × Desk
  unfolding reserved reserve strike_count
  checked account req now_ms (err e) d = (refused e, d)
  checked account req now_ms (ok c) d =
      let already = strike_count account (now_ms / day_ms) c.provider d.strikes in
      let total = (balance key account now_ms d.book).total in
      if leb strikes_per_day already
      then (declined_before already total, d)
      else reserved account c.provider now_ms (reserve p m req c.sizes total) d

  unfoldable pub chat : String → ℕ → ChatRequest → ℕ → Desk → Reply × Desk
  unfolding checked check
  chat account body_len req now_ms d = checked account req now_ms (check m body_len req) d
