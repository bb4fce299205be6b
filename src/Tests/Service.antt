-- ===== src/Tests/Service.antt =====
-- crates/enclave/src/service.rs on one account with a few TOKU.
use tokumai.Base.{
  ℕ, ◌+◌, ◌-◌, ◌*◌, ◌/◌, ◌≡◌, refl, arith, true, false, Option, none, some, [], ◌∷◌, String,
}
use tokumai.Base.Bytes.{Bytes}
use tokumai.Base.Result.{Result, ok, err}
use tokumai.Base.Dict.{lookup}
use tokumai.Enclave.Ledger.Tables.{no_rows, Lot, apply, on_allowance, on_lot, has_lot}
use tokumai.Enclave.Ledger.Money.{
  Book, balance, hold, settle, draft_of, draw_from_allowance, draw_from_lots, open_lots,
  running_allowance, first_sight, without_old, has_nonce, refunds, apply_all, give_back, draw,
  is_open, by_expiry,
}
use tokumai.Enclave.Ledger.Money.Lots.{Distinct}
use tokumai.Enclave.Service.{
  Envelope, Inner, Said, Refused, Clock, Desk, cached, abs_diff, remember,
}
use tokumai.Enclave.Service.Cache.{WithinLimits, remember-WithinLimits}
use tokumai.Enclave.Service.Once.{IsCarriedOut, Same, run, after_requests, sealed_once}
use tokumai.Enclave.Service.Chat as Chat
use tokumai.Enclave.Service.Request.{
  answer_tokens, thinking_tokens, add_messages, add_attachments, ChatRequest,
}
use tokumai.Enclave.Service.Chat.{
  is_declined, checked, check, reserved, reserve, shorten, held, finish, strike_count, chat,
  charged, Prices, Models, Completion, ask,
}
use tokumai.Enclave.Service.Chat.Charge.{chat_pays}

abbrev whose : String → ℕ
whose account = 1

abbrev seven : Lot
seven = record { id = 3; acct = 1; left = 7; expires_ms = 1_000_000_000; bought_ms = 0 }

abbrev small_book : Book
small_book = record {
  tables = record no_rows { lots = seven ∷ [] };
  lot_seq = 3;
  hold_seq = 0;
  nonces = [];
}

one_lot-Distinct : Distinct (seven ∷ [])
unfolding has_lot
one_lot-Distinct = (refl, tt)

abbrev request : Inner
request = record { account = "a"; op = "chat"; nonce = "n1"; ts = 600_000; sig = "s"; body = "b" }

abbrev opens_all : Envelope → Option (Option Inner)
opens_all e = some (some request)

abbrev sealed_with : Envelope → Said ℕ → Bytes
sealed_with e r = e.ct

abbrev no_bytes : Refused → Bytes
no_bytes r = []

abbrev own_name : Inner → Option String
own_name req = some req.account

abbrev count_up : String → Inner → ℕ → Book → ℕ → ℕ × (Book × ℕ)
count_up account req now_ms b n = (n, (b, n + 1))

abbrev same_hash : Bytes → Bytes
same_hash b = b

abbrev empty_desk : Desk ℕ
empty_desk = record { book = small_book; replies = []; rest = 0 }

abbrev first_envelope : Envelope
first_envelope = record { epk = []; ct = 1 ∷ []; version = 2 }

abbrev other_envelope : Envelope
other_envelope = record { epk = []; ct = 2 ∷ []; version = 2 }

abbrev at_ten : Clock
at_ten = record { now_ms = 600_000; instant = 0 }

abbrev at_twelve : Clock
at_twelve = record { now_ms = 720_000; instant = 120_000 }

request-IsCarriedOut :
    IsCarriedOut same_hash opens_all sealed_with no_bytes own_name count_up
      (λ a r n b w. refl)
      first_envelope
      request
      at_ten
      empty_desk
unfolding cached abs_diff first_sight without_old has_nonce
request-IsCarriedOut = record {
  fresh = refl;
  inside = refl;
  in_time = omega arith;
  owned = ("a", refl);
  is_new = refl;
}

abbrev done_once : Desk ℕ
done_once =
    run same_hash opens_all sealed_with no_bytes own_name count_up (λ a r n b w. refl)
      (some first_envelope) at_ten empty_desk

-- The same signed request, sealed anew two minutes later.
sealed_once_example :
    Same
      (after_requests same_hash opens_all sealed_with no_bytes own_name count_up
        (λ a r n b w. refl)
        ((none, at_ten) ∷ [])
        done_once)
      (run same_hash opens_all sealed_with no_bytes own_name count_up
        (λ a r n b w. refl)
        (some other_envelope)
        at_twelve
        (after_requests same_hash opens_all sealed_with no_bytes own_name count_up
          (λ a r n b w. refl)
          ((none, at_ten) ∷ [])
          done_once))
sealed_once_example =
    sealed_once same_hash opens_all sealed_with no_bytes own_name count_up (λ a r n b w. refl)
      first_envelope other_envelope request request at_ten at_twelve empty_desk
      ((none, at_ten) ∷ []) request-IsCarriedOut refl refl refl (omega arith, tt)

two_replies-WithinLimits : WithinLimits (
    record { seen = 1 ∷ []; at = 0; out = 5 ∷ 6 ∷ [] }
    ∷ record { seen = 2 ∷ []; at = 9; out = 7 ∷ [] }
    ∷ [])
two_replies-WithinLimits = record { count = omega arith; bytes = omega arith }

remember-WithinLimits_example : WithinLimits (
    remember (3 ∷ []) (8 ∷ []) 1_800_001 (
      record { seen = 1 ∷ []; at = 0; out = 5 ∷ 6 ∷ [] }
      ∷ record { seen = 2 ∷ []; at = 9; out = 7 ∷ [] }
      ∷ []))
remember-WithinLimits_example =
    remember-WithinLimits (3 ∷ []) (8 ∷ []) 1_800_001 _ two_replies-WithinLimits

abbrev prices : Prices
prices = record {
  ceiling_for = λ req sizes n. 2 + n / 1_000;
  fitting = λ available fixed million. (available - fixed) * 1_000;
  cost_of = λ req c. 4;
}

abbrev models : (String → Result String Completion) → Models
models complete = record {
  offered = λ model. true;
  provider_of = λ model. some "mock";
  is_image_model = λ model. false;
  flagged = λ req. none;
  complete = λ req. complete req.model;
}

abbrev chat_request : ChatRequest
chat_request = record {
  model = "m";
  messages = some (record { content_len = 20; attachments = [] } ∷ []);
  max_tokens = none;
  thinking = none;
  live = false;
}

abbrev chat_desk : Chat.Desk
chat_desk = record { book = small_book; strikes = []; cover = record { seen = []; waiting = [] } }

abbrev says_hello : String → Result String Completion
says_hello model = ok (record { text = "hello"; output = 3 })

abbrev says_nothing : String → Result String Completion
says_nothing model = err "the provider is down"

chat_pays_example :
    let out = chat whose prices (models says_hello) "a" 100 chat_request 5_000 chat_desk in
    (balance whose "a" 5_000 out.1.book).total + charged out.0
    ≡ (balance whose "a" 5_000 small_book).total
chat_pays_example =
    chat_pays whose prices (models says_hello) "a" 100 5_000 chat_request chat_desk one_lot-Distinct

nothing_said : (req : ChatRequest) → (why : String) × (ask (models says_nothing) req ≡ err why)
unfolding ask
nothing_said req = ("the provider is down", refl)

-- Seven TOKU cover the reserve of eight only in part: the answer is shortened, and four are charged.
chat_cost :
    charged (chat whose prices (models says_hello) "a" 100 chat_request 5_000 chat_desk).0 ≡ 4
unfolding is_declined chat checked check reserved reserve shorten held finish ask answer_tokens
    thinking_tokens add_messages add_attachments strike_count hold settle refunds apply_all
    give_back draft_of draw_from_allowance draw_from_lots draw running_allowance open_lots is_open
    by_expiry lookup apply on_allowance on_lot balance
chat_cost = refl
