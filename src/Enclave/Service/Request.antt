-- ===== src/Enclave/Service/Request.antt =====
-- crates/enclave/src/service.rs, provider.rs and policy.rs: the request for an answer, its limits, and its
-- size in tokens.
use tokumai.Base.{
  ℕ, zero, suc, ◌+◌, ◌*◌, ◌/◌, Bool, false, not, ◌&&◌, ◌||◌, Option, none, some, List, [], ◌∷◌,
  String, ◌=ₛ◌, leb, ◌==◌, if◌then◌else◌, max, min, drop,
}
use tokumai.Base.Result.{Result, ok, ◌>>=◌, require, ◌>>◌}
use tokumai.Base.Bytes.{Bytes, codes, has_prefix}
use tokumai.Enclave.Ledger.Money.{NotEnough}

-- policy.rs
abbrev pub default_max_tokens : ℕ
default_max_tokens = 4_096

abbrev pub max_output_tokens : ℕ
max_output_tokens = 131_072

abbrev pub default_thinking : ℕ
default_thinking = 2_048

abbrev pub max_thinking : ℕ
max_thinking = 16_384

abbrev pub min_answer_tokens : ℕ
min_answer_tokens = 256

abbrev pub max_request_bytes : ℕ
max_request_bytes = 50_331_648

abbrev pub max_messages : ℕ
max_messages = 2_000

abbrev pub max_attachment_bytes : ℕ
max_attachment_bytes = 10_485_760

abbrev pub image_input_tokens : ℕ
image_input_tokens = 1_600

abbrev pub pdf_page_tokens : ℕ
pdf_page_tokens = 300

abbrev pub max_pdf_pages : ℕ
max_pdf_pages = 400

abbrev pub max_attachments : ℕ
max_attachments = 16

abbrev pub strikes_per_day : ℕ
strikes_per_day = 3

abbrev pub strike_warn_from : ℕ
strike_warn_from = 2

-- An attachment: its type, the length of its base64 text, and what that decodes to.
pub record Attachment : Type 0 where
  pub mime : String
  pub b64_len : ℕ
  pub bytes : Option Bytes

pub record Message : Type 0 where
  pub content_len : ℕ
  pub attachments : List Attachment

-- `messages` is none where the field is no array.
pub record ChatRequest : Type 0 where
  pub model : String
  pub messages : Option (List Message)
  pub max_tokens : Option ℕ
  pub thinking : Option ℕ
  pub live : Bool

abbrev or_else : Option ℕ → ℕ → ℕ
or_else none n = n
or_else (some m) n = m

unfoldable pub answer_tokens : ChatRequest → ℕ
answer_tokens req = min (max (or_else req.max_tokens default_max_tokens) 1) max_output_tokens

unfoldable pub thinking_tokens : ChatRequest → ℕ
thinking_tokens req = min (or_else req.thinking default_thinking) max_thinking

abbrev followed_by_s : Bytes → Bool
followed_by_s [] = false
followed_by_s (b ∷ bs) = b == 115

-- How often a needle of `skip + 1` bytes stands in the bytes, not followed by an s, after `wait` bytes
-- that belong to the last find.
pub count_pages : Bytes → ℕ → ℕ → Bytes → ℕ
count_pages needle skip wait [] = 0
count_pages needle skip (suc wait) (b ∷ bs) = count_pages needle skip wait bs
count_pages needle skip zero (b ∷ bs) =
    let found = has_prefix needle (b ∷ bs) in
    let rest = count_pages needle skip (if found then skip else 0) bs in
    if found && not (followed_by_s (drop skip bs)) then rest + 1 else rest

pub pdf_pages : Option Bytes → ℕ
pdf_pages none = 1
pdf_pages (some bytes) =
    max (count_pages (codes "/Type /Page") 10 0 bytes + count_pages (codes "/Type/Page") 9 0 bytes)
      1

pub data ChatRefusal : Type 0 where
  too_large malformed message_count too_many_attachments attachment_too_large too_many_pages
        not_offered :
      ChatRefusal
  type_not_supported : (mime : String) → ChatRefusal
  no_credit : (ceiling available : ℕ) → ChatRefusal
  not_held : NotEnough → ChatRefusal

pub record Sizes : Type 0 where
  pub in_tokens : ℕ
  pub attachments : ℕ
  pub pages : ℕ

pub is_supported : String → Bool
is_supported mime =
    (mime =ₛ "image/png")
    || ((mime =ₛ "image/jpeg")
        || ((mime =ₛ "image/webp") || ((mime =ₛ "image/gif") || (mime =ₛ "application/pdf"))))

unfoldable pub add_attachment : Sizes → Attachment → Result ChatRefusal Sizes
add_attachment s a = do
  require (is_supported a.mime) (type_not_supported a.mime)
  let attachments = s.attachments + 1
  require (leb attachments max_attachments) too_many_attachments
  let bytes = a.b64_len / 4 * 3
  require (leb bytes max_attachment_bytes) attachment_too_large
  let is_pdf = a.mime =ₛ "application/pdf"
  let n = pdf_pages a.bytes
  let pages = if is_pdf then s.pages + n else s.pages
  require (not is_pdf || leb pages max_pdf_pages) too_many_pages
  ok (record {
    in_tokens =
        s.in_tokens
        + (if is_pdf
            then max (max (n * pdf_page_tokens) (bytes / 40)) 4_096
            else image_input_tokens);
    attachments = attachments;
    pages = pages;
  })

unfoldable pub add_attachments : Sizes → List Attachment → Result ChatRefusal Sizes
unfolding add_attachment
add_attachments s [] = ok s
add_attachments s (a ∷ more) = do s' ← add_attachment s a; add_attachments s' more

unfoldable pub add_messages : Sizes → List Message → Result ChatRefusal Sizes
unfolding add_attachments
add_messages s [] = ok s
add_messages s (m ∷ ms) = do
  s' ← add_attachments (record s { in_tokens = s.in_tokens + m.content_len }) m.attachments
  add_messages s' ms
