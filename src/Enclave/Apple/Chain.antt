-- ===== src/Enclave/Apple/Chain.antt =====
-- crates/enclave/src/apple.rs: a signed transaction (a compact JWS) and the certificates in it.
-- `Certs` is what the x509 parser says of a certificate and what it verifies, `Reader` what the decoders
-- of base64 and JSON give, with the signature check of ring.
pub mod Genuine
use tokumai.Base.{
  ℕ, ◌+◌, ◌/◌, ◌≡◌, refl, Bool, true, false, not, ◌||◌, ◌&&◌, Option, none, some, List, [], ◌∷◌,
  ◌++◌, String, ◌=ₛ◌, length, ◌==◌, if◌then◌else◌, min, arith,
}
use tokumai.Base.Result.{Result, ok, err, ◌>>=◌, ◌>>◌, require, ok_or, ok_bind}
use tokumai.Base.Bytes.{Bytes, codes}
use tokumai.Base.Text.{split_at, equal_bytes}
use tokumai.Enclave.Apple.{AppleTx}

pub record Certs (Cert : Type 0) : Type 0 where
  pub read_der : Bytes → Option Cert
  pub valid_at : Cert → ℕ → Bool
  pub is_ca : Cert → Bool
  pub marked : Cert → String → Bool
  pub public_key : Cert → Bytes
  pub signed_under : Cert → Bytes → Bool

pub record Reader (Json : Type 0) : Type 0 where
  pub b64url : Bytes → Option Bytes
  pub b64 : Bytes → Option Bytes
  pub json : Bytes → Option Json
  pub text_at : String → Json → Option String
  pub number_at : String → Json → Option ℕ
  pub has : String → Json → Bool
  pub texts_at : String → Json → Option (List (Option Bytes))
  -- `ASN1Time::from_timestamp`, of seconds
  pub timestamp : ℕ → Option ℕ
  -- ECDSA P-256 over SHA-256: key, message, signature
  pub ecdsa : Bytes → Bytes → Bytes → Bool

pub data ChainError : Type 0 where
  chain_length other_root malformed_certificate not_valid_now : ChainError
  not_wwdr not_receipt_signing not_to_root not_verified : ChainError

abbrev pub appstore_marker : String
appstore_marker = "1.2.840.113635.100.6.11.1"

abbrev pub wwdr_marker : String
wwdr_marker = "1.2.840.113635.100.6.2.1"

abbrev pub rest_is : Bytes → List Bytes → Bool
rest_is root [] = true
rest_is root (third ∷ []) = equal_bytes third root
rest_is root _ = false

-- `chain.len()` is 2 or 3
abbrev pub short : List Bytes → Bool
short [] = true
short (third ∷ []) = true
short _ = false

module _ {Cert : Type 0} (x : Certs Cert) where
  -- The checks of the three certificates.
  unfoldable pub check_certs : Cert → Cert → Cert → ℕ → Result ChainError (Unit {0})
  check_certs leaf inter root at = do
    require (x.valid_at leaf at && x.valid_at inter at) not_valid_now
    require (x.is_ca inter && x.marked inter wwdr_marker) not_wwdr
    require (not (x.is_ca leaf) && x.marked leaf appstore_marker) not_receipt_signing
    require (x.signed_under inter (x.public_key root)) not_to_root
    require (x.signed_under leaf (x.public_key inter)) not_verified

  -- The leaf that the chain vouches for.
  unfoldable pub verify_apple_chain : List Bytes → Bytes → ℕ → Result ChainError Cert
  unfolding check_certs
  verify_apple_chain (first ∷ second ∷ rest) root_der at = do
    require (short rest) chain_length
    require (rest_is root_der rest) other_root
    leaf ← ok_or (x.read_der first) malformed_certificate
    inter ← ok_or (x.read_der second) malformed_certificate
    root ← ok_or (x.read_der root_der) malformed_certificate
    check_certs leaf inter root at
    ok leaf
  verify_apple_chain _ root_der at = err chain_length

pub data JwsError : Type 0 where
  not_compact bad_base64 bad_header bad_algorithm no_chain bad_chain bad_clock : JwsError
  chain_refused : ChainError → JwsError
  bad_signature not_signed bad_payload : JwsError

abbrev pub dot : ℕ → Bool
dot b = b == 46

-- The three parts, none of them empty.
abbrev pub compact : List Bytes → Option (Bytes × Bytes × Bytes)
compact ((h ∷ hs) ∷ (p ∷ ps) ∷ (s ∷ ss) ∷ []) = some (h ∷ hs, p ∷ ps, s ∷ ss)
compact _ = none

abbrev pub is_es256 : Option String → Bool
is_es256 none = false
is_es256 (some alg) = alg =ₛ "ES256"

abbrev pub two_or_three : Option (List (Option Bytes)) → Result JwsError (List (Option Bytes))
two_or_three none = err no_chain
two_or_three (some xs) = if length xs == 2 || length xs == 3 then ok xs else err no_chain

abbrev pub by_chain {ℓ} : {A : Type ℓ} → Result ChainError A → Result JwsError A
by_chain (ok a) = ok a
by_chain (err e) = err (chain_refused e)

abbrev or_empty : Option String → String
or_empty none = ""
or_empty (some s) = s

abbrev or_number : ℕ → Option ℕ → ℕ
or_number d none = d
or_number d (some n) = n

module _ {Json Cert : Type 0} (r : Reader Json) (x : Certs Cert) where
  unfoldable pub decode_chain : List (Option Bytes) → Result JwsError (List Bytes)
  decode_chain [] = ok []
  decode_chain (none ∷ cs) = err bad_chain
  decode_chain (some c ∷ cs) = do
    der ← ok_or (r.b64 c) bad_chain
    rest ← decode_chain cs
    ok (der ∷ rest)

  unfoldable pub transaction : Json → AppleTx
  transaction body =
      let str_of = λ (k : String). or_empty (r.text_at k body) in
      record {
        bundle_id = str_of "bundleId";
        product_id = codes (str_of "productId");
        transaction_id = str_of "transactionId";
        original_transaction_id = str_of "originalTransactionId";
        environment = str_of "environment";
        kind = str_of "type";
        quantity = min (or_number 1 (r.number_at "quantity" body)) 100;
        purchased_at_ms = or_number 0 (r.number_at "purchaseDate" body);
        revoked = r.has "revocationDate" body;
        ownership = str_of "inAppOwnershipType";
        storefront = str_of "storefront";
        expires_at_ms = or_number 0 (r.number_at "expiresDate" body);
      }

  unfoldable pub verify_parts : Bytes → Bytes × Bytes × Bytes → ℕ → Result JwsError AppleTx
  unfolding decode_chain verify_apple_chain transaction
  verify_parts root_der (h, p, s) now_ms = do
    head ← ok_or (r.b64url h) bad_base64
    header ← ok_or (r.json head) bad_header
    require (is_es256 (r.text_at "alg" header)) bad_algorithm
    x5c ← two_or_three (r.texts_at "x5c" header)
    chain ← decode_chain x5c
    at ← ok_or (r.timestamp (now_ms / 1000)) bad_clock
    leaf ← by_chain (verify_apple_chain x chain root_der at)
    sig ← ok_or (r.b64url s) bad_base64
    require (length sig == 64) bad_signature
    require (r.ecdsa (x.public_key leaf) (h ++ 46 ∷ p) sig) not_signed
    payload ← ok_or (r.b64url p) bad_base64
    body ← ok_or (r.json payload) bad_payload
    ok (transaction body)

  unfoldable pub verify_jws : Bytes → Bytes → ℕ → Result JwsError AppleTx
  unfolding verify_parts
  verify_jws root_der jws now_ms = do
    parts ← ok_or (compact (split_at dot jws)) not_compact
    verify_parts root_der parts now_ms
