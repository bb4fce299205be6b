-- ===== src/Tests/Signed.antt =====
-- crates/enclave/src/apple.rs and stripe.rs: a signed transaction and a change of plan, with small readers.
use tokumai.Base.{
  ℕ, ◌+◌, ◌≡◌, refl, true, false, not, none, some, List, [], ◌∷◌, ◌++◌, ◌=ₛ◌, ◌==◌, if◌then◌else◌,
  arith,
}
use tokumai.Base.Result.{Result, ok}
use tokumai.Base.Bytes.{Bytes, codes, has_prefix}
use tokumai.Base.Text.{split_at, equal_bytes}
use tokumai.Enclave.Apple.{AppleTx}
use tokumai.Enclave.Apple.Chain.{
  Certs, Reader, appstore_marker, check_certs, verify_apple_chain, decode_chain, transaction,
  verify_parts, verify_jws,
}
use tokumai.Enclave.Apple.Chain.Genuine.{IsGenuine, verify_jws-IsGenuine}
use tokumai.Enclave.Stripe.{
  SubObject, ChangeForm, Fail, change_subscription, safe_id, all_bytes, safe, price_for,
  tier_of_price, position, applied_tier,
}
use tokumai.Enclave.Stripe.Changes.{IsApplied, change_subscription-IsApplied}
use tokumai.Enclave.Stripe.Prices.{is_distinct, tier_of_price-price_for}

-- Certificates are numbers: 0 the leaf, 1 the intermediate, 2 the root.
abbrev number : Bytes → ℕ
number [] = 0
number (b ∷ bs) = b

abbrev certs : Certs ℕ
certs = record {
  read_der = λ der. some (number der);
  valid_at = λ cert at. true;
  is_ca = λ cert. not (cert == 0);
  marked = λ cert marker. if cert == 0 then marker =ₛ appstore_marker else true;
  public_key = λ cert. cert ∷ [];
  signed_under = λ cert signer. number signer == cert + 1;
}

abbrev sixteen : Bytes → Bytes
sixteen bs = bs ++ (bs ++ (bs ++ bs))

abbrev reader : Reader Bytes
reader = record {
  b64url =
      λ bs. if equal_bytes bs (codes "s") then some (sixteen (sixteen (codes "sign"))) else some bs;
  b64 = λ bs. some bs;
  json = λ bs. some bs;
  text_at = λ name json. if name =ₛ "alg" then some "ES256" else some "x";
  number_at = λ name json. none;
  has = λ name json. false;
  texts_at = λ name json. some (some (0 ∷ []) ∷ some (1 ∷ []) ∷ []);
  timestamp = λ seconds. some seconds;
  ecdsa = λ signer message sig. number signer == 0;
}

abbrev signed_tx : AppleTx
signed_tx = record {
  bundle_id = "x";
  product_id = codes "x";
  transaction_id = "x";
  original_transaction_id = "x";
  environment = "x";
  kind = "x";
  quantity = 1;
  purchased_at_ms = 0;
  revoked = false;
  ownership = "x";
  storefront = "x";
  expires_at_ms = 0;
}

verified : verify_jws reader certs (2 ∷ []) (codes "h.p.s") 5_000 ≡ ok signed_tx
unfolding verify_jws verify_parts decode_chain verify_apple_chain check_certs transaction split_at
    equal_bytes
verified = refl

verify_jws-IsGenuine_example : IsGenuine reader certs (2 ∷ []) (codes "h.p.s") 5_000 signed_tx
verify_jws-IsGenuine_example =
    verify_jws-IsGenuine reader certs (2 ∷ []) (codes "h.p.s") 5_000 signed_tx verified

abbrev ids : List Bytes
ids =
    codes "price_0"
    ∷ codes "price_1"
    ∷ codes "price_2"
    ∷ codes "price_3"
    ∷ codes "price_4"
    ∷ codes "price_5"
    ∷ []

abbrev object : SubObject
object = record {
  price = some (codes "price_1");
  status = none;
  customer = none;
  item = some (codes "si_1");
  latest_invoice = none;
  item_start = none;
  start = none;
  item_end = none;
  end = none;
}

abbrev reads : Bytes → Result Fail SubObject
reads sub = ok object

abbrev post : ChangeForm ids → Result Fail (Unit {0})
post form = ok tt

changed : change_subscription ids reads post reads (codes "sub_1") 1 false true (codes "chg") ≡ ok 1
unfolding change_subscription safe_id all_bytes has_prefix safe price_for tier_of_price position
    equal_bytes applied_tier
changed = refl

change_subscription-IsApplied_example :
    IsApplied ids post reads (codes "sub_1") 1 false true (codes "chg") × (◌≡◌ {A = ℕ} 1 1)
change_subscription-IsApplied_example =
    change_subscription-IsApplied ids reads post reads (codes "sub_1") 1 false true (codes "chg") 1
      changed

distinct : is_distinct ids ≡ true
unfolding equal_bytes
distinct = refl

fifth : price_for ids 1 true ≡ some (codes "price_4")
unfolding price_for
fifth = refl

tier_of_price-price_for_example : tier_of_price ids (codes "price_4") ≡ some (1, true)
tier_of_price-price_for_example =
    tier_of_price-price_for ids 1 true (codes "price_4") distinct (omega arith) fifth
