-- ===== src/Enclave/Apple/Chain/Genuine.antt =====
-- crates/enclave/src/apple.rs: proofs about verify_jws.
use mathlib.Core.Path.{subst}
use tokumai.Base.{
  ℕ, ◌/◌, ◌≡◌, refl, sym, ap, ◌∙◌, Bool, true, false, Option, none, some, List, [], ◌∷◌, ◌++◌,
  length, ◌==◌, arith, Bool-cases, inl, inr,
}
use tokumai.Base.Result.{Result, ok, err, require, ok_or, ok_bind}
use tokumai.Base.Bytes.{Bytes}
use tokumai.Base.Text.{split_at, onto_first}
use tokumai.Enclave.Apple.{AppleTx}
use tokumai.Enclave.Apple.Chain.{
  Certs, Reader, ChainError, JwsError, appstore_marker, wwdr_marker, check_certs,
  verify_apple_chain, dot, compact, by_chain, transaction, decode_chain, verify_parts, verify_jws,
  short, rest_is, is_es256, two_or_three,
}

require_ok : {E : Type 0} (b : Bool) (e : E) (u : Unit {0}) → require b e ≡ ok u → b ≡ true
require_ok true e u h = refl
require_ok false e u h = absurd (no h)
  where
    no : err e ≡ ok u → ⊥
    no h = cc

ok_or_ok : {E : Type 0} {A : Type 0} (o : Option A) (e : E) (a : A) → ok_or o e ≡ ok a → o ≡ some a
ok_or_ok none e a h = cc
ok_or_ok (some b) e a h = cc

by_chain_ok : {A : Type 0} (m : Result ChainError A) (a : A) → by_chain m ≡ ok a → m ≡ ok a
by_chain_ok (ok b) a h = cc
by_chain_ok (err e) a h = cc

-- A chain with dots between its pieces.
joined : List Bytes → Bytes
joined [] = []
joined (p ∷ []) = p
joined (p ∷ q ∷ ps) = p ++ 46 ∷ joined (q ∷ ps)

joined-onto_first :
    (b : ℕ) (p : Bytes) (ps : List Bytes) → joined (onto_first b (p ∷ ps)) ≡ b ∷ joined (p ∷ ps)
unfolding joined
joined-onto_first b p [] = refl
joined-onto_first b p (q ∷ ps) = refl

split_at-cons : (bs : Bytes) → (p : Bytes) × (ps : List Bytes) × (split_at dot bs ≡ p ∷ ps)
unfolding split_at
split_at-cons [] = ([], [], refl)
split_at-cons (b ∷ bs) =
    let ih = split_at-cons bs in
    elim (Bool-cases (dot b)) [
      | inl e ↦ ([], split_at dot bs, rw e refl)
      | inr e ↦ (b ∷ ih.0, ih.1, rw (e, ih.2) refl)
    ]

joined-split_at : (bs : Bytes) → joined (split_at dot bs) ≡ bs
unfolding split_at joined
joined-split_at [] = refl
joined-split_at (b ∷ bs) =
    let at = split_at-cons bs in
    let ih : joined (at.0 ∷ at.1) ≡ bs = ap joined (sym at.2) ∙ joined-split_at bs in
    elim (Bool-cases (dot b)) [
      | inl e ↦ let same : b ≡ 46 = ground arith in rw (e, at.2, ih, same) refl
      | inr e ↦ rw (e, at.2) (joined-onto_first b at.0 at.1 ∙ ap (λ (t : Bytes). b ∷ t) ih)
    ]

compact-some : (ps : List Bytes) (h p s : Bytes) → compact ps ≡ some (h, p, s) → ps ≡ h ∷ p ∷ s ∷ []
compact-some [] h p s e = cc
compact-some ([] ∷ ps) h p s e = cc
compact-some ((a ∷ u) ∷ []) h p s e = cc
compact-some ((a ∷ u) ∷ [] ∷ ps) h p s e = cc
compact-some ((a ∷ u) ∷ (b ∷ v) ∷ []) h p s e = cc
compact-some ((a ∷ u) ∷ (b ∷ v) ∷ [] ∷ ps) h p s e = cc
compact-some ((a ∷ u) ∷ (b ∷ v) ∷ (c ∷ w) ∷ []) h p s e = cc
compact-some ((a ∷ u) ∷ (b ∷ v) ∷ (c ∷ w) ∷ d ∷ ps) h p s e = cc

module _ {Cert : Type 0} (x : Certs Cert) where
  -- What a chain that is accepted says of its three certificates.
  pub record IsApples (root_der : Bytes) (at : ℕ) (leaf inter root : Cert) : Type 0 where
    pub pinned : x.read_der root_der ≡ some root
    pub from_root : x.signed_under inter (x.public_key root) ≡ true
    pub from_inter : x.signed_under leaf (x.public_key inter) ≡ true
    pub authority : (x.is_ca inter ≡ true) × (x.marked inter wwdr_marker ≡ true)
    pub signer : (x.is_ca leaf ≡ false) × (x.marked leaf appstore_marker ≡ true)
    pub valid : (x.valid_at leaf at ≡ true) × (x.valid_at inter at ≡ true)

  certs_accepted :
      (root_der : Bytes) (at : ℕ) (leaf inter root : Cert) (u : Unit {0})
      → x.read_der root_der ≡ some root
      → check_certs x leaf inter root at ≡ ok u
      → IsApples root_der at leaf inter root
  unfolding check_certs
  certs_accepted root_der at leaf inter root u pinned e = record {
    pinned = pinned;
    from_root = ground arith;
    from_inter = ground arith;
    authority = ground arith;
    signer = ground arith;
    valid = ground arith;
  }

  chain_accepted :
      (chain : List Bytes) (root_der : Bytes) (at : ℕ) (leaf : Cert)
      → verify_apple_chain x chain root_der at ≡ ok leaf
      → (inter : Cert) × (root : Cert) × IsApples root_der at leaf inter root
  unfolding verify_apple_chain
  chain_accepted [] root_der at leaf e = cc
  chain_accepted (first ∷ []) root_der at leaf e = cc
  chain_accepted (first ∷ second ∷ rest) root_der at leaf e =
      let s1 = ok_bind (require (short rest) ChainError.chain_length) _ leaf e in
      let s2 = ok_bind (require (rest_is root_der rest) ChainError.other_root) _ leaf s1.2 in
      let s3 = ok_bind (ok_or (x.read_der first) ChainError.malformed_certificate) _ leaf s2.2 in
      let s4 = ok_bind (ok_or (x.read_der second) ChainError.malformed_certificate) _ leaf s3.2 in
      let s5 = ok_bind (ok_or (x.read_der root_der) ChainError.malformed_certificate) _ leaf s4.2 in
      let s6 = ok_bind (check_certs x s3.0 s4.0 s5.0 at) _ leaf s5.2 in
      let pinned = ok_or_ok (x.read_der root_der) ChainError.malformed_certificate s5.0 s5.1 in
      let same : s3.0 ≡ leaf = ground arith in
      (
        s4.0,
        s5.0,
        subst (λ (c : Cert). IsApples root_der at c s4.0 s5.0) (same)
            (certs_accepted root_der at s3.0 s4.0 s5.0 s6.0 pinned s6.1),
      )

module _ {Json Cert : Type 0} (r : Reader Json) (x : Certs Cert) where
  -- What stands behind a transaction that is believed.
  pub record IsGenuine (root_der jws : Bytes) (now_ms : ℕ) (tx : AppleTx) : Type 0 where
    pub header : Bytes
    pub payload : Bytes
    pub signature : Bytes
    pub sig : Bytes
    pub at : ℕ
    pub leaf : Cert
    pub inter : Cert
    pub root : Cert
    pub text : Bytes
    pub body : Json
    pub message : jws ≡ header ++ (46 ∷ (payload ++ 46 ∷ signature))
    pub time : r.timestamp (now_ms / 1000) ≡ some at
    pub chain : IsApples x root_der at leaf inter root
    pub decoded : (r.b64url signature ≡ some sig) × (length sig ≡ 64)
    pub signed : r.ecdsa (x.public_key leaf) (header ++ 46 ∷ payload) sig ≡ true
    pub content : (r.b64url payload ≡ some text) × (r.json text ≡ some body)
    pub says : transaction r x body ≡ tx

  parts-IsGenuine :
      (root_der jws h p s : Bytes) (now_ms : ℕ) (tx : AppleTx)
      → jws ≡ h ++ (46 ∷ (p ++ 46 ∷ s))
      → verify_parts r x root_der (h, p, s) now_ms ≡ ok tx
      → IsGenuine root_der jws now_ms tx
  unfolding verify_parts
  parts-IsGenuine root_der jws h p s now_ms tx message e =
      let s1 = ok_bind (ok_or (r.b64url h) JwsError.bad_base64) _ tx e in
      let s2 = ok_bind (ok_or (r.json s1.0) JwsError.bad_header) _ tx s1.2 in
      let alg = is_es256 (r.text_at "alg" s2.0) in
      let s3 = ok_bind (require alg JwsError.bad_algorithm) _ tx s2.2 in
      let s4 = ok_bind (two_or_three (r.texts_at "x5c" s2.0)) _ tx s3.2 in
      let s5 = ok_bind (decode_chain r x s4.0) _ tx s4.2 in
      let s6 = ok_bind (ok_or (r.timestamp (now_ms / 1000)) JwsError.bad_clock) _ tx s5.2 in
      let s7 = ok_bind (by_chain (verify_apple_chain x s5.0 root_der s6.0)) _ tx s6.2 in
      let s8 = ok_bind (ok_or (r.b64url s) JwsError.bad_base64) _ tx s7.2 in
      let s9 = ok_bind (require (length s8.0 == 64) JwsError.bad_signature) _ tx s8.2 in
      let good = r.ecdsa (x.public_key s7.0) (h ++ 46 ∷ p) s8.0 in
      let s10 = ok_bind (require good JwsError.not_signed) _ tx s9.2 in
      let s11 = ok_bind (ok_or (r.b64url p) JwsError.bad_base64) _ tx s10.2 in
      let s12 = ok_bind (ok_or (r.json s11.0) JwsError.bad_payload) _ tx s11.2 in
      let chain = by_chain_ok (verify_apple_chain x s5.0 root_der s6.0) s7.0 s7.1 in
      let apples = chain_accepted x s5.0 root_der s6.0 s7.0 chain in
      let long = require_ok (length s8.0 == 64) JwsError.bad_signature s9.0 s9.1 in
      record {
        header = h;
        payload = p;
        signature = s;
        sig = s8.0;
        at = s6.0;
        leaf = s7.0;
        inter = apples.0;
        root = apples.1;
        text = s11.0;
        body = s12.0;
        message = message;
        time = ok_or_ok (r.timestamp (now_ms / 1000)) JwsError.bad_clock s6.0 s6.1;
        chain = apples.2;
        decoded = (ok_or_ok (r.b64url s) JwsError.bad_base64 s8.0 s8.1, ground (arith, long));
        signed = require_ok good JwsError.not_signed s10.0 s10.1;
        content = (
          ok_or_ok (r.b64url p) JwsError.bad_base64 s11.0 s11.1,
          ok_or_ok (r.json s11.0) JwsError.bad_payload s12.0 s12.1,
        );
        says = ground arith;
      }

  -- Where a signed transaction is believed, the text is a header, a payload and a signature with
  -- dots between them; the signature has 64 bytes and verifies under the leaf's key over the header
  -- and the payload; the leaf is no authority, carries the receipt-signing marker and is signed by
  -- the intermediate, which is an authority with Apple's marker and signed by the pinned root; both
  -- are valid at the time; and the transaction is what the payload says.
  pub verify_jws-IsGenuine :
      (root_der jws : Bytes) (now_ms : ℕ) (tx : AppleTx)
      → verify_jws r x root_der jws now_ms ≡ ok tx
      → IsGenuine root_der jws now_ms tx
  unfolding verify_jws joined
  verify_jws-IsGenuine root_der jws now_ms tx e =
      let s1 = ok_bind (ok_or (compact (split_at dot jws)) JwsError.not_compact) _ tx e in
      let pieces = ok_or_ok (compact (split_at dot jws)) JwsError.not_compact s1.0 s1.1 in
      let h = s1.0.0 in
      let p = s1.0.1 in
      let s = s1.0.2 in
      let split = compact-some (split_at dot jws) h p s pieces in
      parts-IsGenuine root_der jws h p s now_ms tx (sym (joined-split_at jws) ∙ ap joined split)
        s1.2
