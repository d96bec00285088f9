-- ===== src/Release/Signing/Laws.antt =====
-- What a verified envelope has, and that signing and verifying agree.
use mathlib.Core.Path.{subst}
use kris_ai.Base.{
  String, ◌≡◌, ◌≢◌, refl, sym, ap, ◌==◌, false, not, Option, none, some, strip, strip-strip, eq_iff,
  arith,
}
use kris_ai.Base.Outcome.{ok, >>=-elim, ok-injective, refuse_if-eq-ok}
use kris_ai.Base.Dict.{Dict, lookup}
use kris_ai.Base.Json.{obj, Fields}
use kris_ai.Release.Signing.{
  SigningKeyPair, SignedManifestEnvelope, envelope_json, Verification, text_at, usable, stamp_or,
  sha256_json, signature_of, signature_algorithm, sealed, sign_manifest, verify_parts,
  verify_objects, verify_signed_manifest,
}

usable-ok :
    (o : Option String) (secret : String) → usable o ≡ ok secret → (o ≡ some secret) × (secret ≢ "")
usable-ok none secret h = cc
usable-ok (some text) secret h =
    (ground (arith, eq_iff text ""), λ e. ground (arith, eq_iff text ""))

ok-usable : (secret : String) → secret ≢ "" → usable (some secret) ≡ ok secret
ok-usable secret n = ground (arith, eq_iff secret "")

made :
    {v : Verification} {a b c : String}
    → v.manifest_type ≡ a
    → v.manifest_sha256 ≡ b
    → v.signer_key_id ≡ c
    → ◌≡◌ {A = Verification}
        (record { manifest_type = a; manifest_sha256 = b; signer_key_id = c })
        v
made p q r =
    λ i. record { manifest_type = sym p i; manifest_sha256 = sym q i; signer_key_id = sym r i }

not-eq : (a b : String) → not (a == b) ≡ false → a ≡ b
not-eq a b h = ground (arith, eq_iff a b)

module _ (sha256 : String → String) (hmac : String → String → String) where
  -- What an envelope needs: the algorithm, the hash of the manifest, a known signer with a secret,
  -- and the signature over the type, the hash, the signer and the instant.
  pub record IsSigned (keys : Dict String) (manifest_type : String) (manifest signature : Fields)
      (v : Verification) : Type 0 where
    pub secret : String
    pub algorithm : text_at "algorithm" signature ≡ signature_algorithm
    pub hash : sha256_json sha256 (obj manifest) ≡ text_at "manifestSha256" signature
    pub signer : lookup (text_at "keyId" signature) keys ≡ some secret
    pub not_empty : secret ≢ ""
    pub signed :
        signature_of sha256 hmac secret manifest_type manifest
          (text_at "keyId" signature)
          (text_at "signedAt" signature)
        ≡ text_at "signature" signature
    pub is_type : v.manifest_type ≡ manifest_type
    pub is_hash : v.manifest_sha256 ≡ text_at "manifestSha256" signature
    pub is_signer : v.signer_key_id ≡ text_at "keyId" signature

  pub verify_parts-IsSigned :
      (keys : Dict String) (manifest_type : String) (manifest signature : Fields) (v : Verification)
      → verify_parts sha256 hmac keys manifest_type manifest signature ≡ ok v
      → IsSigned keys manifest_type manifest signature v
  unfolding verify_parts
  verify_parts-IsSigned keys manifest_type manifest signature v h0 =
      let (a, h1) =
        refuse_if-eq-ok (not (text_at "algorithm" signature == signature_algorithm)) _ _ h0 in
      let (b, h2) =
        refuse_if-eq-ok
          (not (sha256_json sha256 (obj manifest) == text_at "manifestSha256" signature)) _ _ h1 in
      >>=-elim (usable (lookup (text_at "keyId" signature) keys)) _ h2 (λ secret e h3.
        let made =
          signature_of sha256 hmac secret manifest_type manifest (text_at "keyId" signature)
            (text_at "signedAt" signature) in
        let (c, h4) = refuse_if-eq-ok (not (made == text_at "signature" signature)) _ _ h3 in
        let (known, n) = usable-ok (lookup (text_at "keyId" signature) keys) secret e in
        record {
          secret = secret;
          algorithm = not-eq (text_at "algorithm" signature) signature_algorithm a;
          hash = not-eq (sha256_json sha256 (obj manifest)) (text_at "manifestSha256" signature) b;
          signer = known;
          not_empty = n;
          signed = not-eq made (text_at "signature" signature) c;
          is_type = ap Verification.manifest_type (sym (ok-injective _ v h4));
          is_hash = ap Verification.manifest_sha256 (sym (ok-injective _ v h4));
          is_signer = ap Verification.signer_key_id (sym (ok-injective _ v h4));
        })

  IsSigned-verify_parts :
      (keys : Dict String) (manifest_type : String) (manifest signature : Fields) (v : Verification)
      → IsSigned keys manifest_type manifest signature v
      → verify_parts sha256 hmac keys manifest_type manifest signature ≡ ok v
  unfolding verify_parts
  IsSigned-verify_parts keys manifest_type manifest signature v i =
      rw
        (
          (eq_iff (text_at "algorithm" signature) signature_algorithm).1 i.algorithm,
          (eq_iff (sha256_json sha256 (obj manifest)) (text_at "manifestSha256" signature)).1
              i.hash,
          i.signer,
          ok-usable i.secret i.not_empty,
          (eq_iff
                (signature_of sha256 hmac i.secret manifest_type manifest
                  (text_at "keyId" signature) (text_at "signedAt" signature))
                (text_at "signature" signature)).1
              i.signed,
        )
        (ap ok (made i.is_type i.is_hash i.is_signer))

  sealed-verify :
      (keys : Dict String) (name : String) (manifest : Fields) (pair : SigningKeyPair) (at : String)
      → (name == "") ≡ false
      → strip name ≡ name
      → pair.secret_key ≢ ""
      → lookup pair.key_id keys ≡ some pair.secret_key
      → verify_signed_manifest sha256 hmac
          (envelope_json (sealed sha256 hmac name manifest pair at))
          keys
        ≡ ok (record {
          manifest_type = name;
          manifest_sha256 = sha256_json sha256 (obj manifest);
          signer_key_id = pair.key_id;
        })
  unfolding verify_signed_manifest sealed envelope_json text_at verify_objects
  sealed-verify keys name manifest pair at n same u k =
      rw (same, n)
        (IsSigned-verify_parts keys name manifest
          (sealed sha256 hmac name manifest pair at).signature _
          (record {
            secret = pair.secret_key;
            algorithm = refl;
            hash = refl;
            signer = k;
            not_empty = u;
            signed = refl;
            is_type = refl;
            is_hash = refl;
            is_signer = refl;
          }))

  -- An envelope that `sign_manifest` makes with a key pair is verified by everyone who knows the
  -- key's secret, which is not empty, under its identifier; the verification names the type without
  -- the blanks around it, the hash of the manifest, and the signer.
  pub sign_manifest-verify :
      (keys : Dict String) (manifest_type now : String) (manifest : Fields) (pair : SigningKeyPair)
      (at : Option String) (e : SignedManifestEnvelope)
      → sign_manifest sha256 hmac manifest_type manifest pair at now ≡ ok e
      → pair.secret_key ≢ ""
      → lookup pair.key_id keys ≡ some pair.secret_key
      → verify_signed_manifest sha256 hmac (envelope_json e) keys
        ≡ ok (record {
          manifest_type = strip manifest_type;
          manifest_sha256 = sha256_json sha256 (obj manifest);
          signer_key_id = pair.key_id;
        })
  unfolding sign_manifest
  sign_manifest-verify keys manifest_type now manifest pair at e h u k =
      let (n, made_e) = refuse_if-eq-ok (strip manifest_type == "") _ _ h in
      subst
        (λ x.
          verify_signed_manifest sha256 hmac (envelope_json x) keys
          ≡ ok (record {
            manifest_type = strip manifest_type;
            manifest_sha256 = sha256_json sha256 (obj manifest);
            signer_key_id = pair.key_id;
          }))
        (ok-injective _ e made_e)
        (sealed-verify keys (strip manifest_type) manifest pair (stamp_or at now) n
          (strip-strip manifest_type) u k)
