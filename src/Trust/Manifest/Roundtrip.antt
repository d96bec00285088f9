-- ===== src/Trust/Manifest/Roundtrip.antt =====
-- What is signed is verified.
use mathlib.Core.Path.{subst}
use kris_ai.Base.{
  ℕ, ℤ, String, ◌≡◌, refl, sym, ap, ◌∙◌, ◌==◌, false, not, is_empty, filter, Option, none, List,
}
use kris_ai.Base.Outcome.{ok, >>=-elim, ok-injective, refuse_if-eq-ok}
use kris_ai.Base.Json.{null, obj, Fields, str}
use kris_ai.Base.Json.Access.{find, get, is_text}
use kris_ai.Base.Json.Update.{set_key, remove_key-set_key, find-set_key, get_default-set_key}
use kris_ai.Trust.Bytes.{hex}
use kris_ai.Trust.Bytes.Laws.{from_hex-hex}
use kris_ai.Trust.Ed25519.{Ed25519, sign, verify}
use kris_ai.Trust.Ed25519.Laws.{SignsWith, made_by}
use kris_ai.Trust.Canonical.{canonical_json}
use kris_ai.Trust.Manifest.{
  TrustKey, ExternalKeyring, signing_body, required_fields, lacks, sign_manifest, verify_manifest,
}
use kris_ai.Trust.Manifest.Laws.{IsAdmitted, IsTrusted, verify_manifest_complete}

signed : String → Fields → Fields
unfolding set_key
signed digits body = set_key "signature" (str digits) body

get-signed :
    (key digits : String) (body : Fields)
    → ("signature" == key) ≡ false
    → get key (signed digits body) ≡ get key body
unfolding get signed
get-signed key digits body h =
    rw (get_default-set_key "signature" key (str digits) null body, h) refl

find-signed :
    (key digits : String) (body : Fields)
    → ("signature" == key) ≡ false
    → find key (signed digits body) ≡ find key body
unfolding signed
find-signed key digits body h = rw (find-set_key "signature" key (str digits) body, h) refl

module _ (library : Ed25519) (from_iso : String → Option ℤ) where
  signed-IsAdmitted :
      (digits : String) (body : Fields) (keyring : ExternalKeyring) (now : ℤ)
      (expected_use expected_domain : Option String) (key : TrustKey)
      → IsAdmitted library from_iso body keyring now expected_use expected_domain key
      → IsAdmitted library from_iso
          (signed digits body)
          keyring
          now
          expected_use
          expected_domain
          key
  signed-IsAdmitted digits body keyring now expected_use expected_domain key a = record {
    issued = a.issued;
    expires = a.expires;
    version = rw (get-signed "schemaVersion" digits body refl) a.version;
    known = rw (get-signed "keyId" digits body refl) a.known;
    not_revoked = a.not_revoked;
    use_allowed = rw (get-signed "intendedUse" digits body refl) a.use_allowed;
    domain_allowed = rw (get-signed "trustDomain" digits body refl) a.domain_allowed;
    use_expected = rw (get-signed "intendedUse" digits body refl) a.use_expected;
    domain_expected = rw (get-signed "trustDomain" digits body refl) a.domain_expected;
    issued_at = rw (find-signed "issuedAt" digits body refl) a.issued_at;
    expires_at = rw (find-signed "expiresAt" digits body refl) a.expires_at;
    is_issued = a.is_issued;
    not_expired = a.not_expired;
  }

  signed-IsTrusted :
      (seed : List ℕ) (body : Fields) (keyring : ExternalKeyring) (now : ℤ)
      (expected_use expected_domain : Option String) (key : TrustKey) (message : String)
      → SignsWith library seed
      → find "signature" body ≡ none
      → IsAdmitted library from_iso body keyring now expected_use expected_domain key
      → key.public_key ≡ library.derive seed
      → canonical_json (obj body) ≡ ok message
      → IsTrusted library from_iso
          (signed (hex (library.make seed message)) body)
          keyring
          now
          expected_use
          expected_domain
  unfolding verify signing_body signed get
  signed-IsTrusted seed body keyring now expected_use expected_domain key message law fresh a mine
        e =
      let digits = hex (library.make seed message) in
      record {
        key = key;
        message = message;
        digits = digits;
        signature = library.make seed message;
        admitted = signed-IsAdmitted digits body keyring now expected_use expected_domain key a;
        signed_with = get_default-set_key "signature" "signature" (str digits) null body;
        decoded = from_hex-hex (library.make seed message) (law.are_bytes message);
        canonical = rw (remove_key-set_key "signature" (str digits) body fresh) e;
        valid = rw mine (law.is_valid message);
      }

  -- A manifest that is signed with a seed, and has no signature before, is verified with the seed's
  -- public key at every keyring, instant, use and domain that admit it; what comes back is the
  -- manifest that was signed.
  pub sign_manifest-verify_manifest :
      (seed : List ℕ) (body envelope : Fields) (keyring : ExternalKeyring) (now : ℤ)
      (expected_use expected_domain : Option String) (key : TrustKey)
      → sign_manifest library body seed ≡ ok envelope
      → SignsWith library seed
      → find "signature" body ≡ none
      → IsAdmitted library from_iso body keyring now expected_use expected_domain key
      → key.public_key ≡ library.derive seed
      → verify_manifest library from_iso envelope keyring now expected_use expected_domain ≡ ok body
  unfolding sign_manifest signing_body signed
  sign_manifest-verify_manifest seed body envelope keyring now expected_use expected_domain key h0
        law fresh a mine =
      let (_, h1) = refuse_if-eq-ok (not (is_empty (filter (lacks body) required_fields))) _ _ h0 in
      let (_, h2) = refuse_if-eq-ok (not (is_text "2.0.0" (get "schemaVersion" body))) _ _ h1 in
      >>=-elim (canonical_json (obj body)) _ h2 (λ message e h3.
        >>=-elim (sign library seed message) _ h3 (λ signature f h4.
          let made = made_by library seed message signature f in
          let digits = hex (library.make seed message) in
          subst
            (λ x.
              verify_manifest library from_iso x keyring now expected_use expected_domain ≡ ok body)
            (ap (λ x. signed (hex x) body) made ∙ ok-injective _ envelope h4)
            ((verify_manifest_complete library from_iso (signed digits body) keyring now
                expected_use expected_domain body).1
              (
                signed-IsTrusted seed body keyring now expected_use expected_domain key message law
                    fresh a mine e,
                sym (remove_key-set_key "signature" (str digits) body fresh),
              ))))
