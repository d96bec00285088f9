-- ===== src/Trust/Manifest/Laws.antt =====
-- What a verified manifest has.
use kris_ai.Base.{
  not-true, ℕ, ℤ, leb_ℤ, ltb_ℤ, String, ◌≡◌, refl, sym, ap, ◌∙◌, ◌↔◌, true, false, not, Option,
  none, some, List, elem, eq_iff, arith,
}
use kris_ai.Base.Outcome.{ok, >>=-elim, ok-injective, refuse_if-eq-ok}
use kris_ai.Base.Dict.{lookup}
use kris_ai.Base.Json.{Json, obj, Fields, str}
use kris_ai.Base.Json.Access.{find, get, is_text}
use kris_ai.Trust.Bytes.{from_hex}
use kris_ai.Trust.Ed25519.{Ed25519, verify}
use kris_ai.Trust.Canonical.{canonical_json}
use kris_ai.Trust.Manifest.{
  TrustKey, ExternalKeyring, usable_key, resolve, signing_body, text_or_empty, differs,
  signature_text, bytes_or, time_at, check_times, check_use, verify_manifest,
}

-- The text a caller expects, if any, is the one that is there.
abbrev pub Expects : Option String → String → Type 0
Expects none actual = Unit
Expects (some expected) actual = actual ≡ expected

differs-Expects :
    (o : Option String) (actual : String) → differs o actual ≡ false → Expects o actual
differs-Expects none actual h = tt
differs-Expects (some expected) actual h = ground (arith, eq_iff actual expected)

usable_key-ok :
    (o : Option TrustKey) (key : TrustKey)
    → usable_key o ≡ ok key
    → (o ≡ some key) × (key.revoked ≡ false)
usable_key-ok none key h = cc
usable_key-ok (some k) key h = ground arith

signature_text-ok : (j : Json) (s : String) → signature_text j ≡ ok s → j ≡ str s
signature_text-ok j s h = grind arith

bytes_or-ok :
    (o : Option (List ℕ)) (code : String) (bs : List ℕ) → bytes_or o code ≡ ok bs → o ≡ some bs
bytes_or-ok none code bs h = cc
bytes_or-ok (some x) code bs h = cc

module _ (library : Ed25519) (from_iso : String → Option ℤ) where
  -- What verification needs of a manifest beside its signature: a known key that was not revoked and
  -- is meant for the manifest's use and domain, which are the ones the caller expects, and an instant
  -- within the validity.
  pub record IsAdmitted (manifest : Fields) (keyring : ExternalKeyring) (now : ℤ)
      (expected_use expected_domain : Option String) (key : TrustKey) : Type 0 where
    pub issued : ℤ
    pub expires : ℤ
    pub version : is_text "2.0.0" (get "schemaVersion" manifest) ≡ true
    pub known : lookup (text_or_empty (get "keyId" manifest)) keyring ≡ some key
    pub not_revoked : key.revoked ≡ false
    pub use_allowed : elem (text_or_empty (get "intendedUse" manifest)) key.intended_uses ≡ true
    pub domain_allowed : elem (text_or_empty (get "trustDomain" manifest)) key.trust_domains ≡ true
    pub use_expected : Expects expected_use (text_or_empty (get "intendedUse" manifest))
    pub domain_expected : Expects expected_domain (text_or_empty (get "trustDomain" manifest))
    pub issued_at : time_at from_iso (find "issuedAt" manifest) ≡ ok issued
    pub expires_at : time_at from_iso (find "expiresAt" manifest) ≡ ok expires
    pub is_issued : ltb_ℤ now issued ≡ false
    pub not_expired : leb_ℤ expires now ≡ false

  -- An envelope that is admitted, with a signature of its body that is valid for the key.
  pub record IsTrusted (envelope : Fields) (keyring : ExternalKeyring) (now : ℤ)
      (expected_use expected_domain : Option String) : Type 0 where
    pub key : TrustKey
    pub message : String
    pub digits : String
    pub signature : List ℕ
    pub admitted : IsAdmitted envelope keyring now expected_use expected_domain key
    pub signed_with : get "signature" envelope ≡ str digits
    pub decoded : from_hex digits ≡ some signature
    pub canonical : canonical_json (obj (signing_body envelope)) ≡ ok message
    pub valid : verify library key.public_key message signature ≡ true

  record Allowed (key : TrustKey) (use_name domain : String)
      (expected_use expected_domain : Option String) : Type 0 where
    use_allowed : elem use_name key.intended_uses ≡ true
    domain_allowed : elem domain key.trust_domains ≡ true
    use_expected : Expects expected_use use_name
    domain_expected : Expects expected_domain domain

  check_use-Allowed :
      (key : TrustKey) (use_name domain : String) (expected_use expected_domain : Option String)
      (done : Unit {0})
      → check_use key use_name domain expected_use expected_domain ≡ ok done
      → Allowed key use_name domain expected_use expected_domain
  unfolding check_use
  check_use-Allowed key use_name domain expected_use expected_domain done h0 =
      let (a, h1) = refuse_if-eq-ok (not (elem use_name key.intended_uses)) _ _ h0 in
      let (b, h2) = refuse_if-eq-ok (not (elem domain key.trust_domains)) _ _ h1 in
      let (c, h3) = refuse_if-eq-ok (differs expected_use use_name) _ _ h2 in
      let (d, h4) = refuse_if-eq-ok (differs expected_domain domain) _ _ h3 in
      record {
        use_allowed = not-true (elem use_name key.intended_uses) a;
        domain_allowed = not-true (elem domain key.trust_domains) b;
        use_expected = differs-Expects expected_use use_name c;
        domain_expected = differs-Expects expected_domain domain d;
      }

  record Current (envelope : Fields) (now : ℤ) : Type 0 where
    issued : ℤ
    expires : ℤ
    issued_at : time_at from_iso (find "issuedAt" envelope) ≡ ok issued
    expires_at : time_at from_iso (find "expiresAt" envelope) ≡ ok expires
    is_issued : ltb_ℤ now issued ≡ false
    not_expired : leb_ℤ expires now ≡ false

  check_times-Current :
      (envelope : Fields) (now : ℤ) (done : Unit {0})
      → check_times from_iso envelope now ≡ ok done
      → Current envelope now
  unfolding check_times
  check_times-Current envelope now done h0 =
      >>=-elim (time_at from_iso (find "issuedAt" envelope)) _ h0 (λ issued a h1.
        >>=-elim (time_at from_iso (find "expiresAt" envelope)) _ h1 (λ expires b h2.
          let (c, h3) = refuse_if-eq-ok (ltb_ℤ now issued) _ _ h2 in
          let (d, h4) = refuse_if-eq-ok (leb_ℤ expires now) _ _ h3 in
          record {
            issued = issued;
            expires = expires;
            issued_at = a;
            expires_at = b;
            is_issued = c;
            not_expired = d;
          }))

  verify_manifest-IsTrusted :
      (envelope : Fields) (keyring : ExternalKeyring) (now : ℤ)
      (expected_use expected_domain : Option String) (body : Fields)
      → verify_manifest library from_iso envelope keyring now expected_use expected_domain ≡ ok body
      → IsTrusted envelope keyring now expected_use expected_domain × (body ≡ signing_body envelope)
  unfolding verify_manifest resolve
  verify_manifest-IsTrusted envelope keyring now expected_use expected_domain body h0 =
      let (a, h1) = refuse_if-eq-ok (not (is_text "2.0.0" (get "schemaVersion" envelope))) _ _ h0 in
      >>=-elim (signature_text (get "signature" envelope)) _ h1 (λ digits b h2.
        >>=-elim (bytes_or (from_hex digits) "signature_malformed") _ h2 (λ signature c h3.
          >>=-elim (usable_key (lookup (text_or_empty (get "keyId" envelope)) keyring)) _ h3
            (λ key d h4.
              >>=-elim
                (check_use key (text_or_empty (get "intendedUse" envelope))
                  (text_or_empty (get "trustDomain" envelope)) expected_use expected_domain)
                _ h4
                (λ done e h5. >>=-elim (check_times from_iso envelope now) _ h5 (λ again f h6.
                  >>=-elim (canonical_json (obj (signing_body envelope))) _ h6 (λ message g h7.
                    let (v, h8) =
                      refuse_if-eq-ok (not (verify library key.public_key message signature)) _ _
                        h7 in
                    let allowed = check_use-Allowed key _ _ expected_use expected_domain done e in
                    let current = check_times-Current envelope now again f in
                    let (known, fresh) =
                      usable_key-ok (lookup (text_or_empty (get "keyId" envelope)) keyring) key d in
                    (
                      record {
                        key = key;
                        message = message;
                        digits = digits;
                        signature = signature;
                        admitted = record {
                          issued = current.issued;
                          expires = current.expires;
                          version = not-true (is_text "2.0.0" (get "schemaVersion" envelope)) a;
                          known = known;
                          not_revoked = fresh;
                          use_allowed = allowed.use_allowed;
                          domain_allowed = allowed.domain_allowed;
                          use_expected = allowed.use_expected;
                          domain_expected = allowed.domain_expected;
                          issued_at = current.issued_at;
                          expires_at = current.expires_at;
                          is_issued = current.is_issued;
                          not_expired = current.not_expired;
                        };
                        signed_with = signature_text-ok (get "signature" envelope) digits b;
                        decoded = bytes_or-ok (from_hex digits) _ signature c;
                        canonical = g;
                        valid = not-true (verify library key.public_key message signature) v;
                      },
                      sym (ok-injective _ body h8),
                    )))))))

  Expects-differs :
      (o : Option String) (actual : String) → Expects o actual → differs o actual ≡ false
  Expects-differs none actual h = refl
  Expects-differs (some expected) actual h = ground (arith, eq_iff actual expected)

  IsTrusted-verify_manifest :
      (envelope : Fields) (keyring : ExternalKeyring) (now : ℤ)
      (expected_use expected_domain : Option String)
      → IsTrusted envelope keyring now expected_use expected_domain
      → verify_manifest library from_iso envelope keyring now expected_use expected_domain
        ≡ ok (signing_body envelope)
  unfolding verify_manifest resolve check_use check_times
  IsTrusted-verify_manifest envelope keyring now expected_use expected_domain t =
      let a = t.admitted in
      rw
        (
          a.version,
          t.signed_with,
          t.decoded,
          a.known,
          a.not_revoked,
          a.use_allowed,
          a.domain_allowed,
          Expects-differs expected_use _ a.use_expected,
          Expects-differs expected_domain _ a.domain_expected,
          a.issued_at,
          a.expires_at,
          a.is_issued,
          a.not_expired,
          t.canonical,
          t.valid,
        )
        refl

  -- An envelope is verified exactly when it is trusted: its key is in the keyring, not revoked and
  -- meant for the envelope's use and domain, these are the ones the caller expects, the instant lies
  -- in the validity, and the signature is valid for the body. What is returned is the body.
  pub verify_manifest_complete :
      (envelope : Fields) (keyring : ExternalKeyring) (now : ℤ)
      (expected_use expected_domain : Option String) (body : Fields)
      → (verify_manifest library from_iso envelope keyring now expected_use expected_domain
          ≡ ok body)
        ↔ (IsTrusted envelope keyring now expected_use expected_domain
            × (body ≡ signing_body envelope))
  verify_manifest_complete envelope keyring now expected_use expected_domain body = (
    verify_manifest-IsTrusted envelope keyring now expected_use expected_domain body,
    λ (t, e).
        IsTrusted-verify_manifest envelope keyring now expected_use expected_domain t
        ∙ ap ok (sym e),
  )
