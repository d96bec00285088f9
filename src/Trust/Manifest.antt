-- ===== src/Trust/Manifest.antt =====
-- tool/signed_manifest_v2.py: `sign_manifest` and `verify_manifest`. A `ManifestVerificationError` is
-- held by its code. An instant is a number of microseconds in UTC.
pub mod Laws
pub mod Roundtrip
use kris_ai.Base.{
  ℕ, ℤ, leb_ℤ, ltb_ℤ, String, ◌==◌, Bool, true, false, not, Option, none, some, List, [], ◌∷◌, elem,
  is_empty, filter, replace_char, if◌then◌else◌,
}
use kris_ai.Base.Outcome.{Outcome, ok, raise, ◌>>=◌, ◌>>◌, refuse_if}
use kris_ai.Base.Dict.{Dict, lookup}
use kris_ai.Base.Json.{Json, null, bool, int, real, str, arr, obj, Fields, end, field}
use kris_ai.Base.Json.Access.{find, get, is_text, truthy, py_str}
use kris_ai.Base.Json.Update.{set_key, remove_key}
use kris_ai.Trust.Bytes.{hex, from_hex}
use kris_ai.Trust.Ed25519.{Ed25519, sign, verify}
use kris_ai.Trust.Canonical.{canonical_json}

pub record TrustKey : Type 0 where
  pub public_key : List ℕ
  pub intended_uses : List String
  pub trust_domains : List String
  pub revoked : Bool

-- The keys of an `ExternalKeyring`, by their identifiers.
abbrev pub ExternalKeyring : Type 0
ExternalKeyring = Dict TrustKey

abbrev pub usable_key : Option TrustKey → Outcome TrustKey
usable_key none = raise "unknown_key"
usable_key (some key) = if key.revoked then raise "key_revoked" else ok key

-- `ExternalKeyring.resolve`
unfoldable pub resolve : ExternalKeyring → String → Outcome TrustKey
unfolding lookup
resolve keyring key_id = usable_key (lookup key_id keyring)

-- `signing_body`
unfoldable pub signing_body : Fields → Fields
unfolding remove_key
signing_body envelope = remove_key "signature" envelope

abbrev pub required_fields : List String
required_fields =
    "schemaVersion" ∷ "keyId" ∷ "intendedUse" ∷ "trustDomain" ∷ "issuedAt" ∷ "expiresAt" ∷ "payload"
    ∷ []

-- `key not in d`
unfoldable pub lacks : Fields → String → Bool
unfolding find
lacks d key = elim (find key d) [ none ↦ true | some _ ↦ false ]

-- `str(value or "")`
unfoldable pub text_or_empty : Json → String
unfolding truthy py_str
text_or_empty value = if truthy value then py_str value else ""

-- `expected is not None and actual != expected`
abbrev pub differs : Option String → String → Bool
differs none actual = false
differs (some expected) actual = not (actual == expected)

-- The text of the signature.
abbrev pub signature_text : Json → Outcome String
signature_text (str s) = ok s
signature_text _ = raise "signature_missing"

abbrev pub bytes_or : Option (List ℕ) → String → Outcome (List ℕ)
bytes_or none code = raise code
bytes_or (some bytes) code = ok bytes

abbrev pub time_or : Option ℤ → Outcome ℤ
time_or none = raise "invalid_time"
time_or (some t) = ok t

-- The tests on the use and the domain, of the key and of the caller.
unfoldable pub check_use :
    TrustKey → String → String → Option String → Option String → Outcome (Unit {0})
unfolding elem
check_use key use_name domain expected_use expected_domain = do
  refuse_if (not (elem use_name key.intended_uses)) "intended_use_denied"
  refuse_if (not (elem domain key.trust_domains)) "trust_domain_denied"
  refuse_if (differs expected_use use_name) "wrong_intended_use"
  refuse_if (differs expected_domain domain) "wrong_trust_domain"
  ok tt

-- The parameter reads an ISO 8601 text as an instant, and answers nothing where
-- `datetime.fromisoformat` raises `ValueError`.
module _ (from_iso : String → Option ℤ) where
  -- The instant of a timestamp, if it is there.
  unfoldable pub time_at : Option Json → Outcome ℤ
  unfolding py_str replace_char
  time_at none = raise "invalid_time"
  time_at (some value) = time_or (from_iso (replace_char b'Z' "+00:00" (py_str value)))

  unfoldable pub check_times : Fields → ℤ → Outcome (Unit {0})
  unfolding time_at find
  check_times envelope now = do
    issued ← time_at (find "issuedAt" envelope)
    expires ← time_at (find "expiresAt" envelope)
    refuse_if (ltb_ℤ now issued) "not_yet_valid"
    refuse_if (leb_ℤ expires now) "manifest_expired"
    ok tt

module _ (library : Ed25519) where
  unfoldable pub sign_manifest : Fields → List ℕ → Outcome Fields
  unfolding filter lacks canonical_json sign hex set_key get
  sign_manifest body seed = do
    refuse_if (not (is_empty (filter (lacks body) required_fields))) "missing_field"
    refuse_if (not (is_text "2.0.0" (get "schemaVersion" body))) "unsupported_version"
    message ← canonical_json (obj body)
    signature ← sign library seed message
    ok (set_key "signature" (str (hex signature)) body)

  unfoldable pub verify_manifest :
      (String → Option ℤ)
      → Fields
      → ExternalKeyring
      → ℤ
      → Option String
      → Option String
      → Outcome Fields
  unfolding from_hex resolve check_use check_times signing_body canonical_json verify text_or_empty
      get
  verify_manifest from_iso envelope keyring now expected_use expected_domain = do
    refuse_if (not (is_text "2.0.0" (get "schemaVersion" envelope))) "unsupported_version"
    signature_hex ← signature_text (get "signature" envelope)
    signature ← bytes_or (from_hex signature_hex) "signature_malformed"
    key ← resolve keyring (text_or_empty (get "keyId" envelope))
    allowed ←
        check_use key (text_or_empty (get "intendedUse" envelope))
          (text_or_empty (get "trustDomain" envelope)) expected_use expected_domain
    valid ← check_times from_iso envelope now
    message ← canonical_json (obj (signing_body envelope))
    refuse_if (not (verify library key.public_key message signature)) "signature_invalid"
    ok (signing_body envelope)
